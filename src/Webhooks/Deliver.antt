-- ===== src/Webhooks/Deliver.antt =====
-- sign/webhooks.py, the delivery of an event: `_deliver_sync` with its attempts and pauses, `emit`
-- and `deliver_now`. Pauses are counted in half seconds. What a receiver answers to an attempt is
-- the parameter `Receiver`; the body and its signature are what every attempt posts, and no
-- operation here reads them.
pub mod Tried
pub mod Attempts
pub mod Marks
use lifted_sign.Base.{
  ℕ, zero, suc, ◌+◌, ◌-◌, ◌*◌, ◌^◌, String, Bool, true, false, not, ◌&&◌, ◌||◌, Option, none, some,
  List, [], ◌∷◌, ◌++◌, map, ◌==◌, leb, ltb, length, if◌then◌else◌,
}
use lifted_sign.Base.Text.{clip, show, ◌+s◌}
use lifted_sign.Webhooks.Events.{Outcome, Refusal, known_events, listed}
use lifted_sign.Webhooks.Host.{Net, Parts, assert_public_host, host_or_blank}
use lifted_sign.Webhooks.Tables.{
  Subscription, Hooks, record_delivery, mark_result, matching_subscriptions,
}

-- A status code, an `httpx.HTTPError`, or another exception, each of these two with its text.
pub data Response : Type 0 where
  answer : ℕ → Response
  http_error crash : String → Response

pub record Receiver : Type 0 where
  pub post : ℕ → Response
  pub elapsed_ms : ℕ → ℕ

-- The result dict of a delivery.
pub record Delivered : Type 0 where
  pub webhook_id : ℕ
  pub ok : Bool
  pub status_code : Option ℕ
  pub attempts : ℕ
  pub error : String

-- A delivery that is under way.
pub record Run : Type 0 where
  pub result : Delivered
  pub last_status : Option ℕ
  pub pauses : List ℕ
  pub hooks : Hooks

abbrev pub is_2xx : ℕ → Bool
is_2xx c = leb 200 c && ltb c 300

-- `min(_BACKOFF_BASE * 2 ** (attempt - 1), _BACKOFF_CAP)`, in half seconds, of an attempt up to 1025:
-- beyond, the power is too large for a float.
abbrev pub backoff : ℕ → ℕ
backoff n = if leb (2 ^ (n - 1)) 16 then 2 ^ (n - 1) else 16

abbrev pub pause_before_next : ℕ → ℕ → Run → Run
pause_before_next attempts n run =
    if ltb n attempts then record run { pauses = run.pauses ++ backoff n ∷ [] } else run

abbrev pub stopped_ok : ℕ → Subscription → ℕ → Run → Run
stopped_ok now sub code run = record run {
  result = record run.result { ok = true; status_code = some code; error = "" };
  hooks = mark_result now sub.id true (some code) run.hooks;
}

abbrev pub stopped_crash : ℕ → Subscription → String → Run → Run
stopped_crash now sub text run = record run {
  result = record run.result { error = clip 300 text };
  hooks = mark_result now sub.id false run.result.status_code run.hooks;
}

abbrev pub refused_answer : ℕ → Run → Run
refused_answer code run = record run {
  result = record run.result { status_code = some code; error = "HTTP " +s show code };
  last_status = some code;
}

abbrev pub logged : Receiver → ℕ → Subscription → String → ℕ → Option ℕ → Bool → String → Run → Run
logged r now sub event n status ok error run = record run {
  hooks = record_delivery now sub.id event status ok n (r.elapsed_ms n) error run.hooks;
}

-- What follows an attempt: the delivery is over, or the loop goes on.
pub data Next : Type 0 where
  stop again : Run → Next

unfoldable pub after_post : Receiver → ℕ → Subscription → String → ℕ → Response → Run → Next
unfolding record_delivery mark_result
after_post r now sub event n (Response.answer code) run =
    if is_2xx code
    then Next.stop (stopped_ok now sub code (logged r now sub event n (some code) true "" run))
    else Next.again (
        refused_answer code (logged r now sub event n (some code) false ("HTTP " +s show code) run))
after_post r now sub event n (Response.http_error text) run = Next.again (
    logged r now sub event n none false (clip 300 text)
      (record run { result = record run.result { error = clip 300 text } }))
after_post r now sub event n (Response.crash text) run = Next.stop (stopped_crash now sub text run)

abbrev pub begin_attempt : ℕ → Run → Run
begin_attempt n run = record run { result = record run.result { attempts = n } }

abbrev pub go_on : Next → (Run → Run) → Run
go_on (Next.stop run) k = run
go_on (Next.again run) k = k run

-- `for attempt in range(n, n + left)`, then the failure of the delivery.
unfoldable pub attempt_from :
    Receiver → ℕ → Subscription → String → (attempts left n : ℕ) → Run → Run
unfolding after_post mark_result
attempt_from r now sub event attempts zero n run = record run {
  hooks = mark_result now sub.id false run.last_status run.hooks;
}
attempt_from r now sub event attempts (suc left) n run =
    go_on (after_post r now sub event n (r.post n) (begin_attempt n run)) (λ next.
      attempt_from r now sub event attempts left (suc n) (pause_before_next attempts n next))

abbrev pub at_least_one : ℕ → ℕ
at_least_one zero = 1
at_least_one (suc n) = suc n

abbrev pub untried : Subscription → Hooks → Run
untried sub h = record {
  result = record { webhook_id = sub.id; ok = false; status_code = none; attempts = 0; error = "" };
  last_status = none;
  pauses = [];
  hooks = h;
}

-- The receiver's address, checked again before the first attempt.
abbrev pub check_receiver : Net → Option Parts → Outcome (Unit {0})
check_receiver net none = Outcome.refused Refusal.bad_url
check_receiver net (some p) = assert_public_host net (host_or_blank p.hostname)

-- The text of the ValueError, less the host's name and what `urlsplit` says.
abbrev pub refusal_text : Refusal → String
refusal_text Refusal.unresolved = "ValueError: webhook host does not resolve"
refusal_text Refusal.not_public = "ValueError: webhook url resolves to a non-public address"
refusal_text _ = "ValueError"

abbrev pub if_public : Outcome (Unit {0}) → (Refusal → Run) → Run → Run
if_public (Outcome.refused e) refuse run = refuse e
if_public (Outcome.given _) refuse run = run

unfoldable pub deliver_sync :
    Net → Receiver → ℕ → Subscription → String → (attempts : ℕ) → Hooks → Run
unfolding assert_public_host attempt_from mark_result
deliver_sync net r now sub event attempts h =
    if_public (check_receiver net (net.urlsplit sub.url))
      (λ e. stopped_crash now sub (refusal_text e) (untried sub h))
      (attempt_from r now sub event attempts (at_least_one attempts) 1 (untried sub h))

-- One delivery after the other, to the receiver of each subscription.
unfoldable pub deliver_all :
    Net
    → (Subscription → Receiver)
    → ℕ
    → List Subscription
    → String
    → ℕ
    → Hooks
    → List Delivered × Hooks
unfolding deliver_sync
deliver_all net r now [] event attempts h = ([], h)
deliver_all net r now (sub ∷ rest) event attempts h =
    let run = deliver_sync net (r sub) now sub event attempts h in
    let (results, h') = deliver_all net r now rest event attempts run.hooks in
    (run.result ∷ results, h')

-- The subscriptions that an event of an owner goes to.
unfoldable pub scheduled : String → ℕ → Hooks → List Subscription
unfolding matching_subscriptions
scheduled event owner h =
    if (owner == 0) || not (listed event known_events)
    then []
    else matching_subscriptions owner event h

-- `emit`: how many deliveries were started, each in a thread of its own. NULL is no owner.
unfoldable pub emit : String → Option ℕ → Hooks → ℕ
unfolding scheduled
emit event none h = 0
emit event (some owner) h = length (scheduled event owner h)

unfoldable pub deliver_now :
    Net → (Subscription → Receiver) → ℕ → String → ℕ → ℕ → Hooks → List Delivered × Hooks
unfolding deliver_all scheduled
deliver_now net r now event owner attempts h =
    deliver_all net r now (scheduled event owner h) event attempts h
