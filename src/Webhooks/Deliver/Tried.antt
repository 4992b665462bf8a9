-- ===== src/Webhooks/Deliver/Tried.antt =====
-- One attempt of `_deliver_sync` in sign/webhooks.py against the answer that the receiver gives.
use lifted_sign.Base.{
  ℕ, String, Bool, true, false, not, Option, some, List, [], ◌∷◌, ◌++◌, map, ◌≡◌, refl, sym, ◌∙◌,
  ◌⊎◌, inl, inr, Bool-cases, if◌then◌else◌,
}
use lifted_sign.Base.Text.{show, ◌+s◌}
use lifted_sign.Pdf.{range_from}
use lifted_sign.Webhooks.Tables.{Subscription, Delivery, Hooks, record_delivery, mark_result}
use lifted_sign.Webhooks.Deliver.{
  Response, Receiver, Run, Next, is_2xx, begin_attempt, after_post, stopped_ok, refused_answer,
  logged,
}

abbrev pub is_ok : Response → Bool
is_ok (Response.answer c) = is_2xx c
is_ok _ = false

abbrev pub is_crash : Response → Bool
is_crash (Response.crash _) = true
is_crash _ = false

-- An answer after which the loop goes on, if an attempt is left.
abbrev pub is_failure : Response → Bool
is_failure (Response.answer c) = not (is_2xx c)
is_failure (Response.http_error _) = true
is_failure (Response.crash _) = false

-- The numbers of the attempts in the delivery log.
abbrev pub numbers : Hooks → List ℕ
numbers h = map (λ d. d.attempt) h.deliveries

map-append : (f : Delivery → ℕ) (l m : List Delivery) → map f (l ++ m) ≡ map f l ++ map f m
map-append f [] m = refl
map-append f (x ∷ l) m = rw (map-append f l m) refl

pub mark_result-numbers :
    (now wid : ℕ) (ok : Bool) (status : Option ℕ) (h : Hooks)
    → numbers (mark_result now wid ok status h) ≡ numbers h
unfolding mark_result
mark_result-numbers now wid true status h = refl
mark_result-numbers now wid false status h = refl

-- What an attempt leaves: its number, its answer in `ok`, its row in the log.
pub record Tried (n : ℕ) (resp : Response) (run out : Run) : Type 0 where
  pub attempts : out.result.attempts ≡ n
  pub ok : out.result.ok ≡ is_ok resp
  pub log : numbers out.hooks ≡ numbers run.hooks ++ range_from n (if is_crash resp then 0 else 1)
  pub pauses : out.pauses ≡ run.pauses

pub append-nil : (l : List ℕ) → l ++ [] ≡ l
append-nil [] = refl
append-nil (x ∷ l) = rw (append-nil l) refl

pub tried :
    (r : Receiver) (now : ℕ) (sub : Subscription) (event : String) (n : ℕ) (resp : Response)
    (run : Run)
    → run.result.ok ≡ false
    → ((next : Run) × (after_post r now sub event n resp (begin_attempt n run) ≡ Next.again next)
        × (is_failure resp ≡ true)
        × Tried n resp run next)
      ⊎ ((out : Run) × (after_post r now sub event n resp (begin_attempt n run) ≡ Next.stop out)
          × (is_failure resp ≡ false)
          × Tried n resp run out)
unfolding after_post record_delivery mark_result range_from
tried r now sub event n (Response.answer c) run h = elim (Bool-cases (is_2xx c)) [
  | inl e ↦ inr (
    stopped_ok now sub c (logged r now sub event n (some c) true "" (begin_attempt n run)),
    rw e refl,
    rw e refl,
    record {
      attempts = refl;
      ok = sym e;
      log = map-append (λ d. d.attempt) run.hooks.deliveries _;
      pauses = refl;
    },
  )
  | inr e ↦ inl (
    refused_answer c
        (logged r now sub event n (some c) false ("HTTP " +s show c) (begin_attempt n run)),
    rw e refl,
    rw e refl,
    record {
      attempts = refl;
      ok = h ∙ sym e;
      log = map-append (λ d. d.attempt) run.hooks.deliveries _;
      pauses = refl;
    },
  )
]
tried r now sub event n (Response.http_error t) run h = inl (
  _,
  refl,
  refl,
  record {
    attempts = refl;
    ok = h;
    log = map-append (λ d. d.attempt) run.hooks.deliveries _;
    pauses = refl;
  },
)
tried r now sub event n (Response.crash t) run h = inr (
  _,
  refl,
  refl,
  record { attempts = refl; ok = h; log = sym (append-nil (numbers run.hooks)); pauses = refl },
)
