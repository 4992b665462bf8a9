-- ===== src/Webhooks/Tables.antt =====
-- sign/webhooks.py, its two tables and the owner-scoped operations on them: `create_webhook`,
-- `list_webhooks`, `get_webhook_owned`, `delete_webhook`, `rotate_secret`, `recent_deliveries`,
-- `_matching_subscriptions`, `_record_delivery` and `_mark_result`.
use lifted_sign.Base.{
  ℕ, zero, suc, ◌+◌, String, Bool, true, false, ◌&&◌, Option, none, some, List, [], ◌∷◌, ◌++◌, map,
  ◌==◌, leb, ltb, coalesce, if◌then◌else◌, find, select, update_where, delete_where, count_where,
  sort_by,
}
use lifted_sign.Base.Int.{ℤ, pos, negsuc}
use lifted_sign.Base.Text.{clip, or_text}
use lifted_sign.Webhooks.Events.{Outcome, Selector, normalize_events, events_out, matches}
use lifted_sign.Webhooks.Host.{Net, validate_url}

-- A row of `sign_webhooks`.
pub record Subscription : Type 0 where
  pub id : ℕ
  pub owner_account_id : ℕ
  pub url : String
  pub secret : String
  pub events : String
  pub active : Bool
  pub created_at : Option ℕ
  pub last_status : Option ℕ
  pub last_delivery_at : Option ℕ
  pub failure_count : ℕ

-- A row of `sign_webhook_deliveries`.
pub record Delivery : Type 0 where
  pub id : ℕ
  pub webhook_id : ℕ
  pub event : String
  pub status_code : Option ℕ
  pub ok : Bool
  pub attempt : ℕ
  pub created_at : ℕ
  pub response_ms : ℕ
  pub error : String

pub record Hooks : Type 0 where
  pub subscriptions : List Subscription
  pub deliveries : List Delivery
  pub next_webhook : ℕ
  pub next_delivery : ℕ

-- `_public`
pub record Public : Type 0 where
  pub id : ℕ
  pub url : String
  pub secret : String
  pub events : List String
  pub active : Bool
  pub created_at : Option ℕ
  pub last_status : Option ℕ
  pub last_delivery_at : Option ℕ
  pub failure_count : ℕ

unfoldable pub public_row : Subscription → Public
unfolding events_out
public_row s = record {
  id = s.id;
  url = s.url;
  secret = s.secret;
  events = events_out (or_text s.events "all");
  active = s.active;
  created_at = s.created_at;
  last_status = s.last_status;
  last_delivery_at = s.last_delivery_at;
  failure_count = s.failure_count;
}

abbrev pub insert_webhook : ℕ → String → ℕ → String → String → Hooks → Public × Hooks
insert_webhook now secret owner url events h =
    let row : Subscription = record {
      id = h.next_webhook;
      owner_account_id = owner;
      url = url;
      secret = secret;
      events = events;
      active = true;
      created_at = some now;
      last_status = none;
      last_delivery_at = none;
      failure_count = 0;
    } in
    (
      public_row row,
      record h { subscriptions = h.subscriptions ++ row ∷ []; next_webhook = h.next_webhook + 1 },
    )

abbrev pub created : Hooks → Outcome (Public × Hooks) → Outcome Public × Hooks
created h (Outcome.refused r) = (Outcome.refused r, h)
created h (Outcome.given (p, h')) = (Outcome.given p, h')

abbrev pub both : {A B C : Type 0} → Outcome A → Outcome B → (A → B → C) → Outcome C
both (Outcome.refused r) n k = Outcome.refused r
both (Outcome.given a) (Outcome.refused r) k = Outcome.refused r
both (Outcome.given a) (Outcome.given b) k = Outcome.given (k a b)

unfoldable pub create_webhook :
    Net → ℕ → String → ℕ → String → Selector → Hooks → Outcome Public × Hooks
unfolding validate_url normalize_events
create_webhook net now secret owner url sel h = created h (
    both (validate_url net url) (normalize_events sel)
      (λ u ev. insert_webhook now secret owner u ev h))

abbrev pub owned_hook : ℕ → Subscription → Bool
owned_hook owner s = s.owner_account_id == owner

-- `id=? AND owner_account_id=?`
abbrev pub is_hook : ℕ → ℕ → Subscription → Bool
is_hook owner wid s = (s.id == wid) && (s.owner_account_id == owner)

abbrev pub shown_row : Option Subscription → Option Public
shown_row none = none
shown_row (some s) = some (public_row s)

abbrev pub backwards {ℓ} : {A : Type ℓ} → List A → List A
backwards [] = []
backwards (x ∷ l) = backwards l ++ x ∷ []

-- `ORDER BY created_at DESC, id DESC`, of a table in the order of its ids.
unfoldable pub list_webhooks : ℕ → Hooks → List Public
list_webhooks owner h =
    map public_row (
      backwards
        (sort_by (λ s. coalesce s.created_at 0) (select (owned_hook owner) h.subscriptions)))

unfoldable pub get_webhook_owned : ℕ → ℕ → Hooks → Option Public
get_webhook_owned owner wid h = shown_row (find (is_hook owner wid) h.subscriptions)

unfoldable pub delete_webhook : ℕ → ℕ → Hooks → Bool × Hooks
delete_webhook owner wid h = (
  ltb 0 (count_where (is_hook owner wid) h.subscriptions),
  record h { subscriptions = delete_where (is_hook owner wid) h.subscriptions },
)

abbrev pub new_secret : String → Subscription → Subscription
new_secret secret s = record s { secret = secret }

unfoldable pub rotate_secret : String → ℕ → ℕ → Hooks → Option Public × Hooks
rotate_secret secret owner wid h =
    let rows = update_where (is_hook owner wid) (new_secret secret) h.subscriptions in
    (
      if count_where (is_hook owner wid) h.subscriptions == 0
          then none
          else shown_row (find (is_hook owner wid) rows),
      record h { subscriptions = rows },
    )

-- `max(1, min(int(limit), 200))`
abbrev pub clamp_limit : ℤ → ℕ
clamp_limit (negsuc n) = 1
clamp_limit (pos n) = if leb n 1 then 1 else if leb n 200 then n else 200

abbrev pub take {ℓ} : {A : Type ℓ} → ℕ → List A → List A
take zero l = []
take (suc n) [] = []
take (suc n) (x ∷ l) = x ∷ take n l

abbrev pub of_hook : ℕ → Delivery → Bool
of_hook wid d = d.webhook_id == wid

unfoldable pub recent_deliveries : ℕ → ℕ → ℤ → Hooks → Option (List Delivery)
unfolding get_webhook_owned
recent_deliveries owner wid limit h = elim (get_webhook_owned owner wid h) [
  | none ↦ none
  | some _ ↦ some (take (clamp_limit limit) (backwards (select (of_hook wid) h.deliveries)))
]

abbrev pub wants : ℕ → String → Subscription → Bool
wants owner event s =
    (s.owner_account_id == owner) && (s.active && matches (or_text s.events "all") event)

unfoldable pub matching_subscriptions : ℕ → String → Hooks → List Subscription
unfolding matches
matching_subscriptions owner event h = select (wants owner event) h.subscriptions

unfoldable pub record_delivery : ℕ → ℕ → String → Option ℕ → Bool → ℕ → ℕ → String → Hooks → Hooks
record_delivery now wid event status ok attempt ms error h = record h {
  deliveries =
      h.deliveries
      ++ record {
        id = h.next_delivery;
        webhook_id = wid;
        event = event;
        status_code = status;
        ok = ok;
        attempt = attempt;
        created_at = now;
        response_ms = ms;
        error = clip 500 error;
      }
        ∷ [];
  next_delivery = h.next_delivery + 1;
}

-- `_DISABLE_AFTER`
abbrev pub disable_after : ℕ
disable_after = 15

abbrev pub has_hook_id : ℕ → Subscription → Bool
has_hook_id wid s = s.id == wid

abbrev pub succeeded : ℕ → Option ℕ → Subscription → Subscription
succeeded now status s = record s {
  last_status = status;
  last_delivery_at = some now;
  failure_count = 0;
}

abbrev pub failed : ℕ → Option ℕ → Subscription → Subscription
failed now status s = record s {
  last_status = status;
  last_delivery_at = some now;
  failure_count = s.failure_count + 1;
}

abbrev pub disabled : Subscription → Subscription
disabled s = record s { active = false }

-- `RETURNING failure_count`, 0 without a row.
abbrev pub fails_of : Option Subscription → ℕ
fails_of none = 0
fails_of (some s) = s.failure_count

unfoldable pub mark_result : ℕ → ℕ → Bool → Option ℕ → Hooks → Hooks
mark_result now wid true status h = record h {
  subscriptions = update_where (has_hook_id wid) (succeeded now status) h.subscriptions;
}
mark_result now wid false status h =
    let rows = update_where (has_hook_id wid) (failed now status) h.subscriptions in
    record h {
      subscriptions =
          if leb disable_after (fails_of (find (has_hook_id wid) rows))
          then update_where (has_hook_id wid) disabled rows
          else rows;
    }
