-- ===== src/Limits.antt =====
-- sign/db.py, the attempt limiters that the workers share: `auth_limit_locked`,
-- `auth_limit_record` and `auth_rate_allowed`. Each runs under one write transaction, so a call is
-- one step on its table.
pub mod Window
use lifted_sign.Base.{
  ℕ, ◌+◌, ◌-◌, String, Bool, true, false, Option, none, some, List, [], ◌∷◌, ltb, leb,
  if◌then◌else◌, find, delete_where,
}
use lifted_sign.Base.Text.{str_eq}

-- A row of `auth_limits`.
pub record Attempts : Type 0 where
  pub key : String
  pub fails : ℕ
  pub lock_until : ℕ

abbrev pub has_key : String → Attempts → Bool
has_key k r = str_eq r.key k

-- The row of a key is replaced, or a first one is added.
unfoldable pub put_attempts : Attempts → List Attempts → List Attempts
put_attempts new [] = new ∷ []
put_attempts new (r ∷ rest) = if has_key new.key r then new ∷ rest else r ∷ put_attempts new rest

abbrev pub locked_row : ℕ → Option Attempts → Bool
locked_row now none = false
locked_row now (some r) = ltb now r.lock_until

unfoldable pub auth_limit_locked : ℕ → String → List Attempts → Bool
auth_limit_locked now key rows = locked_row now (find (has_key key) rows)

-- The upsert of a failed attempt: a locked row is left as it is.
abbrev pub count_failure : ℕ → String → Option Attempts → Attempts
count_failure now key none = record { key = key; fails = 1; lock_until = 0 }
count_failure now key (some r) =
    if ltb now r.lock_until
    then record { key = key; fails = r.fails; lock_until = r.lock_until }
    else record { key = key; fails = r.fails + 1; lock_until = 0 }

abbrev pub lock_row : ℕ → ℕ → Attempts → Attempts
lock_row now lock_seconds r = record { key = r.key; fails = 0; lock_until = now + lock_seconds }

-- What follows the upsert of the row `r`.
abbrev pub lock_if_due : ℕ → ℕ → ℕ → Attempts → List Attempts → List Attempts
lock_if_due now fail_limit lock_seconds r rows =
    if ltb now r.lock_until
    then rows
    else if leb fail_limit r.fails
    then put_attempts (lock_row now lock_seconds r) rows
    else rows

unfoldable pub auth_limit_record :
    ℕ → String → (ok : Bool) (fail_limit lock_seconds : ℕ) → List Attempts → List Attempts
unfolding put_attempts
auth_limit_record now key true fail_limit lock_seconds rows = delete_where (has_key key) rows
auth_limit_record now key false fail_limit lock_seconds rows =
    let counted = count_failure now key (find (has_key key) rows) in
    lock_if_due now fail_limit lock_seconds counted (put_attempts counted rows)

-- A row of `auth_rate_limits`.
pub record Rate : Type 0 where
  pub key : String
  pub count : ℕ
  pub window_start : ℕ

abbrev pub has_rate_key : String → Rate → Bool
has_rate_key k r = str_eq r.key k

unfoldable pub put_rate : Rate → List Rate → List Rate
put_rate new [] = new ∷ []
put_rate new (r ∷ rest) = if has_rate_key new.key r then new ∷ rest else r ∷ put_rate new rest

-- The upsert: a window that is over starts again at 1. A clock that went back leaves the window
-- open, as the difference is then negative.
abbrev pub count_request : ℕ → String → ℕ → Option Rate → Rate
count_request now key window none = record { key = key; count = 1; window_start = now }
count_request now key window (some r) =
    if leb (r.window_start + window) now
    then record { key = key; count = 1; window_start = now }
    else record { key = key; count = r.count + 1; window_start = r.window_start }

unfoldable pub auth_rate_allowed :
    ℕ → String → (limit window_seconds : ℕ) → List Rate → Bool × List Rate
unfolding put_rate
auth_rate_allowed now key limit window_seconds rows =
    let row = count_request now key window_seconds (find (has_rate_key key) rows) in
    (leb row.count limit, put_rate row rows)
