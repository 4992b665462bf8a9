-- ===== src/Limits/Window.antt =====
-- The limiters' promises: when a key is locked, and how many requests a window admits.
use lifted_sign.Base.{
  ℕ, ◌+◌, ◌-◌, ◌≤◌, ◌<◌, String, true, false, ◌&&◌, Option, none, some, List, [], ◌∷◌, ◌≡◌, refl,
  ap, ◌∙◌, arith, ltb, leb, if◌then◌else◌, find, length, Bool-cases, inl, inr, All,
}
use lifted_sign.Base.Text.{eq_refl}
use lifted_sign.Limits.{
  count_request, Attempts, has_key, put_attempts, locked_row, auth_limit_locked, count_failure,
  lock_row, lock_if_due, auth_limit_record, Rate, has_rate_key, put_rate, auth_rate_allowed,
}

find-put_attempts :
    (new : Attempts) (rows : List Attempts)
    → find (has_key new.key) (put_attempts new rows) ≡ some new
unfolding find put_attempts
find-put_attempts new [] = rw (eq_refl new.key) refl
find-put_attempts new (r ∷ rest) = elim (Bool-cases (has_key new.key r)) [
  | inl e ↦ rw (e, eq_refl new.key) refl
  | inr e ↦ rw (put_attempts, e, find, e) (find-put_attempts new rest)
]

find-put_rate :
    (new : Rate) (rows : List Rate) → find (has_rate_key new.key) (put_rate new rows) ≡ some new
unfolding find put_rate
find-put_rate new [] = rw (eq_refl new.key) refl
find-put_rate new (r ∷ rest) = elim (Bool-cases (has_rate_key new.key r)) [
  | inl e ↦ rw (e, eq_refl new.key) refl
  | inr e ↦ rw (put_rate, e, find, e) (find-put_rate new rest)
]

-- The failures counted so far for a key.
abbrev pub fails_of : Option Attempts → ℕ
fails_of none = 0
fails_of (some r) = r.fails

locked-lock_if_due :
    (now t limit lock : ℕ) (r : Attempts) (rows : List Attempts)
    → find (has_key r.key) rows ≡ some r
    → ltb now r.lock_until ≡ false
    → r.lock_until ≡ 0
    → locked_row t (find (has_key r.key) (lock_if_due now limit lock r rows))
      ≡ (leb limit r.fails && ltb t (now + lock))
locked-lock_if_due now t limit lock r rows found unlocked zero_lock =
    elim (Bool-cases (leb limit r.fails)) [
      | inl e ↦ rw (unlocked, e, find-put_attempts (lock_row now lock r) rows) refl
      | inr e ↦ rw (unlocked, e, found, zero_lock) (ground arith)
    ]

-- A failed attempt of a key that is not locked locks it exactly if it is the failure that reaches
-- the limit, and then for exactly the given seconds.
pub auth_limit_record-locks :
    (now t limit lock : ℕ) (key : String) (rows : List Attempts)
    → auth_limit_locked now key rows ≡ false
    → auth_limit_locked t key (auth_limit_record now key false limit lock rows)
      ≡ (leb limit (fails_of (find (has_key key) rows) + 1) && ltb t (now + lock))
unfolding auth_limit_locked auth_limit_record
auth_limit_record-locks now t limit lock key rows = go (find (has_key key) rows)
  where
    go :
        (o : Option Attempts)
        → locked_row now o ≡ false
        → locked_row t (
            find (has_key key) (
              lock_if_due now limit lock
                (count_failure now key o)
                (put_attempts (count_failure now key o) rows)))
          ≡ (leb limit (fails_of o + 1) && ltb t (now + lock))
    go none h =
        locked-lock_if_due now t limit lock (record { key = key; fails = 1; lock_until = 0 }) _
          (find-put_attempts (record { key = key; fails = 1; lock_until = 0 }) rows) (ground arith)
          refl
    go (some r) h = rw h (
        locked-lock_if_due now t limit lock
          (record { key = key; fails = r.fails + 1; lock_until = 0 }) _
          (find-put_attempts (record { key = key; fails = r.fails + 1; lock_until = 0 }) rows)
          (ground arith) refl)

kept-lock_if_due :
    (now limit lock : ℕ) (r : Attempts) (rows : List Attempts)
    → ltb now r.lock_until ≡ true
    → lock_if_due now limit lock r rows ≡ rows
kept-lock_if_due now limit lock r rows h = rw h refl

-- A failed attempt of a key that is locked neither lengthens nor shortens the lock.
pub auth_limit_record-keeps :
    (now t limit lock : ℕ) (key : String) (rows : List Attempts)
    → auth_limit_locked now key rows ≡ true
    → auth_limit_locked t key (auth_limit_record now key false limit lock rows)
      ≡ auth_limit_locked t key rows
unfolding auth_limit_locked auth_limit_record
auth_limit_record-keeps now t limit lock key rows = go (find (has_key key) rows)
  where
    go :
        (o : Option Attempts)
        → locked_row now o ≡ true
        → locked_row t (
            find (has_key key) (
              lock_if_due now limit lock
                (count_failure now key o)
                (put_attempts (count_failure now key o) rows)))
          ≡ locked_row t o
    go none h = absurd (cc h)
    go (some r) h =
        let kept : Attempts = record { key = key; fails = r.fails; lock_until = r.lock_until } in
        rw h (
          ap (λ l. locked_row t (find (has_key key) l))
            (kept-lock_if_due now limit lock kept (put_attempts kept rows) h)
          ∙ ap (locked_row t) (find-put_attempts kept rows))

-- The requests of a key at these times: how many are allowed.
unfoldable pub allowed : String → (limit window : ℕ) → List ℕ → List Rate → ℕ
unfolding auth_rate_allowed
allowed key limit window [] rows = 0
allowed key limit window (t ∷ later) rows =
    let (ok, rows') = auth_rate_allowed t key limit window rows in
    (if ok then 1 else 0) + allowed key limit window later rows'

-- The smaller of two counts.
abbrev pub at_most : ℕ → ℕ → ℕ
at_most limit n = if leb limit n then limit else n

allowed-within :
    (key : String) (limit window start : ℕ) (times : List ℕ) (r : Rate) (rows : List Rate)
    → find (has_rate_key key) rows ≡ some r
    → r.window_start ≡ start
    → All (λ t. t < start + window) times
    → allowed key limit window times rows ≡ at_most (limit - r.count) (length times)
unfolding allowed auth_rate_allowed
allowed-within key limit window start [] r rows found same within = ground arith
allowed-within key limit window start (t ∷ later) r rows found same within =
    let inside : leb (r.window_start + window) t ≡ false = rw same (ground (arith, within.0)) in
    rw (found, inside)
      (let next =
          allowed-within key limit window start later
            (record { key = key; count = r.count + 1; window_start = r.window_start }) _
            (find-put_rate
              (record { key = key; count = r.count + 1; window_start = r.window_start }) rows)
            same within.1 in
        ground (arith, next))

count_request-opens :
    (start window : ℕ) (key : String) (o : Option Rate)
    → ((r : Rate) → o ≡ some r → r.window_start + window ≤ start)
    → count_request start key window o ≡ record { key = key; count = 1; window_start = start }
count_request-opens start window key none over = refl
count_request-opens start window key (some r) over =
    let ended : leb (r.window_start + window) start ≡ true = ground (arith, over r refl) in
    rw ended refl

-- A request of a key that has no window, or whose last window is over, opens a new window: of it
-- and of any requests after it that come before the end of that window, all are allowed if they are
-- no more than the limit, and otherwise exactly as many as the limit.
pub allowed-eq-at_most :
    (key : String) (limit window start : ℕ) (times : List ℕ) (rows : List Rate)
    → ((r : Rate) → find (has_rate_key key) rows ≡ some r → r.window_start + window ≤ start)
    → All (λ t. t < start + window) times
    → allowed key limit window (start ∷ times) rows ≡ at_most limit (length (start ∷ times))
unfolding allowed auth_rate_allowed
allowed-eq-at_most key limit window start times rows over within =
    rw (count_request-opens start window key (find (has_rate_key key) rows) over) (
      let next =
        allowed-within key limit window start times
          (record { key = key; count = 1; window_start = start }) _
          (find-put_rate (record { key = key; count = 1; window_start = start }) rows) refl
          within in
      ground (arith, next))
