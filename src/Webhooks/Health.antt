-- ===== src/Webhooks/Health.antt =====
-- The health counters of a subscription in sign/webhooks.py, `_mark_result`, over a history of
-- deliveries.
use lifted_sign.Base.Members.{find_holds}
use lifted_sign.Base.{
  ℕ, zero, suc, ◌+◌, ◌≤◌, Bool, true, false, not, ◌&&◌, ◌||◌, Option, some, List, [], ◌∷◌, map, ◌≡◌,
  refl, ap, ◌∙◌, arith, ◌==◌, leb, find, update_where, if◌then◌else◌,
}
use lifted_sign.Base.Keys.{find-update_where}
use lifted_sign.Webhooks.Tables.{
  Subscription, Hooks, has_hook_id, mark_result, succeeded, failed, disabled, disable_after,
  fails_of,
}

-- One completed delivery.
pub record Mark : Type 0 where
  pub now : ℕ
  pub ok : Bool
  pub status : Option ℕ

unfoldable pub mark_all : ℕ → List Mark → Hooks → Hooks
unfolding mark_result
mark_all wid [] h = h
mark_all wid (m ∷ l) h = mark_all wid l (mark_result m.now wid m.ok m.status h)

-- The first `k` deliveries of a history failed.
unfoldable pub starts_with_failures : ℕ → List Bool → Bool
starts_with_failures zero l = true
starts_with_failures (suc k) [] = false
starts_with_failures (suc k) (ok ∷ l) = not ok && starts_with_failures k l

-- Somewhere in the history, 15 deliveries in a row failed.
unfoldable pub failed_in_a_row : List Bool → Bool
unfolding starts_with_failures
failed_in_a_row [] = false
failed_in_a_row (ok ∷ l) = starts_with_failures 15 (ok ∷ l) || failed_in_a_row l

mark_row : Mark → Subscription → Subscription
mark_row m s =
    if m.ok
    then succeeded m.now m.status s
    else if leb 15 (s.failure_count + 1)
    then disabled (failed m.now m.status s)
    else failed m.now m.status s

mark_rows : List Mark → Subscription → Subscription
mark_rows [] s = s
mark_rows (m ∷ l) s = mark_rows l (mark_row m s)

hook_key : Subscription → ℕ
hook_key s = s.id

find_updated :
    (wid : ℕ) (f : Subscription → Subscription) (rows : List Subscription) (s : Subscription)
    → ((t : Subscription) → (f t).id ≡ t.id)
    → (s.id == wid) ≡ true
    → find (has_hook_id wid) rows ≡ some s
    → find (has_hook_id wid) (update_where (has_hook_id wid) f rows) ≡ some (f s)
unfolding hook_key
find_updated wid f rows s same here found =
    find-update_where hook_key wid (has_hook_id wid) f same rows s found ∙ rw here refl

mark_result-row :
    (wid : ℕ) (m : Mark) (h : Hooks) (s : Subscription)
    → (s.id == wid) ≡ true
    → find (has_hook_id wid) h.subscriptions ≡ some s
    → find (has_hook_id wid) (mark_result m.now wid m.ok m.status h).subscriptions
      ≡ some (mark_row m s)
unfolding mark_row mark_result
mark_result-row wid m h s here found = go m.ok
  where
    rows : List Subscription
    rows = update_where (has_hook_id wid) (failed m.now m.status) h.subscriptions

    counted : find (has_hook_id wid) rows ≡ some (failed m.now m.status s)
    counted = find_updated wid (failed m.now m.status) h.subscriptions s (λ t. refl) here found

    ended :
        (c : Bool)
        → find (has_hook_id wid) (if c then update_where (has_hook_id wid) disabled rows else rows)
          ≡ some (if c then disabled (failed m.now m.status s) else failed m.now m.status s)
    ended true = find_updated wid disabled rows (failed m.now m.status s) (λ t. refl) here counted
    ended false = counted

    go :
        (ok : Bool)
        → find (has_hook_id wid) (mark_result m.now wid ok m.status h).subscriptions
          ≡ some (
              if ok
              then succeeded m.now m.status s
              else if leb 15 (s.failure_count + 1)
              then disabled (failed m.now m.status s)
              else failed m.now m.status s)
    go true = find_updated wid (succeeded m.now m.status) h.subscriptions s (λ t. refl) here found
    go false =
        ap
          (λ o. find (has_hook_id wid) (
            if leb disable_after (fails_of o)
            then update_where (has_hook_id wid) disabled rows
            else rows))
          counted
        ∙ ended (leb 15 (s.failure_count + 1))

mark_row-id : (m : Mark) (s : Subscription) → (mark_row m s).id ≡ s.id
unfolding mark_row
mark_row-id m s = go m.ok (leb 15 (s.failure_count + 1))
  where
    go :
        (a b : Bool)
        → (if a
            then succeeded m.now m.status s
            else if b
            then disabled (failed m.now m.status s)
            else failed m.now m.status s).id
          ≡ s.id
    go true b = refl
    go false true = refl
    go false false = refl

mark_all-row :
    (wid : ℕ) (l : List Mark) (h : Hooks) (s : Subscription)
    → (s.id == wid) ≡ true
    → find (has_hook_id wid) h.subscriptions ≡ some s
    → find (has_hook_id wid) (mark_all wid l h).subscriptions ≡ some (mark_rows l s)
unfolding mark_all mark_rows
mark_all-row wid [] h s here found = found
mark_all-row wid (m ∷ l) h s here found =
    mark_all-row wid l (mark_result m.now wid m.ok m.status h) (mark_row m s)
      (ap (λ i. i == wid) (mark_row-id m s) ∙ here) (mark_result-row wid m h s here found)

abbrev pub history : List Mark → List Bool
history l = map (λ m. m.ok) l

starts_shorter :
    (k m : ℕ) (l : List Bool)
    → k ≤ m
    → starts_with_failures m l ≡ true
    → starts_with_failures k l ≡ true
unfolding starts_with_failures
starts_shorter zero m l le h = refl
starts_shorter (suc k) zero l le h = absurd (omega (arith, le))
starts_shorter (suc k) (suc m) [] le h = absurd (cc h)
starts_shorter (suc k) (suc m) (true ∷ l) le h = absurd (cc h)
starts_shorter (suc k) (suc m) (false ∷ l) le h = starts_shorter k m l (omega (arith, le)) h

mark_row-inactive : (m : Mark) (s : Subscription) → s.active ≡ false → (mark_row m s).active ≡ false
unfolding mark_row
mark_row-inactive m s h = go m.ok (leb 15 (s.failure_count + 1))
  where
    go :
        (a b : Bool)
        → (if a
            then succeeded m.now m.status s
            else if b
            then disabled (failed m.now m.status s)
            else failed m.now m.status s).active
          ≡ false
    go true b = h
    go false true = refl
    go false false = h

mark_rows-inactive :
    (l : List Mark) (s : Subscription) → s.active ≡ false → (mark_rows l s).active ≡ false
unfolding mark_rows
mark_rows-inactive [] s h = h
mark_rows-inactive (m ∷ l) s h = mark_rows-inactive l (mark_row m s) (mark_row-inactive m s h)

absorbed : (a b c : Bool) → (b ≡ true → a ≡ true) → (a || c) ≡ (a || (b || c))
absorbed true b c h = refl
absorbed false true c h = absurd (cc (h refl))
absorbed false false c h = refl

row_start : (l : List Bool) → (starts_with_failures 15 l || failed_in_a_row l) ≡ failed_in_a_row l
unfolding starts_with_failures failed_in_a_row
row_start [] = refl
row_start (ok ∷ l) = twice (starts_with_failures 15 (ok ∷ l)) (failed_in_a_row l)
  where
    twice : (a b : Bool) → (a || (a || b)) ≡ (a || b)
    twice true b = refl
    twice false b = refl

-- A row with `k + 1` failures left before it is disabled.
mark_rows-active :
    (l : List Mark) (s : Subscription) (k : ℕ)
    → s.failure_count + suc k ≡ 15
    → s.active ≡ true
    → (mark_rows l s).active
      ≡ not (starts_with_failures (suc k) (history l) || failed_in_a_row (history l))
unfolding mark_rows starts_with_failures failed_in_a_row mark_row
mark_rows-active [] s k left on = on
mark_rows-active (m ∷ l) s k left on = go m.ok k left (mark_rows-active l)
  where
    next : Bool → Subscription
    next ok =
        if ok
        then succeeded m.now m.status s
        else if leb 15 (s.failure_count + 1)
        then disabled (failed m.now m.status s)
        else failed m.now m.status s

    go :
        (ok : Bool)
        → (j : ℕ) → s.failure_count + suc j ≡ 15
        → ((t : Subscription) (i : ℕ)
            → t.failure_count + suc i ≡ 15
            → t.active ≡ true
            → (mark_rows l t).active
              ≡ not (starts_with_failures (suc i) (history l) || failed_in_a_row (history l)))
        → (mark_rows l (next ok)).active
          ≡ not (starts_with_failures (suc j) (ok ∷ history l) || failed_in_a_row (ok ∷ history l))
    go true j size ih = ih (succeeded m.now m.status s) 14 refl on ∙ ap not (row_start (history l))
    go false zero size ih =
        let full : leb 15 (s.failure_count + 1) ≡ true = ground (arith, size) in
        rw full (mark_rows-inactive l (disabled (failed m.now m.status s)) refl)
    go false (suc j) size ih =
        let room : leb 15 (s.failure_count + 1) ≡ false = ground (arith, size) in
        rw room (
          ih (failed m.now m.status s) j (omega (arith, size)) on
          ∙ ap not (
              absorbed (starts_with_failures (suc j) (history l))
                (starts_with_failures 14 (history l)) (failed_in_a_row (history l))
                (starts_shorter (suc j) 14 (history l) (omega (arith, size)))))

-- The health of a subscription after a history.
pub mark_all-disables :
    (wid : ℕ) (marks : List Mark) (h : Hooks) (s : Subscription)
    → find (has_hook_id wid) h.subscriptions ≡ some s
    → s.active ≡ true
    → s.failure_count ≡ 0
    → (t : Subscription) × (find (has_hook_id wid) (mark_all wid marks h).subscriptions ≡ some t)
      × (t.active ≡ not (failed_in_a_row (history marks)))
mark_all-disables wid marks h s found on none_yet = (
  mark_rows marks s,
  mark_all-row wid marks h s (find_holds (has_hook_id wid) h.subscriptions s found) found,
  mark_rows-active marks s 14 (omega (arith, none_yet)) on ∙ ap not (row_start (history marks)),
)
