-- ===== src/Webhooks/Isolation.antt =====
-- The tenants of sign/webhooks.py, and the receivers that a delivery may reach.
use lifted_sign.Base.{
  ℕ, String, true, false, not, ◌≢◌, Option, none, some, List, [], ◌∷◌, ◌++◌, ◌≡◌, refl, arith, ◌⊎◌,
  inl, inr, ◌==◌, ==_iff, find, get_elem?, Bool, suc, select, any, update_where, delete_where,
  Bool-cases,
}
use lifted_sign.Base.Members.{find_holds}
use lifted_sign.Webhooks.Events.{Outcome, Selector, normalize_events}
use lifted_sign.Webhooks.Host.{
  Net, Parts, Address, blocked_ip, candidates, all_public, assert_public_host, host_or_blank,
  validate_url,
}
use lifted_sign.Webhooks.Tables.{
  Subscription, Hooks, Public, public_row, owned_hook, is_hook, new_secret, shown_row,
  create_webhook, get_webhook_owned, delete_webhook, mark_result, rotate_secret, created, both,
  insert_webhook,
}
use lifted_sign.Webhooks.Deliver.Attempts.{IsRun, deliver_sync-IsRun}
use lifted_sign.Webhooks.Deliver.{at_least_one, untried, Receiver, check_receiver, deliver_sync}

-- The subscriptions of the other tenants.
abbrev pub others : ℕ → Hooks → List Subscription
others owner h = select (λ s. not (owned_hook owner s)) h.subscriptions

others-deleted :
    (owner wid : ℕ) (l : List Subscription)
    → select (λ s. not (owned_hook owner s)) (delete_where (is_hook owner wid) l)
      ≡ select (λ s. not (owned_hook owner s)) l
unfolding select delete_where
others-deleted owner wid [] = refl
others-deleted owner wid (s ∷ l) = elim (Bool-cases (owned_hook owner s)) [
  | inl e ↦ elim (Bool-cases (s.id == wid)) [
    | inl d ↦ rw (e, d, others-deleted owner wid l) refl
    | inr d ↦ rw (e, d, e, others-deleted owner wid l) refl
  ]
  | inr e ↦
      let stays : is_hook owner wid s ≡ false = ground arith in
      rw (stays, e, others-deleted owner wid l) refl
]

others-updated :
    (secret : String) (owner wid : ℕ) (l : List Subscription)
    → select
        (λ s. not (owned_hook owner s))
        (update_where (is_hook owner wid) (new_secret secret) l)
      ≡ select (λ s. not (owned_hook owner s)) l
unfolding select update_where
others-updated secret owner wid [] = refl
others-updated secret owner wid (s ∷ l) = elim (Bool-cases (owned_hook owner s)) [
  | inl e ↦ elim (Bool-cases (s.id == wid)) [
    | inl d ↦ rw (e, d, e, others-updated secret owner wid l) refl
    | inr d ↦ rw (e, d, e, others-updated secret owner wid l) refl
  ]
  | inr e ↦
      let stays : is_hook owner wid s ≡ false = ground arith in
      rw (stays, e, others-updated secret owner wid l) refl
]

others-appended :
    (owner : ℕ) (s : Subscription) (l : List Subscription)
    → s.owner_account_id ≡ owner
    → select (λ t. not (owned_hook owner t)) (l ++ s ∷ [])
      ≡ select (λ t. not (owned_hook owner t)) l
unfolding select
others-appended owner s [] own =
    let e : owned_hook owner s ≡ true = (==_iff s.owner_account_id owner).1 own in rw e refl
others-appended owner s (t ∷ l) own = rw (others-appended owner s l own) refl

others-created :
    (now : ℕ) (secret : String) (owner : ℕ) (h : Hooks) (a b : Outcome String)
    → others owner (created h (both a b (λ u ev. insert_webhook now secret owner u ev h))).1
      ≡ others owner h
others-created now secret owner h (Outcome.refused r) b = refl
others-created now secret owner h (Outcome.given u) (Outcome.refused r) = refl
others-created now secret owner h (Outcome.given u) (Outcome.given ev) =
    others-appended owner _ h.subscriptions refl

find-get_elem? {ℓ} :
    {A : Type ℓ} (p : A → Bool) (l : List A) (a : A)
    → find p l ≡ some a
    → (i : ℕ) × (get_elem? l i ≡ some a)
unfolding find get_elem?
find-get_elem? p [] a h = absurd (cc h)
find-get_elem? p (x ∷ l) a h = elim (Bool-cases (p x)) [
  | inl e ↦ (0, rw e at h)
  | inr e ↦ let (i, at) = find-get_elem? p l a (rw e at h) in (suc i, at)
]

shown-found :
    (o : Option Subscription) (p : Public)
    → shown_row o ≡ some p
    → (s : Subscription) × (o ≡ some s) × (p ≡ public_row s)
shown-found none p h = absurd (cc h)
shown-found (some s) p h = (s, refl, cc h)

-- What an owner creates, deletes or rotates leaves the subscriptions of every other owner as they
-- are, and what an owner reads by an id is the public view of a row of the table that has that id
-- and that owner.
pub tenants-isolated :
    (net : Net) (now : ℕ) (secret : String) (owner wid : ℕ) (url : String) (sel : Selector)
    (h : Hooks)
    → (others owner (create_webhook net now secret owner url sel h).1 ≡ others owner h)
      × (others owner (delete_webhook owner wid h).1 ≡ others owner h)
      × (others owner (rotate_secret secret owner wid h).1 ≡ others owner h)
      × ((p : Public)
          → get_webhook_owned owner wid h ≡ some p
          → (s : Subscription) × (i : ℕ) × (get_elem? h.subscriptions i ≡ some s)
            × (s.id ≡ wid)
            × (s.owner_account_id ≡ owner)
            × (p ≡ public_row s))
unfolding create_webhook delete_webhook rotate_secret get_webhook_owned
tenants-isolated net now secret owner wid url sel h = (
  others-created now secret owner h (validate_url net url) (normalize_events sel),
  others-deleted owner wid h.subscriptions,
  others-updated secret owner wid h.subscriptions,
  λ p found.
      let (s, row, shown) = shown-found (find (is_hook owner wid) h.subscriptions) p found in
      let both_keys : is_hook owner wid s ≡ true =
        find_holds (is_hook owner wid) h.subscriptions s row in
      let (i, at) = find-get_elem? (is_hook owner wid) h.subscriptions s row in
      (
        s,
        i,
        at,
        (==_iff s.id wid).0 (ground arith),
        (==_iff s.owner_account_id owner).0 (ground arith),
        shown,
      ),
)

all_public-given :
    (o : Option (List Address))
    → all_public o ≡ Outcome.given tt
    → (l : List Address) × (o ≡ some l) × (any blocked_ip l ≡ false)
all_public-given none h = absurd (cc h)
all_public-given (some l) h = elim (Bool-cases (any blocked_ip l)) [
  | inl e ↦ absurd (cc (rw e at h))
  | inr e ↦ (l, refl, e)
]

-- The checked addresses of a URL, none of them internal; or the setting that allows internal ones.
pub record IsPublic (net : Net) (url : String) : Type 0 where
  pub parts : Parts
  pub split : net.urlsplit url ≡ some parts
  pub addresses :
      (net.allow_internal ≡ true)
      ⊎ ((l : List Address) × (candidates net (host_or_blank parts.hostname) ≡ some l)
          × (any blocked_ip l ≡ false))

check_receiver-IsPublic :
    (net : Net) (url : String)
    → check_receiver net (net.urlsplit url) ≡ Outcome.given tt
    → IsPublic net url
unfolding assert_public_host
check_receiver-IsPublic net url h = go (net.urlsplit url) refl h
  where
    go :
        (o : Option Parts)
        → net.urlsplit url ≡ o
        → check_receiver net o ≡ Outcome.given tt
        → IsPublic net url
    go none e k = absurd (cc k)
    go (some p) e k = record {
      parts = p;
      split = e;
      addresses = elim (Bool-cases net.allow_internal) [
        | inl t ↦ inl t
        | inr t ↦ inr (all_public-given (candidates net (host_or_blank p.hostname)) (rw t at k))
      ];
    }

-- A delivery that made an attempt went to a URL whose host stood, when it was checked just before,
-- for addresses none of which is internal, unless the settings allow these. One that made none
-- left the log as it was and counts as failed.
pub deliver_sync-IsPublic :
    (net : Net) (r : Receiver) (now : ℕ) (sub : Subscription) (event : String) (attempts : ℕ)
    (h : Hooks)
    → ((deliver_sync net r now sub event attempts h).result.attempts ≢ 0 → IsPublic net sub.url)
      × ((deliver_sync net r now sub event attempts h).result.attempts ≡ 0
          → ((deliver_sync net r now sub event attempts h).hooks.deliveries ≡ h.deliveries)
            × ((deliver_sync net r now sub event attempts h).result.ok ≡ false))
unfolding deliver_sync mark_result
deliver_sync-IsPublic net r now sub event attempts h =
    go (check_receiver net (net.urlsplit sub.url)) refl
  where
    go :
        (o : Outcome (Unit {0}))
        → check_receiver net (net.urlsplit sub.url) ≡ o
        → ((deliver_sync net r now sub event attempts h).result.attempts ≢ 0 → IsPublic net sub.url)
          × ((deliver_sync net r now sub event attempts h).result.attempts ≡ 0
              → ((deliver_sync net r now sub event attempts h).hooks.deliveries ≡ h.deliveries)
                × ((deliver_sync net r now sub event attempts h).result.ok ≡ false))
    go (Outcome.refused e) k =
        (λ some_made. absurd (some_made (rw k refl)), λ _. (rw k refl, rw k refl))
    go (Outcome.given u) k =
        let run : IsRun r 1 (at_least_one attempts) (untried sub h)
            (deliver_sync net r now sub event attempts h) =
          deliver_sync-IsRun net r now sub event attempts h k in
        (λ _. check_receiver-IsPublic net sub.url k, λ z. absurd (omega (arith, z, run.from)))
