-- ===== src/Esign/Seal/Claim.antt =====
-- The claim of `finalize` in sign/esign.py, by status, age and time of the call.
use lifted_sign.Base.{
  ℕ, ◌+◌, ◌≤◌, ◌<◌, Bool, true, false, ◌≡◌, refl, Option, none, some, arith, ◌==◌, if◌then◌else◌,
  not, ◌&&◌, ◌||◌, find-holds, count_where,
}
use lifted_sign.Base.Keys.{find-update_where, count-find_key, update_where-count_zero}
use lifted_sign.Store.{Store, Env, Agreement, Status, has_id}
use lifted_sign.Store.Reads.{agreement_row}
use lifted_sign.Esign.Seal.{claim, claimable, mark_sealing, is_terminal, is_sealing, stale_claim}
use lifted_sign.Esign.Invariant.{IsConsistent, agreement_key}
use lifted_sign.Esign.Invariant.Sealing.{claim-IsConsistent}

-- The status and the age of the last claim decide who wins.
abbrev pub may_claim : ℕ → Agreement → Bool
may_claim now a =
    not (is_terminal a.status) && (not (is_sealing a.status) || stale_claim now a.sealing_at)

claimable-found :
    (now aid : ℕ) (a : Agreement) → (a.id == aid) ≡ true → claimable now aid a ≡ may_claim now a
unfolding claimable
claimable-found now aid a h = rw h

one_or_none : (b : Bool) → ((if b then 1 else 0) == 1) ≡ b
one_or_none true = refl
one_or_none false = refl

claimable_id : (now k : ℕ) (b : Agreement) → claimable now k b ≡ true → b.id ≡ k
claimable_id now k b h = unfold claimable in ground arith

pub claim-eq-may_claim :
    (env : Env) (aid : ℕ) (w : Store) (a : Agreement)
    → IsConsistent w
    → agreement_row aid w ≡ some a
    → (claim env aid w).0 ≡ may_claim env.now a
unfolding claim
claim-eq-may_claim env aid w a i found =
    rw
      (
        count-find_key agreement_key aid (claimable env.now aid) w.agreements a i.ids
            (claimable_id env.now aid) found,
        claimable-found env.now aid a (find-holds (has_id aid) w.agreements a found),
      )
      (one_or_none (may_claim env.now a))

-- The row after the claim.
pub claimed-row :
    (env : Env) (aid : ℕ) (w : Store) (a : Agreement)
    → agreement_row aid w ≡ some a
    → may_claim env.now a ≡ true
    → agreement_row aid (claim env aid w).1 ≡ some (mark_sealing env.now a)
unfolding claim
claimed-row env aid w a found may = rw (
  find-update_where agreement_key aid (claimable env.now aid) (mark_sealing env.now) (λ b. refl)
      w.agreements a found,
  claimable-found env.now aid a (find-holds (has_id aid) w.agreements a found),
  may,
)

-- In consistent tables, once a claim of a stored agreement is won, a further claim of it at most
-- 120 seconds later is not won.
pub claim_exclusive :
    (env env' : Env) (aid : ℕ) (w : Store) (a : Agreement)
    → IsConsistent w
    → agreement_row aid w ≡ some a
    → (claim env aid w).0 ≡ true
    → env'.now ≤ env.now + 120
    → (claim env' aid (claim env aid w).1).0 ≡ false
claim_exclusive env env' aid w a i found won soon =
    let may : may_claim env.now a ≡ true = rw (claim-eq-may_claim env aid w a i found) at won in
    rw
      (claim-eq-may_claim env' aid (claim env aid w).1 (mark_sealing env.now a)
        (claim-IsConsistent env aid w i) (claimed-row env aid w a found may))
      (ground arith)

-- In consistent tables, an agreement that is being sealed is claimed again if the last claim is
-- older than 120 seconds or has no time.
pub claim_reclaims :
    (env : Env) (aid : ℕ) (w : Store) (a : Agreement)
    → IsConsistent w
    → agreement_row aid w ≡ some a
    → a.status ≡ Status.sealing
    → ((t : ℕ) → a.sealing_at ≡ some t → t + 120 < env.now)
    → (claim env aid w).0 ≡ true
claim_reclaims env aid w a i found sealing old =
    rw (claim-eq-may_claim env aid w a i found, sealing) (stale a.sealing_at old)
  where
    stale :
        (o : Option ℕ)
        → ((t : ℕ) → o ≡ some t → t + 120 < env.now)
        → (false || stale_claim env.now o) ≡ true
    stale none h = refl
    stale (some t) h = ground (arith, h t refl)

-- A lost claim changes nothing.
pub claim-lost :
    (env : Env) (aid : ℕ) (w : Store) (a : Agreement)
    → IsConsistent w
    → agreement_row aid w ≡ some a
    → may_claim env.now a ≡ false
    → claim env aid w ≡ (false, w)
unfolding claim
claim-lost env aid w a i found lost =
    let none_claimable : count_where (claimable env.now aid) w.agreements ≡ 0 =
      rw
        (
          count-find_key agreement_key aid (claimable env.now aid) w.agreements a i.ids
              (claimable_id env.now aid) found,
          claimable-found env.now aid a (find-holds (has_id aid) w.agreements a found),
          lost,
        )
        refl in
    rw
      (
        none_claimable,
        update_where-count_zero (claimable env.now aid) (mark_sealing env.now) w.agreements
            none_claimable,
      )
      refl
