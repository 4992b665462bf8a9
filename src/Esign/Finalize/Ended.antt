-- ===== src/Esign/Finalize/Ended.antt =====
-- `finalize` on an agreement that has ended.
use lifted_sign.Base.{ℕ, false, none, some, ◌≡◌, ◌∙◌, ap, refl, ◌⊎◌, inl, inr, any, Bool-cases}
use lifted_sign.Store.{Store, Env, Agreement, Status, is_completed}
use lifted_sign.Store.Reads.{View, get_agreement, agreement_row, view_of, challenge_unmet}
use lifted_sign.Esign.Seal.{claim}
use lifted_sign.Esign.Seal.Claim.{may_claim, claim-lost}
use lifted_sign.Esign.Finalize.{finalize, finalize_view, claim_and_seal, completed_now}
use lifted_sign.Esign.Invariant.{IsConsistent}

-- Ended without a document.
abbrev pub IsEnded : Status → Type 0
IsEnded s =
    (s ≡ Status.voided) ⊎ (s ≡ Status.cancelled) ⊎ (s ≡ Status.declined) ⊎ (s ≡ Status.expired)

ended-unclaimable :
    (now : ℕ) (a : Agreement)
    → IsEnded a.status
    → (may_claim now a ≡ false) × (is_completed a.status ≡ false)
ended-unclaimable now a (inl e) = (rw e refl, rw e refl)
ended-unclaimable now a (inr (inl e)) = (rw e refl, rw e refl)
ended-unclaimable now a (inr (inr (inl e))) = (rw e refl, rw e refl)
ended-unclaimable now a (inr (inr (inr e))) = (rw e refl, rw e refl)

finalize_view-lost :
    (env : Env) (aid : ℕ) (v : View) (w : Store)
    → is_completed v.row.status ≡ false
    → claim env aid w ≡ (false, w)
    → completed_now aid w ≡ false
    → finalize_view env aid (some v) w ≡ (some false, w)
unfolding finalize_view claim_and_seal
finalize_view-lost env aid v w unfinished lost never =
    elim (Bool-cases (any challenge_unmet v.signers)) [
      | inl u ↦ rw (unfinished, u) refl
      | inr u ↦
          let not_won : (claim env aid w).0 ≡ false = ap (λ p. p.0) lost in
          let same : (claim env aid w).1 ≡ w = ap (λ p. p.1) lost in
          rw (unfinished, u, not_won, same, never) refl
    ]

finalize-found :
    (env : Env) (aid : ℕ) (w : Store) (a : Agreement)
    → agreement_row aid w ≡ some a
    → finalize env aid w ≡ finalize_view env aid (some (view_of w a)) w
unfolding finalize get_agreement
finalize-found env aid w a found =
    ap (λ o. finalize_view env aid (elim o [ none ↦ none | some b ↦ some (view_of w b) ]) w) found

-- In consistent tables, an agreement that is voided, cancelled, declined or expired is not
-- sealed: the claim is not won, `finalize` reports that there is no executed document, and neither
-- changes anything.
pub finalize-ended :
    (env : Env) (aid : ℕ) (w : Store) (a : Agreement)
    → IsConsistent w
    → agreement_row aid w ≡ some a
    → IsEnded a.status
    → (claim env aid w ≡ (false, w)) × (finalize env aid w ≡ (some false, w))
finalize-ended env aid w a i found ended =
    let (unclaimable, unfinished) = ended-unclaimable env.now a ended in
    let lost : claim env aid w ≡ (false, w) = claim-lost env aid w a i found unclaimable in
    (
      lost,
      finalize-found env aid w a found
          ∙ finalize_view-lost env aid (view_of w a) w unfinished lost
              (rw (completed_now, found) unfinished),
    )
