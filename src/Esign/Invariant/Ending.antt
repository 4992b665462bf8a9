-- ===== src/Esign/Invariant/Ending.antt =====
-- The invariant under the withdrawal of consent, the decline, the void and the access lock.
use lifted_sign.Base.{
  ℕ, String, false, Option, none, some, ◌≡◌, refl, arith, truthy, update_where, inl, inr,
  Bool-cases, find,
}
use lifted_sign.Store.{
  Store, Env, Agreement, Signer, EventType, ok, has_signer_id, set_signer, is_completed, event,
}
use lifted_sign.Store.Reads.{agreement_row, signer_by_token, has_token}
use lifted_sign.Esign.Quiet.{Quiet-emit, Quiet-tell_declined}
use lifted_sign.Esign.Invariant.{
  IsConsistent, Quiet-IsConsistent, agreements-IsConsistent, row_completed, checked-IsConsistent,
}
use lifted_sign.Esign.Consent.{
  unlocked_signer, mark_declined, decline_row, decline_signer, declinable, withdraw,
  withdraw_consent, status_is,
}
use lifted_sign.Esign.Decline.{decline_checks, decline_signing, decline, void, void_row}
use lifted_sign.Esign.Access.{
  Challenge, challenge_row, set_signer_challenge, configure, bump_env_session_epoch, bump_row,
  mark_challenge_passed, signer_on,
}
use lifted_sign.Esign.Invariant.Rules.{
  status_kept-IsConsistent, open_on-IsConsistent, OnlyOn, OnlyOn-found, OnlyOn-update_where,
  event-IsConsistent, if-IsConsistent, set_agreement-IsConsistent,
}

pub unlocked_signer-found :
    (token : String) (w : Store) (s : Signer)
    → unlocked_signer token w ≡ ok s
    → signer_by_token token w ≡ some s
unfolding unlocked_signer
unlocked_signer-found token w s h = ground arith

pub decline_row-IsConsistent :
    (aid : ℕ) (w : Store)
    → IsConsistent w
    → IsConsistent
        (record w { agreements = update_where (declinable aid) decline_row w.agreements })
decline_row-IsConsistent aid w i =
    agreements-IsConsistent (declinable aid) decline_row (λ a. refl) (λ x a p h. ground arith) w i

pub mark_challenge_passed-IsConsistent :
    (env : Env) (token : String) (w : Store)
    → IsConsistent w
    → IsConsistent (mark_challenge_passed env token w).1
unfolding mark_challenge_passed
mark_challenge_passed-IsConsistent env token w i =
    status_kept-IsConsistent (has_token token)
      (λ s. record s { challenge_passed_at = some env.now }) (λ r. (refl, refl, refl)) w i

pub bump-IsConsistent :
    (aid : ℕ) (w : Store) → IsConsistent w → IsConsistent (bump_env_session_epoch aid w).1
unfolding bump_env_session_epoch
bump-IsConsistent aid w i = set_agreement-IsConsistent aid bump_row (λ a. refl) (λ a h. h) w i

pub void-IsConsistent :
    (env : Env) (aid : ℕ) (reason : String) (w : Store)
    → IsConsistent w
    → IsConsistent (void env aid reason w)
unfolding void
void-IsConsistent env aid reason w i = Quiet-IsConsistent (Quiet-emit _ aid _ _) (
    event-IsConsistent env aid EventType.voided none "" "" reason _
      (set_agreement-IsConsistent aid void_row (λ a. refl) (λ a h. cc) w i))

mark_declined-IsConsistent :
    (s : Signer) (w : Store)
    → IsConsistent w
    → OnlyOn s.id s.agreement_id w.signers
    → row_completed (agreement_row s.agreement_id w) ≡ false
    → IsConsistent (mark_declined s w)
unfolding mark_declined
mark_declined-IsConsistent s w i on not_done =
    decline_row-IsConsistent s.agreement_id _
      (open_on-IsConsistent s.id s.agreement_id decline_signer (λ r. (refl, refl)) w i on not_done)

decline_checks-found :
    (token : String) (w : Store) (s : Signer)
    → decline_checks token w ≡ ok s
    → signer_by_token token w ≡ some s
unfolding decline_checks
decline_checks-found token w s h = ground arith

decline_checks-open :
    (token : String) (w : Store) (s : Signer)
    → decline_checks token w ≡ ok s
    → row_completed (agreement_row s.agreement_id w) ≡ false
unfolding decline_checks
decline_checks-open token w s h = ground arith

pub decline-IsConsistent :
    (env : Env) (token reason ip ua : String) (w : Store)
    → IsConsistent w
    → IsConsistent (decline env token reason ip ua w).1
unfolding decline decline_signing signer_by_token
decline-IsConsistent env token reason ip ua w i =
    checked-IsConsistent (decline_checks token w) (decline_signing env reason ip ua) w i (λ s e.
      Quiet-IsConsistent (Quiet-tell_declined env s.agreement_id _ _) (
        event-IsConsistent env s.agreement_id EventType.declined (some s.id) ip ua reason _ (
          mark_declined-IsConsistent s w i
            (OnlyOn-found (has_token token) w s i (decline_checks-found token w s e))
            (decline_checks-open token w s e))))

-- The stamp of a withdrawal.
abbrev withdrawn_row : Env → Signer → Signer
withdrawn_row env r = record r { consent_withdrawn_at = some env.now }

status_is-row_completed : (o : Option Agreement) → status_is is_completed o ≡ row_completed o
status_is-row_completed none = refl
status_is-row_completed (some a) = refl

withdraw-IsConsistent :
    (env : Env) (reason ip ua : String) (s : Signer) (w : Store)
    → IsConsistent w
    → OnlyOn s.id s.agreement_id w.signers
    → IsConsistent (withdraw env reason ip ua s w).1
unfolding withdraw set_signer event
withdraw-IsConsistent env reason ip ua s w i on =
    elim (Bool-cases (truthy s.consent_withdrawn_at)) [
      | inl t ↦ rw t i
      | inr f ↦ rw f (
          if-IsConsistent (status_is is_completed (agreement_row s.agreement_id w)) _ _
            (λ _. logged)
            (λ not_done.
              mark_declined-IsConsistent s _ logged
                (OnlyOn-update_where (has_signer_id s.id) (withdrawn_row env) (λ r. (refl, refl))
                  s.id s.agreement_id w.signers on)
                (rw status_is-row_completed at not_done)))
    ]
  where
    stamped : IsConsistent (set_signer s.id (withdrawn_row env) w)
    stamped =
        status_kept-IsConsistent (has_signer_id s.id) (withdrawn_row env) (λ r. (refl, refl, refl))
          w i

    logged : IsConsistent (
        event env s.agreement_id EventType.econsent_withdrawn
          (some s.id)
          ip
          ua
          reason
          (set_signer s.id (withdrawn_row env) w))
    logged =
        event-IsConsistent env s.agreement_id EventType.econsent_withdrawn (some s.id) ip ua reason
          _ stamped

pub withdraw_consent-IsConsistent :
    (env : Env) (token reason ip ua : String) (w : Store)
    → IsConsistent w
    → IsConsistent (withdraw_consent env token reason ip ua w).1
unfolding withdraw_consent signer_by_token
withdraw_consent-IsConsistent env token reason ip ua w i =
    checked-IsConsistent (unlocked_signer token w) (withdraw env reason ip ua) w i (λ s e.
      withdraw-IsConsistent env reason ip ua s w i
        (OnlyOn-found (has_token token) w s i (unlocked_signer-found token w s e)))

challenge_row-same :
    (c : Challenge) (r : Signer)
    → ((challenge_row c r).id ≡ r.id)
      × ((challenge_row c r).agreement_id ≡ r.agreement_id)
      × ((challenge_row c r).status ≡ r.status)
challenge_row-same c r = ground arith

configure-IsConsistent :
    (env : Env) (aid sid : ℕ) (c : Challenge) (o : Option Signer) (w : Store)
    → IsConsistent w
    → IsConsistent (configure env aid sid c o w).1
unfolding configure set_signer
configure-IsConsistent env aid sid c none w i = i
configure-IsConsistent env aid sid c (some _) w i = bump-IsConsistent aid _ (
    event-IsConsistent env aid EventType.access_challenge_configured (some sid) "" "" _ _
      (status_kept-IsConsistent (has_signer_id sid) (challenge_row c) (challenge_row-same c) w i))

pub set_signer_challenge-IsConsistent :
    (env : Env) (aid sid : ℕ) (c : Challenge) (w : Store)
    → IsConsistent w
    → IsConsistent (set_signer_challenge env aid sid c w).1
unfolding set_signer_challenge
set_signer_challenge-IsConsistent env aid sid c w i =
    configure-IsConsistent env aid sid c (find (signer_on sid aid) w.signers) w i
