-- ===== src/Esign/Invariant/Signing.antt =====
-- The view and the consent keep the invariant.
use lifted_sign.Base.{String, true, false, some, ◌≡◌, refl, arith, truthy, inl, inr, Bool-cases}
use lifted_sign.Store.{
  Store, Env, Signer, SignerStatus, EventType, ok, has_signer_id, set_signer, is_signed,
}
use lifted_sign.Store.Reads.{View, signer_by_token, has_token}
use lifted_sign.Esign.Invariant.{IsConsistent, checked-IsConsistent}
use lifted_sign.Esign.View.{
  payload_checks, show_page, record_view, view_row, awaits_view, signing_payload,
}
use lifted_sign.Esign.Consent.{
  Body, consent_checks, consent_row, store_consent, give_consent, record_consent,
}
use lifted_sign.Esign.Invariant.Rules.{
  status_kept-IsConsistent, unsigned-IsConsistent, event-IsConsistent, if-IsConsistent,
}

pub awaits_view-unsigned : (s : SignerStatus) → awaits_view s ≡ true → is_signed s ≡ false
awaits_view-unsigned SignerStatus.sent h = refl
awaits_view-unsigned SignerStatus.viewed h = refl
awaits_view-unsigned _ h = ground arith

pub record_view-IsConsistent :
    (env : Env) (token ip ua : String) (s : Signer) (w : Store)
    → IsConsistent w
    → signer_by_token token w ≡ some s
    → IsConsistent (record_view env ip ua s w)
unfolding record_view signer_by_token
record_view-IsConsistent env token ip ua s w i found =
    if-IsConsistent (awaits_view s.status) _ w
      (λ a. event-IsConsistent env s.agreement_id EventType.viewed (some s.id) ip ua "" _ (
        if-IsConsistent (truthy s.viewed_at) w _ (λ _. i)
          (λ _.
            unsigned-IsConsistent (has_token token) (view_row env ip ua) (λ r. (refl, refl)) w s i
              found (awaits_view-unsigned s.status a))))
      (λ _. i)

pub payload_checks-signer :
    (env : Env) (token : String) (w : Store) (s : Signer) (v : View)
    → payload_checks env token w ≡ ok (s, v)
    → signer_by_token token w ≡ some s
unfolding payload_checks
payload_checks-signer env token w s v h = ground arith

pub signing_payload-IsConsistent :
    (env : Env) (token ip ua : String) (w : Store)
    → IsConsistent w
    → IsConsistent (signing_payload env token ip ua w).1
unfolding signing_payload
signing_payload-IsConsistent env token ip ua w i =
    checked-IsConsistent (payload_checks env token w) (show_page env ip ua) w i (λ a e.
      record_view-IsConsistent env token ip ua a.0 w i
        (payload_checks-signer env token w a.0 a.1 e))

pub store_consent-IsConsistent :
    (env : Env) (body : Body) (ip ua : String) (s : Signer) (w : Store)
    → IsConsistent w
    → IsConsistent (store_consent env body ip ua s w)
unfolding store_consent set_signer
store_consent-IsConsistent env body ip ua s w i =
    let stored =
      status_kept-IsConsistent (has_signer_id s.id) (consent_row env body ip)
        (λ r. (refl, refl, refl)) w i in
    let logged =
      event-IsConsistent env s.agreement_id EventType.econsent_accepted (some s.id) ip ua _ _
        stored in
    if-IsConsistent body.access_demonstrated _ _
      (λ _.
        event-IsConsistent env s.agreement_id EventType.records_access_demonstrated (some s.id) ip
          ua _ _ logged)
      (λ _. logged)

pub record_consent-IsConsistent :
    (env : Env) (body : Body) (token ip ua : String) (w : Store)
    → IsConsistent w
    → IsConsistent (record_consent env body token ip ua w).1
unfolding record_consent give_consent
record_consent-IsConsistent env body token ip ua w i =
    checked-IsConsistent (consent_checks body token w) (give_consent env body ip ua) w i (λ s e.
      elim (Bool-cases (truthy s.consent_at)) [
        | inl t ↦ rw t i
        | inr f ↦ rw f (store_consent-IsConsistent env body ip ua s w i)
      ])
