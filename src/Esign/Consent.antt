-- ===== src/Esign/Consent.antt =====
-- sign/esign.py, `record_consent` and `withdraw_consent`.
use lifted_sign.Base.{
  ℕ, String, Bool, true, false, not, ◌&&◌, Option, none, some, truthy, coalesce, if◌then◌else◌,
  update_where, ◌==◌,
}
use lifted_sign.Base.Text.{or_text, ◌+s◌}
use lifted_sign.Store.{
  Store, Env, Agreement, Signer, SignerStatus, Status, EventType, Error, Result, ok, err, guard,
  ◌>>=◌, ◌>>◌, checked, set_signer, event, is_revoked, is_completed, is_finished,
}
use lifted_sign.Store.Reads.{agreement_row, signer_by_token, challenge_unmet}

pub record Body : Type 0 where
  pub agreed : Bool
  pub disclosure_version : String
  pub disclosure_text_hash : String
  pub access_demonstrated : Bool
  pub access_method : String

-- The time of the consent or of its withdrawal, and whether it was there before.
pub record Stamped : Type 0 where
  pub at : ℕ
  pub already : Bool

abbrev pub status_is : (Status → Bool) → Option Agreement → Bool
status_is test none = false
status_is test (some a) = test a.status

-- The token's signer, whose access lock has been passed.
unfoldable pub unlocked_signer : String → Store → Result Signer
unfolding signer_by_token challenge_unmet
unlocked_signer token w = do
  s ← elim (signer_by_token token w) [ none ↦ err Error.invalid_link | some s ↦ ok s ]
  guard (not (challenge_unmet s)) Error.challenge_required
  ok s

unfoldable pub consent_checks : Body → String → Store → Result Signer
unfolding unlocked_signer
consent_checks body token w = do
  guard body.agreed Error.consent_required
  s ← unlocked_signer token w
  guard (not (status_is is_revoked (agreement_row s.agreement_id w))) Error.voided_document
  ok s

abbrev pub consent_row : Env → Body → String → Signer → Signer
consent_row env body ip s = record s {
  consent = true;
  consent_at = some env.now;
  consent_ip = ip;
  disclosure_version = body.disclosure_version;
  disclosure_text_hash = body.disclosure_text_hash;
  access_demonstrated = body.access_demonstrated;
  access_method = body.access_method;
}

-- The writes of a first consent.
unfoldable pub store_consent : Env → Body → String → String → Signer → Store → Store
unfolding set_signer event
store_consent env body ip ua s w =
    let aid = s.agreement_id in
    let stored = set_signer s.id (consent_row env body ip) w in
    let logged =
      event env aid EventType.econsent_accepted (some s.id) ip ua
        (body.disclosure_version +s " · " +s or_text body.access_method "consent") stored in
    if body.access_demonstrated
    then event env aid EventType.records_access_demonstrated (some s.id) ip ua
        (or_text body.access_method "viewed electronic record") logged
    else logged

unfoldable pub give_consent : Env → Body → String → String → Signer → Store → Result Stamped × Store
unfolding store_consent
give_consent env body ip ua s w =
    if truthy s.consent_at
    then (ok (record { at = coalesce s.consent_at 0; already = true }), w)
    else (ok (record { at = env.now; already = false }), store_consent env body ip ua s w)

unfoldable pub record_consent :
    Env → Body → String → String → String → Store → Result Stamped × Store
unfolding consent_checks give_consent
record_consent env body token ip ua w =
    checked (consent_checks body token w) (give_consent env body ip ua) w

-- `id=? AND status NOT IN ('completed','voided','cancelled')`
abbrev pub declinable : ℕ → Agreement → Bool
declinable aid a = (a.id == aid) && not (is_finished a.status)

abbrev pub decline_row : Agreement → Agreement
decline_row a = record a { status = Status.declined }

abbrev pub decline_signer : Signer → Signer
decline_signer s = record s { status = SignerStatus.declined }

-- Both updates to 'declined'.
unfoldable pub mark_declined : Signer → Store → Store
unfolding set_signer
mark_declined s w =
    let marked = set_signer s.id decline_signer w in
    record marked {
      agreements = update_where (declinable s.agreement_id) decline_row marked.agreements;
    }

unfoldable pub withdraw : Env → String → String → String → Signer → Store → Result Stamped × Store
unfolding set_signer event mark_declined
withdraw env reason ip ua s w =
    let stamped = set_signer s.id (λ r. record r { consent_withdrawn_at = some env.now }) w in
    let logged =
      event env s.agreement_id EventType.econsent_withdrawn (some s.id) ip ua reason stamped in
    let finished = status_is is_completed (agreement_row s.agreement_id w) in
    if truthy s.consent_withdrawn_at
    then (ok (record { at = coalesce s.consent_withdrawn_at 0; already = true }), w)
    else (
      ok (record { at = env.now; already = false }),
      if finished then logged else mark_declined s logged,
    )

unfoldable pub withdraw_consent :
    Env → String → String → String → String → Store → Result Stamped × Store
unfolding unlocked_signer withdraw
withdraw_consent env token reason ip ua w =
    checked (unlocked_signer token w) (withdraw env reason ip ua) w
