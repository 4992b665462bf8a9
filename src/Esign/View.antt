-- ===== src/Esign/View.antt =====
-- sign/esign.py, `signing_payload`: what the signing page shows, and the record of the view.
use lifted_sign.Base.{
  ℕ, String, Bool, true, false, not, ◌&&◌, ◌||◌, none, some, List, ◌==◌, truthy, if◌then◌else◌,
  select,
}
use lifted_sign.Base.Text.{clip}
use lifted_sign.Store.{
  Store, Env, Signer, SignerStatus, Field, Status, EventType, Error, Result, ok, err, guard, ◌>>=◌,
  ◌>>◌, checked, set_signer, event, is_signed, is_revoked, is_expired, is_completed,
}
use lifted_sign.Store.Reads.{View, get_agreement, signer_by_token, token_expired}

pub record Payload : Type 0 where
  pub agreement_status : Status
  pub signer_status : SignerStatus
  pub fields : List Field
  pub has_consent : Bool
  pub consent_required : Bool

unfoldable pub payload_checks : Env → String → Store → Result (Signer × View)
unfolding signer_by_token get_agreement token_expired
payload_checks env token w = do
  s ← elim (signer_by_token token w) [ none ↦ err Error.not_found | some s ↦ ok s ]
  v ← elim (get_agreement s.agreement_id w) [ none ↦ err Error.not_found | some v ↦ ok v ]
  guard (not (is_revoked v.row.status)) Error.voided_document
  guard (is_signed s.status || not (is_expired v.row.status)) Error.request_expired
  guard (is_signed s.status || is_completed v.row.status || not (token_expired env.now v.row))
      Error.link_expired
  ok (s, v)

-- `status in ("sent", "viewed")`
abbrev pub awaits_view : SignerStatus → Bool
awaits_view SignerStatus.sent = true
awaits_view SignerStatus.viewed = true
awaits_view _ = false

abbrev pub view_row : Env → String → String → Signer → Signer
view_row env ip ua s = record s {
  status = SignerStatus.viewed;
  viewed_at = some env.now;
  ip = ip;
  user_agent = clip 300 ua;
}

-- The first view stamps the signer; each view of a signer who may still sign is logged.
unfoldable pub record_view : Env → String → String → Signer → Store → Store
unfolding set_signer event
record_view env ip ua s w =
    let stamped = if truthy s.viewed_at then w else set_signer s.id (view_row env ip ua) w in
    if awaits_view s.status
    then event env s.agreement_id EventType.viewed (some s.id) ip ua "" stamped
    else w

abbrev pub shown_status : SignerStatus → SignerStatus
shown_status SignerStatus.sent = SignerStatus.viewed
shown_status s = s

abbrev pub of_signer : ℕ → Field → Bool
of_signer sid f = elim f.signer_id [ none ↦ false | some i ↦ i == sid ]

abbrev pub consented : Signer → Bool
consented s = s.consent && not (truthy s.consent_withdrawn_at)

abbrev pub payload : Signer → View → Payload
payload s v = record {
  agreement_status = v.row.status;
  signer_status = shown_status s.status;
  fields = select (of_signer s.id) v.fields;
  has_consent = consented s;
  consent_required = not (consented s);
}

abbrev pub show_page : Env → String → String → Signer × View → Store → Result Payload × Store
show_page env ip ua (s, v) w = (ok (payload s v), record_view env ip ua s w)

unfoldable pub signing_payload : Env → String → String → String → Store → Result Payload × Store
unfolding payload_checks record_view
signing_payload env token ip ua w = checked (payload_checks env token w) (show_page env ip ua) w
