-- ===== src/Esign/Decline.antt =====
-- sign/esign.py, `decline` and `void`.
use lifted_sign.Base.{ℕ, ◌+◌, String, not, Option, none, some}
use lifted_sign.Store.{
  Store, Env, Agreement, Signer, Status, EventType, MailKind, WebhookEvent, Error, Result, ok,
  guard, ◌>>=◌, ◌>>◌, checked, set_agreement, event, send_html, emit, is_signed, is_finished,
}
use lifted_sign.Store.Reads.{View, get_agreement, agreement_row}
use lifted_sign.Esign.Consent.{unlocked_signer, mark_declined}
use lifted_sign.Esign.Finalize.{sender_email}

abbrev pub row_status : Option Agreement → Status
row_status none = Status.blank
row_status (some a) = a.status

unfoldable pub decline_checks : String → Store → Result Signer
unfolding unlocked_signer
decline_checks token w = do
  s ← unlocked_signer token w
  guard (not (is_signed s.status)) Error.already_signed
  let st = row_status (agreement_row s.agreement_id w)
  guard (not (is_finished st)) (Error.cannot_decline st)
  ok s

-- The notice to the sender and the webhook, after the commit.
unfoldable pub tell_declined : Env → ℕ → Option View → Store → Store
unfolding send_html emit sender_email
tell_declined env aid none w = emit WebhookEvent.envelope_declined aid none w
tell_declined env aid (some v) w =
    emit WebhookEvent.envelope_declined aid v.row.owner_account_id
      (send_html env (sender_email env v.row) MailKind.declined_notice aid w)

unfoldable pub decline_signing :
    Env → String → String → String → Signer → Store → Result (Unit {0}) × Store
unfolding mark_declined event tell_declined get_agreement
decline_signing env reason ip ua s w =
    let marked = mark_declined s w in
    let logged = event env s.agreement_id EventType.declined (some s.id) ip ua reason marked in
    (ok tt, tell_declined env s.agreement_id (get_agreement s.agreement_id logged) logged)

unfoldable pub decline : Env → String → String → String → String → Store → Result (Unit {0}) × Store
unfolding decline_checks decline_signing
decline env token reason ip ua w =
    checked (decline_checks token w) (decline_signing env reason ip ua) w

abbrev pub void_row : Agreement → Agreement
void_row a = record a { status = Status.voided; env_session_epoch = a.env_session_epoch + 1 }

abbrev pub owner_of : Option View → Option ℕ
owner_of none = none
owner_of (some v) = v.row.owner_account_id

-- `void`, which always replies True.
unfoldable pub void : Env → ℕ → String → Store → Store
unfolding set_agreement event emit get_agreement
void env aid reason w =
    let voided = set_agreement aid void_row w in
    let logged = event env aid EventType.voided none "" "" reason voided in
    emit WebhookEvent.envelope_voided aid (owner_of (get_agreement aid logged)) logged
