-- ===== src/Esign/Submit.antt =====
-- sign/esign.py, `submit_signature`: `Values` reads the submitted map, `Gates` decides, `Record`
-- writes the signer's input; here they are put together, with the cascade to the next signers.
pub mod Values
pub mod Gates
pub mod Record
pub mod Frame
pub mod Safety
pub mod Refusal
pub mod Turn
pub mod Again
use lifted_sign.Base.{
  ℕ, String, Bool, true, false, not, ◌&&◌, ◌||◌, Option, none, some, List, [], ◌∷◌, ◌==◌,
  if◌then◌else◌, find, any, count_where,
}
use lifted_sign.Base.Int.{ℤ}
use lifted_sign.Base.Text.{is_blank, strip, ◌+s◌}
use lifted_sign.Store.{
  Store, Env, Signer, Agreement, Status, EventType, MailKind, WebhookEvent, Error, Result, ok, err,
  raised, checked, event, send_html, emit, is_signed, is_revoked, is_completed,
}
use lifted_sign.Store.Reads.{
  View, get_agreement, agreement_row, is_sequential, next_order_to_notify, order_of, no_token,
}
use lifted_sign.Esign.Finalize.{finalize}
use lifted_sign.Esign.Submit.Values.{Request}
use lifted_sign.Esign.Submit.Gates.{Decision, again, accept, submit_checks}
use lifted_sign.Esign.Submit.Record.{record_signature, unsigned_of}

pub record Receipt : Type 0 where
  pub already : Bool
  pub completed : Bool

-- `status in ("voided", "cancelled", "completed")`
abbrev pub stops_cascade : Status → Bool
stops_cascade Status.voided = true
stops_cascade Status.cancelled = true
stops_cascade Status.completed = true
stops_cascade _ = false

-- One invite of the cascade; it is logged only if the mail went out.
notify_signer : Env → ℕ → ℕ → Signer → Store → Store
unfolding send_html event
notify_signer env aid nxt s w =
    let email = strip s.email in
    let skipped = not (order_of s == nxt) || is_signed s.status || is_blank email || no_token s in
    let mailed = send_html env email MailKind.invite aid w in
    if skipped
    then w
    else if env.mail_ok email
    then event env aid EventType.emailed (some s.id) "" "" ("sequential turn — invite to " +s email)
        mailed
    else mailed

notify_group : Env → ℕ → ℕ → List Signer → Store → Store
unfolding notify_signer
notify_group env aid nxt [] w = w
notify_group env aid nxt (s ∷ rest) w =
    notify_group env aid nxt rest (notify_signer env aid nxt s w)

notify_order : Env → ℕ → View → Option ℕ → Store → Store
unfolding notify_group
notify_order env aid v none w = w
notify_order env aid v (some nxt) w = notify_group env aid nxt v.signers w

cascade : Env → ℕ → Option View → Store → Store
unfolding notify_order
cascade env aid none w = w
cascade env aid (some v) w =
    if not (is_sequential v.row) || stops_cascade v.row.status
    then w
    else notify_order env aid v (next_order_to_notify v.signers) w

-- `_notify_next_sequential`
unfoldable pub notify_next_sequential : Env → ℕ → Store → Store
unfolding get_agreement cascade
notify_next_sequential env aid w = cascade env aid (get_agreement aid w) w

-- The reply of a submission, from what `finalize` returned or raised.
abbrev pub reply : Bool → Option Bool × Store → Result Receipt × Store
reply already (none, w) = (err raised, w)
reply already (some done, w) = (ok (record { already = already; completed = done }), w)

abbrev pub row_status : Option Agreement → Status
row_status none = Status.blank
row_status (some a) = a.status

-- Nobody is left to sign, and the agreement has not ended.
unfoldable pub redrive : Signer → Store → Bool
unfolding unsigned_of
redrive s w =
    let st = row_status (agreement_row s.agreement_id w) in
    not (is_completed st || is_revoked st) && unsigned_of s.agreement_id w == 0

-- The re-POST of a signer who has signed: it drives an unfinished seal again.
unfoldable pub resubmit : Env → Signer → Store → Result Receipt × Store
unfolding finalize redrive
resubmit env s w =
    if redrive s w
    then reply true (finalize env s.agreement_id w)
    else (ok (record { already = true; completed = false }), w)

abbrev pub owner_of : Option View → Option ℕ
owner_of none = none
owner_of (some v) = v.row.owner_account_id

-- A first submission that passed the gates.
unfoldable pub accept_signature :
    Env → Request → Signer → List (ℤ × String) → Store → Result Receipt × Store
unfolding record_signature finalize notify_next_sequential unsigned_of
accept_signature env req s values w =
    let aid = s.agreement_id in
    let signed = record_signature env req s values w in
    let told = emit WebhookEvent.signer_signed aid (owner_of (get_agreement aid signed)) signed in
    if unsigned_of aid signed == 0
    then reply false (finalize env aid told)
    else (ok (record { already = false; completed = false }), notify_next_sequential env aid told)

abbrev pub run_decision : Env → Request → Decision → Store → Result Receipt × Store
run_decision env req (again s) w = resubmit env s w
run_decision env req (accept s values) w = accept_signature env req s values w

unfoldable pub submit_signature : Env → Request → Store → Result Receipt × Store
unfolding submit_checks resubmit accept_signature
submit_signature env req w = checked (submit_checks env req w) (run_decision env req) w
