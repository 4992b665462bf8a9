-- ===== src/Esign/Remind.antt =====
-- sign/esign.py, `remind`: the same link again to the signers who have not signed.
use lifted_sign.Base.{
  ℕ, ◌+◌, ◌-◌, Bool, true, false, not, ◌&&◌, none, some, List, [], ◌∷◌, leb, if◌then◌else◌, select,
  length,
}
use lifted_sign.Base.Text.{is_blank, strip, ◌+s◌}
use lifted_sign.Store.{
  Store, Env, Signer, Status, EventType, MailKind, Error, Result, ok, err, guard, ◌>>=◌, ◌>>◌,
  checked, event, send_html, is_signed,
}
use lifted_sign.Store.Reads.{get_agreement, no_token}

pub record Reminded : Type 0 where
  pub success : Bool
  pub emailed : ℕ
  pub pending : ℕ
  pub errors : ℕ

-- `status in ("voided", "cancelled", "completed", "draft", "expired")`
abbrev pub stops_reminder : Status → Bool
stops_reminder Status.voided = true
stops_reminder Status.cancelled = true
stops_reminder Status.completed = true
stops_reminder Status.draft = true
stops_reminder Status.expired = true
stops_reminder _ = false

abbrev pub is_pending : Signer → Bool
is_pending s = not (is_signed s.status) && not (is_blank (strip s.email)) && not (no_token s)

unfoldable pub remind_checks : ℕ → Store → Result (List Signer)
unfolding get_agreement
remind_checks aid w = do
  v ← elim (get_agreement aid w) [ none ↦ err Error.not_found | some v ↦ ok v ]
  guard (not (stops_reminder v.row.status)) (Error.cannot_remind v.row.status)
  let pending = select is_pending v.signers
  guard (leb 1 (length pending)) Error.no_pending
  ok pending

remind_one : Env → ℕ → Signer → Store → Store
unfolding send_html event
remind_one env aid s w =
    let mailed = send_html env s.email MailKind.reminder aid w in
    if env.mail_ok s.email
    then event env aid EventType.reminded (some s.id) "" "" ("reminder to " +s s.email) mailed
    else mailed

unfoldable pub remind_all : Env → ℕ → List Signer → ℕ → Store → ℕ × Store
unfolding remind_one
remind_all env aid [] sent w = (sent, w)
remind_all env aid (s ∷ rest) sent w =
    remind_all env aid rest (if env.mail_ok s.email then sent + 1 else sent)
      (remind_one env aid s w)

unfoldable pub remind_pending : Env → ℕ → List Signer → Store → Result Reminded × Store
unfolding remind_all
remind_pending env aid pending w =
    let (sent, w') = remind_all env aid pending 0 w in
    (
      ok (record {
        success = leb 1 sent;
        emailed = sent;
        pending = length pending;
        errors = length pending - sent;
      }),
      w',
    )

unfoldable pub remind : Env → ℕ → Store → Result Reminded × Store
unfolding remind_checks remind_pending
remind env aid w = checked (remind_checks aid w) (remind_pending env aid) w
