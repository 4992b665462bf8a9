-- ===== src/Esign/Sweep.antt =====
-- sign/esign.py, `sweep_expired`: the background sweep of overdue envelopes.
pub mod Bulk
use lifted_sign.Base.{
  ℕ, suc, String, Bool, true, false, not, ◌&&◌, Option, none, some, List, [], ◌∷◌, ◌==◌, leb,
  if◌then◌else◌, select, update_where, count_where, length,
}
use lifted_sign.Store.{
  Store, Env, Agreement, Status, EventType, MailKind, WebhookEvent, event, send_html, emit, is_out,
}
use lifted_sign.Store.Reads.{View, get_agreement}
use lifted_sign.Esign.Finalize.{sender_email}

abbrev pub overdue : ℕ → Option ℕ → Bool
overdue now none = false
overdue now (some t) = leb t now

-- `status='out_for_signature' AND expires_at IS NOT NULL AND expires_at<=?`
abbrev pub due : ℕ → Agreement → Bool
due now a = is_out a.status && overdue now a.expires_at

abbrev pub out_with_id : ℕ → Agreement → Bool
out_with_id aid a = (a.id == aid) && is_out a.status

abbrev pub expire_row : ℕ → Agreement → Agreement
expire_row now a = record a { status = Status.expired; expired_at = some now }

-- One round: the guarded update, and the event if it changed a row.
unfoldable pub expire_one : Env → ℕ → Store → Bool × Store
unfolding event
expire_one env aid w =
    let changed = leb 1 (count_where (out_with_id aid) w.agreements) in
    let flipped = record w {
      agreements = update_where (out_with_id aid) (expire_row env.now) w.agreements;
    } in
    (
      changed,
      if changed
          then event env aid EventType.expired none "" "" "auto-expired: signing window elapsed"
              flipped
          else flipped,
    )

unfoldable pub expire_all : Env → List Agreement → Store → List ℕ × Store
unfolding expire_one
expire_all env [] w = ([], w)
expire_all env (a ∷ rest) w =
    let (changed, w') = expire_one env a.id w in
    let (ids, w'') = expire_all env rest w' in (if changed then a.id ∷ ids else ids, w'')

-- The notices for one envelope: the webhook, and one mail to the sender.
unfoldable pub notify_one : Env → ℕ → Option View → Store → Store
unfolding emit send_html sender_email
notify_one env aid none w = w
notify_one env aid (some v) w =
    send_html env (sender_email env v.row) MailKind.expired_notice aid
      (emit WebhookEvent.envelope_expired aid v.row.owner_account_id w)

unfoldable pub notify_expired : Env → List ℕ → Store → Store
unfolding get_agreement notify_one
notify_expired env [] w = w
notify_expired env (aid ∷ rest) w =
    notify_expired env rest (notify_one env aid (get_agreement aid w) w)

unfoldable pub sweep_expired : Env → Store → ℕ × Store
unfolding expire_all notify_expired
sweep_expired env w =
    let (ids, w') = expire_all env (select (due env.now) w.agreements) w in
    (length ids, notify_expired env ids w')
