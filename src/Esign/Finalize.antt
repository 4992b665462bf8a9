-- ===== src/Esign/Finalize.antt =====
-- sign/esign.py, `finalize` and what `_seal_and_complete` does after the document is stored: the
-- executed copy goes to every signer and to the sender, and the webhook fires.
pub mod Idempotent
pub mod Ended
use lifted_sign.Base.{
  ℕ, String, Bool, true, false, not, ◌&&◌, ◌||◌, Option, none, some, List, [], ◌∷◌, map, ◌==◌,
  if◌then◌else◌, find, select, any,
}
use lifted_sign.Base.Text.{str_eq, is_blank, strip, lower, ◌+s◌}
use lifted_sign.Store.{
  Store, Env, Agreement, Signer, Event, Status, EventType, WebhookEvent, MailKind, Bytes, event,
  send_html, emit, is_completed,
}
use lifted_sign.Store.Reads.{
  View, get_agreement, agreement_row, challenge_unmet, presented_bytes, event_of_agreement,
}
use lifted_sign.Esign.Seal.{Sealed, seal_document, claim, release, prior_status, complete}

abbrev pub is_at : Prim.Native.Char.Char → Bool
is_at c = Prim.Native.Char.code c == b'@'

abbrev pub has_at : String → Bool
has_at String.[] = false
has_at (String.◌∷◌ c s) = is_at c || has_at s

abbrev pub has_dot : String → Bool
has_dot String.[] = false
has_dot (String.◌∷◌ c s) = Prim.Native.Char.code c == b'.' || has_dot s

-- A dot after the last '@': `"." in s.split("@")[-1]`, of a text that has an '@'.
abbrev pub dot_after_at : String → Bool
dot_after_at String.[] = false
dot_after_at (String.◌∷◌ c s) = let later = dot_after_at s in if has_at s then later else has_dot s

-- `_sender_email`; `mail_from` is the configured sender.
unfoldable pub sender_email : Env → Agreement → String
sender_email env a =
    let cb = strip a.created_by in if has_at cb && dot_after_at cb then cb else env.mail_from

abbrev pub contains : String → List String → Bool
contains t [] = false
contains t (u ∷ us) = str_eq u t || contains t us

-- A Python set of texts, in the order of first insertion.
abbrev pub add_text : String → List String → List String
add_text t ts = if contains t ts then ts else t ∷ ts

signer_addresses : List Signer → List String
signer_addresses [] = []
signer_addresses (s ∷ rest) =
    let others = signer_addresses rest in
    if is_blank (strip s.email) then others else add_text (strip s.email) others

unfoldable pub recipients : Env → View → List String
unfolding sender_email signer_addresses
recipients env v = add_text (sender_email env v.row) (signer_addresses v.signers)

abbrev pub same_address : String → Signer → Bool
same_address to s = str_eq (lower (strip s.email)) (lower to)

abbrev pub signer_id_of : Option Signer → Option ℕ
signer_id_of none = none
signer_id_of (some s) = some s.id

-- One completed copy: it is logged as delivered only if the mail went out.
send_copy : Env → ℕ → List Signer → String → Store → Store
unfolding send_html event
send_copy env aid signers to w =
    let mailed = send_html env to MailKind.completed_copy aid w in
    if env.mail_ok to
    then event env aid EventType.completed_copy_delivered
        (signer_id_of (find (same_address to) signers)) "" "" ("emailed to " +s to) mailed
    else mailed

unfoldable pub send_copies : Env → ℕ → List Signer → List String → Store → Store
unfolding send_copy
send_copies env aid signers [] w = w
send_copies env aid signers (to ∷ rest) w =
    send_copies env aid signers rest (send_copy env aid signers to w)

-- What follows the commit of `_seal_and_complete`.
unfoldable pub deliver : Env → ℕ → View → Store → Store
unfolding send_copies recipients emit
deliver env aid v w =
    emit WebhookEvent.envelope_completed aid v.row.owner_account_id
      (send_copies env aid v.signers (recipients env v) w)

-- `cur and cur.get("status") == "completed"`
abbrev pub completed_now : ℕ → Store → Bool
completed_now aid w = elim (agreement_row aid w) [ none ↦ false | some a ↦ is_completed a.status ]

-- The outcome of `_seal_and_complete`: the document is stored and sent, or the claim is released
-- and the exception raised again, which is `none`.
unfoldable pub settle : Env → ℕ → View → Option Sealed → Store → Option Bool × Store
unfolding complete deliver release
settle env aid v none w = (none, release aid (prior_status v.row.status) w)
settle env aid v (some s) w = (some true, deliver env aid v (complete env aid s w))

unfoldable pub sealed_document : Env → ℕ → View → Store → Option Sealed
unfolding seal_document presented_bytes
sealed_document env aid v w =
    seal_document env v (select (event_of_agreement aid) w.events) (presented_bytes v.row w)

-- `finalize`, after the reads that can refuse.
unfoldable pub claim_and_seal : Env → ℕ → View → Store → Option Bool × Store
unfolding settle sealed_document claim
claim_and_seal env aid v w =
    let (claimed, w') = claim env aid w in
    if claimed
    then settle env aid v (sealed_document env aid v w) w'
    else (some (completed_now aid w'), w')

unfoldable pub finalize_view : Env → ℕ → Option View → Store → Option Bool × Store
unfolding claim_and_seal
finalize_view env aid none w = (some false, w)
finalize_view env aid (some v) w =
    if is_completed v.row.status
    then (some true, w)
    else if any challenge_unmet v.signers
    then (some false, w)
    else claim_and_seal env aid v w

unfoldable pub finalize : Env → ℕ → Store → Option Bool × Store
unfolding finalize_view get_agreement
finalize env aid w = finalize_view env aid (get_agreement aid w) w
