-- ===== src/Esign/Send.antt =====
-- sign/esign.py, `send` and `self_sign_link`: the freeze of the presented document, the tokens,
-- and the first invites.
pub mod Frozen
use lifted_sign.Base.{
  ℕ, suc, ◌+◌, String, Bool, true, false, not, ◌&&◌, ◌||◌, Option, none, some, List, [], ◌∷◌, ◌==◌,
  leb, if◌then◌else◌, find, any, length, update_where,
}
use lifted_sign.Base.Text.{is_blank, or_text, strip, show, ◌+s◌}
use lifted_sign.Store.{
  Store, Env, Agreement, Signer, SignerStatus, Status, EventType, MailKind, WebhookEvent, Bytes,
  Error, Result, ok, err, guard, ◌>>=◌, ◌>>◌, checked, set_agreement, set_signer, event, send_html,
  emit, is_draft, frozen_pdf,
}
use lifted_sign.Store.Reads.{
  View, get_agreement, source_bytes, write_file, is_sequential, next_order_to_notify, order_of,
  expiry_window,
}

pub record Link : Type 0 where
  pub signer_id : ℕ
  pub email : String
  pub token : String

pub record Sent : Type 0 where
  pub links : List Link
  pub emailed : ℕ
  pub email_errors : ℕ

abbrev pub outside : ℕ → ℕ → Bool
outside npages i = leb npages i

abbrev pub raise_freeze {ℓ} : {A : Type ℓ} → Option A → Result A
raise_freeze none = err Error.freeze_failed
raise_freeze (some a) = ok a

-- SEND-TIME FLATTEN: the pages with an in-place text edit are rasterized.
unfoldable pub flatten_edited : Env → List ℕ → Bytes → Result Bytes
flatten_edited env [] src = ok src
flatten_edited env (i ∷ rest) src = elim (env.pdf.page_count src) [
  | none ↦ err Error.freeze_failed
  | some npages ↦
      if any (outside npages) (i ∷ rest)
      then err Error.edited_inconsistent
      else raise_freeze (env.pdf.flatten_pages src (i ∷ rest))
]

-- What `send` checks, and the bytes that it freezes.
unfoldable pub send_checks : Env → ℕ → Store → Result (View × Bytes)
unfolding get_agreement source_bytes flatten_edited
send_checks env aid w = do
  v ← elim (get_agreement aid w) [ none ↦ err Error.not_found | some v ↦ ok v ]
  guard (leb 1 (length v.signers)) Error.no_signers
  guard (is_draft v.row.status) (Error.already_sent v.row.status)
  src ← raise_freeze (source_bytes v.row w)
  frozen ← flatten_edited env v.row.edited_pages src
  ok (v, frozen)

abbrev pub send_row : String → Signer → Signer
send_row tok s = record s { token = some tok; status = SignerStatus.sent }

-- One round of the loop over the signers: the token, and the two audit events.
unfoldable pub issue : Env → ℕ → String → Signer → Store → Store
unfolding set_signer event
issue env aid tok s w =
    let tokened = set_signer s.id (send_row tok) w in
    let told = event env aid EventType.sent (some s.id) "" "" ("to " +s s.email) tokened in
    event env aid EventType.signer_authenticated (some s.id) "" ""
      ("auth=" +s or_text s.auth_method "email" +s " · single-use token link to " +s s.email) told

unfoldable pub issue_all : Env → ℕ → ℕ → List Signer → Store → Store
unfolding issue
issue_all env aid i [] w = w
issue_all env aid i (s ∷ rest) w = issue_all env aid (suc i) rest (issue env aid (env.fresh i) s w)

unfoldable pub links_of : Env → ℕ → List Signer → List Link
links_of env i [] = []
links_of env i (s ∷ rest) =
    record { signer_id = s.id; email = s.email; token = env.fresh i } ∷ links_of env (suc i) rest

abbrev pub freeze_row : Env → Bytes → Agreement → Agreement
freeze_row env frozen a = record a {
  frozen_path = some frozen_pdf;
  frozen_hash = env.pdf.sha256 frozen;
}

abbrev pub dispatch_row : Env → Agreement → Agreement
dispatch_row env a = record a {
  status = Status.out_for_signature;
  sent_at = some env.now;
  expires_at = some (env.now + expiry_window);
}

-- The transaction of `send`.
unfoldable pub dispatch : Env → ℕ → View → Bytes → Store → Store
unfolding issue_all set_agreement event write_file
dispatch env aid v frozen w =
    let stored = write_file aid frozen_pdf frozen w in
    let issued = issue_all env aid 0 v.signers stored in
    let fixed = set_agreement aid (freeze_row env frozen) issued in
    let logged = event env aid EventType.doc_frozen none "" "" (env.pdf.sha256 frozen) fixed in
    set_agreement aid (dispatch_row env) logged

abbrev pub is_order : ℕ → Option ℕ → Bool
is_order n none = false
is_order n (some m) = n == m

-- Whether the loop over the links mails this signer: the address is not blank, and in sequential
-- mode it is the signer's turn.
unfoldable pub invited : View → Signer → Bool
invited v s =
    not (is_blank (strip s.email))
    && (not (is_sequential v.row) || is_order (order_of s) (next_order_to_notify v.signers))

-- The invites; the counts of mails sent and refused go along.
unfoldable pub invite_all : Env → ℕ → View → List Signer → ℕ × ℕ → Store → (ℕ × ℕ) × Store
unfolding send_html invited
invite_all env aid v [] acc w = (acc, w)
invite_all env aid v (s ∷ rest) (sent, failed) w =
    let acc =
      if invited v s
      then (if env.mail_ok s.email then (sent + 1, failed) else (sent, failed + 1))
      else (sent, failed) in
    invite_all env aid v rest acc
      (if invited v s then send_html env s.email MailKind.invite aid w else w)

abbrev pub log_emailed : Env → ℕ → ℕ → Store → Store
log_emailed env aid sent w =
    if leb 1 sent
    then event env aid EventType.emailed none "" "" (show sent +s " signing invite(s) emailed") w
    else w

-- Everything of `send` after its checks.
unfoldable pub send_out : Env → ℕ → View × Bytes → Store → Result Sent × Store
unfolding dispatch emit invite_all event
send_out env aid (v, frozen) w =
    let committed = dispatch env aid v frozen w in
    let told = emit WebhookEvent.envelope_sent aid v.row.owner_account_id committed in
    let (counts, mailed) = invite_all env aid v v.signers (0, 0) told in
    (
      ok (record { links = links_of env 0 v.signers; emailed = counts.0; email_errors = counts.1 }),
      log_emailed env aid counts.0 mailed,
    )

unfoldable pub send : Env → ℕ → Store → Result Sent × Store
unfolding send_checks send_out
send env aid w = checked (send_checks env aid w) (send_out env aid) w

abbrev pub is_signer_of : ℕ → ℕ → Signer → Bool
is_signer_of sid aid s = (s.id == sid) && (s.agreement_id == aid)

abbrev pub self_status : SignerStatus → SignerStatus
self_status SignerStatus.unset = SignerStatus.sent
self_status SignerStatus.drafted = SignerStatus.sent
self_status s = s

abbrev pub token_or : Option String → String → String
token_or none fresh = fresh
token_or (some t) fresh = or_text t fresh

abbrev pub open_row : ℕ → Agreement → Agreement
open_row now a = record a {
  status = Status.out_for_signature;
  sent_at = elim a.sent_at [ none ↦ some now | some t ↦ some t ];
}

abbrev pub draft_with_id : ℕ → Agreement → Bool
draft_with_id aid a = (a.id == aid) && elim a.status [ Status.draft ↦ true | _ ↦ false ]

unfoldable pub self_sign_checks : ℕ → ℕ → Store → Result Signer
self_sign_checks aid sid w = elim (find (is_signer_of sid aid) w.signers) [
  | none ↦ err Error.signer_not_found
  | some s ↦ elim s.status [ SignerStatus.signed ↦ err Error.already_signed | _ ↦ ok s ]
]

unfoldable pub self_sign_open : Env → ℕ → Signer → Store → Result String × Store
unfolding set_signer event
self_sign_open env aid s w =
    let tok = token_or s.token (env.fresh 0) in
    let minted =
      set_signer s.id (λ r. record r { token = some tok; status = self_status r.status }) w in
    let opened = record minted {
      agreements = update_where (draft_with_id aid) (open_row env.now) minted.agreements;
    } in
    (
      ok tok,
      event env aid EventType.self_sign (some s.id) "" ""
          (or_text s.email s.name +s " self-signing (no email)") opened,
    )

-- `self_sign_link`; the reply is the token.
unfoldable pub self_sign_link : Env → ℕ → ℕ → Store → Result String × Store
unfolding self_sign_checks self_sign_open
self_sign_link env aid sid w = checked (self_sign_checks aid sid w) (self_sign_open env aid) w
