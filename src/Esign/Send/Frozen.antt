-- ===== src/Esign/Send/Frozen.antt =====
-- The row and the files after `send` in sign/esign.py, and the two clocks of an envelope.
use lifted_sign.Base.{
  ℕ, suc, ◌+◌, Bool, true, false, some, List, [], ◌∷◌, ◌≡◌, ◌≢◌, refl, ap, ◌∙◌, arith, ◌==◌,
  ==-refl, ==_iff, leb, if◌then◌else◌, find, find-holds, update_where, Bool-cases, inl, inr,
}
use lifted_sign.Base.Keys.{find-update_where}
use lifted_sign.Store.{
  Store, Env, Agreement, Signer, Bytes, WebhookEvent, ok, has_id, is_out, set_agreement, set_signer,
  event, emit, send_html, frozen_pdf,
}
use lifted_sign.Store.Reads.{
  View, agreement_row, presented_bytes, read_file, write_file, is_file, token_expired, token_clock,
  expiry_window,
}
use lifted_sign.Esign.Quiet.{Quiet-emit, Quiet-invite_all}
use lifted_sign.Esign.Sweep.{due}
use lifted_sign.Esign.Send.{
  send, send_checks, send_out, dispatch, issue, issue_all, freeze_row, dispatch_row, log_emailed,
  invite_all, invited,
}
use lifted_sign.Esign.Invariant.{agreement_key}
use lifted_sign.Esign.Invariant.Sending.{Sendable, send_checks-Sendable}

-- The row of an envelope that went out at `now` with these bytes.
pub record IsDispatched (env : Env) (frozen : Bytes) (aid : ℕ) (w : Store) (a : Agreement)
    : Type 0 where
  pub row : agreement_row aid w ≡ some a
  pub out : is_out a.status ≡ true
  pub presented : presented_bytes a w ≡ some frozen
  pub hash : a.frozen_hash ≡ env.pdf.sha256 frozen
  pub sent : a.sent_at ≡ some env.now
  pub window : a.expires_at ≡ some (env.now + expiry_window)

agreements-issue_all :
    (env : Env) (aid n : ℕ) (l : List Signer) (w : Store)
    → (issue_all env aid n l w).agreements ≡ w.agreements
unfolding issue_all issue set_signer event
agreements-issue_all env aid n [] w = refl
agreements-issue_all env aid n (s ∷ rest) w =
    agreements-issue_all env aid (suc n) rest (issue env aid (env.fresh n) s w)

files-issue_all :
    (env : Env) (aid n : ℕ) (l : List Signer) (w : Store)
    → (issue_all env aid n l w).files ≡ w.files
unfolding issue_all issue set_signer event
files-issue_all env aid n [] w = refl
files-issue_all env aid n (s ∷ rest) w =
    files-issue_all env aid (suc n) rest (issue env aid (env.fresh n) s w)

files-if : (b : Bool) (u w : Store) → u.files ≡ w.files → (if b then u else w).files ≡ w.files
files-if true u w h = h
files-if false u w h = refl

files-invite_all :
    (env : Env) (aid : ℕ) (v : View) (l : List Signer) (acc : ℕ × ℕ) (w : Store)
    → (invite_all env aid v l acc w).1.files ≡ w.files
unfolding invite_all send_html
files-invite_all env aid v [] acc w = refl
files-invite_all env aid v (s ∷ rest) acc w =
    files-invite_all env aid v rest _ _
    ∙ files-if (invited v s) _ w (files-if (env.mail_ok s.email) _ w refl)

files-log_emailed :
    (env : Env) (aid sent : ℕ) (w : Store) → (log_emailed env aid sent w).files ≡ w.files
unfolding event
files-log_emailed env aid sent w = files-if (leb 1 sent) _ w refl

agreements-log_emailed :
    (env : Env) (aid sent : ℕ) (w : Store) → (log_emailed env aid sent w).agreements ≡ w.agreements
unfolding event
agreements-log_emailed env aid sent w = elim (Bool-cases (leb 1 sent)) [
  | inl e ↦ rw e refl
  | inr e ↦ rw e refl
]

agreements-dispatch :
    (env : Env) (aid : ℕ) (v : View) (frozen : Bytes) (w : Store)
    → (dispatch env aid v frozen w).agreements
      ≡ update_where
          (has_id aid)
          (dispatch_row env)
          (update_where (has_id aid) (freeze_row env frozen) w.agreements)
unfolding dispatch set_agreement event write_file
agreements-dispatch env aid v frozen w =
    ap
      (λ l.
        update_where (has_id aid) (dispatch_row env)
          (update_where (has_id aid) (freeze_row env frozen) l))
      (agreements-issue_all env aid 0 v.signers (write_file aid frozen_pdf frozen w))

files-dispatch :
    (env : Env) (aid : ℕ) (v : View) (frozen : Bytes) (w : Store)
    → (dispatch env aid v frozen w).files
      ≡ record { agreement_id = aid; kind = frozen_pdf; content = frozen } ∷ w.files
unfolding dispatch set_agreement event write_file
files-dispatch env aid v frozen w =
    files-issue_all env aid 0 v.signers (write_file aid frozen_pdf frozen w)

files-send_out :
    (env : Env) (aid : ℕ) (v : View) (frozen : Bytes) (w : Store)
    → (send_out env aid (v, frozen) w).1.files
      ≡ record { agreement_id = aid; kind = frozen_pdf; content = frozen } ∷ w.files
unfolding send_out emit
files-send_out env aid v frozen w =
    files-log_emailed env aid _ _
    ∙ files-invite_all env aid v v.signers (0, 0) _
    ∙ files-dispatch env aid v frozen w

agreements-send_out :
    (env : Env) (aid : ℕ) (v : View) (frozen : Bytes) (w : Store)
    → (send_out env aid (v, frozen) w).1.agreements
      ≡ update_where
          (has_id aid)
          (dispatch_row env)
          (update_where (has_id aid) (freeze_row env frozen) w.agreements)
unfolding send_out
agreements-send_out env aid v frozen w =
    let committed = dispatch env aid v frozen w in
    let told = emit WebhookEvent.envelope_sent aid v.row.owner_account_id committed in
    agreements-log_emailed env aid _ _
    ∙ (Quiet-invite_all env aid v v.signers (0, 0) told).agreements
    ∙ (Quiet-emit WebhookEvent.envelope_sent aid v.row.owner_account_id committed).agreements
    ∙ agreements-dispatch env aid v frozen w

row-send_out :
    (env : Env) (aid : ℕ) (v : View) (frozen : Bytes) (w : Store) (a : Agreement)
    → agreement_row aid w ≡ some a
    → agreement_row aid (send_out env aid (v, frozen) w).1
      ≡ some (dispatch_row env (freeze_row env frozen a))
row-send_out env aid v frozen w a found =
    let here : (a.id == aid) ≡ true = find-holds (has_id aid) w.agreements a found in
    let fixed : find (has_id aid) (update_where (has_id aid) (freeze_row env frozen) w.agreements)
        ≡ some (freeze_row env frozen a) =
      find-update_where agreement_key aid (has_id aid) (freeze_row env frozen) (λ b. refl)
        w.agreements a found
      ∙ rw here refl in
    ap (find (has_id aid)) (agreements-send_out env aid v frozen w)
    ∙ find-update_where agreement_key aid (has_id aid) (dispatch_row env) (λ b. refl)
        (update_where (has_id aid) (freeze_row env frozen) w.agreements) (freeze_row env frozen a)
        fixed
    ∙ rw here refl

presented-frozen :
    (aid : ℕ) (frozen : Bytes) (a : Agreement) (w w' : Store)
    → a.id ≡ aid
    → a.frozen_path ≡ some frozen_pdf
    → w'.files ≡ record { agreement_id = aid; kind = frozen_pdf; content = frozen } ∷ w.files
    → presented_bytes a w' ≡ some frozen
unfolding presented_bytes read_file find
presented-frozen aid frozen a w w' same path files =
    rw (presented_bytes, path, read_file, files, same, find, is_file, ==-refl aid) refl

send-runs :
    (env : Env) (aid : ℕ) (w : Store) (v : View) (frozen : Bytes)
    → send_checks env aid w ≡ ok (v, frozen)
    → send env aid w ≡ send_out env aid (v, frozen) w
unfolding send
send-runs env aid w v frozen h = rw h refl

sent_row :
    (env : Env) (aid : ℕ) (w : Store) (v : View) (frozen : Bytes) (a : Agreement)
    → a.id ≡ aid
    → agreement_row aid w ≡ some a
    → IsDispatched env frozen aid
        (send_out env aid (v, frozen) w).1
        (dispatch_row env (freeze_row env frozen a))
sent_row env aid w v frozen a same found = record {
  row = row-send_out env aid v frozen w a found;
  out = refl;
  presented = presented-frozen aid frozen _ w _ same refl (files-send_out env aid v frozen w);
  hash = refl;
  sent = refl;
  window = refl;
}

-- A `send` whose checks pass puts the envelope out with exactly the checked bytes: they are what
-- signers are presented with, their hash is recorded, and both clocks start now.
pub send-dispatches :
    (env : Env) (aid : ℕ) (w : Store) (v : View) (frozen : Bytes)
    → send_checks env aid w ≡ ok (v, frozen)
    → (a : Agreement) × IsDispatched env frozen aid (send env aid w).1 a
send-dispatches env aid w v frozen h =
    let s : Sendable aid w v = send_checks-Sendable env aid w v frozen h in
    let same : s.row.id ≡ aid =
      (==_iff s.row.id aid).0 (find-holds (has_id aid) w.agreements s.row s.found) in
    let ran : send env aid w ≡ send_out env aid (v, frozen) w = send-runs env aid w v frozen h in
    rw ran (
      dispatch_row env (freeze_row env frozen s.row),
      sent_row env aid w v frozen s.row same s.found,
    )

-- The two clocks run together: of an envelope dispatched at a time other than 0, the sweep is due
-- at every time at which the links have expired, and the links have expired in the second after
-- each at which it is due.
pub token_expired-due :
    (env : Env) (frozen : Bytes) (aid : ℕ) (w : Store) (a : Agreement) (t : ℕ)
    → IsDispatched env frozen aid w a
    → env.now ≢ 0
    → (token_expired t a ≡ true → due t a ≡ true)
      × (due t a ≡ true → token_expired (suc t) a ≡ true)
unfolding token_expired token_clock
token_expired-due env frozen aid w a t d started = rw (d.sent, d.out, d.window) (ground arith)
