-- ===== src/Esign/Invariant/Sending.antt =====
-- `send` and `remind` keep the invariant: `send` gives tokens only to the signers of a draft.
use lifted_sign.Base.{
  ℕ, suc, String, Bool, true, false, Option, none, some, List, [], ◌∷◌, ◌≡◌, refl, arith, All,
  update_where, select, sort_by, leb, ==_iff,
}
use lifted_sign.Base.Members.{All-map_weaken, All-map, All-selected, All-sort_by}
use lifted_sign.Store.{
  Store, Env, Agreement, Signer, Status, EventType, WebhookEvent, Bytes, ok, has_id, has_signer_id,
  is_completed, is_draft, emit, frozen_pdf,
}
use lifted_sign.Store.Reads.{
  View, get_agreement, agreement_row, write_file, of_agreement, signers_of, strip_signer_secrets,
  order_key, view_of,
}
use lifted_sign.Esign.Quiet.{
  Quiet-trans, Quiet-emit, Quiet-write_file, Quiet-invite_all, Quiet-remind_all,
}
use lifted_sign.Esign.Send.{
  send, send_checks, send_out, dispatch, issue, issue_all, send_row, freeze_row, dispatch_row,
  log_emailed,
}
use lifted_sign.Esign.Invariant.{
  IsConsistent, signer_key, Quiet-IsConsistent, checked-IsConsistent, row_completed,
}
use lifted_sign.Esign.Invariant.Rules.{
  event-IsConsistent, if-IsConsistent, set_agreement-IsConsistent, OnlyOn, OnlyOn-update_where,
  open_on-IsConsistent,
}
use lifted_sign.Base.Members.{Distinct-unique}
use lifted_sign.Esign.Remind.{remind, remind_checks, remind_pending}
use lifted_sign.Base.{find-holds}

-- Each of these signers' ids is an id of that agreement's rows.
abbrev AllOnlyOn : ℕ → List Signer → List Signer → Type 0
AllOnlyOn aid rows signers = All (λ s. OnlyOn s.id aid rows) signers

AllOnlyOn-update_where :
    (aid : ℕ) (p : Signer → Bool) (f : Signer → Signer)
    → ((s : Signer) → ((f s).id ≡ s.id) × ((f s).agreement_id ≡ s.agreement_id))
    → (rows signers : List Signer) → AllOnlyOn aid rows signers
    → AllOnlyOn aid (update_where p f rows) signers
AllOnlyOn-update_where aid p f same rows signers =
    All-map_weaken (λ s. OnlyOn s.id aid rows) (λ s. OnlyOn s.id aid (update_where p f rows))
      signers (λ s. OnlyOn-update_where p f same s.id aid rows)

signers_of-AllOnlyOn :
    (aid : ℕ) (w : Store) → IsConsistent w → AllOnlyOn aid w.signers (signers_of aid w)
unfolding signers_of strip_signer_secrets
signers_of-AllOnlyOn aid w i =
    All-map P P strip_signer_secrets (sort_by order_key chosen) (λ s h. h)
      (All-sort_by P order_key chosen (
        All-selected P (of_agreement aid) w.signers (
          All-map_weaken (λ s. All (λ r. r.id ≡ s.id → r ≡ s) w.signers)
            (λ s. of_agreement aid s ≡ true → P s) w.signers own
            (Distinct-unique signer_key w.signers i.signer_ids))))
  where
    P : Signer → Type 0
    P s = OnlyOn s.id aid w.signers

    chosen : List Signer
    chosen = select (of_agreement aid) w.signers

    own :
        (s : Signer)
        → All (λ r. r.id ≡ s.id → r ≡ s) w.signers
        → of_agreement aid s ≡ true
        → OnlyOn s.id aid w.signers
    own s only h =
        All-map_weaken (λ r. r.id ≡ s.id → r ≡ s) (λ r. r.id ≡ s.id → r.agreement_id ≡ aid)
          w.signers (λ r same e. rw (same e) ((==_iff s.agreement_id aid).0 h)) only

issue-IsConsistent :
    (env : Env) (aid : ℕ) (tok : String) (s : Signer) (w : Store)
    → IsConsistent w
    → OnlyOn s.id aid w.signers
    → row_completed (agreement_row aid w) ≡ false
    → IsConsistent (issue env aid tok s w)
unfolding issue
issue-IsConsistent env aid tok s w i on unfinished =
    event-IsConsistent env aid EventType.signer_authenticated (some s.id) "" "" _ _ (
      event-IsConsistent env aid EventType.sent (some s.id) "" "" _ _
        (open_on-IsConsistent s.id aid (send_row tok) (λ r. (refl, refl)) w i on unfinished))

agreements-issue :
    (env : Env) (aid : ℕ) (tok : String) (s : Signer) (w : Store)
    → (issue env aid tok s w).agreements ≡ w.agreements
unfolding issue
agreements-issue env aid tok s w = refl

signers-issue :
    (env : Env) (aid : ℕ) (tok : String) (s : Signer) (w : Store)
    → (issue env aid tok s w).signers ≡ update_where (has_signer_id s.id) (send_row tok) w.signers
unfolding issue
signers-issue env aid tok s w = refl

issue_all-IsConsistent :
    (env : Env) (aid n : ℕ) (signers : List Signer) (w : Store)
    → IsConsistent w
    → AllOnlyOn aid w.signers signers
    → row_completed (agreement_row aid w) ≡ false
    → IsConsistent (issue_all env aid n signers w)
unfolding issue_all
issue_all-IsConsistent env aid n [] w i on unfinished = i
issue_all-IsConsistent env aid n (s ∷ rest) w i on unfinished =
    issue_all-IsConsistent env aid (suc n) rest (issue env aid (env.fresh n) s w)
      (issue-IsConsistent env aid (env.fresh n) s w i on.0 unfinished)
      (rw signers-issue (
        AllOnlyOn-update_where aid (has_signer_id s.id) (send_row (env.fresh n)) (λ r. (refl, refl))
          w.signers rest on.1))
      (rw agreements-issue unfinished)

dispatch-IsConsistent :
    (env : Env) (aid : ℕ) (v : View) (frozen : Bytes) (w : Store)
    → IsConsistent w
    → AllOnlyOn aid w.signers v.signers
    → row_completed (agreement_row aid w) ≡ false
    → IsConsistent (dispatch env aid v frozen w)
unfolding dispatch write_file
dispatch-IsConsistent env aid v frozen w i on unfinished =
    set_agreement-IsConsistent aid (dispatch_row env) (λ a. refl) (λ a h. cc) _
      (event-IsConsistent env aid EventType.doc_frozen none "" "" _ _ (
        set_agreement-IsConsistent aid (freeze_row env frozen) (λ a. refl) (λ a h. h) _
          (issue_all-IsConsistent env aid 0 v.signers _
            (Quiet-IsConsistent (Quiet-write_file aid frozen_pdf frozen w) i) on unfinished)))

send_out-IsConsistent :
    (env : Env) (aid : ℕ) (v : View) (frozen : Bytes) (w : Store)
    → IsConsistent w
    → AllOnlyOn aid w.signers v.signers
    → row_completed (agreement_row aid w) ≡ false
    → IsConsistent (send_out env aid (v, frozen) w).1
unfolding send_out
send_out-IsConsistent env aid v frozen w i on unfinished =
    let committed = dispatch env aid v frozen w in
    let told = emit WebhookEvent.envelope_sent aid v.row.owner_account_id committed in
    let mailed =
      Quiet-IsConsistent
        (Quiet-trans (Quiet-emit WebhookEvent.envelope_sent aid v.row.owner_account_id committed)
          (Quiet-invite_all env aid v v.signers (0, 0) told))
        (dispatch-IsConsistent env aid v frozen w i on unfinished) in
    log_emailed-IsConsistent env aid _ _ mailed
  where
    log_emailed-IsConsistent :
        (e : Env) (k sent : ℕ) (u : Store) → IsConsistent u → IsConsistent (log_emailed e k sent u)
    log_emailed-IsConsistent e k sent u j =
        if-IsConsistent (leb 1 sent) _ u
          (λ _. event-IsConsistent e k EventType.emailed none "" "" _ u j) (λ _. j)

-- What the checks of `send` have found.
pub record Sendable (aid : ℕ) (w : Store) (v : View) : Type 0 where
  pub row : Agreement
  pub found : agreement_row aid w ≡ some row
  pub is_view : v ≡ view_of w row
  pub draft : is_draft row.status ≡ true

Sendable-row :
    (env : Env) (aid : ℕ) (w : Store) (a : Agreement) (v : View) (b : Bytes)
    → agreement_row aid w ≡ some a
    → send_checks env aid w ≡ ok (v, b)
    → Sendable aid w v
unfolding send_checks get_agreement
Sendable-row env aid w a v b e h = record {
  row = a;
  found = e;
  is_view = ground arith;
  draft = ground arith;
}

Sendable-none :
    (env : Env) (aid : ℕ) (w : Store) (v : View) (b : Bytes)
    → agreement_row aid w ≡ none
    → send_checks env aid w ≡ ok (v, b)
    → ⊥
unfolding send_checks get_agreement
Sendable-none env aid w v b e h = ground arith

pub send_checks-Sendable :
    (env : Env) (aid : ℕ) (w : Store) (v : View) (b : Bytes)
    → send_checks env aid w ≡ ok (v, b)
    → Sendable aid w v
send_checks-Sendable env aid w v b h = go (agreement_row aid w) refl
  where
    go : (o : Option Agreement) → agreement_row aid w ≡ o → Sendable aid w v
    go none e = absurd (Sendable-none env aid w v b e h)
    go (some a) e = Sendable-row env aid w a v b e h

draft-unfinished : (s : Status) → is_draft s ≡ true → is_completed s ≡ false
draft-unfinished Status.draft h = refl
draft-unfinished _ h = ground arith

pub send-IsConsistent :
    (env : Env) (aid : ℕ) (w : Store) → IsConsistent w → IsConsistent (send env aid w).1
unfolding send
send-IsConsistent env aid w i =
    checked-IsConsistent (send_checks env aid w) (send_out env aid) w i
      (λ r e. passed r.0 r.1 (send_checks-Sendable env aid w r.0 r.1 e))
  where
    passed : (v : View) (b : Bytes) → Sendable aid w v → IsConsistent (send_out env aid (v, b) w).1
    passed v b s =
        let same_id : s.row.id ≡ aid =
          (==_iff s.row.id aid).0 (find-holds (has_id aid) w.agreements s.row s.found) in
        let on : AllOnlyOn aid w.signers v.signers =
          rw (s.is_view, same_id) (signers_of-AllOnlyOn aid w i) in
        send_out-IsConsistent env aid v b w i on
          (rw s.found (draft-unfinished s.row.status s.draft))

pub remind-IsConsistent :
    (env : Env) (aid : ℕ) (w : Store) → IsConsistent w → IsConsistent (remind env aid w).1
unfolding remind remind_pending
remind-IsConsistent env aid w i =
    checked-IsConsistent (remind_checks aid w) (remind_pending env aid) w i
      (λ pending e. Quiet-IsConsistent (Quiet-remind_all env aid pending 0 w) i)
