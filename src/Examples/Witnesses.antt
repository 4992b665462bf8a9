-- ===== src/Examples/Witnesses.antt =====
-- The theorems at concrete inputs.
use mathlib.Core.Path.{subst}
use lifted_sign.Base.{
  ℕ, true, false, Option, none, some, [], ◌∷◌, ◌≡◌, ◌≢◌, ◌↔◌, refl, any, all, find, select, arith,
  update_where, delete_where, count_where, sort_by, inl,
}
use lifted_sign.Base.Text.{show, strip, lower, clip}
use lifted_sign.Base.Int.{pos}
use lifted_sign.Store.{Agreement, Error, ok, err, empty, is_signed}
use lifted_sign.Store.Reads.{
  agreement_row, presented_bytes, read_file, challenge_unmet, signer_by_token, get_agreement,
  get_agreement_owned, view_of, signers_of, strip_signer_secrets, token_expired,
  signer_render_blocked, next_order_to_notify, order_of,
}
use lifted_sign.Esign.Draft.{create_agreement, commit_agreement, set_signers}
use lifted_sign.Esign.Send.{send, send_checks, self_sign_link}
use lifted_sign.Esign.Send.Frozen.{IsDispatched, send-dispatches, token_expired-due}
use lifted_sign.Esign.Seal.{claim}
use lifted_sign.Esign.Seal.Claim.{claim_exclusive, claim_reclaims}
use lifted_sign.Esign.Finalize.{finalize}
use lifted_sign.Esign.Finalize.Idempotent.{finalize-idempotent}
use lifted_sign.Esign.Finalize.Ended.{finalize-ended}
use lifted_sign.Esign.Sweep.{sweep_expired, due, expire_row}
use lifted_sign.Esign.Sweep.Bulk.{sweep_expired-bulk}
use lifted_sign.Esign.Owner.{delete_agreements_for_owner, row_of_owner}
use lifted_sign.Esign.Owner.Isolation.{
  IsPurged, get_agreement_owned-owner, delete_agreements_for_owner-exact,
}
use lifted_sign.Esign.Submit.{submit_signature}
use lifted_sign.Esign.Submit.Gates.{accept, submit_checks, before, link_gates}
use lifted_sign.Esign.Submit.Safety.{IsAdmitted, IsCleared, submit_checks-accepts}
use lifted_sign.Esign.Submit.Refusal.{submit_signature-closed, signer_render_blocked-iff-link_gates}
use lifted_sign.Esign.Submit.Turn.{
  unsigned, passes_order, passes_order-exists, precedes, any-before-eq-precedes,
}
use lifted_sign.Esign.Submit.Record.{unsigned_of}
use lifted_sign.Esign.Invariant.{IsConsistent, done}
use lifted_sign.Esign.Reach.{Step, Reach, completed-signed, Step-IsConsistent}
use lifted_sign.Examples.{
  world, request, answers, ann, created, peopled, opened, desk, desk_with, out_row, bob_row,
  bob_signed, ann_signed, void_row, stuck_row, draft_row,
}

desk_with-IsConsistent :
    (a : Agreement) → a.id ≡ 1 → done 1 a ≡ false → IsConsistent (desk_with a bob_row)
unfolding any
desk_with-IsConsistent a same unfinished = record {
  ids = (tt, tt);
  ids_below = (ground arith, tt);
  signer_ids = ((λ e. ground arith, tt), (tt, tt));
  signer_ids_below = (omega arith, (omega arith, tt));
  sealed = λ x h. ground arith;
}

desk-IsConsistent : IsConsistent desk
desk-IsConsistent = desk_with-IsConsistent out_row refl refl

desk-row : agreement_row 1 desk ≡ some out_row
unfolding find
desk-row = refl

bob-accepted :
    submit_checks (world 300) (request "token-b" answers) desk
    ≡ ok (accept bob_row ((pos 1, "Director") ∷ []))
unfolding submit_checks find any all signers_of sort_by select strip_signer_secrets show strip lower
bob-accepted = refl

submit_checks-accepts_example :
    IsAdmitted (world 300) (request "token-b" answers) desk bob_row
    × IsCleared (request "token-b" answers) desk bob_row
    × (is_signed bob_row.status ≡ false)
submit_checks-accepts_example =
    submit_checks-accepts (world 300) (request "token-b" answers) desk bob_row
      ((pos 1, "Director") ∷ []) bob-accepted

finalize-done : (finalize (world 400) 1 (desk_with out_row bob_signed)).0 ≡ some true
unfolding finalize find any signers_of sort_by select challenge_unmet strip_signer_secrets
    count_where read_file
finalize-done = refl

finalize-idempotent_example :
    finalize (world 500) 1 (finalize (world 400) 1 (desk_with out_row bob_signed)).1
    ≡ (some true, (finalize (world 400) 1 (desk_with out_row bob_signed)).1)
finalize-idempotent_example =
    finalize-idempotent (world 400) (world 500) 1 (desk_with out_row bob_signed) finalize-done

claim-won : (claim (world 300) 1 desk).0 ≡ true
unfolding claim count_where
claim-won = refl

claim_exclusive_example : (claim (world 420) 1 (claim (world 300) 1 desk).1).0 ≡ false
claim_exclusive_example =
    claim_exclusive (world 300) (world 420) 1 desk out_row desk-IsConsistent desk-row claim-won
      (omega arith)

row_of_desk : (a : Agreement) → a.id ≡ 1 → agreement_row 1 (desk_with a bob_row) ≡ some a
unfolding find
row_of_desk a same = rw same refl

claim_reclaims_example : (claim (world 1121) 1 (desk_with stuck_row bob_row)).0 ≡ true
claim_reclaims_example =
    claim_reclaims (world 1121) 1 (desk_with stuck_row bob_row) stuck_row
      (desk_with-IsConsistent stuck_row refl refl) (row_of_desk stuck_row refl) refl
      (λ t e. ground arith)

finalize-ended_example :
    (claim (world 300) 1 (desk_with void_row bob_row) ≡ (false, desk_with void_row bob_row))
    × (finalize (world 300) 1 (desk_with void_row bob_row)
        ≡ (some false, desk_with void_row bob_row))
finalize-ended_example =
    finalize-ended (world 300) 1 (desk_with void_row bob_row) void_row
      (desk_with-IsConsistent void_row refl refl) (row_of_desk void_row refl) (inl refl)

Step-IsConsistent_example : IsConsistent (sweep_expired (world 9000000) desk).1
Step-IsConsistent_example = Step-IsConsistent (Step.sweep (world 9000000) desk) desk-IsConsistent

peopled-sendable : send_checks (world 200) 1 peopled ≡ ok (view_of peopled draft_row, 1 ∷ [])
unfolding send_checks find signers_of sort_by select read_file
peopled-sendable = refl

send-dispatches_example :
    (a : Agreement) × IsDispatched (world 200) (1 ∷ []) 1 (send (world 200) 1 peopled).1 a
send-dispatches_example =
    send-dispatches (world 200) 1 peopled (view_of peopled draft_row) (1 ∷ []) peopled-sendable

bob-holds : signer_by_token "token-b" (desk_with void_row bob_row) ≡ some bob_row
unfolding signer_by_token find
bob-holds = refl

submit_signature-closed_example :
    (e : Error) × (submit_signature
        (world 300)
        (request "token-b" answers)
        (desk_with void_row bob_row)
      ≡ (err e, desk_with void_row bob_row))
submit_signature-closed_example =
    submit_signature-closed (world 300) (request "token-b" answers) (desk_with void_row bob_row)
      bob_row void_row bob-holds (row_of_desk void_row refl) (λ o. cc o.live)

bob-unsigned : any unsigned (view_of desk out_row).signers ≡ true
unfolding any signers_of sort_by select strip_signer_secrets
bob-unsigned = refl

passes_order-exists_example :
    any (passes_order (view_of desk out_row)) (view_of desk out_row).signers ≡ true
passes_order-exists_example = passes_order-exists (view_of desk out_row) bob-unsigned

any-before-eq-precedes_example :
    any (before bob_row) (ann_signed ∷ bob_row ∷ [])
    ≡ precedes (next_order_to_notify (ann_signed ∷ bob_row ∷ [])) (order_of bob_row)
any-before-eq-precedes_example = any-before-eq-precedes bob_row (ann_signed ∷ bob_row ∷ [])

delete_agreements_for_owner-exact_example :
    ((delete_agreements_for_owner 5 desk).0 ≡ count_where (row_of_owner 5) desk.agreements)
    × IsPurged 5 desk (delete_agreements_for_owner 5 desk).1
delete_agreements_for_owner-exact_example =
    delete_agreements_for_owner-exact 5 desk desk-IsConsistent (λ e. ground arith)

sweep_expired-bulk_example :
    (sweep_expired (world 9000000) desk).1.agreements
    ≡ update_where (due 9000000) (expire_row 9000000) desk.agreements
sweep_expired-bulk_example = sweep_expired-bulk (world 9000000) desk desk-IsConsistent

owner-reads : get_agreement_owned 1 (some 5) desk ≡ some (view_of desk out_row)
unfolding get_agreement_owned find
owner-reads = refl

get_agreement_owned-owner_example :
    ((view_of desk out_row).row.owner_account_id ≡ some 5)
    × (◌≢◌ {A = Option ℕ} (some 5) (some 0))
    × (◌≢◌ {A = Option ℕ} (some 5) none)
    × (get_agreement 1 desk ≡ some (view_of desk out_row))
get_agreement_owned-owner_example =
    get_agreement_owned-owner 1 (some 5) desk (view_of desk out_row) owner-reads

desk-presented : presented_bytes out_row desk ≡ some (1 ∷ [])
unfolding presented_bytes read_file find
desk-presented = refl

desk-IsDispatched : IsDispatched (world 200) (1 ∷ []) 1 desk out_row
desk-IsDispatched = record {
  row = desk-row;
  out = refl;
  presented = desk-presented;
  hash = refl;
  sent = refl;
  window = refl;
}

token_expired-due_example :
    (token_expired 5184201 out_row ≡ true → due 5184201 out_row ≡ true)
    × (due 5184201 out_row ≡ true → token_expired 5184202 out_row ≡ true)
token_expired-due_example =
    token_expired-due (world 200) (1 ∷ []) 1 desk out_row 5184201 desk-IsDispatched
      (λ e. ground arith)

desk-bob : signer_by_token "token-b" desk ≡ some bob_row
unfolding signer_by_token find
desk-bob = refl

signer_render_blocked-iff-link_gates_example :
    (signer_render_blocked (world 300) "token-b" desk ≡ none)
    ↔ (link_gates (world 300) (request "token-b" answers) desk ≡ ok bob_row)
unfolding challenge_unmet
signer_render_blocked-iff-link_gates_example =
    signer_render_blocked-iff-link_gates (world 300) (request "token-b" answers) desk bob_row
      out_row refl desk-bob desk-row refl refl refl

created-run : (create_agreement (world 100) "Lease" (1 ∷ []) "" "" (some 5) empty).1 ≡ created
unfolding create_agreement commit_agreement clip show
created-run = refl

peopled-run : (set_signers 1 (ann ∷ []) created).1 ≡ peopled
unfolding set_signers find delete_where lower strip
peopled-run = refl

opened-run : (self_sign_link (world 200) 1 1 peopled).1 ≡ opened
unfolding self_sign_link find update_where clip
opened-run = refl

opened-reached : Reach empty opened
opened-reached = subst (Reach empty) opened-run (
    Reach.next
      (subst (Reach empty) peopled-run (
        Reach.next
          (subst (Reach empty) created-run
            (Reach.next Reach.here (Step.create (world 100) "Lease" (1 ∷ []) "" "" (some 5) empty)))
          (Step.signers 1 (ann ∷ []) created)))
      (Step.self_sign (world 200) 1 1 peopled))

ann-completes :
    any (done 1) (submit_signature (world 300) (request "token-a" []) opened).1.agreements ≡ true
unfolding any all submit_signature find select count_where update_where signers_of sort_by
    strip_signer_secrets read_file strip
ann-completes = refl

completed-signed_example :
    unsigned_of 1 (submit_signature (world 300) (request "token-a" []) opened).1 ≡ 0
completed-signed_example =
    completed-signed (submit_signature (world 300) (request "token-a" []) opened).1 1
      (Reach.next opened-reached (Step.submit (world 300) (request "token-a" []) opened))
      ann-completes
