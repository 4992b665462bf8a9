-- ===== src/Esign/Invariant/Sealing.antt =====
-- `finalize` keeps the invariant where no signer is left unsigned.
use lifted_sign.Base.{
  ℕ, false, not, Option, none, some, ◌≡◌, refl, arith, ◌==◌, any, inl, inr, Bool-cases, ==_iff,
  ◌&&◌,
}
use lifted_sign.Base.Text.{str_eq}
use lifted_sign.Base.RowLaws.{any-update_where, Distinct-update_where, Below-update_where}
use lifted_sign.Store.{
  Store, Env, Agreement, Status, EventType, has_id, set_agreement, is_completed, executed_pdf,
}
use lifted_sign.Store.Reads.{View, get_agreement, write_file, challenge_unmet}
use lifted_sign.Esign.Quiet.{Quiet-deliver, Quiet-write_file}
use lifted_sign.Esign.Seal.{
  Sealed, claim, claimable, mark_sealing, release, sealing_row, prior_status, complete,
  complete_row, seal_detail,
}
use lifted_sign.Esign.Finalize.{settle, claim_and_seal, finalize_view, finalize}
use lifted_sign.Esign.Submit.Record.{unsigned_of}
use lifted_sign.Esign.Invariant.{
  IsConsistent, done, agreement_key, Quiet-IsConsistent, agreements-IsConsistent,
}
use lifted_sign.Esign.Invariant.Rules.{event-IsConsistent, if-IsConsistent}

pub claim-IsConsistent :
    (env : Env) (aid : ℕ) (w : Store) → IsConsistent w → IsConsistent (claim env aid w).1
unfolding claim
claim-IsConsistent env aid w i =
    agreements-IsConsistent (claimable env.now aid) (mark_sealing env.now) (λ a. refl)
      (λ x a p h. ground arith) w i

pub release-IsConsistent :
    (aid : ℕ) (prior : Status) (w : Store)
    → is_completed prior ≡ false
    → IsConsistent w
    → IsConsistent (release aid prior w)
unfolding release
release-IsConsistent aid prior w unfinished i =
    agreements-IsConsistent (sealing_row aid) (λ a. record a { status = prior }) (λ a. refl)
      (λ x a p h. ground arith) w i

completed_row-IsConsistent :
    (env : Env) (aid : ℕ) (s : Sealed) (w : Store)
    → unsigned_of aid w ≡ 0
    → IsConsistent w
    → IsConsistent (set_agreement aid (complete_row env s) w)
unfolding set_agreement unsigned_of
completed_row-IsConsistent env aid s w all_signed i = record {
  ids = Distinct-update_where agreement_key (has_id aid) f (λ a. refl) w.agreements i.ids;
  ids_below =
      Below-update_where agreement_key w.next_agreement (has_id aid) f (λ a. refl) w.agreements
        i.ids_below;
  signer_ids = i.signer_ids;
  signer_ids_below = i.signer_ids_below;
  sealed = λ x h. elim (Bool-cases (x == aid)) [
    | inl e ↦ rw ((==_iff x aid).0 e) all_signed
    | inr e ↦
        i.sealed x (any-update_where (done x) (has_id aid) f (λ a p q. ground arith) w.agreements h)
  ];
}
  where
    f : Agreement → Agreement
    f = complete_row env s

pub complete-IsConsistent :
    (env : Env) (aid : ℕ) (s : Sealed) (w : Store)
    → unsigned_of aid w ≡ 0
    → IsConsistent w
    → IsConsistent (complete env aid s w)
unfolding complete write_file unsigned_of
complete-IsConsistent env aid s w all_signed i =
    let stored = Quiet-IsConsistent (Quiet-write_file aid executed_pdf s.executed w) i in
    let logged =
      event-IsConsistent env aid EventType.doc_sealed none "" "" (seal_detail env s) _
        (completed_row-IsConsistent env aid s _ all_signed stored) in
    event-IsConsistent env aid EventType.completed none "" ""
      "executed copy + certificate generated" _
      (if-IsConsistent (env.has_cert && not (str_eq s.method "pades")) _ _
        (λ _.
          event-IsConsistent env aid EventType.doc_seal_degraded none "" ""
            "signing cert configured but PAdES certification failed; sealed with AES fallback" _
            logged)
        (λ _. logged))

prior_status-open : (s : Status) → is_completed s ≡ false → is_completed (prior_status s) ≡ false
prior_status-open Status.sealing h = refl
prior_status-open _ h = h

claim-unsigned :
    (env : Env) (aid : ℕ) (w : Store) → unsigned_of aid (claim env aid w).1 ≡ unsigned_of aid w
unfolding claim unsigned_of
claim-unsigned env aid w = refl

settle-IsConsistent :
    (env : Env) (aid : ℕ) (v : View) (o : Option Sealed) (w : Store)
    → is_completed v.row.status ≡ false
    → unsigned_of aid w ≡ 0
    → IsConsistent w
    → IsConsistent (settle env aid v o w).1
unfolding settle
settle-IsConsistent env aid v none w unfinished all_signed i =
    release-IsConsistent aid _ w (prior_status-open v.row.status unfinished) i
settle-IsConsistent env aid v (some s) w unfinished all_signed i =
    Quiet-IsConsistent (Quiet-deliver env aid v _) (complete-IsConsistent env aid s w all_signed i)

finalize_view-IsConsistent :
    (env : Env) (aid : ℕ) (o : Option View) (w : Store)
    → unsigned_of aid w ≡ 0
    → IsConsistent w
    → IsConsistent (finalize_view env aid o w).1
unfolding finalize_view claim_and_seal
finalize_view-IsConsistent env aid none w all_signed i = i
finalize_view-IsConsistent env aid (some v) w all_signed i =
    elim (Bool-cases (is_completed v.row.status)) [
      | inl c ↦ rw c i
      | inr c ↦ rw c (elim (Bool-cases (any challenge_unmet v.signers)) [
        | inl u ↦ rw u i
        | inr u ↦ rw u (elim (Bool-cases (claim env aid w).0) [
          | inl won ↦ rw won (
              settle-IsConsistent env aid v _ _ c (rw claim-unsigned all_signed)
                (claim-IsConsistent env aid w i))
          | inr lost ↦ rw lost (claim-IsConsistent env aid w i)
        ])
      ])
    ]

-- Where every signer has signed, `finalize` keeps the invariant.
pub finalize-IsConsistent :
    (env : Env) (aid : ℕ) (w : Store)
    → unsigned_of aid w ≡ 0
    → IsConsistent w
    → IsConsistent (finalize env aid w).1
unfolding finalize
finalize-IsConsistent env aid w = finalize_view-IsConsistent env aid (get_agreement aid w) w
