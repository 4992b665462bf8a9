-- ===== src/Esign/Invariant/Drafting.antt =====
-- The invariant under the creation of an agreement and the replacement of its signers.
use lifted_sign.Base.{
  some, ℕ, suc, ◌+◌, ◌≤◌, String, false, Option, none, List, [], ◌∷◌, ◌++◌, ◌≡◌, refl, arith, ◌==◌,
  any, delete_where, count_where, inl, inr, Bool-cases, ==_iff,
}
use lifted_sign.Base.RowLaws.{
  Distinct, Below, From, Fresh-From, any-append, count_where-append, count_where-delete_where,
  Distinct-append, Below-append, Below-weaken, Distinct-delete_where, Below-delete_where,
}
use lifted_sign.Store.{
  Store, Env, Agreement, Signer, EventType, Bytes, ok, is_completed, source_pdf,
}
use lifted_sign.Store.Reads.{agreement_row, of_agreement}
use lifted_sign.Esign.Quiet.{Quiet-write_file}
use lifted_sign.Esign.Submit.Record.{unsigned_of, unsigned_in}
use lifted_sign.Esign.Draft.{
  NewSigner, create_agreement, commit_agreement, new_agreement, new_signers, replace_signers,
  set_signers, draft_lock, count,
}
use lifted_sign.Esign.Invariant.{
  IsConsistent, done, agreement_key, signer_key, Quiet-IsConsistent, checked-IsConsistent,
  row_completed, done-agreement_row,
}
use lifted_sign.Esign.Invariant.Rules.{event-IsConsistent}

inserted-IsConsistent :
    (row : Agreement) (w : Store)
    → row.id ≡ w.next_agreement
    → is_completed row.status ≡ false
    → IsConsistent w
    → IsConsistent
        (record w { agreements = w.agreements ++ row ∷ []; next_agreement = suc w.next_agreement })
unfolding unsigned_of any
inserted-IsConsistent row w new open_row i = record {
  ids =
      Distinct-append agreement_key w.next_agreement w.agreements (row ∷ []) i.ids i.ids_below
        (tt, tt) (omega arith, tt);
  ids_below =
      Below-append agreement_key (suc w.next_agreement) w.agreements (row ∷ [])
        (Below-weaken agreement_key w.next_agreement (suc w.next_agreement) w.agreements
          (omega arith) i.ids_below)
        (omega arith, tt);
  signer_ids = i.signer_ids;
  signer_ids_below = i.signer_ids_below;
  sealed = λ x h. i.sealed x (ground (arith, any-append (done x) w.agreements (row ∷ [])));
}

pub create_agreement-IsConsistent :
    (env : Env) (name : String) (pdf : Bytes) (message created_by : String) (owner : Option ℕ)
    (w : Store)
    → IsConsistent w
    → IsConsistent (create_agreement env name pdf message created_by owner w).1
unfolding create_agreement commit_agreement
create_agreement-IsConsistent env name pdf message created_by owner w i =
    go (env.pdf.page_count pdf)
  where
    row : Agreement
    row = new_agreement env w.next_agreement name pdf message created_by owner

    go : (o : Option ℕ) → IsConsistent (commit_agreement env o row pdf w).1
    go none = Quiet-IsConsistent (Quiet-write_file w.next_agreement source_pdf pdf w) i
    go (some n) = event-IsConsistent env w.next_agreement EventType.created none "" "" _ _ (
        Quiet-IsConsistent (Quiet-write_file w.next_agreement source_pdf pdf _)
          (inserted-IsConsistent row w refl refl i))

From-new_signers :
    (sid n aid i : ℕ) (signers : List NewSigner)
    → n ≤ sid
    → From signer_key n (new_signers sid aid i signers)
unfolding new_signers
From-new_signers sid n aid i [] h = tt
From-new_signers sid n aid i (s ∷ rest) h =
    (h, From-new_signers (suc sid) n aid (suc i) rest (omega arith))

Below-new_signers :
    (sid n aid i : ℕ) (signers : List NewSigner)
    → sid + count signers ≤ n
    → Below signer_key n (new_signers sid aid i signers)
unfolding new_signers
Below-new_signers sid n aid i [] h = tt
Below-new_signers sid n aid i (s ∷ rest) h =
    (omega arith, Below-new_signers (suc sid) n aid (suc i) rest (omega arith))

Distinct-new_signers :
    (sid aid i : ℕ) (signers : List NewSigner) → Distinct signer_key (new_signers sid aid i signers)
unfolding new_signers
Distinct-new_signers sid aid i [] = tt
Distinct-new_signers sid aid i (s ∷ rest) = (
  Fresh-From signer_key (suc sid) sid _ (omega arith)
      (From-new_signers (suc sid) (suc sid) aid (suc i) rest (omega arith)),
  Distinct-new_signers (suc sid) aid (suc i) rest,
)

-- The new signers count for their own agreement only.
count-new_signers :
    (x sid aid i : ℕ) (signers : List NewSigner)
    → (x == aid) ≡ false
    → count_where (unsigned_in x) (new_signers sid aid i signers) ≡ 0
unfolding new_signers count_where
count-new_signers x sid aid i [] h = refl
count-new_signers x sid aid i (s ∷ rest) h =
    ground (arith, count-new_signers x (suc sid) aid (suc i) rest h)

draft_lock-open :
    (aid : ℕ) (w : Store) → draft_lock aid w ≡ ok tt → row_completed (agreement_row aid w) ≡ false
unfolding draft_lock
draft_lock-open aid w h = ground arith

replace_signers-IsConsistent :
    (aid : ℕ) (signers : List NewSigner) (w : Store)
    → IsConsistent w
    → row_completed (agreement_row aid w) ≡ false
    → IsConsistent (replace_signers aid signers w).1
unfolding replace_signers unsigned_of
replace_signers-IsConsistent aid signers w i unfinished = record {
  ids = i.ids;
  ids_below = i.ids_below;
  signer_ids =
      Distinct-append signer_key w.next_signer old (new_signers w.next_signer aid 0 signers)
        (Distinct-delete_where signer_key (of_agreement aid) w.signers i.signer_ids)
        (Below-delete_where signer_key w.next_signer (of_agreement aid) w.signers
          i.signer_ids_below)
        (Distinct-new_signers w.next_signer aid 0 signers)
        (From-new_signers w.next_signer w.next_signer aid 0 signers (omega arith));
  signer_ids_below =
      Below-append signer_key (w.next_signer + count signers) old
        (new_signers w.next_signer aid 0 signers)
        (Below-weaken signer_key w.next_signer (w.next_signer + count signers) old (omega arith) (
          Below-delete_where signer_key w.next_signer (of_agreement aid) w.signers
            i.signer_ids_below))
        (Below-new_signers w.next_signer _ aid 0 signers (omega arith));
  sealed = λ x h. elim (Bool-cases (x == aid)) [
    | inl e ↦ absurd (cc (rw (done-agreement_row x w i, (==_iff x aid).0 e, unfinished) at h))
    | inr e ↦ omega (
      arith,
      i.sealed x h,
      count_where-append (unsigned_in x) old (new_signers w.next_signer aid 0 signers),
      count_where-delete_where (unsigned_in x) (of_agreement aid) w.signers,
      count-new_signers x w.next_signer aid 0 signers e,
    )
  ];
}
  where
    old : List Signer
    old = delete_where (of_agreement aid) w.signers

pub set_signers-IsConsistent :
    (aid : ℕ) (signers : List NewSigner) (w : Store)
    → IsConsistent w
    → IsConsistent (set_signers aid signers w).1
unfolding set_signers
set_signers-IsConsistent aid signers w i =
    checked-IsConsistent (draft_lock aid w) (λ _. replace_signers aid signers) w i
      (λ u e. replace_signers-IsConsistent aid signers w i (draft_lock-open aid w (unit_lock u e)))
  where
    unit_lock : (u : Unit {0}) → draft_lock aid w ≡ ok u → draft_lock aid w ≡ ok tt
    unit_lock tt e = e
