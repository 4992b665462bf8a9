-- ===== src/Esign/Finalize/Idempotent.antt =====
-- Repeated calls of `finalize` in sign/esign.py.
use lifted_sign.Base.{
  ℕ, Bool, true, false, Option, none, some, ◌≡◌, refl, inl, inr, Bool-cases, any, find-holds, ◌∙◌,
  sym, ◌&&◌, not, if◌then◌else◌, update_where,
}
use lifted_sign.Base.Keys.{find-update_where}
use lifted_sign.Base.Text.{str_eq}
use lifted_sign.Store.{Store, Env, Agreement, has_id, set_agreement, event, is_completed}
use lifted_sign.Store.Reads.{
  View, get_agreement, agreement_row, challenge_unmet, view_of, write_file,
}
use lifted_sign.Esign.Seal.{Sealed, claim, claimable, mark_sealing, complete, complete_row}
use lifted_sign.Esign.Finalize.{
  settle, claim_and_seal, finalize_view, finalize, completed_now, sealed_document,
}
use lifted_sign.Esign.Quiet.{Quiet-deliver}
use lifted_sign.Esign.Invariant.{agreement_key, row_completed}

-- A completed agreement is not sealed again.
pub finalize-completed :
    (env : Env) (aid : ℕ) (w : Store) (a : Agreement)
    → agreement_row aid w ≡ some a
    → is_completed a.status ≡ true
    → finalize env aid w ≡ (some true, w)
unfolding finalize finalize_view get_agreement
finalize-completed env aid w a found c = rw (finalize, finalize_view, get_agreement, found, c) refl

agreements-if :
    (b : Bool) (u v : Store)
    → u.agreements ≡ v.agreements
    → (if b then u else v).agreements ≡ v.agreements
agreements-if true u v h = h
agreements-if false u v h = refl

agreements-complete :
    (env : Env) (aid : ℕ) (s : Sealed) (w : Store)
    → (complete env aid s w).agreements
      ≡ update_where (has_id aid) (complete_row env s) w.agreements
unfolding complete write_file set_agreement event
agreements-complete env aid s w =
    agreements-if (env.has_cert && not (str_eq s.method "pades")) _ _ refl

agreement_row-complete :
    (env : Env) (aid : ℕ) (s : Sealed) (w : Store) (a : Agreement)
    → agreement_row aid w ≡ some a
    → agreement_row aid (complete env aid s w) ≡ some (complete_row env s a)
agreement_row-complete env aid s w a found = rw (
  agreements-complete env aid s w,
  find-update_where agreement_key aid (has_id aid) (complete_row env s) (λ b. refl) w.agreements a
      found,
  find-holds (has_id aid) w.agreements a found,
)

agreement_row-claim :
    (env : Env) (aid : ℕ) (w : Store) (a : Agreement)
    → agreement_row aid w ≡ some a
    → (b : Agreement) × (agreement_row aid (claim env aid w).1 ≡ some b)
unfolding claim
agreement_row-claim env aid w a found = (
  _,
  find-update_where agreement_key aid (claimable env.now aid) (mark_sealing env.now) (λ b. refl)
      w.agreements a found,
)

settle-completed :
    (env : Env) (aid : ℕ) (v : View) (o : Option Sealed) (w : Store) (a : Agreement)
    → agreement_row aid w ≡ some a
    → (settle env aid v o w).0 ≡ some true
    → row_completed (agreement_row aid (settle env aid v o w).1) ≡ true
unfolding settle
settle-completed env aid v none w a found h = cc
settle-completed env aid v (some s) w a found h = rw (
  (Quiet-deliver env aid v (complete env aid s w)).agreements,
  agreement_row-complete env aid s w a found,
)

completed_now-row :
    (aid : ℕ) (w : Store) → completed_now aid w ≡ row_completed (agreement_row aid w)
completed_now-row aid w = elim (agreement_row aid w) [ none ↦ refl | some a ↦ refl ]

some-true : {b : Bool} → some b ≡ some true → b ≡ true
some-true h = cc h

claim_and_seal-completed :
    (env : Env) (aid : ℕ) (v : View) (w : Store) (a : Agreement)
    → agreement_row aid w ≡ some a
    → (claim_and_seal env aid v w).0 ≡ some true
    → row_completed (agreement_row aid (claim_and_seal env aid v w).1) ≡ true
unfolding claim_and_seal
claim_and_seal-completed env aid v w a found h = elim (Bool-cases (claim env aid w).0) [
  | inl won ↦
      let (b, here) = agreement_row-claim env aid w a found in
      rw won (
        settle-completed env aid v (sealed_document env aid v w) (claim env aid w).1 b here
          (rw won at h))
  | inr lost ↦ rw lost (sym (completed_now-row aid (claim env aid w).1) ∙ some-true (rw lost at h))
]

finalize-row :
    (env : Env) (aid : ℕ) (w : Store)
    → (finalize env aid w).0 ≡ some true
    → row_completed (agreement_row aid (finalize env aid w).1) ≡ true
unfolding finalize get_agreement finalize_view
finalize-row env aid w = go (agreement_row aid w) refl
  where
    go :
        (o : Option Agreement)
        → agreement_row aid w ≡ o
        → (finalize_view env aid (elim o [ none ↦ none | some a ↦ some (view_of w a) ]) w).0
          ≡ some true
        → row_completed (
            agreement_row aid
              (finalize_view env aid (elim o [ none ↦ none | some a ↦ some (view_of w a) ]) w).1)
          ≡ true
    go none found h = cc h
    go (some a) found h = elim (Bool-cases (is_completed a.status)) [
      | inl c ↦ rw (c, found) c
      | inr c ↦ elim (Bool-cases (any challenge_unmet (view_of w a).signers)) [
        | inl u ↦ cc (rw (c, u) at h)
        | inr u ↦
            rw (c, u) (claim_and_seal-completed env aid (view_of w a) w a found (rw (c, u) at h))
      ]
    ]

-- Once `finalize` has reported success, a further call, at any time and with any outside world,
-- reports success and changes nothing.
pub finalize-idempotent :
    (env env' : Env) (aid : ℕ) (w : Store)
    → (finalize env aid w).0 ≡ some true
    → finalize env' aid (finalize env aid w).1 ≡ (some true, (finalize env aid w).1)
finalize-idempotent env env' aid w h =
    go (agreement_row aid (finalize env aid w).1) refl (finalize-row env aid w h)
  where
    go :
        (o : Option Agreement)
        → agreement_row aid (finalize env aid w).1 ≡ o
        → row_completed o ≡ true
        → finalize env' aid (finalize env aid w).1 ≡ (some true, (finalize env aid w).1)
    go none found c = absurd (cc c)
    go (some a) found c = finalize-completed env' aid (finalize env aid w).1 a found c
