-- ===== src/Esign/Submit/Again.antt =====
-- The re-POST of a signer who has signed, in `submit_signature` of sign/esign.py.
use lifted_sign.Base.{
  ℕ, Bool, true, false, not, ◌&&◌, Option, none, some, ◌≡◌, refl, ◌∙◌, ap, if◌then◌else◌,
  Bool-cases, inl, inr, any,
}
use lifted_sign.Base.Text.{str_eq}
use lifted_sign.Store.{
  Store, Env, Signer, Result, ok, err, ◌>>=◌, checked, event, set_agreement, is_signed,
  is_completed,
}
use lifted_sign.Store.Reads.{View, get_agreement, challenge_unmet, write_file, signer_by_token}
use lifted_sign.Esign.Quiet.{Quiet-deliver}
use lifted_sign.Esign.Seal.{Sealed, claim, complete, release}
use lifted_sign.Esign.Finalize.{settle, sealed_document, claim_and_seal, finalize_view, finalize}
use lifted_sign.Esign.Submit.{reply, redrive, resubmit, run_decision, submit_signature}
use lifted_sign.Esign.Submit.Values.{Request}
use lifted_sign.Esign.Submit.Gates.{link_gates, submit_checks, decide}
use lifted_sign.Esign.Submit.Safety.{IsAdmitted, link_gates-IsAdmitted}

signers-if :
    (b : Bool) (u v w : Store)
    → u.signers ≡ w.signers
    → v.signers ≡ w.signers
    → (if b then u else v).signers ≡ w.signers
signers-if true u v w h k = h
signers-if false u v w h k = k

signers-complete :
    (env : Env) (aid : ℕ) (s : Sealed) (w : Store) → (complete env aid s w).signers ≡ w.signers
unfolding complete write_file set_agreement event
signers-complete env aid s w =
    signers-if (env.has_cert && not (str_eq s.method "pades")) _ _ w refl refl

signers-settle :
    (env : Env) (aid : ℕ) (v : View) (o : Option Sealed) (w : Store)
    → (settle env aid v o w).1.signers ≡ w.signers
unfolding settle release
signers-settle env aid v none w = refl
signers-settle env aid v (some s) w =
    (Quiet-deliver env aid v (complete env aid s w)).signers ∙ signers-complete env aid s w

signers-claim : (env : Env) (aid : ℕ) (w : Store) → (claim env aid w).1.signers ≡ w.signers
unfolding claim
signers-claim env aid w = refl

signers-finalize_view :
    (env : Env) (aid : ℕ) (o : Option View) (w : Store)
    → (finalize_view env aid o w).1.signers ≡ w.signers
unfolding finalize_view claim_and_seal
signers-finalize_view env aid none w = refl
signers-finalize_view env aid (some v) w = elim (Bool-cases (is_completed v.row.status)) [
  | inl c ↦ rw c refl
  | inr c ↦ elim (Bool-cases (any challenge_unmet v.signers)) [
    | inl u ↦ rw (c, u) refl
    | inr u ↦ elim (Bool-cases (claim env aid w).0) [
      | inl k ↦
          rw (c, u, k)
            (signers-settle env aid v (sealed_document env aid v w) (claim env aid w).1
              ∙ signers-claim env aid w)
      | inr k ↦ rw (c, u, k) (signers-claim env aid w)
    ]
  ]
]

signers-reply : (already : Bool) (r : Option Bool × Store) → (reply already r).1 ≡ r.1
signers-reply already (none, w) = refl
signers-reply already (some b, w) = refl

signers-resubmit : (env : Env) (s : Signer) (w : Store) → (resubmit env s w).1.signers ≡ w.signers
unfolding resubmit finalize
signers-resubmit env s w = elim (Bool-cases (redrive s w)) [
  | inl e ↦ rw e (
      ap (λ u. u.signers) (signers-reply true (finalize env s.agreement_id w))
      ∙ signers-finalize_view env s.agreement_id (get_agreement s.agreement_id w) w)
  | inr e ↦ rw e refl
]

-- A submission over the link of a signer who has signed already changes no signer, whether it is
-- refused or drives an unfinished seal again: the recorded signature, time and address stay.
pub submit_signature-again :
    (env : Env) (req : Request) (w : Store) (s : Signer)
    → signer_by_token req.token w ≡ some s
    → is_signed s.status ≡ true
    → (submit_signature env req w).1.signers ≡ w.signers
unfolding submit_signature submit_checks
submit_signature-again env req w s found signed = go (link_gates env req w) refl
  where
    go :
        (r : Result Signer)
        → link_gates env req w ≡ r
        → (checked (r >>= decide env req w) (run_decision env req) w).1.signers ≡ w.signers
    go (err e) h = refl
    go (ok t) h =
        let i : IsAdmitted env req w t = link_gates-IsAdmitted env req w t h in
        let same : t ≡ s = cc (i.holder, found) in
        let done : is_signed t.status ≡ true = rw same signed in rw done (signers-resubmit env t w)
