-- ===== src/Esign/Invariant/Submitting.antt =====
-- `submit_signature` keeps the invariant: it finalizes only when no signer is left.
use lifted_sign.Base.{
  ℕ, String, Bool, true, Option, none, some, List, [], ◌∷◌, ◌≡◌, refl, arith, ◌==◌, All, inl, inr,
  Bool-cases, ==_iff,
}
use lifted_sign.Base.Int.{ℤ}
use lifted_sign.Store.{Store, Env, Signer, EventType, has_signer_id, set_signer, emit, WebhookEvent}
use lifted_sign.Esign.Quiet.{Quiet-emit}
use lifted_sign.Esign.Submit.Frame.{Quiet-notify_next_sequential, Quiet-record_values}
use lifted_sign.Esign.Submit.{
  reply, redrive, resubmit, accept_signature, run_decision, submit_signature,
}
use lifted_sign.Esign.Submit.Values.{Request}
use lifted_sign.Esign.Submit.Gates.{Decision, again, accept, submit_checks}
use lifted_sign.Esign.Submit.Record.{record_signature, unsigned_of, unsigned_in, sign_row}
use lifted_sign.Esign.Invariant.{
  IsConsistent, Quiet-IsConsistent, signers-IsConsistent, checked-IsConsistent,
}
use lifted_sign.Esign.Invariant.Rules.{event-IsConsistent}
use lifted_sign.Esign.Invariant.Sealing.{finalize-IsConsistent}

everyone :
    (env : Env) (req : Request) (sid x : ℕ) (signers : List Signer)
    → All
        (λ s.
          (s.id == sid) ≡ true → unsigned_in x (sign_row env req s) ≡ true → unsigned_in x s ≡ true)
        signers
everyone env req sid x [] = tt
everyone env req sid x (s ∷ rest) = (λ _ h. ground arith, everyone env req sid x rest)

record_signature-IsConsistent :
    (env : Env) (req : Request) (s : Signer) (values : List (ℤ × String)) (w : Store)
    → IsConsistent w
    → IsConsistent (record_signature env req s values w)
unfolding record_signature set_signer
record_signature-IsConsistent env req s values w i =
    event-IsConsistent env s.agreement_id EventType.signed (some s.id) _ _ _ _ (
      signers-IsConsistent (has_signer_id s.id) (sign_row env req) (λ r. refl) _
        (λ x _. everyone env req s.id x _)
        (Quiet-IsConsistent (Quiet-record_values env req s _ values [] w) i))

reply-store : (b : Bool) (r : Option Bool × Store) → (reply b r).1 ≡ r.1
reply-store b (none, w) = refl
reply-store b (some d, w) = refl

-- The emitted webhook changes no signer.
unsigned_of-emit :
    (aid : ℕ) (w : Store) (e : WebhookEvent) (o : Option ℕ)
    → unsigned_of aid (emit e aid o w) ≡ unsigned_of aid w
unfolding unsigned_of emit
unsigned_of-emit aid w e o = refl

accept_signature-IsConsistent :
    (env : Env) (req : Request) (s : Signer) (values : List (ℤ × String)) (w : Store)
    → IsConsistent w
    → IsConsistent (accept_signature env req s values w).1
unfolding accept_signature
accept_signature-IsConsistent env req s values w i =
    let signed = record_signature env req s values w in
    let told =
      Quiet-IsConsistent (Quiet-emit WebhookEvent.signer_signed s.agreement_id _ signed)
        (record_signature-IsConsistent env req s values w i) in
    elim (Bool-cases (unsigned_of s.agreement_id signed == 0)) [
      | inl last ↦
          rw (last, reply-store)
            (finalize-IsConsistent env s.agreement_id _ (rw unsigned_of-emit ((==_iff _ 0).0 last))
              told)
      | inr more ↦
          rw more (Quiet-IsConsistent (Quiet-notify_next_sequential env s.agreement_id _) told)
    ]

redrive-unsigned : (s : Signer) (w : Store) → redrive s w ≡ true → unsigned_of s.agreement_id w ≡ 0
unfolding redrive
redrive-unsigned s w h = ground arith

resubmit-IsConsistent :
    (env : Env) (s : Signer) (w : Store) → IsConsistent w → IsConsistent (resubmit env s w).1
unfolding resubmit
resubmit-IsConsistent env s w i = elim (Bool-cases (redrive s w)) [
  | inl go ↦
      rw (go, reply-store) (finalize-IsConsistent env s.agreement_id w (redrive-unsigned s w go) i)
  | inr stop ↦ rw stop i
]

run_decision-IsConsistent :
    (env : Env) (req : Request) (d : Decision) (w : Store)
    → IsConsistent w
    → IsConsistent (run_decision env req d w).1
run_decision-IsConsistent env req (again s) w i = resubmit-IsConsistent env s w i
run_decision-IsConsistent env req (accept s values) w i =
    accept_signature-IsConsistent env req s values w i

pub submit_signature-IsConsistent :
    (env : Env) (req : Request) (w : Store)
    → IsConsistent w
    → IsConsistent (submit_signature env req w).1
unfolding submit_signature
submit_signature-IsConsistent env req w i =
    checked-IsConsistent (submit_checks env req w) (run_decision env req) w i
      (λ d e. run_decision-IsConsistent env req d w i)
