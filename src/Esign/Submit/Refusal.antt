-- ===== src/Esign/Submit/Refusal.antt =====
-- Submissions that are turned away: a closed agreement, and the page that agrees with the gates.
use lifted_sign.Base.{
  ℕ, String, Bool, true, false, not, ◌&&◌, ◌||◌, truthy, none, some, ◌≡◌, ◌↔◌, ◌∙◌, sym, refl,
  if◌then◌else◌,
}
use lifted_sign.Store.{
  Store, Env, Signer, Agreement, Error, Result, ok, err, is_signed, is_revoked, is_expired,
  is_completed, is_signer_declined, ◌>>=◌, checked,
}
use lifted_sign.Store.Reads.{
  agreement_row, signer_by_token, Block, block_of, token_expired, signer_render_blocked,
  challenge_unmet,
}
use lifted_sign.Esign.Submit.{submit_signature, run_decision}
use lifted_sign.Esign.Submit.Values.{Request}
use lifted_sign.Esign.Submit.Gates.{link_gates, link_over, submit_checks, decide}
use lifted_sign.Esign.Submit.Safety.{IsOpen, IsAdmitted, link_gates-IsAdmitted}

-- A link of a stored agreement that is not open at the time signs nothing: the submission is
-- refused and changes nothing.
pub submit_signature-closed :
    (env : Env) (req : Request) (w : Store) (s : Signer) (a : Agreement)
    → signer_by_token req.token w ≡ some s
    → agreement_row s.agreement_id w ≡ some a
    → ¬ IsOpen env.now a
    → (e : Error) × (submit_signature env req w ≡ (err e, w))
unfolding submit_signature submit_checks
submit_signature-closed env req w s a found row closed = go (link_gates env req w) refl
  where
    go :
        (r : Result Signer)
        → link_gates env req w ≡ r
        → (e : Error) × (checked (r >>= decide env req w) (run_decision env req) w ≡ (err e, w))
    go (err e) h = (e, refl)
    go (ok t) h =
        let i : IsAdmitted env req w t = link_gates-IsAdmitted env req w t h in
        let same : t ≡ s = cc (i.holder, found) in absurd (closed (i.agreement a (rw same row)))

block_if :
    (r e c t : Bool)
    → (if r
        then some Block.revoked
        else if e
        then some Block.expired
        else if not false && not c && t
        then some Block.expired
        else none)
      ≡ none
    → (r ≡ false) × (e ≡ false) × (c ≡ false → t ≡ false)
block_if true e c t h = absurd (cc h)
block_if false true c t h = absurd (cc h)
block_if false false true t h = (refl, refl, λ k. absurd (cc k))
block_if false false false true h = absurd (cc h)
block_if false false false false h = (refl, refl, λ _. refl)

block_of-iff-IsOpen :
    (now : ℕ) (s : Signer) (a : Agreement)
    → is_signed s.status ≡ false
    → (block_of now s a ≡ none) ↔ IsOpen now a
unfolding block_of
block_of-iff-IsOpen now s a unsigned = (
  λ h.
      let (r, e, t) =
        block_if (is_revoked a.status) (is_expired a.status) (is_completed a.status)
          (token_expired now a) (rw unsigned at h) in
      record { live = r; unexpired = e; in_time = t },
  λ i.
      rw (unsigned, i.live, i.unexpired)
        (passes (is_completed a.status) (token_expired now a) i.in_time),
)
  where
    passes :
        (c t : Bool)
        → (c ≡ false → t ≡ false)
        → (if not c && t then some Block.expired else none) ≡ none
    passes true t h = refl
    passes false t h = rw (h refl) refl

link_gates-open :
    (env : Env) (req : Request) (w : Store) (s : Signer) (a : Agreement)
    → req.consent ≡ true
    → signer_by_token req.token w ≡ some s
    → agreement_row s.agreement_id w ≡ some a
    → challenge_unmet s ≡ false
    → (truthy s.consent_withdrawn_at || is_signer_declined s.status) ≡ false
    → IsOpen env.now a
    → link_gates env req w ≡ ok s
unfolding link_gates
link_gates-open env req w s a consent found row unmet willing i =
    let in_time : link_over env.now a ≡ false = late (is_completed a.status) i.in_time in
    rw (consent, found, unmet, row, i.live, i.unexpired, in_time, willing) refl
  where
    late :
        (c : Bool)
        → (c ≡ false → token_expired env.now a ≡ false)
        → (not c && token_expired env.now a) ≡ false
    late true h = refl
    late false h = h refl

signer_render_blocked-found :
    (env : Env) (token : String) (w : Store) (s : Signer) (a : Agreement)
    → signer_by_token token w ≡ some s
    → agreement_row s.agreement_id w ≡ some a
    → signer_render_blocked env token w ≡ block_of env.now s a
unfolding signer_render_blocked
signer_render_blocked-found env token w s a found row = rw (signer_render_blocked, found, row) refl

-- To a signer who has not signed, declined or withdrawn and has passed the challenge, the signing
-- page opens exactly when a submission by the same link at the same time, with consent, passes the
-- gates of the link.
pub signer_render_blocked-iff-link_gates :
    (env : Env) (req : Request) (w : Store) (s : Signer) (a : Agreement)
    → req.consent ≡ true
    → signer_by_token req.token w ≡ some s
    → agreement_row s.agreement_id w ≡ some a
    → challenge_unmet s ≡ false
    → (truthy s.consent_withdrawn_at || is_signer_declined s.status) ≡ false
    → is_signed s.status ≡ false
    → (signer_render_blocked env req.token w ≡ none) ↔ (link_gates env req w ≡ ok s)
signer_render_blocked-iff-link_gates env req w s a consent found row unmet willing unsigned = (
  λ shown. link_gates-open env req w s a consent found row unmet willing (
      (block_of-iff-IsOpen env.now s a unsigned).0
        (sym (signer_render_blocked-found env req.token w s a found row) ∙ shown)),
  λ passed.
      signer_render_blocked-found env req.token w s a found row
      ∙ (block_of-iff-IsOpen env.now s a unsigned).1
          ((link_gates-IsAdmitted env req w s passed).agreement a row),
)
