-- ===== src/Esign/Submit/Gates.antt =====
-- The gates of `submit_signature`, in the order in which the source tries them. None of them
-- writes.
use lifted_sign.Base.{
  ℕ, String, Bool, false, not, ◌&&◌, ◌||◌, Option, none, some, List, [], ◌==◌, ltb, truthy,
  if◌then◌else◌, select, any, all, ◌^◌,
}
use lifted_sign.Base.Int.{ℤ, pos, negsuc}
use lifted_sign.Store.{
  Store, Env, Signer, Field, Agreement, Error, Result, ok, err, guard, ◌>>=◌, ◌>>◌, is_signed,
  is_revoked, is_expired, is_completed, is_signer_declined,
}
use lifted_sign.Store.Reads.{
  View, get_agreement, agreement_row, signer_by_token, challenge_unmet, token_expired,
  is_sequential, order_of,
}
use lifted_sign.Esign.Submit.Values.{Request, clean_values, check_fields}

-- What the gates decide: the signer had signed already, or may sign with these values.
pub data Decision : Type 0 where
  again : Signer → Decision
  accept : Signer → List (ℤ × String) → Decision

-- A test of the agreement's row, false if there is none: `st and …`.
abbrev pub row_is : (Agreement → Bool) → Option Agreement → Bool
row_is test none = false
row_is test (some a) = test a

abbrev pub revoked_row : Agreement → Bool
revoked_row a = is_revoked a.status

abbrev pub expired_row : Agreement → Bool
expired_row a = is_expired a.status

abbrev pub link_over : ℕ → Agreement → Bool
link_over now a = not (is_completed a.status) && token_expired now a

abbrev pub before : Signer → Signer → Bool
before s o = ltb (order_of o) (order_of s) && not (is_signed o.status)

-- `ahead_unsigned`, in sequential mode.
unfoldable pub ahead_unsigned : Signer → Option View → Bool
ahead_unsigned s none = false
ahead_unsigned s (some v) = is_sequential v.row && any (before s) v.signers

abbrev pub required_of : Signer → Field → Bool
required_of s f =
    (f.agreement_id == s.agreement_id)
    && elim f.signer_id [ none ↦ false | some sid ↦ sid == s.id ]
    && f.required

-- From the token to the signer, and the gates that an earlier signature does not lift.
unfoldable pub link_gates : Env → Request → Store → Result Signer
unfolding signer_by_token challenge_unmet token_expired
link_gates env req w = do
  guard req.consent Error.consent_required
  s ← elim (signer_by_token req.token w) [ none ↦ err Error.invalid_link | some s ↦ ok s ]
  guard (not (challenge_unmet s)) Error.challenge_required
  let st = agreement_row s.agreement_id w
  guard (not (row_is revoked_row st)) Error.unavailable
  guard (not (row_is expired_row st)) Error.request_expired
  guard (not (row_is (link_over env.now) st)) Error.link_expired
  guard (not (truthy s.consent_withdrawn_at || is_signer_declined s.status)) Error.consent_withdrawn
  ok s

-- An id that the database can bind: an integer of 64 bits.
abbrev pub bindable : ℤ × String → Bool
bindable (pos n, v) = ltb n (2 ^ 63)
bindable (negsuc n, v) = ltb n (2 ^ 63)

-- The gates of a first signature. The last one is where the updates raise, which leaves nothing
-- written.
unfoldable pub first_gates : Env → Request → Signer → Store → Result (List (ℤ × String))
unfolding get_agreement ahead_unsigned check_fields clean_values
first_gates env req s w = do
  guard (not (ahead_unsigned s (get_agreement s.agreement_id w))) Error.not_your_turn
  guard (not (s.is_consumer && not (truthy s.consent_at))) Error.consent_required
  check_fields env req.values (select (required_of s) w.fields)
  values ← clean_values req.values []
  guard (all bindable values) Error.raised
  ok values

abbrev pub decide : Env → Request → Store → Signer → Result Decision
decide env req w s =
    if is_signed s.status
    then ok (again s)
    else (do values ← first_gates env req s w; ok (accept s values))

unfoldable pub submit_checks : Env → Request → Store → Result Decision
unfolding link_gates first_gates
submit_checks env req w = do s ← link_gates env req w; decide env req w s
