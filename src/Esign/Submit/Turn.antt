-- ===== src/Esign/Submit/Turn.antt =====
-- Sequential signing in sign/esign.py: the gate of `submit_signature` and the choice of
-- `_next_order_to_notify`.
use lifted_sign.Base.{
  ℕ, Bool, true, false, not, ◌&&◌, ◌||◌, Option, none, some, List, [], ◌∷◌, ◌≡◌, ◌≢◌, ◌==◌, refl,
  ap, ◌∙◌, arith, ltb, leb, any, Bool-cases, inl, inr,
}
use lifted_sign.Store.{Signer, is_signed}
use lifted_sign.Store.Reads.{View, next_order_to_notify, order_of, min_option}
use lifted_sign.Esign.Submit.Gates.{before, ahead_unsigned}

-- The group that is next comes before an order.
abbrev pub precedes : Option ℕ → ℕ → Bool
precedes none n = false
precedes (some m) n = ltb m n

min_option-precedes :
    (n m : ℕ) (o : Option ℕ) → precedes (min_option n o) m ≡ (ltb n m || precedes o m)
min_option-precedes n m none = ground arith
min_option-precedes n m (some k) = ground arith

-- A signer waits exactly while the group that the cascade invites next has a lower order.
pub any-before-eq-precedes :
    (s : Signer) (l : List Signer)
    → any (before s) l ≡ precedes (next_order_to_notify l) (order_of s)
unfolding any next_order_to_notify
any-before-eq-precedes s [] = refl
any-before-eq-precedes s (o ∷ rest) = elim (Bool-cases (is_signed o.status)) [
  | inl e ↦ rw (e, any-before-eq-precedes s rest) (ground arith)
  | inr e ↦
      rw
        (
          e,
          any-before-eq-precedes s rest,
          min_option-precedes (order_of o) (order_of s) (next_order_to_notify rest),
        )
        (ground arith)
]

abbrev pub unsigned : Signer → Bool
unsigned s = not (is_signed s.status)

abbrev at_turn : ℕ → Signer → Bool
at_turn n s = unsigned s && (order_of s == n)

-- Unsigned, with no unsigned signer of a lower order.
abbrev ready : List Signer → Signer → Bool
ready l s = unsigned s && not (any (before s) l)

any-weaken :
    (p q : Signer → Bool) (l : List Signer)
    → ((s : Signer) → p s ≡ true → q s ≡ true)
    → any p l ≡ true
    → any q l ≡ true
unfolding any
any-weaken p q [] k h = cc h
any-weaken p q (s ∷ rest) k h = elim (Bool-cases (p s)) [
  | inl e ↦ rw (k s e) refl
  | inr e ↦ let later : any q rest ≡ true = any-weaken p q rest k (rw e at h) in ground arith
]

next_is_taken :
    (l : List Signer) (n : ℕ) → next_order_to_notify l ≡ some n → any (at_turn n) l ≡ true
unfolding any next_order_to_notify
next_is_taken [] n h = absurd (cc h)
next_is_taken (o ∷ rest) n h = elim (Bool-cases (is_signed o.status)) [
  | inl e ↦ rw (e, next_is_taken rest n (rw e at h)) refl
  | inr e ↦ first (next_order_to_notify rest) refl e (next_is_taken rest) (rw e at h)
]
  where
    first :
        (r : Option ℕ)
        → next_order_to_notify rest ≡ r
        → is_signed o.status ≡ false
        → ((m : ℕ) → next_order_to_notify rest ≡ some m → any (at_turn m) rest ≡ true)
        → min_option (order_of o) r ≡ some n
        → (at_turn n o || any (at_turn n) rest) ≡ true
    first none found e later k = ground arith
    first (some m) found e later k = elim (Bool-cases (leb (order_of o) m)) [
      | inl t ↦ ground arith
      | inr t ↦
          let same : m ≡ n = ground arith in
          let k1 : any (at_turn n) rest ≡ true = later n (found ∙ ap some same) in ground arith
    ]

next_is_ready :
    (l : List Signer) (n : ℕ)
    → next_order_to_notify l ≡ some n
    → (s : Signer) → at_turn n s ≡ true
    → ready l s ≡ true
next_is_ready l n h s t =
    let same : order_of s ≡ n = ground arith in
    rw (any-before-eq-precedes s l, h, same) (ground arith)

someone-next : (l : List Signer) → any unsigned l ≡ true → next_order_to_notify l ≢ none
unfolding any next_order_to_notify
someone-next [] h e = cc h
someone-next (o ∷ rest) h e = elim (Bool-cases (is_signed o.status)) [
  | inl t ↦ someone-next rest (rw t at h) (rw t at e)
  | inr t ↦ min_option-some (order_of o) (next_order_to_notify rest) (rw t at e)
]
  where
    min_option-some : (n : ℕ) (r : Option ℕ) → min_option n r ≢ none
    min_option-some n none e = cc e
    min_option-some n (some m) e = cc e

-- Held back neither by an earlier signature nor by the order gate of `submit_signature`.
abbrev pub passes_order : View → Signer → Bool
passes_order v s = unsigned s && not (ahead_unsigned s (some v))

-- While some signer of an agreement, sequential or not, has not signed, the order gate of a
-- submission lets through at least one of those who have not. The other gates of a submission are
-- not considered.
pub passes_order-exists :
    (v : View) → any unsigned v.signers ≡ true → any (passes_order v) v.signers ≡ true
passes_order-exists v h = go (next_order_to_notify v.signers) refl
  where
    turn : (s : Signer) → ready v.signers s ≡ true → passes_order v s ≡ true
    turn s r = unfold ahead_unsigned in ground arith

    go : (r : Option ℕ) → next_order_to_notify v.signers ≡ r → any (passes_order v) v.signers ≡ true
    go none e = absurd (someone-next v.signers h e)
    go (some n) e =
        any-weaken (at_turn n) (passes_order v) v.signers
          (λ s t. turn s (next_is_ready v.signers n e s t)) (next_is_taken v.signers n e)
