-- ===== src/Base/Membership.antt =====
-- A test of rows against the keys of some rows of the same table, where the keys are distinct.
use mathlib.Core.Path.{◌≡◌, refl, sym, subst}
use mathlib.Core.Logic.{inl, inr}
use mathlib.Core.Bool.{Bool, true, false, ◌&&◌}
use mathlib.Core.List.{List, [], ◌∷◌}
use Prim.Native.Nat.{ℕ}
use native.Mathlib.Omega.{arith}
use lifted_sign.Base.Tests.{◌==◌, ==-refl, Bool-cases}
use lifted_sign.Base.Rows.{select, any, All, update_where, delete_where}
use lifted_sign.Base.RowLaws.{Distinct}
use lifted_sign.Base.Members.{All-map_weaken, Distinct-unique}

module _ {ℓ} {A : Type ℓ} where
  pub delete_where-All :
      (p q : A → Bool) (xs : List A)
      → All (λ a. p a ≡ q a) xs
      → delete_where p xs ≡ delete_where q xs
  unfolding delete_where
  delete_where-All p q [] h = refl
  delete_where-All p q (x ∷ xs) h = rw (h.0, delete_where-All p q xs h.1) refl

  pub update_where-All :
      (p q : A → Bool) (f : A → A) (xs : List A)
      → All (λ a. p a ≡ q a) xs
      → update_where p f xs ≡ update_where q f xs
  unfolding update_where
  update_where-All p q f [] h = refl
  update_where-All p q f (x ∷ xs) h = rw (h.0, update_where-All p q f xs h.1) refl

  pub All-true {κ} : (P : A → Type κ) (xs : List A) → ((a : A) → P a) → All P xs
  All-true P [] h = tt
  All-true P (x ∷ xs) h = (h x, All-true P xs h)

  pub any-select : (p q : A → Bool) (xs : List A) → any p (select q xs) ≡ any (λ a. q a && p a) xs
  unfolding any select
  any-select p q [] = refl
  any-select p q (x ∷ xs) = elim (Bool-cases (q x)) [
    | inl e ↦ rw (e, any-select p q xs) refl
    | inr e ↦ rw (e, any-select p q xs) refl
  ]

same_truth : (b c : Bool) → (b ≡ true → c ≡ true) → (c ≡ true → b ≡ true) → b ≡ c
same_truth true true f g = refl
same_truth true false f g = sym (f refl)
same_truth false true f g = g refl
same_truth false false f g = refl

-- A row with this key passes the test.
abbrev pub keyed {ℓ} : {A : Type ℓ} → (A → ℕ) → (A → Bool) → List A → ℕ → Bool
keyed key r xs k = any (λ a. r a && (key a == k)) xs

module _ {ℓ} {A : Type ℓ} (key : A → ℕ) (r : A → Bool) where
  keyed_self : (xs : List A) → All (λ x. r x ≡ true → keyed key r xs (key x) ≡ true) xs
  unfolding any
  keyed_self [] = tt
  keyed_self (x ∷ xs) = (
    λ h. rw (h, ==-refl (key x)) refl,
    All-map_weaken (λ y. r y ≡ true → keyed key r xs (key y) ≡ true)
        (λ y. r y ≡ true → keyed key r (x ∷ xs) (key y) ≡ true) xs
        (λ y k h. rw (k h) (ground arith)) (keyed_self xs),
  )

  keyed_unique :
      (x : A) (xs : List A)
      → All (λ b. key b ≡ key x → b ≡ x) xs
      → keyed key r xs (key x) ≡ true
      → r x ≡ true
  unfolding any
  keyed_unique x [] u h = absurd (cc h)
  keyed_unique x (b ∷ xs) u h = elim (Bool-cases (r b && (key b == key x))) [
    | inl e ↦ let same : b ≡ x = u.0 (ground arith) in subst (λ c. r c ≡ true) same (ground arith)
    | inr e ↦ keyed_unique x xs u.1 (rw e at h)
  ]

  keyed-both :
      (xs ys : List A)
      → All (λ x. r x ≡ true → keyed key r xs (key x) ≡ true) ys
      → All (λ x. All (λ b. key b ≡ key x → b ≡ x) xs) ys
      → All (λ x. keyed key r xs (key x) ≡ r x) ys
  keyed-both xs [] self unique = tt
  keyed-both xs (y ∷ ys) self unique = (
    same_truth (keyed key r xs (key y)) (r y) (keyed_unique y xs unique.0) self.0,
    keyed-both xs ys self.1 unique.1,
  )

  -- With distinct keys, a row's key is one of those that pass exactly when the row passes.
  pub keyed-rows : (xs : List A) → Distinct key xs → All (λ x. keyed key r xs (key x) ≡ r x) xs
  keyed-rows xs d = keyed-both xs xs (keyed_self xs) (Distinct-unique key xs d)
