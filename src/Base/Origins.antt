-- ===== src/Base/Origins.antt =====
-- Predicates of every row, back from what a query returned to the table.
use mathlib.Core.Path.{◌≡◌}
use mathlib.Core.Logic.{inl, inr}
use mathlib.Core.Bool.{Bool, true, false}
use mathlib.Core.List.{List, [], ◌∷◌, map}
use Prim.Native.Nat.{ℕ}
use native.Mathlib.Omega.{arith}
use lifted_sign.Base.Tests.{leb, Bool-cases}
use lifted_sign.Base.Rows.{select, any, All, insert_by, sort_by}

module _ {ℓ κ} {A : Type ℓ} (P : A → Type κ) where
  pub All-of_select :
      (p : A → Bool) (xs : List A) → All P (select p xs) → All (λ a. p a ≡ true → P a) xs
  unfolding select
  All-of_select p [] h = tt
  All-of_select p (x ∷ xs) h = elim (Bool-cases (p x)) [
    | inl e ↦ let k : All P (x ∷ select p xs) = rw e at h in (λ _. k.0, All-of_select p xs k.1)
    | inr e ↦ (λ t. absurd (cc (t, e)), All-of_select p xs (rw e at h))
  ]

  All-of_insert_by :
      (key : A → ℕ) (x : A) (xs : List A) → All P (insert_by key x xs) → P x × All P xs
  unfolding insert_by
  All-of_insert_by key x [] h = h
  All-of_insert_by key x (y ∷ ys) h = elim (Bool-cases (leb (key x) (key y))) [
    | inl e ↦ rw e at h
    | inr e ↦
        let k : P y × All P (insert_by key x ys) = rw e at h in
        let r = All-of_insert_by key x ys k.1 in (r.0, (k.0, r.1))
  ]

  pub All-of_sort_by : (key : A → ℕ) (xs : List A) → All P (sort_by key xs) → All P xs
  unfolding sort_by
  All-of_sort_by key [] h = tt
  All-of_sort_by key (x ∷ xs) h =
      let r = All-of_insert_by key x (sort_by key xs) h in (r.0, All-of_sort_by key xs r.1)

  pub All-of_map : (f : A → A) (xs : List A) → All P (map f xs) → All (λ a. P (f a)) xs
  All-of_map f [] h = tt
  All-of_map f (x ∷ xs) h = (h.0, All-of_map f xs h.1)

module _ {ℓ} {A : Type ℓ} where
  pub All-of_any : (p : A → Bool) (xs : List A) → any p xs ≡ false → All (λ a. p a ≡ false) xs
  unfolding any
  All-of_any p [] h = tt
  All-of_any p (x ∷ xs) h = (ground arith, All-of_any p xs (ground arith))
