-- ===== src/Base/Members.antt =====
-- Predicates of every row, under the row operations.
use Prim.Native.Nat.{ℕ, ◌≤◌}
use mathlib.Core.Path.{◌≡◌, refl, sym, subst}
use mathlib.Core.Logic.{inl, inr}
use mathlib.Core.Bool.{Bool, true}
use mathlib.Core.Option.{some}
use mathlib.Core.List.{List, [], ◌∷◌, map}
use native.Mathlib.Omega.{arith}
use lifted_sign.Base.Tests.{leb, Bool-cases}
use lifted_sign.Base.Rows.{find, select, update_where, count_where, All, insert_by, sort_by}
use lifted_sign.Base.RowLaws.{Fresh, Distinct}

module _ {ℓ κ} {A : Type ℓ} (P : A → Type κ) where
  pub All-select : (p : A → Bool) (xs : List A) → All P xs → All P (select p xs)
  unfolding select
  All-select p [] h = tt
  All-select p (x ∷ xs) h = elim (Bool-cases (p x)) [
    | inl e ↦ rw e (h.0, All-select p xs h.1)
    | inr e ↦ rw e (All-select p xs h.1)
  ]

  All-insert_by : (key : A → ℕ) (x : A) (xs : List A) → P x → All P xs → All P (insert_by key x xs)
  unfolding insert_by
  All-insert_by key x [] h k = (h, tt)
  All-insert_by key x (y ∷ ys) h k = elim (Bool-cases (leb (key x) (key y))) [
    | inl e ↦ rw e (h, k)
    | inr e ↦ rw e (k.0, All-insert_by key x ys h k.1)
  ]

  pub All-sort_by : (key : A → ℕ) (xs : List A) → All P xs → All P (sort_by key xs)
  unfolding sort_by
  All-sort_by key [] h = tt
  All-sort_by key (x ∷ xs) h = All-insert_by key x (sort_by key xs) h.0 (All-sort_by key xs h.1)

  pub All-update_where :
      (p : A → Bool) (f : A → A) (xs : List A)
      → ((a : A) → p a ≡ true → P a → P (f a))
      → All P xs
      → All P (update_where p f xs)
  unfolding update_where
  All-update_where p f [] keep h = tt
  All-update_where p f (x ∷ xs) keep h = elim (Bool-cases (p x)) [
    | inl e ↦ rw e (keep x e h.0, All-update_where p f xs keep h.1)
    | inr e ↦ rw e (h.0, All-update_where p f xs keep h.1)
  ]

  -- What the selected rows satisfy on top of the test.
  pub All-selected :
      (p : A → Bool) (xs : List A) → All (λ a. p a ≡ true → P a) xs → All P (select p xs)
  unfolding select
  All-selected p [] h = tt
  All-selected p (x ∷ xs) h = elim (Bool-cases (p x)) [
    | inl e ↦ rw e (h.0 e, All-selected p xs h.1)
    | inr e ↦ rw e (All-selected p xs h.1)
  ]

module _ {ℓ κ} {A : Type ℓ} (P Q : A → Type κ) where
  pub All-map_weaken : (xs : List A) → ((a : A) → P a → Q a) → All P xs → All Q xs
  All-map_weaken [] w h = tt
  All-map_weaken (x ∷ xs) w h = (w x h.0, All-map_weaken xs w h.1)

  pub All-map : (f : A → A) (xs : List A) → ((a : A) → P a → Q (f a)) → All P xs → All Q (map f xs)
  All-map f [] w h = tt
  All-map f (x ∷ xs) w h = (w x h.0, All-map f xs w h.1)

module _ {ℓ} {A : Type ℓ} where
  -- Rows with a key that the list does not have satisfy anything.
  All-absent :
      (key : A → ℕ) (k : ℕ) (a : A) (xs : List A) → Fresh key k xs → All (λ b. key b ≡ k → b ≡ a) xs
  All-absent key k a [] h = tt
  All-absent key k a (x ∷ xs) h = (λ e. absurd (h.0 e), All-absent key k a xs h.1)

  -- A row that a search finds is the only one with its key.
  pub find_unique :
      (key : A → ℕ) (p : A → Bool) (xs : List A) (a : A)
      → Distinct key xs
      → find p xs ≡ some a
      → All (λ b. key b ≡ key a → b ≡ a) xs
  unfolding find
  find_unique key p [] a d h = tt
  find_unique key p (x ∷ xs) a d h = elim (Bool-cases (p x)) [
    | inl e ↦
        let same : x ≡ a = ground arith in
        subst (λ c. All (λ b. key b ≡ key c → b ≡ c) (x ∷ xs)) same
          (λ _. refl, All-absent key (key x) x xs d.0)
    | inr e ↦
        let found : find p xs ≡ some a = rw e at h in
        (λ k. absurd (differs xs found (rw k at d.0)), find_unique key p xs a d.1 found)
  ]
    where
      differs : (ys : List A) → find p ys ≡ some a → Fresh key (key a) ys → ⊥
      differs [] g f = cc
      differs (y ∷ ys) g f = elim (Bool-cases (p y)) [
        | inl e ↦ let same : y ≡ a = ground arith in f.0 (ap_key y same)
        | inr e ↦ differs ys (rw e at g) f.1
      ]
        where
          ap_key : (y : A) → y ≡ a → key y ≡ key a
          ap_key y same = rw same

  pub count_where-update_where-All :
      (q p : A → Bool) (f : A → A) (xs : List A)
      → All (λ a. p a ≡ true → q (f a) ≡ true → q a ≡ true) xs
      → count_where q (update_where p f xs) ≤ count_where q xs
  unfolding count_where update_where
  count_where-update_where-All q p f [] keeps = omega arith
  count_where-update_where-All q p f (x ∷ xs) keeps =
      ground (arith, keeps.0, count_where-update_where-All q p f xs keeps.1)

  -- With distinct keys, each row is the only one with its key.
  private_rows :
      (key : A → ℕ) (x : A) (zs ys : List A)
      → Fresh key (key x) ys
      → All (λ a. All (λ b. key b ≡ key a → b ≡ a) zs) ys
      → All (λ a. All (λ b. key b ≡ key a → b ≡ a) (x ∷ zs)) ys
  private_rows key x zs [] f h = tt
  private_rows key x zs (y ∷ ys) f h =
      ((λ e. absurd (f.0 (sym e)), h.0), private_rows key x zs ys f.1 h.1)

  pub Distinct-unique :
      (key : A → ℕ) (xs : List A)
      → Distinct key xs
      → All (λ a. All (λ b. key b ≡ key a → b ≡ a) xs) xs
  Distinct-unique key [] d = tt
  Distinct-unique key (x ∷ xs) d = (
    (λ _. refl, All-absent key (key x) x xs d.0),
    private_rows key x xs xs d.0 (Distinct-unique key xs d.1),
  )

module _ {ℓ} {A : Type ℓ} where
  -- What a search finds passes its test.
  pub find_holds : (p : A → Bool) (l : List A) (a : A) → find p l ≡ some a → p a ≡ true
  unfolding find
  find_holds p [] a h = absurd (cc h)
  find_holds p (x ∷ l) a h = elim (Bool-cases (p x)) [
    | inl e ↦
        let found : some x ≡ some a = rw e at h in
        let same : x ≡ a = cc found in subst (λ b. p b ≡ true) same e
    | inr e ↦ find_holds p l a (rw e at h)
  ]
