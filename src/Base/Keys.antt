-- ===== src/Base/Keys.antt =====
-- A row that is found by its key: its fate under an update, and the count of a kind of row that
-- only this key can have.
use Prim.Native.Nat.{ℕ, ◌+◌}
use mathlib.Core.Path.{◌≡◌, refl, subst}
use mathlib.Core.Logic.{inl, inr}
use mathlib.Core.Bool.{Bool, true, false, ◌||◌}
use mathlib.Core.Option.{none, some}
use mathlib.Core.List.{List, [], ◌∷◌}
use native.Mathlib.Omega.{arith}
use lifted_sign.Base.Tests.{if◌then◌else◌, ◌==◌, Bool-cases}
use lifted_sign.Base.Rows.{find, update_where, count_where}
use lifted_sign.Base.RowLaws.{Fresh, Distinct}

module _ {ℓ} {A : Type ℓ} where
  -- An update that keeps the keys reaches the row that a key finds.
  pub find-update_where :
      (key : A → ℕ) (k : ℕ) (p : A → Bool) (f : A → A)
      → ((a : A) → key (f a) ≡ key a)
      → (xs : List A) (a : A) → find (λ b. key b == k) xs ≡ some a
      → find (λ b. key b == k) (update_where p f xs) ≡ some (if p a then f a else a)
  unfolding find update_where
  find-update_where key k p f same [] a h = absurd (cc h)
  find-update_where key k p f same (x ∷ xs) a h = elim (Bool-cases (key x == k)) [
    | inl e ↦
        let here : x ≡ a = ground arith in
        subst
          (λ c.
            (if key (if p x then f x else x) == k
              then some (if p x then f x else x)
              else find (λ b. key b == k) (update_where p f xs))
            ≡ some (if p c then f c else c))
          here (head_found x e)
    | inr e ↦ rw (tail_found x e) (find-update_where key k p f same xs a (rw e at h))
  ]
    where
      keyed : (b : A) → key (if p b then f b else b) ≡ key b
      keyed b = elim (Bool-cases (p b)) [ inl t ↦ rw t (same b) | inr t ↦ rw t ]

      head_found :
          (b : A)
          → (key b == k) ≡ true
          → (if key (if p b then f b else b) == k
              then some (if p b then f b else b)
              else find (λ c. key c == k) (update_where p f xs))
            ≡ some (if p b then f b else b)
      head_found b e = rw (keyed b, e)

      tail_found : (b : A) → (key b == k) ≡ false → (key (if p b then f b else b) == k) ≡ false
      tail_found b e = rw (keyed b) e

  Fresh-count :
      (key : A → ℕ) (k : ℕ) (q : A → Bool) (xs : List A)
      → ((a : A) → q a ≡ true → key a ≡ k)
      → Fresh key k xs
      → count_where q xs ≡ 0
  unfolding count_where
  Fresh-count key k q [] only h = refl
  Fresh-count key k q (x ∷ xs) only h = elim (Bool-cases (q x)) [
    | inl t ↦ absurd (h.0 (only x t))
    | inr f ↦ rw f (omega (arith, Fresh-count key k q xs only h.1))
  ]

  -- A kind of row that only the key `k` can have is counted once, or not at all.
  pub count-find_key :
      (key : A → ℕ) (k : ℕ) (q : A → Bool) (xs : List A) (a : A)
      → Distinct key xs
      → ((b : A) → q b ≡ true → key b ≡ k)
      → find (λ b. key b == k) xs ≡ some a
      → count_where q xs ≡ (if q a then 1 else 0)
  unfolding find count_where
  count-find_key key k q [] a d only h = absurd (cc h)
  count-find_key key k q (x ∷ xs) a d only h = elim (Bool-cases (key x == k)) [
    | inl e ↦
        let here : x ≡ a = ground arith in
        let rest : count_where q xs ≡ 0 =
          Fresh-count key k q xs only (subst (λ t. Fresh key t xs) (ground arith) d.0) in
        rw (here, rest) (omega arith)
    | inr e ↦ elim (Bool-cases (q x)) [
      | inl t ↦ ground (arith, only x)
      | inr t ↦ rw t (omega (arith, count-find_key key k q xs a d.1 only (rw e at h)))
    ]
  ]

  -- An update that selects no row changes nothing.
  pub update_where-count_zero :
      (p : A → Bool) (f : A → A) (xs : List A) → count_where p xs ≡ 0 → update_where p f xs ≡ xs
  unfolding count_where update_where
  update_where-count_zero p f [] h = refl
  update_where-count_zero p f (x ∷ xs) h = elim (Bool-cases (p x)) [
    | inl e ↦ absurd (omega (arith, rw e at h))
    | inr e ↦
        let none_left : 0 + count_where p xs ≡ 0 = rw e at h in
        rw (e, update_where-count_zero p f xs (omega arith))
  ]

  count-find-none :
      (key : A → ℕ) (k : ℕ) (q : A → Bool) (xs : List A)
      → ((b : A) → q b ≡ true → key b ≡ k)
      → find (λ b. key b == k) xs ≡ none
      → count_where q xs ≡ 0
  unfolding find count_where
  count-find-none key k q [] only h = refl
  count-find-none key k q (x ∷ xs) only h = elim (Bool-cases (q x)) [
    | inl t ↦ ground (arith, only x)
    | inr t ↦ elim (Bool-cases (key x == k)) [
      | inl e ↦ ground arith
      | inr e ↦ rw t (omega (arith, count-find-none key k q xs only (rw e at h)))
    ]
  ]

  -- Two updates by one function are one, where the first leaves nothing to the second.
  pub update_where-update_where :
      (p q : A → Bool) (f : A → A)
      → ((a : A) → p a ≡ true → q (f a) ≡ false)
      → (xs : List A) → update_where q f (update_where p f xs) ≡ update_where (λ a. p a || q a) f xs
  unfolding update_where
  update_where-update_where p q f done [] = refl
  update_where-update_where p q f done (x ∷ xs) = elim (Bool-cases (p x)) [
    | inl e ↦ rw (e, done x e, update_where-update_where p q f done xs)
    | inr e ↦ rw (e, update_where-update_where p q f done xs)
  ]

module _ {ℓ} {A : Type ℓ} where
  -- An update that keeps a test keeps what it finds.
  pub find-update_kept :
      (q p : A → Bool) (f : A → A)
      → ((b : A) → q (f b) ≡ q b)
      → (xs : List A) (a : A) → find q xs ≡ some a
      → find q (update_where p f xs) ≡ some (if p a then f a else a)
  unfolding find update_where
  find-update_kept q p f same [] a h = absurd (cc h)
  find-update_kept q p f same (x ∷ xs) a h = elim (Bool-cases (q x)) [
    | inl e ↦
        let found : some x ≡ some a = rw e at h in
        let here : x ≡ a = cc found in
        subst
          (λ b.
            (if q (if p x then f x else x)
              then some (if p x then f x else x)
              else find q (update_where p f xs))
            ≡ some (if p b then f b else b))
          here (rw (kept x, e) refl)
    | inr e ↦ rw (kept x, e) (find-update_kept q p f same xs a (rw e at h))
  ]
    where
      kept : (b : A) → q (if p b then f b else b) ≡ q b
      kept b = elim (Bool-cases (p b)) [ inl t ↦ rw t (same b) | inr t ↦ rw t ]
