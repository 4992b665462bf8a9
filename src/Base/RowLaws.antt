-- ===== src/Base/RowLaws.antt =====
-- The laws of the row operations: what an update or a deletion does to counts, to the existence of
-- a row and to the keys, and the uniqueness of a row that is found by its key.
use Prim.Native.Nat.{ℕ, ◌+◌, ◌≤◌, ◌<◌}
use mathlib.Core.Path.{◌≡◌, refl, subst}
use mathlib.Core.Logic.{inl, inr, ◌≢◌}
use mathlib.Core.Bool.{Bool, true, false, ◌||◌}
use mathlib.Core.Option.{none, some}
use mathlib.Core.List.{List, [], ◌∷◌, ◌++◌}
use native.Mathlib.Omega.{arith}
use lifted_sign.Base.Tests.{◌==◌, Bool-cases}
use lifted_sign.Base.Rows.{find, update_where, delete_where, count_where, any}

module _ {ℓ} {A : Type ℓ} where
  -- An update creates no row of a kind that its new values never have.
  pub any-update_where :
      (q p : A → Bool) (f : A → A)
      → ((a : A) → p a ≡ true → q (f a) ≡ true → q a ≡ true)
      → (xs : List A) → any q (update_where p f xs) ≡ true
      → any q xs ≡ true
  unfolding any update_where
  any-update_where q p f keeps [] h = h
  any-update_where q p f keeps (x ∷ xs) h = ground (arith, keeps x, any-update_where q p f keeps xs)

  pub any-delete_where :
      (q p : A → Bool) (xs : List A) → any q (delete_where p xs) ≡ true → any q xs ≡ true
  unfolding any delete_where
  any-delete_where q p [] h = h
  any-delete_where q p (x ∷ xs) h = ground (arith, any-delete_where q p xs)

  pub any-append : (q : A → Bool) (xs ys : List A) → any q (xs ++ ys) ≡ (any q xs || any q ys)
  unfolding any
  any-append q [] ys = refl
  any-append q (x ∷ xs) ys = ground (arith, any-append q xs ys)

  pub count_where-update_where :
      (q p : A → Bool) (f : A → A)
      → ((a : A) → p a ≡ true → q (f a) ≡ true → q a ≡ true)
      → (xs : List A) → count_where q (update_where p f xs) ≤ count_where q xs
  unfolding count_where update_where
  count_where-update_where q p f keeps [] = omega arith
  count_where-update_where q p f keeps (x ∷ xs) =
      ground (arith, keeps x, count_where-update_where q p f keeps xs)

  pub count_where-delete_where :
      (q p : A → Bool) (xs : List A) → count_where q (delete_where p xs) ≤ count_where q xs
  unfolding count_where delete_where
  count_where-delete_where q p [] = omega arith
  count_where-delete_where q p (x ∷ xs) = ground (arith, count_where-delete_where q p xs)

  pub count_where-append :
      (q : A → Bool) (xs ys : List A)
      → count_where q (xs ++ ys) ≡ count_where q xs + count_where q ys
  unfolding count_where
  count_where-append q [] ys = omega arith
  count_where-append q (x ∷ xs) ys = ground (arith, count_where-append q xs ys)

  -- Rows with pairwise different keys, all below a bound.
  abbrev pub Fresh : (A → ℕ) → ℕ → List A → Type 0
  Fresh key k [] = Unit
  Fresh key k (x ∷ xs) = (key x ≢ k) × Fresh key k xs

  abbrev pub Distinct : (A → ℕ) → List A → Type 0
  Distinct key [] = Unit
  Distinct key (x ∷ xs) = Fresh key (key x) xs × Distinct key xs

  abbrev pub Below : (A → ℕ) → ℕ → List A → Type 0
  Below key n [] = Unit
  Below key n (x ∷ xs) = (key x < n) × Below key n xs

  Fresh-update_where :
      (key : A → ℕ) (k : ℕ) (p : A → Bool) (f : A → A)
      → ((a : A) → key (f a) ≡ key a)
      → (xs : List A) → Fresh key k xs
      → Fresh key k (update_where p f xs)
  unfolding update_where
  Fresh-update_where key k p f same [] h = tt
  Fresh-update_where key k p f same (x ∷ xs) h =
      ground (arith, same x, Fresh-update_where key k p f same xs h.1)

  pub Distinct-update_where :
      (key : A → ℕ) (p : A → Bool) (f : A → A)
      → ((a : A) → key (f a) ≡ key a)
      → (xs : List A) → Distinct key xs
      → Distinct key (update_where p f xs)
  unfolding update_where
  Distinct-update_where key p f same [] h = tt
  Distinct-update_where key p f same (x ∷ xs) h = elim (Bool-cases (p x)) [
    | inl e ↦
        rw (e, same x)
          (
            Fresh-update_where key (key x) p f same xs h.0,
            Distinct-update_where key p f same xs h.1,
          )
    | inr e ↦
        rw e (
          Fresh-update_where key (key x) p f same xs h.0,
          Distinct-update_where key p f same xs h.1,
        )
  ]

  pub Below-update_where :
      (key : A → ℕ) (n : ℕ) (p : A → Bool) (f : A → A)
      → ((a : A) → key (f a) ≡ key a)
      → (xs : List A) → Below key n xs
      → Below key n (update_where p f xs)
  unfolding update_where
  Below-update_where key n p f same [] h = tt
  Below-update_where key n p f same (x ∷ xs) h =
      ground (arith, same x, Below-update_where key n p f same xs h.1)

  Fresh-delete_where :
      (key : A → ℕ) (k : ℕ) (p : A → Bool) (xs : List A)
      → Fresh key k xs
      → Fresh key k (delete_where p xs)
  unfolding delete_where
  Fresh-delete_where key k p [] h = tt
  Fresh-delete_where key k p (x ∷ xs) h = ground (arith, Fresh-delete_where key k p xs h.1)

  pub Distinct-delete_where :
      (key : A → ℕ) (p : A → Bool) (xs : List A)
      → Distinct key xs
      → Distinct key (delete_where p xs)
  unfolding delete_where
  Distinct-delete_where key p [] h = tt
  Distinct-delete_where key p (x ∷ xs) h =
      ground (arith, Fresh-delete_where key (key x) p xs h.0, Distinct-delete_where key p xs h.1)

  pub Below-delete_where :
      (key : A → ℕ) (n : ℕ) (p : A → Bool) (xs : List A)
      → Below key n xs
      → Below key n (delete_where p xs)
  unfolding delete_where
  Below-delete_where key n p [] h = tt
  Below-delete_where key n p (x ∷ xs) h = ground (arith, Below-delete_where key n p xs h.1)

  pub Below-weaken : (key : A → ℕ) (n m : ℕ) (xs : List A) → n ≤ m → Below key n xs → Below key m xs
  Below-weaken key n m [] le h = tt
  Below-weaken key n m (x ∷ xs) le h = (omega arith, Below-weaken key n m xs le h.1)

  pub Below-append :
      (key : A → ℕ) (n : ℕ) (xs ys : List A)
      → Below key n xs
      → Below key n ys
      → Below key n (xs ++ ys)
  Below-append key n [] ys h k = k
  Below-append key n (x ∷ xs) ys h k = (h.0, Below-append key n xs ys h.1 k)

  Fresh-append :
      (key : A → ℕ) (k : ℕ) (xs ys : List A)
      → Fresh key k xs
      → Fresh key k ys
      → Fresh key k (xs ++ ys)
  Fresh-append key k [] ys h g = g
  Fresh-append key k (x ∷ xs) ys h g = (h.0, Fresh-append key k xs ys h.1 g)

  -- Every key of the list is at least `n`.
  abbrev pub From : (A → ℕ) → ℕ → List A → Type 0
  From key n [] = Unit
  From key n (x ∷ xs) = (n ≤ key x) × From key n xs

  pub Fresh-From : (key : A → ℕ) (n k : ℕ) (xs : List A) → k < n → From key n xs → Fresh key k xs
  Fresh-From key n k [] lt h = tt
  Fresh-From key n k (x ∷ xs) lt h = (omega arith, Fresh-From key n k xs lt h.1)

  -- New rows take keys that no old row has.
  pub Distinct-append :
      (key : A → ℕ) (n : ℕ) (xs ys : List A)
      → Distinct key xs
      → Below key n xs
      → Distinct key ys
      → From key n ys
      → Distinct key (xs ++ ys)
  Distinct-append key n [] ys d b e f = e
  Distinct-append key n (x ∷ xs) ys d b e f = (
    Fresh-append key (key x) xs ys d.0 (Fresh-From key n (key x) ys b.0 f),
    Distinct-append key n xs ys d.1 b.1 e f,
  )

  -- The row that is found by its key is the only one with that key.
  Fresh-any :
      (key : A → ℕ) (k : ℕ) (q : A → Bool) (xs : List A)
      → Fresh key k xs
      → ((a : A) → q a ≡ true → key a ≡ k)
      → any q xs ≡ false
  unfolding any
  Fresh-any key k q [] h only = refl
  Fresh-any key k q (x ∷ xs) h only = elim (Bool-cases (q x)) [
    | inl e ↦ absurd (h.0 (only x e))
    | inr e ↦ rw e (Fresh-any key k q xs h.1 only)
  ]

  -- Where rows of kind `q` have the key `k`, and the row with that key is not of the kind, there
  -- are none.
  pub any-find_key :
      (key : A → ℕ) (k : ℕ) (q : A → Bool) (xs : List A) (a : A)
      → Distinct key xs
      → find (λ b. key b == k) xs ≡ some a
      → ((b : A) → q b ≡ true → key b ≡ k)
      → any q xs ≡ q a
  unfolding any find
  any-find_key key k q [] a d h only = absurd (cc h)
  any-find_key key k q (x ∷ xs) a d h only = elim (Bool-cases (key x == k)) [
    | inl e ↦
        let same : x ≡ a = ground arith in
        let rest : any q xs ≡ false =
          Fresh-any key k q xs (subst (λ t. Fresh key t xs) (ground arith) d.0) only in
        rw (rest, same) (or_false (q a))
    | inr e ↦
        let skip : q x ≡ false = not_kind x e in
        rw skip (any-find_key key k q xs a d.1 (rw e at h) only)
  ]
    where
      or_false : (b : Bool) → (b || false) ≡ b
      or_false true = refl
      or_false false = refl

      not_kind : (b : A) → (key b == k) ≡ false → q b ≡ false
      not_kind b e = elim (Bool-cases (q b)) [ inl t ↦ ground (arith, only b) | inr f ↦ f ]

  pub any-find-none :
      (key : A → ℕ) (k : ℕ) (q : A → Bool) (xs : List A)
      → find (λ b. key b == k) xs ≡ none
      → ((b : A) → q b ≡ true → key b ≡ k)
      → any q xs ≡ false
  unfolding any find
  any-find-none key k q [] h only = refl
  any-find-none key k q (x ∷ xs) h only = elim (Bool-cases (q x)) [
    | inl t ↦ ground (arith, only x)
    | inr f ↦ elim (Bool-cases (key x == k)) [
      | inl e ↦ ground arith
      | inr e ↦ rw f (any-find-none key k q xs (rw e at h) only)
    ]
  ]
