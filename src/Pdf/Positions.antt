-- ===== src/Pdf/Positions.antt =====
-- Where the pages go, under the operations of sign/pdf_ops.py.
use lifted_sign.Base.{
  ℕ, zero, suc, ◌+◌, ◌-◌, ◌<◌, ◌≢◌, Bool, true, false, ◌&&◌, ◌||◌, Option, none, some, List, [],
  ◌∷◌, ◌≡◌, refl, sym, ap, ◌∙◌, arith, ◌==◌, ltb, leb, if◌then◌else◌, Bool-cases, inl, inr,
  get_elem?, any, insert_by, sort_by,
}
use lifted_sign.Pdf.{
  Page, survivors, mem, rotate_at, pick, range_from, eq_list, is_permutation, ◌>>=◌,
}

pub some_inj {ℓ} : {A : Type ℓ} {a b : A} → some a ≡ some b → a ≡ b
some_inj h = cc h

swap_or : (a b c : Bool) → (a || (b || c)) ≡ (b || (a || c))
swap_or true true c = refl
swap_or true false c = refl
swap_or false true c = refl
swap_or false false c = refl

-- The index of a page that stays, after page `k` is dropped.
abbrev pub shifted : ℕ → ℕ → ℕ
shifted k q = if ltb k q then q - 1 else q

survivors_past : (d i : ℕ) (ps : List Page) → d < i → survivors (d ∷ []) i ps ≡ ps
unfolding survivors any
survivors_past d i [] h = refl
survivors_past d i (p ∷ ps) h =
    let here : (d == i) ≡ false = ground arith in
    rw (here, survivors_past d (suc i) ps (omega arith)) refl

shifted_first : (q : ℕ) → shifted 0 (suc q) ≡ q
shifted_first q = ground arith

shifted_zero : (k : ℕ) → shifted (suc k) 0 ≡ 0
shifted_zero k = ground arith

shifted-suc : (k q : ℕ) → q ≢ k → shifted (suc k) (suc q) ≡ suc (shifted k q)
shifted-suc k q away = ground arith

-- A page that stays is found at its shifted index.
pub get_elem?-survivors :
    (i k q : ℕ) (ps : List Page)
    → q ≢ k
    → get_elem? (survivors ((i + k) ∷ []) i ps) (shifted k q) ≡ get_elem? ps q
unfolding survivors any get_elem?
get_elem?-survivors i k q [] away = refl
get_elem?-survivors i zero zero (p ∷ ps) away = absurd (away refl)
get_elem?-survivors i zero (suc q) (p ∷ ps) away =
    let here : (i + 0 == i) ≡ true = ground arith in
    rw (here, survivors_past (i + 0) (suc i) ps (omega arith), shifted_first q) refl
get_elem?-survivors i (suc k) zero (p ∷ ps) away =
    let later : (i + suc k == i) ≡ false = ground arith in rw (later, shifted_zero k) refl
get_elem?-survivors i (suc k) (suc q) (p ∷ ps) away =
    let later : (i + suc k == i) ≡ false = ground arith in
    let apart : q ≢ k = λ e. away (ap suc e) in
    let index : i + suc k ≡ suc i + k = omega arith in
    rw (later, shifted-suc k q apart)
      (ap (λ t. get_elem? (survivors (t ∷ []) (suc i) ps) (shifted k q)) index
        ∙ get_elem?-survivors (suc i) k q ps apart)

pub get_elem?-rotate_at :
    (f : Page → Page) (i j : ℕ) (ps : List Page)
    → j ≢ i
    → get_elem? (rotate_at f i ps) j ≡ get_elem? ps j
unfolding rotate_at get_elem?
get_elem?-rotate_at f i j [] away = refl
get_elem?-rotate_at f zero zero (p ∷ ps) away = absurd (away refl)
get_elem?-rotate_at f zero (suc j) (p ∷ ps) away = refl
get_elem?-rotate_at f (suc i) zero (p ∷ ps) away = refl
get_elem?-rotate_at f (suc i) (suc j) (p ∷ ps) away =
    get_elem?-rotate_at f i j ps (λ e. away (rw e refl))

pub get_elem?-pick :
    (ps qs : List Page) (order : List ℕ) (j i : ℕ)
    → pick ps order ≡ some qs
    → get_elem? order j ≡ some i
    → get_elem? qs j ≡ get_elem? ps i
unfolding pick get_elem?
get_elem?-pick ps qs [] j i h e = absurd (cc e)
get_elem?-pick ps qs (o ∷ order) j i h e =
    go (get_elem? ps o) refl (pick ps order) refl h j e (λ xs k. get_elem?-pick ps xs order k i)
  where
    go :
        (p : Option Page)
        → get_elem? ps o ≡ p
        → (r : Option (List Page)) → pick ps order ≡ r
        → (p >>= λ x. r >>= λ xs. some (x ∷ xs)) ≡ some qs
        → (k : ℕ) → get_elem? (o ∷ order) k ≡ some i
        → ((xs : List Page) (n : ℕ)
            → pick ps order ≡ some xs
            → get_elem? order n ≡ some i
            → get_elem? xs n ≡ get_elem? ps i)
        → get_elem? qs k ≡ get_elem? ps i
    go none found r rest made k at_k ih = absurd (cc made)
    go (some p) found none rest made k at_k ih = absurd (cc made)
    go (some p) found (some xs) rest made zero at_k ih =
        let same : qs ≡ p ∷ xs = sym (some_inj made) in
        let here : o ≡ i = some_inj at_k in rw same (sym found ∙ ap (get_elem? ps) here)
    go (some p) found (some xs) rest made (suc k) at_k ih =
        let same : qs ≡ p ∷ xs = sym (some_inj made) in rw same (ih xs k rest at_k)

-- The permutation test: what it says of the indices.
mem-insert_by : (i x : ℕ) (l : List ℕ) → mem i (insert_by (λ n. n) x l) ≡ mem i (x ∷ l)
unfolding insert_by any
mem-insert_by i x [] = refl
mem-insert_by i x (y ∷ l) = elim (Bool-cases (leb x y)) [
  | inl e ↦ rw e refl
  | inr e ↦ rw (e, mem-insert_by i x l) (swap_or (y == i) (x == i) (mem i l))
]

mem-sort_by : (i : ℕ) (l : List ℕ) → mem i (sort_by (λ n. n) l) ≡ mem i l
unfolding sort_by any
mem-sort_by i [] = refl
mem-sort_by i (x ∷ l) =
    mem-insert_by i x (sort_by (λ n. n) l) ∙ ap (λ b. (x == i) || b) (mem-sort_by i l)

eq_list-eq : (xs ys : List ℕ) → eq_list xs ys ≡ true → xs ≡ ys
unfolding eq_list
eq_list-eq [] [] h = refl
eq_list-eq [] (y ∷ ys) h = cc h
eq_list-eq (x ∷ xs) [] h = cc h
eq_list-eq (x ∷ xs) (y ∷ ys) h = elim (Bool-cases (x == y)) [
  | inl e ↦
      let heads : x ≡ y = ground arith in
      let tails : xs ≡ ys = eq_list-eq xs ys (rw e at h) in cc (heads, tails)
  | inr e ↦ absurd (cc (rw e at h))
]

mem-range_from : (i s n : ℕ) → mem i (range_from s n) ≡ (leb s i && ltb i (s + n))
unfolding range_from any
mem-range_from i s zero = ground arith
mem-range_from i s (suc n) = rw (mem-range_from i (suc s) n) (ground arith)

-- A permutation of the indices below `n` has exactly these.
pub mem-is_permutation :
    (n i : ℕ) (order : List ℕ) → is_permutation n order ≡ true → mem i order ≡ ltb i n
unfolding is_permutation
mem-is_permutation n i order h =
    sym (mem-sort_by i order)
    ∙ ap (mem i) (eq_list-eq (sort_by (λ k. k) order) (range_from 0 n) h)
    ∙ mem-range_from i 0 n
    ∙ ground arith
