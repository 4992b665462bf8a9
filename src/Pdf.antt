-- ===== src/Pdf.antt =====
-- sign/pdf_ops.py, the page operations on a PDF. Its third-party library opens a file as a list of
-- pages and saves such a list: a `Codec`. A raised exception is `none`.
pub mod Positions
pub mod Opened
use lifted_sign.Base.{
  ℕ, zero, suc, ◌+◌, Bool, true, false, not, Option, none, some, List, [], ◌∷◌, ◌++◌, ◌≡◌, ◌==◌,
  ltb, if◌then◌else◌, length, get_elem?, sort_by, any, all,
}
use lifted_sign.Store.{Bytes}

-- A page, as the library serializes it.
abbrev pub Page : Type 0
Page = Bytes

pub record Codec : Type 0 where
  pub open_pdf : Bytes → Option (List Page)
  pub save : List Page → Bytes
  -- `page.rotate(deg, relative=True)`
  pub rotate : ℕ → Page → Page

-- What is saved opens as it was.
pub record IsCodec (c : Codec) : Type 0 where
  pub opens_saved : (ps : List Page) → c.open_pdf (c.save ps) ≡ some ps

infixl 5 ◌>>=◌
abbrev pub ◌>>=◌ {ℓ κ} :
    {A : Type ℓ} {B : Type κ} (found : Option A) (later : A → Option B) → Option B
none >>= later = none
some a >>= later = later a

unfoldable pub page_count : Codec → Bytes → Option ℕ
page_count c data' = do ps ← c.open_pdf data'; some (length ps)

abbrev pub below : ℕ → ℕ → Bool
below n i = ltb i n

abbrev pub mem : ℕ → List ℕ → Bool
mem i l = any (λ j. j == i) l

-- The pages whose index, counted from `i`, is not dropped.
unfoldable pub survivors : List ℕ → ℕ → List Page → List Page
survivors drop i [] = []
survivors drop i (p ∷ ps) =
    let rest = survivors drop (suc i) ps in if mem i drop then rest else p ∷ rest

abbrev pub nonempty : List Page → Option (List Page)
nonempty [] = none
nonempty (p ∷ ps) = some (p ∷ ps)

abbrev pub check {ℓ} : {A : Type ℓ} → Bool → Option A → Option A
check false m = none
check true m = m

unfoldable pub delete_pages : Codec → Bytes → List ℕ → Option Bytes
unfolding survivors
delete_pages c data' drop = do
  ps ← c.open_pdf data'
  keep ← check (all (below (length ps)) drop) (nonempty (survivors drop 0 ps))
  some (c.save keep)

-- `list(range(i, i + n))`
unfoldable pub range_from : ℕ → ℕ → List ℕ
range_from i zero = []
range_from i (suc n) = i ∷ range_from (suc i) n

unfoldable pub eq_list : List ℕ → List ℕ → Bool
eq_list [] [] = true
eq_list (x ∷ xs) (y ∷ ys) = let rest = eq_list xs ys in if x == y then rest else false
eq_list _ _ = false

-- `sorted(order) == list(range(n))`
unfoldable pub is_permutation : ℕ → List ℕ → Bool
unfolding range_from eq_list
is_permutation n order = eq_list (sort_by (λ i. i) order) (range_from 0 n)

-- `for i in order: dst.pages.append(src.pages[i])`
unfoldable pub pick : List Page → List ℕ → Option (List Page)
pick ps [] = some []
pick ps (i ∷ rest) = do p ← get_elem? ps i; qs ← pick ps rest; some (p ∷ qs)

unfoldable pub reorder_pages : Codec → Bytes → List ℕ → Option Bytes
unfolding is_permutation pick
reorder_pages c data' order = do
  ps ← c.open_pdf data'
  qs ← check (is_permutation (length ps) order) (pick ps order)
  some (c.save qs)

unfoldable pub rotate_at : (Page → Page) → ℕ → List Page → List Page
rotate_at f i [] = []
rotate_at f zero (p ∷ ps) = f p ∷ ps
rotate_at f (suc i) (p ∷ ps) = p ∷ rotate_at f i ps

-- `rotate_pages(data, {page: deg})`, of a degree that is a multiple of 90 below 360.
unfoldable pub rotate_pages : Codec → Bytes → ℕ → ℕ → Option Bytes
unfolding rotate_at
rotate_pages c data' page deg = do
  ps ← c.open_pdf data'
  qs ← check (below (length ps) page) (some (rotate_at (c.rotate deg) page ps))
  some (c.save qs)

-- `merge([data, extra])`
unfoldable pub merge : Codec → Bytes → Bytes → Option Bytes
merge c data' extra = do ps ← c.open_pdf data'; qs ← c.open_pdf extra; some (c.save (ps ++ qs))
