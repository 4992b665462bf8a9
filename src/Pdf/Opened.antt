-- ===== src/Pdf/Opened.antt =====
-- What sign/pdf_ops.py saves, opened again.
use lifted_sign.Base.{
  ℕ, Bool, true, false, Option, none, some, List, [], ◌∷◌, ◌≡◌, refl, sym, ap, ◌∙◌, length, all,
}
use lifted_sign.Store.{Bytes}
use lifted_sign.Pdf.{
  Page, Codec, IsCodec, ◌>>=◌, check, nonempty, below, page_count, survivors, delete_pages, pick,
  reorder_pages, is_permutation,
}
use lifted_sign.Pdf.Positions.{some_inj}

-- A chain that succeeds has a first value.
pub first_value :
    {A B : Type 0} (o : Option A) (k : A → Option B) (b : B)
    → (o >>= k) ≡ some b
    → (a : A) × (o ≡ some a) × (k a ≡ some b)
first_value none k b h = absurd (cc h)
first_value (some a) k b h = (a, refl, h)

check-some :
    {A : Type 0} (t : Bool) (m : Option A) (a : A) → check t m ≡ some a → (t ≡ true) × (m ≡ some a)
check-some true m a h = (refl, h)
check-some false m a h = absurd (cc h)

nonempty-some : (l r : List Page) → nonempty l ≡ some r → l ≡ r
nonempty-some [] r h = absurd (cc h)
nonempty-some (p ∷ l) r h = some_inj h

pub opened :
    (c : Codec) (b : Bytes) (n : ℕ)
    → page_count c b ≡ some n
    → (ps : List Page) × (c.open_pdf b ≡ some ps) × (length ps ≡ n)
unfolding page_count
opened c b n h =
    let (ps, e, k) = first_value (c.open_pdf b) (λ ps. some (length ps)) n h in (ps, e, some_inj k)

same_pages :
    (c : Codec) (b : Bytes) (ps qs : List Page)
    → c.open_pdf b ≡ some ps
    → c.open_pdf b ≡ some qs
    → ps ≡ qs
same_pages c b ps qs h k = some_inj (sym h ∙ k)

pub delete_pages-opened :
    (c : Codec) (b new : Bytes) (drop : List ℕ) (ps : List Page)
    → IsCodec c
    → c.open_pdf b ≡ some ps
    → delete_pages c b drop ≡ some new
    → c.open_pdf new ≡ some (survivors drop 0 ps)
unfolding delete_pages
delete_pages-opened c b new drop ps codec opens h =
    let (qs, e, k) = first_value (c.open_pdf b) _ new h in
    let (kept, e2, k2) = first_value _ (λ keep. some (c.save keep)) new k in
    let r = check-some (all (below (length qs)) drop) (nonempty (survivors drop 0 qs)) kept e2 in
    let same : qs ≡ ps = same_pages c b qs ps e opens in
    let left : kept ≡ survivors drop 0 ps =
      sym (nonempty-some (survivors drop 0 qs) kept r.1) ∙ ap (survivors drop 0) same in
    ap c.open_pdf (sym (some_inj k2)) ∙ codec.opens_saved kept ∙ ap some left

pub reorder_pages-opened :
    (c : Codec) (b new : Bytes) (order : List ℕ) (ps : List Page)
    → IsCodec c
    → c.open_pdf b ≡ some ps
    → reorder_pages c b order ≡ some new
    → (qs : List Page) × (c.open_pdf new ≡ some qs)
      × (is_permutation (length ps) order ≡ true)
      × (pick ps order ≡ some qs)
unfolding reorder_pages
reorder_pages-opened c b new order ps codec opens h =
    let (rs, e, k) = first_value (c.open_pdf b) _ new h in
    let (qs, e2, k2) = first_value _ (λ l. some (c.save l)) new k in
    let r = check-some (is_permutation (length rs) order) (pick rs order) qs e2 in
    let same : rs ≡ ps = same_pages c b rs ps e opens in
    (
      qs,
      ap c.open_pdf (sym (some_inj k2)) ∙ codec.opens_saved qs,
      ap (λ l. is_permutation (length l) order) (sym same) ∙ r.0,
      ap (λ l. pick l order) (sym same) ∙ r.1,
    )
