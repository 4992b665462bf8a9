-- ===== src/Esign/Pages/Remap.antt =====
-- The remaps of the page operations in sign/esign.py, row by row.
use lifted_sign.Base.{
  ℕ, suc, ◌+◌, ◌-◌, ◌<◌, ◌≤◌, ◌≢◌, Bool, true, false, ◌||◌, Option, none, some, List, [], ◌∷◌, ◌≡◌,
  refl, sym, ap, ◌∙◌, arith, ◌==◌, ==_iff, if◌then◌else◌, Bool-cases, inl, inr, get_elem?, any, map,
  update_where, All,
}
use lifted_sign.Store.{Field}
use lifted_sign.Pdf.{mem}
use lifted_sign.Pdf.Positions.{shifted, some_inj}
use lifted_sign.Esign.Pages.{
  on_page, insert_page, remap_indices, without_page, phase, set_page, move_pages, landing, land,
  new_of_old,
}

mem-insert_page : (i j : ℕ) (l : List ℕ) → mem j (insert_page (some i) l) ≡ ((i == j) || mem j l)
unfolding any
mem-insert_page i j [] = refl
mem-insert_page i j (k ∷ l) = ground (arith, mem-insert_page i j l)

same_shift : (p i q : ℕ) → i ≢ p → q ≢ p → (shifted p i == shifted p q) ≡ (i == q)
same_shift p i q h k = ground arith

without-shifted : (p i : ℕ) → i ≢ p → without_page p i ≡ some (shifted p i)
without-shifted p i h = ground arith

-- A page that stays is recorded as edited at its new index exactly if it was at its old one.
pub mem-remap_without_page :
    (p q : ℕ) (l : List ℕ) → q ≢ p → mem (shifted p q) (remap_indices (without_page p) l) ≡ mem q l
unfolding remap_indices any
mem-remap_without_page p q [] stays = refl
mem-remap_without_page p q (i ∷ l) stays = elim (Bool-cases (i == p)) [
  | inl e ↦
      let gone : (i == q) ≡ false = ground arith in
      rw (e, gone) (mem-remap_without_page p q l stays)
  | inr e ↦
      let apart : i ≢ p = λ k. cc (e, (==_iff i p).1 k) in
      rw
        (
          without-shifted p i apart,
          mem-insert_page (shifted p i) (shifted p q) (remap_indices (without_page p) l),
          same_shift p i q apart stays,
          mem-remap_without_page p q l stays,
        )
        refl
]

-- `new_of_old`: an index at which the old one stands.
pub record IsPlaced (s i t : ℕ) (order : List ℕ) : Type 0 where
  pub place : ℕ
  pub index : t ≡ s + place
  pub stands : get_elem? order place ≡ some i

pub new_of_old-IsPlaced :
    (s i t : ℕ) (order : List ℕ) → new_of_old s order i ≡ some t → IsPlaced s i t order
unfolding new_of_old get_elem?
new_of_old-IsPlaced s i t [] h = absurd (cc h)
new_of_old-IsPlaced s i t (o ∷ order) h = elim (Bool-cases (o == i)) [
  | inl e ↦
      let same : o ≡ i = (==_iff o i).0 e in
      let here : s ≡ t = some_inj (rw e at h) in
      record { place = 0; index = omega arith; stands = ap some same }
  | inr e ↦
      let r : IsPlaced (suc s) i t order = new_of_old-IsPlaced (suc s) i t order (rw e at h) in
      record { place = suc r.place; index = omega (arith, r.index); stands = r.stands }
]

pub new_of_old_total :
    (s i : ℕ) (order : List ℕ) → mem i order ≡ true → (t : ℕ) × (new_of_old s order i ≡ some t)
unfolding new_of_old any
new_of_old_total s i [] h = absurd (cc h)
new_of_old_total s i (o ∷ order) h = elim (Bool-cases (o == i)) [
  | inl e ↦ (s, rw e refl)
  | inr e ↦ let (t, k) = new_of_old_total (suc s) i order (rw e at h) in (t, rw e k)
]

-- Two old indices with one image are one.
new_of_old_inj :
    (i q t : ℕ) (order : List ℕ)
    → new_of_old 0 order i ≡ some t
    → new_of_old 0 order q ≡ some t
    → i ≡ q
new_of_old_inj i q t order h k =
    let a : IsPlaced 0 i t order = new_of_old-IsPlaced 0 i t order h in
    let b : IsPlaced 0 q t order = new_of_old-IsPlaced 0 q t order k in
    let same : a.place ≡ b.place = omega (arith, a.index, b.index) in
    some_inj (sym a.stands ∙ ap (get_elem? order) same ∙ b.stands)

differ : (a b : ℕ) → a ≢ b → (a == b) ≡ false
differ a b h = ground arith

-- Whether the image of an index is that of `q` says whether it is `q`.
same_image :
    (i q t : ℕ) (order : List ℕ) (o : Option ℕ) (l : List ℕ)
    → new_of_old 0 order q ≡ some t
    → new_of_old 0 order i ≡ o
    → mem t (insert_page o l) ≡ ((i == q) || mem t l)
same_image i q t order none l h e =
    let apart : (i == q) ≡ false = differ i q (λ k. cc (sym e ∙ ap (new_of_old 0 order) k ∙ h)) in
    rw apart refl
same_image i q t order (some u) l h e =
    mem-insert_page u t l
    ∙ ap (λ b. b || mem t l)
        (elim (Bool-cases (u == t)) [
          | inl k ↦
              let images : u ≡ t = (==_iff u t).0 k in
              let same : i ≡ q = new_of_old_inj i q t order (e ∙ ap some images) h in
              k ∙ sym ((==_iff i q).1 same)
          | inr k ↦
              k
              ∙ sym (
                  differ i q (λ same.
                    cc (k, (==_iff u t).1 (some_inj (sym e ∙ ap (new_of_old 0 order) same ∙ h)))))
        ])

-- A page is recorded as edited at its new index exactly if it was at its old one.
pub mem-remap_new_of_old :
    (q t : ℕ) (order l : List ℕ)
    → new_of_old 0 order q ≡ some t
    → mem t (remap_indices (new_of_old 0 order) l) ≡ mem q l
unfolding remap_indices any
mem-remap_new_of_old q t order [] h = refl
mem-remap_new_of_old q t order (i ∷ l) h =
    same_image i q t order (new_of_old 0 order i) (remap_indices (new_of_old 0 order) l) h refl
    ∙ ap (λ b. (i == q) || b) (mem-remap_new_of_old q t order l h)

-- The first phase of the reordering, on one row.
pub move_row : ℕ → ℕ → List ℕ → Field → Field
move_row aid s [] f = f
move_row aid s (old ∷ rest) f =
    move_row aid (suc s) rest (if on_page aid old f then set_page (s + phase) f else f)

update_where-map :
    (p : Field → Bool) (g : Field → Field) (l : List Field)
    → update_where p g l ≡ map (λ f. if p f then g f else f) l
unfolding update_where
update_where-map p g [] = refl
update_where-map p g (f ∷ l) = rw (update_where-map p g l) refl

map_same : (l : List Field) → map (λ f. f) l ≡ l
map_same [] = refl
map_same (f ∷ l) = rw (map_same l) refl

map-map : (g h : Field → Field) (l : List Field) → map g (map h l) ≡ map (λ f. g (h f)) l
map-map g h [] = refl
map-map g h (f ∷ l) = rw (map-map g h l) refl

pub move_pages-map :
    (aid s : ℕ) (order : List ℕ) (l : List Field)
    → move_pages aid s order l ≡ map (move_row aid s order) l
unfolding move_pages move_row
move_pages-map aid s [] l = sym (map_same l)
move_pages-map aid s (old ∷ rest) l =
    move_pages-map aid (suc s) rest (update_where (on_page aid old) (set_page (s + phase)) l)
    ∙ ap (map (move_row aid (suc s) rest))
        (update_where-map (on_page aid old) (set_page (s + phase)) l)
    ∙ map-map (move_row aid (suc s) rest)
        (λ f. if on_page aid old f then set_page (s + phase) f else f) l

-- Both phases, on one row.
pub moved_row : ℕ → List ℕ → Field → Field
moved_row aid order f =
    if landing aid (move_row aid 0 order f)
    then land (move_row aid 0 order f)
    else move_row aid 0 order f

pub reordered-map :
    (aid : ℕ) (order : List ℕ) (l : List Field)
    → update_where (landing aid) land (move_pages aid 0 order l) ≡ map (moved_row aid order) l
unfolding moved_row
reordered-map aid order l =
    update_where-map (landing aid) land (move_pages aid 0 order l)
    ∙ ap (map (λ f. if landing aid f then land f else f)) (move_pages-map aid 0 order l)
    ∙ map-map (λ f. if landing aid f then land f else f) (move_row aid 0 order) l

-- A row that has moved is not moved again.
move_row-landed :
    (aid s : ℕ) (order : List ℕ) (f : Field)
    → All (λ o. o < phase) order
    → phase ≤ f.page
    → move_row aid s order f ≡ f
unfolding move_row
move_row-landed aid s [] f small far = refl
move_row-landed aid s (old ∷ rest) f small far =
    let stays : on_page aid old f ≡ false = ground (arith, small.0) in
    rw stays (move_row-landed aid (suc s) rest f small.1 far)

move_row-other :
    (aid s : ℕ) (order : List ℕ) (f : Field)
    → (f.agreement_id == aid) ≡ false
    → move_row aid s order f ≡ f
unfolding move_row
move_row-other aid s [] f other = refl
move_row-other aid s (old ∷ rest) f other = rw other (move_row-other aid (suc s) rest f other)

move_row-placed :
    (aid s t : ℕ) (order : List ℕ) (f : Field)
    → All (λ o. o < phase) order
    → (f.agreement_id == aid) ≡ true
    → new_of_old s order f.page ≡ some t
    → move_row aid s order f ≡ set_page (t + phase) f
unfolding move_row new_of_old
move_row-placed aid s t [] f small mine h = absurd (cc h)
move_row-placed aid s t (old ∷ rest) f small mine h = elim (Bool-cases (old == f.page)) [
  | inl e ↦
      let here : on_page aid old f ≡ true = ground arith in
      let same : s ≡ t = some_inj (rw e at h) in
      rw (here, same)
        (move_row-landed aid (suc t) rest (set_page (t + phase) f) small.1 (omega arith))
  | inr e ↦
      let elsewhere : on_page aid old f ≡ false = ground arith in
      rw elsewhere (move_row-placed aid (suc s) t rest f small.1 mine (rw e at h))
]

pub moved_row-placed :
    (aid t : ℕ) (order : List ℕ) (f : Field)
    → All (λ o. o < phase) order
    → (f.agreement_id == aid) ≡ true
    → new_of_old 0 order f.page ≡ some t
    → moved_row aid order f ≡ set_page t f
unfolding moved_row
moved_row-placed aid t order f small mine h =
    let lands : landing aid (set_page (t + phase) f) ≡ true = ground arith in
    let back : t + phase - phase ≡ t = omega arith in
    rw (move_row-placed aid 0 t order f small mine h, lands) (ap (λ i. set_page i f) back)

pub moved_row-other :
    (aid : ℕ) (order : List ℕ) (f : Field)
    → (f.agreement_id == aid) ≡ false
    → moved_row aid order f ≡ f
unfolding moved_row
moved_row-other aid order f other = rw (move_row-other aid 0 order f other, other) refl
