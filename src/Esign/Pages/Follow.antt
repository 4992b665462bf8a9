-- ===== src/Esign/Pages/Follow.antt =====
-- The fields under the page operations of sign/esign.py: the page that a placed field shows on.
use lifted_sign.Base.{
  ℕ, ◌+◌, ◌<◌, ◌≤◌, ◌≢◌, true, false, Option, none, some, List, [], ◌∷◌, ◌≡◌, refl, ap, ◌∙◌, arith,
  ◌==◌, ltb, if◌then◌else◌, Bool-cases, inl, inr, get_elem?, length, any, map, update_where,
  delete_where, All,
}
use lifted_sign.Store.{Field}
use lifted_sign.Pdf.{Page, mem, survivors, pick, is_permutation}
use lifted_sign.Pdf.Positions.{shifted, get_elem?-survivors, get_elem?-pick, mem-is_permutation}
use lifted_sign.Esign.Pages.{on_page, after_page, up_one, phase, move_pages, landing, land}
use lifted_sign.Esign.Pages.Remap.{
  IsPlaced, new_of_old-IsPlaced, new_of_old_total, reordered-map, moved_row, moved_row-placed,
  moved_row-other,
}

-- A field and the page it stands on, for the fields of one agreement.
abbrev pub shown : ℕ → List Page → Field → ℕ × Option Page
shown aid pages f = (f.id, if f.agreement_id == aid then get_elem? pages f.page else none)

deleted_row :
    (aid p : ℕ) (ps : List Page) (f : Field)
    → on_page aid p f ≡ false
    → shown aid (survivors (p ∷ []) 0 ps) (if after_page aid p f then up_one f else f)
      ≡ shown aid ps f
deleted_row aid p ps f stays = elim (Bool-cases (f.agreement_id == aid)) [
  | inl mine ↦
      let away : f.page ≢ p = ground arith in
      let base : p ≡ 0 + p = omega arith in
      let there : get_elem? (survivors (p ∷ []) 0 ps) (shifted p f.page) ≡ get_elem? ps f.page =
        ap (λ k. get_elem? (survivors (k ∷ []) 0 ps) (shifted p f.page)) base
        ∙ get_elem?-survivors 0 p f.page ps away in
      elim (Bool-cases (ltb p f.page)) [
        | inl e ↦ rw (mine, e, mine) (ap (λ o. (f.id, o)) (rw e at there))
        | inr e ↦ rw (mine, e, mine) (ap (λ o. (f.id, o)) (rw e at there))
      ]
  | inr other ↦ rw other (rw other refl)
]

pub shown-deleted :
    (aid p : ℕ) (ps : List Page) (l : List Field)
    → map
        (shown aid (survivors (p ∷ []) 0 ps))
        (update_where (after_page aid p) up_one (delete_where (on_page aid p) l))
      ≡ map (shown aid ps) (delete_where (on_page aid p) l)
unfolding update_where delete_where
shown-deleted aid p ps [] = refl
shown-deleted aid p ps (f ∷ l) = elim (Bool-cases (on_page aid p f)) [
  | inl e ↦ rw e (shown-deleted aid p ps l)
  | inr e ↦ rw e (ap2 (deleted_row aid p ps f e) (shown-deleted aid p ps l))
]
  where
    ap2 :
        {x y : ℕ × Option Page} {xs ys : List (ℕ × Option Page)} → x ≡ y → xs ≡ ys → x ∷ xs ≡ y ∷ ys
    ap2 h k = cc (h, k)

below_phase :
    (n : ℕ) (order : List ℕ)
    → ((i : ℕ) → mem i order ≡ true → i < n)
    → n ≤ phase
    → All (λ o. o < phase) order
unfolding any
below_phase n [] h small = tt
below_phase n (o ∷ order) h small =
    (ground (arith, h o), below_phase n order (λ i k. h i (ground arith)) small)

reordered_row :
    (aid : ℕ) (ps qs : List Page) (order : List ℕ) (f : Field)
    → is_permutation (length ps) order ≡ true
    → length ps ≤ phase
    → pick ps order ≡ some qs
    → ((f.agreement_id == aid) ≡ true → f.page < length ps)
    → shown aid qs (moved_row aid order f) ≡ shown aid ps f
reordered_row aid ps qs order f perm small picked inside =
    elim (Bool-cases (f.agreement_id == aid)) [
      | inr other ↦ rw (moved_row-other aid order f other, other) refl
      | inl mine ↦
          let listed : (i : ℕ) → mem i order ≡ ltb i (length ps) =
            λ i. mem-is_permutation (length ps) i order perm in
          let has : mem f.page order ≡ true = ground (arith, listed f.page, inside mine) in
          let (t, image) = new_of_old_total 0 f.page order has in
          let place : IsPlaced 0 f.page t order = new_of_old-IsPlaced 0 f.page t order image in
          let at_t : t ≡ place.place = omega (arith, place.index) in
          let stands : get_elem? order t ≡ some f.page = ap (get_elem? order) at_t ∙ place.stands in
          let low : All (λ o. o < phase) order =
            below_phase (length ps) order (λ i k. ground (arith, listed i)) small in
          rw (moved_row-placed aid t order f low mine image, mine)
            (ap (λ o. (f.id, o)) (get_elem?-pick ps qs order t f.page picked stands))
    ]

pub shown-reordered :
    (aid : ℕ) (ps qs : List Page) (order : List ℕ) (l : List Field)
    → is_permutation (length ps) order ≡ true
    → length ps ≤ phase
    → pick ps order ≡ some qs
    → All (λ f. (f.agreement_id == aid) ≡ true → f.page < length ps) l
    → map (shown aid qs) (update_where (landing aid) land (move_pages aid 0 order l))
      ≡ map (shown aid ps) l
shown-reordered aid ps qs order l perm small picked inside =
    ap (map (shown aid qs)) (reordered-map aid order l) ∙ rows l inside
  where
    rows :
        (xs : List Field)
        → All (λ f. (f.agreement_id == aid) ≡ true → f.page < length ps) xs
        → map (shown aid qs) (map (moved_row aid order) xs) ≡ map (shown aid ps) xs
    rows [] h = refl
    rows (f ∷ xs) h =
        let head : shown aid qs (moved_row aid order f) ≡ shown aid ps f =
          reordered_row aid ps qs order f perm small picked h.0 in
        cc (head, rows xs h.1)
