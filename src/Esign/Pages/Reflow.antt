-- ===== src/Esign/Pages/Reflow.antt =====
-- `delete_page` and `reorder_pages` of sign/esign.py, run to their ends.
use mathlib.Core.Path.{subst}
use lifted_sign.Base.Text.{show, ◌+s◌}
use lifted_sign.Base.{
  ◌==◌, update_where, ℕ, ◌+◌, ◌<◌, ◌≤◌, true, not, Option, some, List, [], ◌∷◌, ◌≡◌, refl, sym, ap,
  ◌∙◌, ltb, leb, length, map, delete_where, All, Bool-cases, inl, inr,
}
use lifted_sign.Base.Int.{ℤ, pos, negsuc}
use lifted_sign.Store.{
  EventType, Store, Env, Field, Bytes, Error, ok, set_agreement, guard-holds, bind-ok, checked-ok,
}
use lifted_sign.Store.Reads.{source_bytes}
use lifted_sign.Pdf.{
  Page, Codec, IsCodec, page_count, survivors, delete_pages, pick, reorder_pages, is_permutation,
}
use lifted_sign.Pdf.Opened.{delete_pages-opened, reorder_pages-opened}
use lifted_sign.Esign.Pages.{
  Paged, Rewrite, rewrite_source, raise, draft_source, on_page, page_in, delete_page,
  delete_page_checks, remap_deleted, remap_reordered, reorder, reorder_checks, remap_edited_pages,
  remap_indices, naturals, phase, without_page, new_of_old, after_page, up_one, landing, land,
  move_pages,
}
use lifted_sign.Esign.Pages.Follow.{shown, shown-deleted, shown-reordered}
use lifted_sign.Esign.Pages.Stored.{pages_of, Stands, Stands-set_agreement, Stands-other}
use lifted_sign.Esign.Pages.Source.{raised, IsReflowed, Begun, begun, rewritten}

Stands-remap_edited :
    (aid : ℕ) (b : Bytes) (mapper : ℕ → Option ℕ) (fields : List Field) (w : Store)
    → Stands aid b w
    → Stands aid b (remap_edited_pages aid mapper (record w { fields = fields }))
unfolding remap_edited_pages
Stands-remap_edited aid b mapper fields w s =
    Stands-set_agreement aid b
      (λ a. record a { edited_pages = remap_indices mapper a.edited_pages })
      (record w { fields = fields }) (λ a. refl) (λ a. refl)
      (Stands-other aid b w (record w { fields = fields }) refl refl s)

page_in-pos : (n : ℕ) (page : ℤ) (i : ℕ) → page_in n page ≡ ok i → page ≡ pos i
page_in-pos n (pos j) i h = elim (Bool-cases (ltb j n)) [
  | inl e ↦ cc (rw e at h)
  | inr e ↦ absurd (cc (rw e at h))
]
page_in-pos n (negsuc j) i h = absurd (cc h)

deletion : ℕ → ℕ → Bytes → Rewrite
deletion aid i new = record {
  content = new;
  remap = remap_deleted aid i;
  kind = EventType.pages_delete;
  detail = "deleted page " +s show (i + 1);
}

reordering : ℕ → List ℕ → ℕ → Bytes → Rewrite
reordering aid order n new = record {
  content = new;
  remap = remap_reordered aid order;
  kind = EventType.pages_reorder;
  detail = "reordered " +s show n +s " pages";
}

ok_inj : {A : Type 0} {a b : A} → ok a ≡ ok b → a ≡ b
ok_inj h = cc h

-- When `delete_page` succeeds on a PDF that saves what it opens: the page is an index of the stored
-- pages; the stored PDF then has the other pages, in their order; the reply counts them; and the
-- fields left are those that did not stand on the page, each on the page it stood on.
pub delete_page-reflows :
    (env : Env) (c : Codec) (aid : ℕ) (page : ℤ) (reply : Paged) (w w' : Store)
    → IsCodec c
    → delete_page env c aid page w ≡ (ok reply, w')
    → (i : ℕ) × (before : List Page) × (page ≡ pos i)
      × (pages_of c aid w ≡ some before)
      × IsReflowed c aid
          (delete_where (on_page aid i) w.fields)
          before
          (survivors (i ∷ []) 0 before)
          reply
          w'
unfolding delete_page delete_page_checks remap_deleted remap_edited_pages set_agreement deletion
delete_page-reflows env c aid page reply w w' codec h =
    let ((v, r), checks, ran) =
      checked-ok (delete_page_checks c aid page w) (rewrite_source env c) w w' reply h in
    let (v1, is_draft, k1) = bind-ok (draft_source aid w) _ (v, r) checks in
    let (data', is_read, k2) = bind-ok (raise (source_bytes v1.row w)) _ (v, r) k1 in
    let (n, is_counted, k3) = bind-ok (raise (page_count c data')) _ (v, r) k2 in
    let (i, is_in, k4) = bind-ok (page_in n page) _ (v, r) k3 in
    let k5 = guard-holds (not (leb n 1)) Error.only_page _ (v, r) k4 in
    let (new, is_new, k6) = bind-ok (raise (delete_pages c data' (i ∷ []))) _ (v, r) k5.1 in
    let b : Begun c aid w v1 data' n = begun c aid w v1 data' n is_draft is_read is_counted in
    let same : (v, r) ≡ (v1, deletion aid i new) = sym (ok_inj k6) in
    let reopens : c.open_pdf new ≡ some (survivors (i ∷ []) 0 b.before) =
      delete_pages-opened c data' new (i ∷ []) b.before codec b.opens
        (raised (delete_pages c data' (i ∷ [])) new is_new) in
    (
      i,
      b.before,
      page_in-pos n page i is_in,
      b.stored,
      rewritten env c aid v1 (deletion aid i new) w w' reply data' n
          (delete_where (on_page aid i) w.fields) b.before (survivors (i ∷ []) 0 b.before) b
          (λ u s. Stands-remap_edited aid new (without_page i) _ u s)
          (λ u e.
            ap
              (λ l.
                map (shown aid (survivors (i ∷ []) 0 b.before))
                  (update_where (after_page aid i) up_one (delete_where (on_page aid i) l)))
              e
            ∙ shown-deleted aid i b.before w.fields)
          reopens (subst (λ z. rewrite_source env c z w ≡ (ok reply, w')) same ran),
    )

-- When `reorder_pages` succeeds on a PDF that saves what it opens, of at most 100000 pages, and each
-- of the draft's fields lies on one of them: the order is a permutation of the page indices; the
-- stored PDF then has the pages in that order; the reply counts them; and every field stands on the
-- page it stood on.
pub reorder-reflows :
    (env : Env) (c : Codec) (aid : ℕ) (order : List ℤ) (reply : Paged) (w w' : Store)
    → IsCodec c
    → ((before : List Page)
        → pages_of c aid w ≡ some before
        → (length before ≤ phase)
          × All (λ f. (f.agreement_id == aid) ≡ true → f.page < length before) w.fields)
    → reorder env c aid order w ≡ (ok reply, w')
    → (o : List ℕ) × (before : List Page) × (after : List Page) × (naturals order ≡ ok o)
      × (pages_of c aid w ≡ some before)
      × (is_permutation (length before) o ≡ true)
      × (pick before o ≡ some after)
      × IsReflowed c aid w.fields before after reply w'
unfolding reorder reorder_checks remap_reordered remap_edited_pages set_agreement reordering
reorder-reflows env c aid order reply w w' codec inside h =
    let ((v, r), checks, ran) =
      checked-ok (reorder_checks c aid order w) (rewrite_source env c) w w' reply h in
    let (v1, is_draft, k1) = bind-ok (draft_source aid w) _ (v, r) checks in
    let (data', is_read, k2) = bind-ok (raise (source_bytes v1.row w)) _ (v, r) k1 in
    let (n, is_counted, k3) = bind-ok (raise (page_count c data')) _ (v, r) k2 in
    let (o, is_natural, k4) = bind-ok (naturals order) _ (v, r) k3 in
    let k5 = guard-holds (is_permutation n o) Error.bad_order _ (v, r) k4 in
    let (new, is_new, k6) = bind-ok (raise (reorder_pages c data' o)) _ (v, r) k5.1 in
    let b : Begun c aid w v1 data' n = begun c aid w v1 data' n is_draft is_read is_counted in
    let same : (v, r) ≡ (v1, reordering aid o n new) = sym (ok_inj k6) in
    let (qs, reopens, perm, picked) =
      reorder_pages-opened c data' new o b.before codec b.opens
        (raised (reorder_pages c data' o) new is_new) in
    let (small, on) = inside b.before b.stored in
    (
      o,
      b.before,
      qs,
      is_natural,
      b.stored,
      perm,
      picked,
      rewritten env c aid v1 (reordering aid o n new) w w' reply data' n w.fields b.before qs b
          (λ u s. Stands-remap_edited aid new (new_of_old 0 o) _ u s)
          (λ u e.
            ap (λ l. map (shown aid qs) (update_where (landing aid) land (move_pages aid 0 o l))) e
            ∙ shown-reordered aid b.before qs o w.fields perm small picked on)
          reopens (subst (λ z. rewrite_source env c z w ≡ (ok reply, w')) same ran),
    )
