-- ===== src/Examples/Pages.antt =====
-- A small page library, a draft with three pages, and the theorems on page operations at them.
use lifted_sign.Base.{
  ℕ, zero, suc, ◌<◌, ◌≤◌, ◌==◌, ◌≢◌, true, some, List, [], ◌∷◌, ◌≡◌, refl, sym, ap, ◌∙◌, arith,
  find, select, update_where, delete_where, get_elem?, length, any, all, sort_by, insert_by, All,
}
use lifted_sign.Base.Int.{ℤ, pos}
use lifted_sign.Base.Text.{show}
use lifted_sign.Store.{Store, Agreement, Field, Bytes, ok, empty, source_pdf, event, set_agreement}
use lifted_sign.Store.Reads.{
  agreement_row, get_agreement, source_bytes, read_file, write_file, signers_of, fields_of,
}
use lifted_sign.Pdf.{
  Page, Codec, IsCodec, page_count, survivors, mem, delete_pages, reorder_pages, is_permutation,
  range_from, eq_list, pick,
}
use lifted_sign.Pdf.Positions.{shifted, some_inj}
use lifted_sign.Esign.Pages.{
  Paged, draft_source, rewrite_source, on_page, delete_page, delete_page_checks, remap_deleted,
  remap_edited_pages, reorder, reorder_checks, naturals, remap_reordered, move_pages, new_of_old,
  phase,
}
use lifted_sign.Esign.Pages.Stored.{pages_of}
use lifted_sign.Esign.Pages.Source.{IsReflowed}
use lifted_sign.Esign.Pages.Reflow.{delete_page-reflows, reorder-reflows}
use lifted_sign.Esign.Pages.Edited.{edited_pages-follow}
use lifted_sign.Examples.{world, draft_row, title_field}

-- A page is written as its bytes, each one more than it is, and a 0.
abbrev write_page : Page → Bytes → Bytes
write_page [] rest = 0 ∷ rest
write_page (b ∷ p) rest = suc b ∷ write_page p rest

abbrev write_pages : List Page → Bytes
write_pages [] = []
write_pages (p ∷ ps) = write_page p (write_pages ps)

abbrev push : ℕ → List Page → List Page
push b [] = []
push b (p ∷ ps) = (b ∷ p) ∷ ps

abbrev read_pages : Bytes → List Page
read_pages [] = []
read_pages (zero ∷ bs) = [] ∷ read_pages bs
read_pages (suc b ∷ bs) = push b (read_pages bs)

abbrev codec : Codec
codec = record {
  open_pdf = λ b. some (read_pages b);
  save = write_pages;
  rotate = λ deg p. deg ∷ p;
}

read-write_page : (p : Page) (rest : Bytes) → read_pages (write_page p rest) ≡ p ∷ read_pages rest
read-write_page [] rest = refl
read-write_page (b ∷ p) rest = ap (push b) (read-write_page p rest)

read-write_pages : (ps : List Page) → read_pages (write_pages ps) ≡ ps
read-write_pages [] = refl
read-write_pages (p ∷ ps) =
    read-write_page p (write_pages ps) ∙ ap (λ l. p ∷ l) (read-write_pages ps)

codec-IsCodec : IsCodec codec
codec-IsCodec = record { opens_saved = λ ps. ap some (read-write_pages ps) }

abbrev draft_with : List Field → Store
draft_with fields = record empty {
  agreements = record draft_row { edited_pages = 0 ∷ 2 ∷ [] } ∷ [];
  fields = fields;
  files = record { agreement_id = 1; kind = source_pdf; content = 2 ∷ 0 ∷ 3 ∷ 0 ∷ 4 ∷ 0 ∷ [] } ∷ [];
  next_agreement = 2;
}

abbrev field_on : ℕ → ℕ → Field
field_on i page = record title_field { id = i; page = page }

abbrev three_pages : Store
three_pages = draft_with (field_on 1 0 ∷ field_on 2 1 ∷ field_on 3 2 ∷ [])

abbrev two_left : Paged
two_left = record { pages = 2; doc_hash = "hash"; fields = field_on 1 0 ∷ field_on 3 1 ∷ [] }

page-removed :
    delete_page (world 200) codec 1 (pos 1) three_pages
    ≡ (ok two_left, (delete_page (world 200) codec 1 (pos 1) three_pages).1)
unfolding delete_page delete_page_checks draft_source get_agreement signers_of fields_of find select
    sort_by source_bytes read_file page_count delete_pages survivors any all rewrite_source
    set_agreement event write_file remap_deleted remap_edited_pages update_where delete_where show
page-removed = refl

delete_page-reflows_example :
    (i : ℕ) × (before : List Page) × (pos 1 ≡ pos i)
    × (pages_of codec 1 three_pages ≡ some before)
    × IsReflowed codec 1
        (delete_where (on_page 1 i) three_pages.fields)
        before
        (survivors (i ∷ []) 0 before)
        two_left
        (delete_page (world 200) codec 1 (pos 1) three_pages).1
delete_page-reflows_example =
    delete_page-reflows (world 200) codec 1 (pos 1) two_left three_pages
      (delete_page (world 200) codec 1 (pos 1) three_pages).1 codec-IsCodec page-removed

abbrev last_first : List ℤ
last_first = pos 2 ∷ pos 0 ∷ pos 1 ∷ []

abbrev all_moved : Paged
all_moved = record {
  pages = 3;
  doc_hash = "hash";
  fields = field_on 1 1 ∷ field_on 2 2 ∷ field_on 3 0 ∷ [];
}

pages-reordered :
    reorder (world 200) codec 1 last_first three_pages
    ≡ (ok all_moved, (reorder (world 200) codec 1 last_first three_pages).1)
unfolding reorder reorder_checks draft_source get_agreement signers_of fields_of find select sort_by
    insert_by source_bytes read_file page_count reorder_pages is_permutation range_from eq_list pick
    get_elem? rewrite_source set_agreement event write_file remap_reordered move_pages
    remap_edited_pages update_where show
pages-reordered = refl

pages-stored : pages_of codec 1 three_pages ≡ some ((1 ∷ []) ∷ (2 ∷ []) ∷ (3 ∷ []) ∷ [])
unfolding pages_of find source_bytes read_file
pages-stored = refl

fields-inside :
    (before : List Page)
    → pages_of codec 1 three_pages ≡ some before
    → (length before ≤ phase)
      × All (λ f. (f.agreement_id == 1) ≡ true → f.page < length before) three_pages.fields
fields-inside before h =
    let same : before ≡ (1 ∷ []) ∷ (2 ∷ []) ∷ (3 ∷ []) ∷ [] = some_inj (sym h ∙ pages-stored) in
    let size : length before ≡ 3 = ap length same in
    (
      omega (arith, size),
      ((λ _. omega (arith, size)), ((λ _. omega (arith, size)), ((λ _. omega (arith, size)), tt))),
    )

reorder-reflows_example :
    (o : List ℕ) × (before : List Page) × (after : List Page) × (naturals last_first ≡ ok o)
    × (pages_of codec 1 three_pages ≡ some before)
    × (is_permutation (length before) o ≡ true)
    × (pick before o ≡ some after)
    × IsReflowed codec 1 three_pages.fields before after all_moved
        (reorder (world 200) codec 1 last_first three_pages).1
reorder-reflows_example =
    reorder-reflows (world 200) codec 1 last_first all_moved three_pages
      (reorder (world 200) codec 1 last_first three_pages).1 codec-IsCodec fields-inside
      pages-reordered

draft-found : agreement_row 1 three_pages ≡ some (record draft_row { edited_pages = 0 ∷ 2 ∷ [] })
unfolding find
draft-found = refl

edited_pages-follow_example :
    ((p : ℕ)
      → (b : Agreement) × (agreement_row 1 (remap_deleted 1 p three_pages) ≡ some b)
        × ((q : ℕ) → q ≢ p → mem (shifted p q) b.edited_pages ≡ mem q (0 ∷ 2 ∷ [])))
    × ((order : List ℕ)
        → (b : Agreement) × (agreement_row 1 (remap_reordered 1 order three_pages) ≡ some b)
          × ((q t : ℕ) → new_of_old 0 order q ≡ some t → mem t b.edited_pages ≡ mem q (0 ∷ 2 ∷ [])))
edited_pages-follow_example =
    edited_pages-follow 1 three_pages (record draft_row { edited_pages = 0 ∷ 2 ∷ [] }) draft-found
