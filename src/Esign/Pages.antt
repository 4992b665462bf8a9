-- ===== src/Esign/Pages.antt =====
-- sign/esign.py, the page operations on a draft: `delete_page`, `reorder_pages`, `rotate_page` and
-- `add_pages`, which rewrite the source PDF and move the placed fields and the record of the edited
-- pages with it. The arithmetic of the coordinates, which are floats, is a parameter.
pub mod Remap
pub mod Follow
pub mod Stored
pub mod Source
pub mod Reflow
pub mod Edited
use lifted_sign.Base.{
  ℕ, zero, suc, ◌+◌, ◌-◌, ◌%◌, String, Bool, true, false, not, ◌&&◌, ◌||◌, Option, none, some, List,
  [], ◌∷◌, ◌==◌, ltb, leb, if◌then◌else◌, select, update_where, delete_where, map,
}
use lifted_sign.Base.Int.{ℤ, pos, negsuc}
use lifted_sign.Base.Text.{show, ◌+s◌}
use lifted_sign.Store.{
  Store, Env, Agreement, Field, FileKind, EventType, Bytes, Error, Result, ok, err, guard, ◌>>=◌,
  ◌>>◌, checked, set_agreement, event, is_draft,
}
use lifted_sign.Store.Reads.{View, get_agreement, source_bytes, write_file, field_of_agreement}
use lifted_sign.Pdf.{
  Codec, page_count, delete_pages, is_permutation, reorder_pages, rotate_pages, merge,
}

-- What a page operation replies.
pub record Paged : Type 0 where
  pub pages : ℕ
  pub doc_hash : String
  pub fields : List Field

abbrev pub raise {ℓ} : {A : Type ℓ} → Option A → Result A
raise none = err Error.raised
raise (some a) = ok a

abbrev pub has_source : Agreement → Bool
has_source a = elim a.source_path [ none ↦ false | some k ↦ true ]

-- `_draft_source`
unfoldable pub draft_source : ℕ → Store → Result View
unfolding get_agreement
draft_source aid w = do
  v ← elim (get_agreement aid w) [ none ↦ err Error.not_found | some v ↦ ok v ]
  guard (has_source v.row) Error.not_found
  guard (is_draft v.row.status) Error.locked
  ok v

-- A page operation that passed its checks: the new bytes, the remap of the tables, the audit event.
pub record Rewrite : Type 0 where
  pub content : Bytes
  pub remap : Store → Store
  pub kind : EventType
  pub detail : String

abbrev pub write_source : Option FileKind → ℕ → Bytes → Store → Store
write_source none aid b w = w
write_source (some k) aid b w = write_file aid k b w

abbrev pub reply_of : String → List Field → Option ℕ → Result Paged
reply_of hash fields none = err Error.raised
reply_of hash fields (some n) = ok (record { pages = n; doc_hash = hash; fields = fields })

-- `_rewrite_source_and_remap`
unfoldable pub rewrite_source : Env → Codec → View × Rewrite → Store → Result Paged × Store
unfolding set_agreement event write_file page_count
rewrite_source env c (v, r) w =
    let aid = v.row.id in
    let hash = env.pdf.sha256 r.content in
    let stored = write_source v.row.source_path aid r.content w in
    let hashed = set_agreement aid (λ a. record a { doc_hash = hash }) stored in
    let done = event env aid r.kind none "" "" r.detail (r.remap hashed) in
    (reply_of hash (select (field_of_agreement aid) done.fields) (page_count c r.content), done)

-- `if not (0 <= page < n): return "bad page"`
abbrev pub page_in : ℕ → ℤ → Result ℕ
page_in n (pos i) = if ltb i n then ok i else err Error.bad_page
page_in n (negsuc i) = err Error.bad_page

-- `_remap_edited_pages_in_txn`: the images of the edited pages, sorted and without repetitions.
abbrev pub insert_page : Option ℕ → List ℕ → List ℕ
insert_page none l = l
insert_page (some i) [] = i ∷ []
insert_page (some i) (j ∷ l) =
    if ltb i j then i ∷ j ∷ l else if i == j then j ∷ l else j ∷ insert_page (some i) l

unfoldable pub remap_indices : (ℕ → Option ℕ) → List ℕ → List ℕ
remap_indices mapper [] = []
remap_indices mapper (i ∷ rest) = insert_page (mapper i) (remap_indices mapper rest)

unfoldable pub remap_edited_pages : ℕ → (ℕ → Option ℕ) → Store → Store
unfolding set_agreement remap_indices
remap_edited_pages aid mapper w =
    set_agreement aid (λ a. record a { edited_pages = remap_indices mapper a.edited_pages }) w

abbrev pub on_page : ℕ → ℕ → Field → Bool
on_page aid page f = (f.agreement_id == aid) && (f.page == page)

abbrev pub after_page : ℕ → ℕ → Field → Bool
after_page aid page f = (f.agreement_id == aid) && ltb page f.page

abbrev pub up_one : Field → Field
up_one f = record f { page = f.page - 1 }

abbrev pub without_page : ℕ → ℕ → Option ℕ
without_page page i = if i == page then none else if ltb page i then some (i - 1) else some i

unfoldable pub remap_deleted : ℕ → ℕ → Store → Store
unfolding remap_edited_pages
remap_deleted aid page w = remap_edited_pages aid (without_page page) (record w {
  fields = update_where (after_page aid page) up_one (delete_where (on_page aid page) w.fields);
})

unfoldable pub delete_page_checks : Codec → ℕ → ℤ → Store → Result (View × Rewrite)
unfolding draft_source source_bytes page_count delete_pages
delete_page_checks c aid page w = do
  v ← draft_source aid w
  data' ← raise (source_bytes v.row w)
  n ← raise (page_count c data')
  i ← page_in n page
  guard (not (leb n 1)) Error.only_page
  new ← raise (delete_pages c data' (i ∷ []))
  ok (
    v,
    record {
      content = new;
      remap = remap_deleted aid i;
      kind = EventType.pages_delete;
      detail = "deleted page " +s show (i + 1);
    },
  )

unfoldable pub delete_page : Env → Codec → ℕ → ℤ → Store → Result Paged × Store
unfolding delete_page_checks rewrite_source
delete_page env c aid page w = checked (delete_page_checks c aid page w) (rewrite_source env c) w

-- The offset of the first phase of the reordering.
abbrev pub phase : ℕ
phase = 100000

abbrev pub set_page : ℕ → Field → Field
set_page i f = record f { page = i }

-- The first phase: `order` from its index `i` on.
unfoldable pub move_pages : ℕ → ℕ → List ℕ → List Field → List Field
move_pages aid i [] fields = fields
move_pages aid i (old ∷ rest) fields =
    move_pages aid (suc i) rest (update_where (on_page aid old) (set_page (i + phase)) fields)

abbrev pub landing : ℕ → Field → Bool
landing aid f = (f.agreement_id == aid) && leb phase f.page

abbrev pub land : Field → Field
land f = record f { page = f.page - phase }

-- `new_of_old.get(i)`, from the index `j` on.
unfoldable pub new_of_old : ℕ → List ℕ → ℕ → Option ℕ
new_of_old j [] i = none
new_of_old j (old ∷ rest) i = if old == i then some j else new_of_old (suc j) rest i

unfoldable pub remap_reordered : ℕ → List ℕ → Store → Store
unfolding remap_edited_pages move_pages new_of_old
remap_reordered aid order w =
    remap_edited_pages aid (new_of_old 0 order)
      (record w { fields = update_where (landing aid) land (move_pages aid 0 order w.fields) })

abbrev pub naturals : List ℤ → Result (List ℕ)
naturals [] = ok []
naturals (pos i ∷ rest) = do l ← naturals rest; ok (i ∷ l)
naturals (negsuc i ∷ rest) = err Error.bad_order

unfoldable pub reorder_checks : Codec → ℕ → List ℤ → Store → Result (View × Rewrite)
unfolding draft_source source_bytes page_count reorder_pages is_permutation
reorder_checks c aid order w = do
  v ← draft_source aid w
  data' ← raise (source_bytes v.row w)
  n ← raise (page_count c data')
  o ← naturals order
  guard (is_permutation n o) Error.bad_order
  new ← raise (reorder_pages c data' o)
  ok (
    v,
    record {
      content = new;
      remap = remap_reordered aid o;
      kind = EventType.pages_reorder;
      detail = "reordered " +s show n +s " pages";
    },
  )

unfoldable pub reorder : Env → Codec → ℕ → List ℤ → Store → Result Paged × Store
unfolding reorder_checks rewrite_source
reorder env c aid order w = checked (reorder_checks c aid order w) (rewrite_source env c) w

-- A quarter turn clockwise by 90 degrees, a half turn, and the quarter turn back.
pub data Turn : Type 0 where
  right half left : Turn

abbrev pub degrees : Turn → ℕ
degrees Turn.right = 90
degrees Turn.half = 180
degrees Turn.left = 270

-- The subtraction of floats, which rounds, and the float 1. A coordinate is the bits of its float.
pub record Floats : Type 0 where
  pub one : ℤ
  pub minus : ℤ → ℤ → ℤ

-- `1 - at - size`
abbrev pub mirrored : Floats → ℤ → ℤ → ℤ
mirrored fl at size = fl.minus (fl.minus fl.one at) size

-- A box in the coordinates of the rotated page.
unfoldable pub turn_field : Floats → Turn → Field → Field
turn_field fl Turn.right f = record f { x = mirrored fl f.y f.h; y = f.x; w = f.h; h = f.w }
turn_field fl Turn.half f = record f { x = mirrored fl f.x f.w; y = mirrored fl f.y f.h }
turn_field fl Turn.left f = record f { x = f.y; y = mirrored fl f.x f.w; w = f.h; h = f.w }

-- `deg % 360`, of an integer.
abbrev pub modulo_turn : ℤ → ℕ
modulo_turn (pos n) = n % 360
modulo_turn (negsuc n) = 359 - n % 360

abbrev pub parse_turn : ℕ → Result Turn
parse_turn d =
    if d == 90
    then ok Turn.right
    else if d == 180
    then ok Turn.half
    else if d == 270
    then ok Turn.left
    else err Error.bad_degrees

-- The source updates the selected rows one by one, by their ids.
unfoldable pub remap_rotated : Floats → ℕ → ℕ → Turn → Store → Store
unfolding turn_field
remap_rotated fl aid page t w = record w {
  fields = update_where (on_page aid page) (turn_field fl t) w.fields;
}

unfoldable pub rotate_checks : Floats → Codec → ℕ → ℤ → ℤ → Store → Result (View × Rewrite)
unfolding draft_source source_bytes page_count rotate_pages
rotate_checks fl c aid page deg w = do
  v ← draft_source aid w
  data' ← raise (source_bytes v.row w)
  n ← raise (page_count c data')
  i ← page_in n page
  t ← parse_turn (modulo_turn deg)
  new ← raise (rotate_pages c data' i (degrees t))
  ok (
    v,
    record {
      content = new;
      remap = remap_rotated fl aid i t;
      kind = EventType.pages_rotate;
      detail = "rotated page " +s show (i + 1) +s " by " +s show (degrees t) +s " degrees";
    },
  )

unfoldable pub rotate_page : Floats → Env → Codec → ℕ → ℤ → ℤ → Store → Result Paged × Store
unfolding rotate_checks rewrite_source
rotate_page fl env c aid page deg w =
    checked (rotate_checks fl c aid page deg w) (rewrite_source env c) w

abbrev pub is_pdf : Bytes → Bool
is_pdf (a ∷ b ∷ c ∷ d ∷ rest) = (a == b'%') && (b == b'P') && (c == b'D') && (d == b'F')
is_pdf _ = false

abbrev pub count_added : Option ℕ → Result ℕ
count_added none = err Error.not_a_pdf
count_added (some n) = ok n

unfoldable pub add_checks : Codec → ℕ → Bytes → Store → Result (View × Rewrite)
unfolding draft_source source_bytes page_count merge
add_checks c aid extra w = do
  v ← draft_source aid w
  guard (is_pdf extra) Error.not_a_pdf
  data' ← raise (source_bytes v.row w)
  added ← count_added (page_count c extra)
  new ← raise (merge c data' extra)
  ok (
    v,
    record {
      content = new;
      remap = λ u. u;
      kind = EventType.pages_add;
      detail = "added " +s show added +s " page(s)";
    },
  )

unfoldable pub add_pages : Env → Codec → ℕ → Bytes → Store → Result Paged × Store
unfolding add_checks rewrite_source
add_pages env c aid extra w = checked (add_checks c aid extra w) (rewrite_source env c) w
