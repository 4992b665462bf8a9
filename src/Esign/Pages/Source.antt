-- ===== src/Esign/Pages/Source.antt =====
-- The stored source PDF under the page operations of sign/esign.py: what `delete_page` and
-- `reorder_pages` leave for the next read.
use mathlib.Core.Path.{subst}
use lifted_sign.Base.Members.{find_holds}
use lifted_sign.Base.{
  select, ℕ, true, Option, none, some, List, ◌≡◌, refl, sym, ap, ◌∙◌, ==_iff, length, map,
}
use lifted_sign.Store.{
  Store, Env, Agreement, Field, FileKind, Bytes, Result, Error, ok, err, guard, ◌>>=◌, ◌>>◌,
  is_draft, has_id, set_agreement, event, guard-holds,
}
use lifted_sign.Store.Reads.{
  field_of_agreement, View, view_of, get_agreement, agreement_row, source_bytes, write_file,
}
use lifted_sign.Pdf.{Page, Codec, page_count}
use lifted_sign.Pdf.Opened.{opened}
use lifted_sign.Esign.Pages.{
  Paged, has_source, Rewrite, rewrite_source, reply_of, write_source, raise, draft_source,
}
use lifted_sign.Esign.Pages.Stored.{pages_of, Stands, Stands-pages_of, Stands-other, written}
use lifted_sign.Esign.Pages.Follow.{shown}

pub raised : {A : Type 0} (o : Option A) (a : A) → raise o ≡ ok a → o ≡ some a
raised none a h = absurd (cc h)
raised (some b) a h = cc h

found_view : Option View → Result View
found_view o = elim o [ none ↦ err Error.not_found | some v ↦ ok v ]

drafted :
    (aid : ℕ) (w : Store) (v : View)
    → draft_source aid w ≡ ok v
    → (agreement_row aid w ≡ some v.row) × (has_source v.row ≡ true)
unfolding draft_source get_agreement found_view
drafted aid w v h = go (agreement_row aid w) refl h
  where
    go :
        (o : Option Agreement)
        → agreement_row aid w ≡ o
        → (found_view (elim o [ none ↦ none | some a ↦ some (view_of w a) ]) >>= λ u.
            guard (has_source u.row) Error.not_found
            >> (guard (is_draft u.row.status) Error.locked >> ok u))
          ≡ ok v
        → (agreement_row aid w ≡ some v.row) × (has_source v.row ≡ true)
    go none e k = absurd (cc k)
    go (some a) e k =
        let r =
          guard-holds (has_source a) Error.not_found
            (guard (is_draft a.status) Error.locked >> ok (view_of w a)) v k in
        let q = guard-holds (is_draft a.status) Error.locked (ok (view_of w a)) v r.1 in
        let same : view_of w a ≡ v = cc q.1 in
        (e ∙ ap (λ u. some u.row) same, ap (λ u. has_source u.row) (sym same) ∙ r.0)

-- After a page operation: the pages of the stored PDF, and the page that each field stands on.
pub record IsReflowed (c : Codec) (aid : ℕ) (kept : List Field) (before after : List Page)
    (reply : Paged) (w : Store) : Type 0 where
  pub reopened : pages_of c aid w ≡ some after
  pub counted : reply.pages ≡ length after
  pub drawn : map (shown aid after) w.fields ≡ map (shown aid before) kept

pub same_agreement :
    (aid : ℕ) (w : Store) (a : Agreement) → agreement_row aid w ≡ some a → a.id ≡ aid
same_agreement aid w a h = (==_iff a.id aid).0 (find_holds (has_id aid) w.agreements a h)

-- What every page operation reads before it decides: a draft, and the pages of its source.
pub record Begun (c : Codec) (aid : ℕ) (w : Store) (v : View) (data' : Bytes) (n : ℕ) : Type 0 where
  pub before : List Page
  pub opens : c.open_pdf data' ≡ some before
  pub stored : pages_of c aid w ≡ some before
  pub size : length before ≡ n
  pub found : agreement_row aid w ≡ some v.row
  pub at_id : v.row.id ≡ aid
  pub sourced : has_source v.row ≡ true

pub begun :
    (c : Codec) (aid : ℕ) (w : Store) (v : View) (data' : Bytes) (n : ℕ)
    → draft_source aid w ≡ ok v
    → raise (source_bytes v.row w) ≡ ok data'
    → raise (page_count c data') ≡ ok n
    → Begun c aid w v data' n
begun c aid w v data' n h k l =
    let row = drafted aid w v h in
    let at_id : v.row.id ≡ aid = same_agreement aid w v.row row.0 in
    let reads : source_bytes v.row w ≡ some data' = raised (source_bytes v.row w) data' k in
    let (ps, opens, size) = opened c data' n (raised (page_count c data') n l) in
    record {
      before = ps;
      opens = opens;
      stored =
          Stands-pages_of c aid data' w
            (record { row = v.row; at_id = at_id; found = row.0; reads = reads })
          ∙ opens;
      size = size;
      found = row.0;
      at_id = at_id;
      sourced = row.1;
    }

pages_replied : Result Paged → ℕ
pages_replied (err e) = 0
pages_replied (ok p) = p.pages

write_source-fields :
    (o : Option FileKind) (aid : ℕ) (b : Bytes) (w : Store)
    → (write_source o aid b w).fields ≡ w.fields
unfolding write_file
write_source-fields none aid b w = refl
write_source-fields (some k) aid b w = refl

-- The writes, of a remap that leaves the files and the path of the row alone.
pub rewritten :
    (env : Env) (c : Codec) (aid : ℕ) (v : View) (r : Rewrite) (w w' : Store) (reply : Paged)
    (data' : Bytes) (n : ℕ) (kept : List Field) (before after : List Page)
    → Begun c aid w v data' n
    → ((u : Store) → Stands aid r.content u → Stands aid r.content (r.remap u))
    → ((u : Store)
        → u.fields ≡ w.fields
        → map (shown aid after) (r.remap u).fields ≡ map (shown aid before) kept)
    → c.open_pdf r.content ≡ some after
    → rewrite_source env c (v, r) w ≡ (ok reply, w')
    → IsReflowed c aid kept before after reply w'
unfolding rewrite_source event set_agreement pages_replied page_count
rewritten env c aid v r w w' reply data' n kept before after b stands draws opens h =
    let u : Store =
      set_agreement v.row.id (λ a. record a { doc_hash = env.pdf.sha256 r.content })
        (write_source v.row.source_path v.row.id r.content w) in
    let there : Stands v.row.id r.content u =
      written v.row.id r.content (env.pdf.sha256 r.content) v.row w
        (ap (λ i. agreement_row i w) b.at_id ∙ b.found) refl b.sourced in
    let here : Stands aid r.content u = subst (λ i. Stands i r.content u) b.at_id there in
    let last : event env v.row.id r.kind none "" "" r.detail (r.remap u) ≡ w' = ap (λ p. p.1) h in
    let done : Store = event env v.row.id r.kind none "" "" r.detail (r.remap u) in
    let stays : Stands aid r.content w' =
      subst (λ t. Stands aid r.content t) last
        (Stands-other aid r.content (r.remap u)
          (event env v.row.id r.kind none "" "" r.detail (r.remap u)) refl refl (stands u here)) in
    let counted : page_count c r.content ≡ some (length after) = rw opens refl in
    record {
      reopened = Stands-pages_of c aid r.content w' stays ∙ opens;
      counted =
          sym (ap (λ p. pages_replied p.0) h)
          ∙ ap
              (λ o. pages_replied (
                reply_of (env.pdf.sha256 r.content)
                  (select (field_of_agreement v.row.id) done.fields) o))
              counted;
      drawn =
          ap (λ t. map (shown aid after) t.fields) (sym last)
          ∙ draws u (write_source-fields v.row.source_path v.row.id r.content w);
    }
