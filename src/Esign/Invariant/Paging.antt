-- ===== src/Esign/Invariant/Paging.antt =====
-- The page operations keep the invariant.
use lifted_sign.Base.{ℕ, Option, none, some, List, [], ◌∷◌, ◌≡◌, refl, not, leb}
use lifted_sign.Base.Int.{ℤ}
use mathlib.Core.Path.{subst}
use lifted_sign.Store.{
  Store, Env, Field, FileKind, Bytes, Result, Error, ok, err, guard, ◌>>=◌, checked,
}
use lifted_sign.Store.Reads.{View, write_file, source_bytes}
use lifted_sign.Pdf.{
  Codec, page_count, delete_pages, is_permutation, reorder_pages, rotate_pages, merge,
}
use lifted_sign.Esign.Pages.{
  Floats, raise, draft_source, page_in, naturals, parse_turn, modulo_turn, degrees, is_pdf,
  count_added, Rewrite, rewrite_source, write_source, delete_page, delete_page_checks, reorder,
  reorder_checks, rotate_page, rotate_checks, add_pages, add_checks, remap_edited_pages,
  remap_indices, remap_deleted, remap_reordered, remap_rotated, without_page, new_of_old,
}
use lifted_sign.Esign.Quiet.{Quiet, Quiet-refl}
use lifted_sign.Esign.Invariant.{IsConsistent, Quiet-IsConsistent, checked-IsConsistent}
use lifted_sign.Esign.Invariant.Rules.{event-IsConsistent, set_agreement-IsConsistent}

Quiet-write_source :
    (o : Option FileKind) (aid : ℕ) (b : Bytes) (w : Store) → Quiet w (write_source o aid b w)
unfolding write_file
Quiet-write_source none aid b w = Quiet-refl w
Quiet-write_source (some k) aid b w = record {
  agreements = refl;
  signers = refl;
  next_agreement = refl;
  next_signer = refl;
}

Quiet-fields : (w : Store) (fields : List Field) → Quiet w (record w { fields = fields })
Quiet-fields w fields = record {
  agreements = refl;
  signers = refl;
  next_agreement = refl;
  next_signer = refl;
}

remap_edited_pages-IsConsistent :
    (aid : ℕ) (mapper : ℕ → Option ℕ) (fields : List Field) (w : Store)
    → IsConsistent w
    → IsConsistent (remap_edited_pages aid mapper (record w { fields = fields }))
unfolding remap_edited_pages
remap_edited_pages-IsConsistent aid mapper fields w i =
    set_agreement-IsConsistent aid
      (λ a. record a { edited_pages = remap_indices mapper a.edited_pages }) (λ a. refl) (λ a h. h)
      (record w { fields = fields }) (Quiet-IsConsistent (Quiet-fields w fields) i)

rewrite_source-IsConsistent :
    (env : Env) (c : Codec) (v : View) (r : Rewrite) (w : Store)
    → ((u : Store) → IsConsistent u → IsConsistent (r.remap u))
    → IsConsistent w
    → IsConsistent (rewrite_source env c (v, r) w).1
unfolding rewrite_source
rewrite_source-IsConsistent env c v r w keeps i =
    event-IsConsistent env v.row.id r.kind none "" "" r.detail _ (
      keeps _ (
        set_agreement-IsConsistent v.row.id (λ a. record a { doc_hash = env.pdf.sha256 r.content })
          (λ a. refl) (λ a h. h) (write_source v.row.source_path v.row.id r.content w)
          (Quiet-IsConsistent (Quiet-write_source v.row.source_path v.row.id r.content w) i)))

-- Checks that only ever pass with a remap that keeps the invariant.
abbrev Kept : Result (View × Rewrite) → Type 0
Kept m =
    (v : View) (r : Rewrite)
    → m ≡ ok (v, r)
    → (u : Store) → IsConsistent u
    → IsConsistent (r.remap u)

Kept-bind :
    {A : Type 0} (m : Result A) (f : A → Result (View × Rewrite))
    → ((a : A) → Kept (f a))
    → Kept (m >>= f)
Kept-bind (err e) f h v r k = absurd (cc k)
Kept-bind (ok a) f h v r k = h a v r k

Kept-ok :
    (v : View) (r : Rewrite)
    → ((u : Store) → IsConsistent u → IsConsistent (r.remap u))
    → Kept (ok (v, r))
Kept-ok v r keeps v1 r1 e =
    let same : r ≡ r1 = cc e in
    subst (λ q. (u : Store) → IsConsistent u → IsConsistent (q.remap u)) same keeps

pages-IsConsistent :
    (env : Env) (c : Codec) (m : Result (View × Rewrite)) (w : Store)
    → Kept m
    → IsConsistent w
    → IsConsistent (checked m (rewrite_source env c) w).1
pages-IsConsistent env c m w keeps i =
    checked-IsConsistent m (rewrite_source env c) w i
      (λ p e. rewrite_source-IsConsistent env c p.0 p.1 w (keeps p.0 p.1 e) i)

pub delete_page-IsConsistent :
    (env : Env) (c : Codec) (aid : ℕ) (page : ℤ) (w : Store)
    → IsConsistent w
    → IsConsistent (delete_page env c aid page w).1
unfolding delete_page delete_page_checks remap_deleted
delete_page-IsConsistent env c aid page w i =
    pages-IsConsistent env c (delete_page_checks c aid page w) w
      (Kept-bind (draft_source aid w) _ (λ v. Kept-bind (raise (source_bytes v.row w)) _ (λ b.
        Kept-bind (raise (page_count c b)) _ (λ n. Kept-bind (page_in n page) _ (λ p.
          Kept-bind (guard (not (leb n 1)) Error.only_page) _ (λ _.
            Kept-bind (raise (delete_pages c b (p ∷ []))) _ (λ new.
              Kept-ok v _ (λ u. remap_edited_pages-IsConsistent aid (without_page p) _ u))))))))
      i

pub reorder-IsConsistent :
    (env : Env) (c : Codec) (aid : ℕ) (order : List ℤ) (w : Store)
    → IsConsistent w
    → IsConsistent (reorder env c aid order w).1
unfolding reorder reorder_checks remap_reordered
reorder-IsConsistent env c aid order w i =
    pages-IsConsistent env c (reorder_checks c aid order w) w
      (Kept-bind (draft_source aid w) _ (λ v. Kept-bind (raise (source_bytes v.row w)) _ (λ b.
        Kept-bind (raise (page_count c b)) _ (λ n. Kept-bind (naturals order) _ (λ o.
          Kept-bind (guard (is_permutation n o) Error.bad_order) _ (λ _.
            Kept-bind (raise (reorder_pages c b o)) _ (λ new.
              Kept-ok v _ (λ u. remap_edited_pages-IsConsistent aid (new_of_old 0 o) _ u))))))))
      i

pub rotate_page-IsConsistent :
    (fl : Floats) (env : Env) (c : Codec) (aid : ℕ) (page deg : ℤ) (w : Store)
    → IsConsistent w
    → IsConsistent (rotate_page fl env c aid page deg w).1
unfolding rotate_page rotate_checks remap_rotated
rotate_page-IsConsistent fl env c aid page deg w i =
    pages-IsConsistent env c (rotate_checks fl c aid page deg w) w
      (Kept-bind (draft_source aid w) _ (λ v. Kept-bind (raise (source_bytes v.row w)) _ (λ b.
        Kept-bind (raise (page_count c b)) _ (λ n. Kept-bind (page_in n page) _ (λ p.
          Kept-bind (parse_turn (modulo_turn deg)) _ (λ t.
            Kept-bind (raise (rotate_pages c b p (degrees t))) _
              (λ new. Kept-ok v _ (λ u. Quiet-IsConsistent (Quiet-fields u _)))))))))
      i

pub add_pages-IsConsistent :
    (env : Env) (c : Codec) (aid : ℕ) (extra : Bytes) (w : Store)
    → IsConsistent w
    → IsConsistent (add_pages env c aid extra w).1
unfolding add_pages add_checks
add_pages-IsConsistent env c aid extra w i =
    pages-IsConsistent env c (add_checks c aid extra w) w
      (Kept-bind (draft_source aid w) _ (λ v.
        Kept-bind (guard (is_pdf extra) Error.not_a_pdf) _ (λ _.
          Kept-bind (raise (source_bytes v.row w)) _ (λ b.
            Kept-bind (count_added (page_count c extra)) _
              (λ n. Kept-bind (raise (merge c b extra)) _ (λ new. Kept-ok v _ (λ u j. j)))))))
      i
