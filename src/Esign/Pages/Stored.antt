-- ===== src/Esign/Pages/Stored.antt =====
-- The stored source PDF of an agreement in sign/esign.py: the reads and the writes of its file.
use lifted_sign.Base.{
  ℕ, String, true, Option, none, some, List, ◌≡◌, refl, sym, ap, ◌∙◌, ==_iff, find,
}
use lifted_sign.Base.Keys.{find-update_where}
use lifted_sign.Store.{Store, Agreement, FileKind, Bytes, has_id, set_agreement}
use lifted_sign.Store.Reads.{agreement_row, source_bytes, read_file, write_file, is_file}
use lifted_sign.Pdf.{Page, Codec, ◌>>=◌}
use lifted_sign.Esign.Pages.{has_source, write_source}

-- The pages of the stored source PDF.
unfoldable pub pages_of : Codec → ℕ → Store → Option (List Page)
unfolding source_bytes
pages_of c aid w = do a ← agreement_row aid w; data' ← source_bytes a w; c.open_pdf data'

key_of_agreement : Agreement → ℕ
key_of_agreement a = a.id

pub row_updated :
    (aid : ℕ) (f : Agreement → Agreement) (w : Store) (a : Agreement)
    → ((b : Agreement) → (f b).id ≡ b.id)
    → agreement_row aid w ≡ some a
    → a.id ≡ aid
    → agreement_row aid (set_agreement aid f w) ≡ some (f a)
unfolding set_agreement key_of_agreement
row_updated aid f w a same found at_id =
    let here : has_id aid a ≡ true = (==_iff a.id aid).1 at_id in
    find-update_where key_of_agreement aid (has_id aid) f same w.agreements a found ∙ rw here refl

-- The stored source of a row, in a store.
pub record Stands (aid : ℕ) (b : Bytes) (w : Store) : Type 0 where
  pub row : Agreement
  pub at_id : row.id ≡ aid
  pub found : agreement_row aid w ≡ some row
  pub reads : source_bytes row w ≡ some b

pub Stands-pages_of :
    (c : Codec) (aid : ℕ) (b : Bytes) (w : Store) → Stands aid b w → pages_of c aid w ≡ c.open_pdf b
unfolding pages_of
Stands-pages_of c aid b w s = rw (s.found, s.reads) refl

-- `source_bytes`, of the two columns that it reads.
source_at : ℕ → Option FileKind → Store → Option Bytes
source_at aid none w = none
source_at aid (some k) w = read_file aid k w

source_bytes-columns :
    (a : Agreement) (w : Store) → source_bytes a w ≡ source_at a.id a.source_path w
unfolding source_bytes source_at
source_bytes-columns a w = go a.source_path
  where
    go :
        (o : Option FileKind)
        → elim o [ none ↦ none | some k ↦ read_file a.id k w ] ≡ source_at a.id o w
    go none = refl
    go (some k) = refl

same_source :
    (a b : Agreement) (w : Store)
    → b.id ≡ a.id
    → b.source_path ≡ a.source_path
    → source_bytes b w ≡ source_bytes a w
same_source a b w h k =
    source_bytes-columns b w
    ∙ ap (λ i. source_at i b.source_path w) h
    ∙ ap (λ o. source_at a.id o w) k
    ∙ sym (source_bytes-columns a w)

-- The update of a row that keeps its source path.
pub Stands-set_agreement :
    (aid : ℕ) (b : Bytes) (f : Agreement → Agreement) (w : Store)
    → ((a : Agreement) → (f a).id ≡ a.id)
    → ((a : Agreement) → (f a).source_path ≡ a.source_path)
    → Stands aid b w
    → Stands aid b (set_agreement aid f w)
unfolding source_bytes read_file set_agreement
Stands-set_agreement aid b f w same_id same_path s = record {
  at_id = same_id s.row ∙ s.at_id;
  row = f s.row;
  found = row_updated aid f w s.row same_id s.found s.at_id;
  reads = same_source s.row (f s.row) w (same_id s.row) (same_path s.row) ∙ s.reads;
}

Stands-written :
    (aid : ℕ) (b : Bytes) (w : Store) (a : Agreement)
    → agreement_row aid w ≡ some a
    → a.id ≡ aid
    → has_source a ≡ true
    → Stands aid b (write_source a.source_path aid b w)
unfolding source_bytes read_file write_file find source_at
Stands-written aid b w a found at_id sourced = go a.source_path refl
  where
    kinds :
        (k : FileKind)
        → is_file a.id k (record { agreement_id = aid; kind = k; content = b }) ≡ true
    kinds FileKind.source_pdf = rw ((==_iff aid a.id).1 (sym at_id)) refl
    kinds FileKind.frozen_pdf = rw ((==_iff aid a.id).1 (sym at_id)) refl
    kinds FileKind.executed_pdf = rw ((==_iff aid a.id).1 (sym at_id)) refl

    go : (o : Option FileKind) → a.source_path ≡ o → Stands aid b (write_source o aid b w)
    go none e = absurd (cc (e, sourced))
    go (some k) e = record {
      row = a;
      at_id = at_id;
      found = found;
      reads = source_bytes-columns a (write_file aid k b w) ∙ (rw e stored);
    }
      where
        stored : read_file a.id k (write_file aid k b w) ≡ some b
        stored = rw (read_file, kinds k) refl

-- The file of a row, under a change of the other tables.
pub Stands-other :
    (aid : ℕ) (b : Bytes) (w u : Store)
    → u.agreements ≡ w.agreements
    → u.files ≡ w.files
    → Stands aid b w
    → Stands aid b u
unfolding source_at read_file
Stands-other aid b w u rows files s = record {
  row = s.row;
  at_id = s.at_id;
  found = rw rows s.found;
  reads =
      source_bytes-columns s.row u
      ∙ columns s.row.source_path
      ∙ sym (source_bytes-columns s.row w)
      ∙ s.reads;
}
  where
    columns : (o : Option FileKind) → source_at s.row.id o u ≡ source_at s.row.id o w
    columns none = refl
    columns (some k) =
        ap (λ l. elim (find (is_file s.row.id k) l) [ none ↦ none | some f ↦ some f.content ]) files

-- What the writes of a page operation leave, whatever the remap does to the fields.
pub written :
    (aid : ℕ) (b : Bytes) (hash : String) (a : Agreement) (w : Store)
    → agreement_row aid w ≡ some a
    → a.id ≡ aid
    → has_source a ≡ true
    → Stands aid b
        (set_agreement aid (λ r. record r { doc_hash = hash }) (write_source a.source_path aid b w))
written aid b hash a w found at_id sourced =
    let s : Stands aid b (write_source a.source_path aid b w) =
      Stands-written aid b w a found at_id sourced in
    Stands-set_agreement aid b (λ r. record r { doc_hash = hash })
      (write_source a.source_path aid b w) (λ r. refl) (λ r. refl) s
