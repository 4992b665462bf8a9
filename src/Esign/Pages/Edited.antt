-- ===== src/Esign/Pages/Edited.antt =====
-- The record of the edited pages under `delete_page` and `reorder_pages` of sign/esign.py.
use lifted_sign.Base.{ℕ, ◌≢◌, some, List, ◌≡◌, refl}
use lifted_sign.Store.{Store, Agreement, set_agreement}
use lifted_sign.Store.Reads.{agreement_row}
use lifted_sign.Pdf.{mem}
use lifted_sign.Pdf.Positions.{shifted}
use lifted_sign.Esign.Pages.{
  remap_edited_pages, remap_indices, remap_deleted, remap_reordered, without_page, new_of_old,
}
use lifted_sign.Esign.Pages.Remap.{mem-remap_without_page, mem-remap_new_of_old}
use lifted_sign.Esign.Pages.Stored.{row_updated}
use lifted_sign.Esign.Pages.Source.{same_agreement}

-- After the tables are remapped for a deleted page, another page's new index is recorded as edited
-- exactly if its old one was; after they are remapped for a reordering, so is the new index of
-- every page that the order lists.
pub edited_pages-follow :
    (aid : ℕ) (w : Store) (a : Agreement)
    → agreement_row aid w ≡ some a
    → ((p : ℕ)
        → (b : Agreement) × (agreement_row aid (remap_deleted aid p w) ≡ some b)
          × ((q : ℕ) → q ≢ p → mem (shifted p q) b.edited_pages ≡ mem q a.edited_pages))
      × ((order : List ℕ)
          → (b : Agreement) × (agreement_row aid (remap_reordered aid order w) ≡ some b)
            × ((q t : ℕ)
                → new_of_old 0 order q ≡ some t
                → mem t b.edited_pages ≡ mem q a.edited_pages))
unfolding remap_deleted remap_reordered remap_edited_pages set_agreement
edited_pages-follow aid w a found = (
  λ p. (
    record a { edited_pages = remap_indices (without_page p) a.edited_pages },
    row_updated aid (λ b. record b { edited_pages = remap_indices (without_page p) b.edited_pages })
        w a (λ b. refl) found (same_agreement aid w a found),
    λ q stays. mem-remap_without_page p q a.edited_pages stays,
  ),
  λ order. (
    record a { edited_pages = remap_indices (new_of_old 0 order) a.edited_pages },
    row_updated aid
        (λ b. record b { edited_pages = remap_indices (new_of_old 0 order) b.edited_pages }) w a
        (λ b. refl) found (same_agreement aid w a found),
    λ q t image. mem-remap_new_of_old q t order a.edited_pages image,
  ),
)
