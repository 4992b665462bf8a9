-- ===== src/Esign/Owner.antt =====
-- sign/esign.py, the operations scoped to an owner: `delete_draft_owned`, `set_order_mode_owned`
-- and `delete_agreements_for_owner`.
pub mod Isolation
use lifted_sign.Base.{
  ℕ, String, Bool, true, false, not, ◌&&◌, ◌||◌, Option, none, some, List, [], ◌∷◌, map, ◌==◌,
  if◌then◌else◌, select, delete_where, length, any,
}
use lifted_sign.Base.Text.{str_eq}
use lifted_sign.Store.{
  Store, File, FileKind, Agreement, Signer, Field, Event, Status, OrderMode, Error, Result, ok, err,
  guard, ◌>>=◌, ◌>>◌, checked, has_id, set_agreement, is_draft,
}
use lifted_sign.Store.Reads.{
  View, get_agreement_owned, owned_by, of_agreement, field_of_agreement, event_of_agreement,
  is_file,
}

-- The draft of this owner, or the refusal.
unfoldable pub owned_draft : ℕ → Option ℕ → Store → Result View
unfolding get_agreement_owned
owned_draft aid owner w = do
  v ← elim (get_agreement_owned aid owner w) [ none ↦ err Error.not_found | some v ↦ ok v ]
  guard (is_draft v.row.status) Error.locked
  ok v

abbrev pub pathed : Option FileKind → ℕ → File → Bool
pathed none aid f = false
pathed (some k) aid f = is_file aid k f

-- The stored PDFs that the row points at.
abbrev pub of_row : Agreement → File → Bool
of_row a f =
    pathed a.source_path a.id f || pathed a.frozen_path a.id f || pathed a.executed_path a.id f

unfoldable pub delete_rows : ℕ → Store → Store
delete_rows aid w = record w {
  events = delete_where (event_of_agreement aid) w.events;
  fields = delete_where (field_of_agreement aid) w.fields;
  signers = delete_where (of_agreement aid) w.signers;
  agreements = delete_where (has_id aid) w.agreements;
}

unfoldable pub delete_draft : ℕ → View → Store → Result (Unit {0}) × Store
unfolding delete_rows
delete_draft aid v w =
    (ok tt, delete_rows aid (record w { files = delete_where (of_row v.row) w.files }))

unfoldable pub delete_draft_owned : ℕ → Option ℕ → Store → Result (Unit {0}) × Store
unfolding owned_draft delete_draft
delete_draft_owned aid owner w = checked (owned_draft aid owner w) (delete_draft aid) w

-- `mode not in ("sequential", "parallel")` is `none`.
abbrev pub parse_mode : String → Option OrderMode
parse_mode m =
    if str_eq m "sequential"
    then some OrderMode.sequential
    else if str_eq m "parallel"
    then some OrderMode.parallel
    else none

unfoldable pub order_mode_checks : ℕ → Option ℕ → String → Store → Result OrderMode
unfolding owned_draft
order_mode_checks aid owner mode w = do
  m ← elim (parse_mode mode) [ none ↦ err Error.bad_mode | some m ↦ ok m ]
  v ← owned_draft aid owner w
  ok m

abbrev pub store_mode : ℕ → OrderMode → Store → Result OrderMode × Store
store_mode aid m w = (ok m, set_agreement aid (λ a. record a { order_mode = m }) w)

unfoldable pub set_order_mode_owned : ℕ → Option ℕ → String → Store → Result OrderMode × Store
unfolding order_mode_checks set_agreement
set_order_mode_owned aid owner mode w =
    checked (order_mode_checks aid owner mode w) (store_mode aid) w

abbrev pub row_of_owner : ℕ → Agreement → Bool
row_of_owner owner a = owned_by a.owner_account_id owner

abbrev pub in_ids : List ℕ → ℕ → Bool
in_ids [] n = false
in_ids (i ∷ rest) n = i == n || in_ids rest n

unfoldable pub owned_ids : ℕ → List Agreement → List ℕ
owned_ids owner rows = map (λ a. a.id) (select (row_of_owner owner) rows)

-- `delete_agreements_for_owner`: an owner of 0 deletes nothing.
unfoldable pub delete_agreements_for_owner : ℕ → Store → ℕ × Store
unfolding owned_ids
delete_agreements_for_owner owner w =
    let ids = owned_ids owner w.agreements in
    let emptied = record w {
      events = delete_where (λ e. in_ids ids e.agreement_id) w.events;
      fields = delete_where (λ f. in_ids ids f.agreement_id) w.fields;
      signers = delete_where (λ s. in_ids ids s.agreement_id) w.signers;
      agreements = delete_where (λ a. in_ids ids a.id) w.agreements;
    } in
    if owner == 0 then (0, w) else (length ids, emptied)
