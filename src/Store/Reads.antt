-- ===== src/Store/Reads.antt =====
-- The reads of sign/esign.py: `get_agreement` and its owner-scoped form, the token lookup and the
-- predicates on what they return.
use lifted_sign.Base.{
  ℕ, ◌+◌, ◌*◌, String, Bool, true, false, not, ◌&&◌, Option, none, some, List, [], ◌∷◌, map, ◌==◌,
  ltb, leb, truthy, coalesce, if◌then◌else◌, find, select, sort_by,
}
use lifted_sign.Base.Text.{str_eq, is_blank, or_text}
use lifted_sign.Store.Schema.{
  Agreement, Signer, Field, Event, OrderMode, FileKind, is_signed, is_revoked, is_expired,
  is_completed, source_pdf, frozen_pdf, executed_pdf,
}
use lifted_sign.Store.State.{Store, File, Bytes, Env, has_id}

-- What `get_agreement` returns: the row, its signers in signing order, and its fields.
pub record View : Type 0 where
  pub row : Agreement
  pub signers : List Signer
  pub fields : List Field

-- `_strip_signer_secrets`: the columns are popped.
unfoldable pub strip_signer_secrets : Signer → Signer
strip_signer_secrets s = record s { challenge_hash = ""; challenge_salt = ""; challenge_iters = 0 }

unfoldable pub has_challenge : Signer → Bool
has_challenge s = not (str_eq (or_text s.challenge_type "none") "none")

abbrev pub agreement_row : ℕ → Store → Option Agreement
agreement_row aid w = find (has_id aid) w.agreements

abbrev pub of_agreement : ℕ → Signer → Bool
of_agreement aid s = s.agreement_id == aid

abbrev pub field_of_agreement : ℕ → Field → Bool
field_of_agreement aid f = f.agreement_id == aid

abbrev pub event_of_agreement : ℕ → Event → Bool
event_of_agreement aid e = e.agreement_id == aid

abbrev pub order_key : Signer → ℕ
order_key s = s.sign_order

unfoldable pub signers_of : ℕ → Store → List Signer
signers_of aid w =
    map strip_signer_secrets (sort_by order_key (select (of_agreement aid) w.signers))

unfoldable pub fields_of : ℕ → Store → List Field
fields_of aid w = select (field_of_agreement aid) w.fields

abbrev pub view_of : Store → Agreement → View
view_of w a = record { row = a; signers = signers_of a.id w; fields = fields_of a.id w }

unfoldable pub get_agreement : ℕ → Store → Option View
get_agreement aid w = elim (agreement_row aid w) [ none ↦ none | some a ↦ some (view_of w a) ]

abbrev pub owned_by : Option ℕ → ℕ → Bool
owned_by none owner = false
owned_by (some o) owner = o == owner

-- `get_agreement_owned`: an owner of 0 or NULL resolves nothing.
unfoldable pub get_agreement_owned : ℕ → Option ℕ → Store → Option View
unfolding get_agreement
get_agreement_owned aid none w = none
get_agreement_owned aid (some owner) w = if owner == 0 then none else elim (get_agreement aid w) [
  | none ↦ none
  | some v ↦ if owned_by v.row.owner_account_id owner then some v else none
]

abbrev pub has_token : String → Signer → Bool
has_token t s = elim s.token [ none ↦ false | some u ↦ str_eq u t ]

-- `_signer_by_token`
unfoldable pub signer_by_token : String → Store → Option Signer
signer_by_token t w = find (has_token t) w.signers

-- `_challenge_unmet` of a signer that was found.
unfoldable pub challenge_unmet : Signer → Bool
unfolding has_challenge
challenge_unmet s = has_challenge s && not (truthy s.challenge_passed_at)

abbrev pub token_ttl : ℕ
token_ttl = 60 * 86400

abbrev pub expiry_window : ℕ
expiry_window = 60 * 86400

abbrev pub seal_stale : ℕ
seal_stale = 120

-- `float(agr.get("sent_at") or agr.get("created_at") or 0)`
unfoldable pub token_clock : Agreement → ℕ
token_clock a =
    if truthy a.sent_at
    then coalesce a.sent_at 0
    else if truthy a.created_at
    then coalesce a.created_at 0
    else 0

-- `_token_expired`
unfoldable pub token_expired : ℕ → Agreement → Bool
unfolding token_clock
token_expired now a = not (token_clock a == 0) && ltb (token_clock a + token_ttl) now

-- `signer_render_blocked`
pub data Block : Type 0 where
  invalid revoked expired : Block

unfoldable pub block_of : ℕ → Signer → Agreement → Option Block
unfolding token_expired
block_of now s a =
    if is_revoked a.status
    then some Block.revoked
    else if is_expired a.status
    then some Block.expired
    else if not (is_signed s.status) && not (is_completed a.status) && token_expired now a
    then some Block.expired
    else none

unfoldable pub signer_render_blocked : Env → String → Store → Option Block
unfolding block_of signer_by_token
signer_render_blocked env t w = elim (signer_by_token t w) [
  | none ↦ some Block.invalid
  | some s ↦ elim (agreement_row s.agreement_id w) [
    | none ↦ some Block.invalid
    | some a ↦ block_of env.now s a
  ]
]

-- `_is_sequential`
abbrev pub is_sequential : Agreement → Bool
is_sequential a = elim a.order_mode [ OrderMode.parallel ↦ false | OrderMode.sequential ↦ true ]

-- `int(s.get("sign_order") or 1)`
abbrev pub order_of : Signer → ℕ
order_of s = if s.sign_order == 0 then 1 else s.sign_order

abbrev pub min_option : ℕ → Option ℕ → Option ℕ
min_option n none = some n
min_option n (some m) = some (if leb n m then n else m)

-- `_next_order_to_notify`: the least order among the signers who have not signed.
unfoldable pub next_order_to_notify : List Signer → Option ℕ
next_order_to_notify [] = none
next_order_to_notify (s ∷ rest) =
    let later = next_order_to_notify rest in
    if is_signed s.status then later else min_option (order_of s) later

abbrev pub same_kind : FileKind → FileKind → Bool
same_kind source_pdf source_pdf = true
same_kind frozen_pdf frozen_pdf = true
same_kind executed_pdf executed_pdf = true
same_kind _ _ = false

abbrev pub is_file : ℕ → FileKind → File → Bool
is_file aid kind f = (f.agreement_id == aid) && same_kind f.kind kind

-- `Path(…).read_bytes()`
unfoldable pub read_file : ℕ → FileKind → Store → Option Bytes
read_file aid kind w = elim (find (is_file aid kind) w.files) [
  | none ↦ none
  | some f ↦ some f.content
]

-- `Path(…).write_bytes(…)`
unfoldable pub write_file : ℕ → FileKind → Bytes → Store → Store
write_file aid kind data' w = record w {
  files = record { agreement_id = aid; kind = kind; content = data' } ∷ w.files;
}

unfoldable pub source_bytes : Agreement → Store → Option Bytes
source_bytes a w = elim a.source_path [ none ↦ none | some k ↦ read_file a.id k w ]

-- `_presented_bytes`: the frozen copy where there is one, else the source.
unfoldable pub presented_bytes : Agreement → Store → Option Bytes
unfolding source_bytes
presented_bytes a w = elim a.frozen_path [
  | none ↦ source_bytes a w
  | some k ↦ elim (read_file a.id k w) [ none ↦ source_bytes a w | some b ↦ some b ]
]

-- `not s.get("token")`
abbrev pub no_token : Signer → Bool
no_token s = elim s.token [ none ↦ true | some t ↦ is_blank t ]
