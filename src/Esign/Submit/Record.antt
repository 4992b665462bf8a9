-- ===== src/Esign/Submit/Record.antt =====
-- The writes of `submit_signature`: the values of the signer's own fields with their adoption
-- evidence, the audit events, and the signer's row.
use lifted_sign.Base.{
  ℕ, suc, String, Bool, true, false, not, ◌&&◌, ◌||◌, Option, none, some, List, [], ◌∷◌, ◌==◌,
  if◌then◌else◌, find, update_where, count_where, length, coalesce,
}
use lifted_sign.Base.Int.{ℤ, pos, negsuc, eqb_ℤ}
use lifted_sign.Base.Text.{str_eq, is_blank, or_text, lower, clip, show, ◌+s◌}
use lifted_sign.Store.{
  Store, Env, Signer, SignerStatus, Field, Agreement, EventType, event, set_signer, is_signed,
}
use lifted_sign.Store.Reads.{agreement_row}
use lifted_sign.Esign.Submit.Values.{Request, Meta, lookup}

-- `SELECT COUNT(*) … WHERE agreement_id=? AND status!='signed'`
abbrev pub unsigned_in : ℕ → Signer → Bool
unsigned_in aid s = (s.agreement_id == aid) && not (is_signed s.status)

unfoldable pub unsigned_of : ℕ → Store → ℕ
unsigned_of aid w = count_where (unsigned_in aid) w.signers

abbrev pub known_method : String → String
known_method m = if str_eq m "draw" || str_eq m "type" || str_eq m "reuse" then m else ""

abbrev pub show_ℤ : ℤ → String
show_ℤ (pos n) = show n
show_ℤ (negsuc n) = "-" +s show (suc n)

abbrev pub no_meta : Meta
no_meta = record { method = ""; adopted_at = none }

abbrev pub meta_of : Request → ℤ → Meta
meta_of req fid = coalesce (lookup (show_ℤ fid) req.field_meta) no_meta

abbrev pub method_of : Request → ℤ → String
method_of req fid = known_method (lower (meta_of req fid).method)

-- `WHERE id=? AND agreement_id=? AND signer_id=?`
abbrev pub own_field : Signer → ℤ → Field → Bool
own_field s fid f =
    eqb_ℤ (pos f.id) fid
    && (f.agreement_id == s.agreement_id)
    && elim f.signer_id [ none ↦ false | some sid ↦ sid == s.id ]

-- `WHERE id=? AND agreement_id=?`: the look-up of the field's type names no signer.
abbrev pub any_field : Signer → ℤ → Field → Bool
any_field s fid f = eqb_ℤ (pos f.id) fid && (f.agreement_id == s.agreement_id)

abbrev pub fill : Request → ℤ → String → Field → Field
fill req fid val f = record f {
  value = val;
  adopted_at = (meta_of req fid).adopted_at;
  sign_method = method_of req fid;
}

abbrev pub field_type : Option Field → String
field_type none = ""
field_type (some f) = f.type

abbrev pub signature_type : String → Bool
signature_type t = str_eq t "signature" || str_eq t "initials"

abbrev pub contains : String → List String → Bool
contains t [] = false
contains t (u ∷ us) = str_eq u t || contains t us

-- `doc_hash_ref`
abbrev pub doc_hash_ref : Option Agreement → String
doc_hash_ref none = ""
doc_hash_ref (some a) = or_text a.frozen_hash a.doc_hash

-- FIELD_SIGNED, and SIGNATURE_ADOPTED once for each image.
unfoldable pub log_field :
    Env → Request → Signer → String → ℤ → String → List String → Store → Store
unfolding event
log_field env req s hash fid val adopted w =
    let method = or_text (method_of req fid) "n/a" in
    let detail = "field=" +s show_ℤ fid +s " doc=" +s clip 16 hash +s " method=" +s method in
    let logged =
      event env s.agreement_id EventType.field_signed (some s.id) req.ip req.user_agent detail w in
    if is_blank val || contains val adopted
    then logged
    else event env s.agreement_id EventType.signature_adopted (some s.id) req.ip req.user_agent
        ("method=" +s method) logged

abbrev pub adopt : String → List String → List String
adopt val adopted = if is_blank val || contains val adopted then adopted else val ∷ adopted

-- The loop over `clean_values`.
unfoldable pub record_values :
    Env → Request → Signer → String → List (ℤ × String) → List String → Store → Store
unfolding log_field
record_values env req s hash [] adopted w = w
record_values env req s hash ((fid, val) ∷ rest) adopted w =
    let w' = record w { fields = update_where (own_field s fid) (fill req fid val) w.fields } in
    let is_image = signature_type (field_type (find (any_field s fid) w'.fields)) in
    record_values env req s hash rest (if is_image then adopt val adopted else adopted)
      (if is_image then log_field env req s hash fid val adopted w' else w')

abbrev pub sign_row : Env → Request → Signer → Signer
sign_row env req s = record s {
  status = SignerStatus.signed;
  signed_at = some env.now;
  ip = req.ip;
  user_agent = clip 300 req.user_agent;
  consent = true;
  signature_id = "LS-SIG-" +s env.fresh 0;
}

unfoldable pub record_signature : Env → Request → Signer → List (ℤ × String) → Store → Store
unfolding record_values set_signer event
record_signature env req s values w =
    let hash = doc_hash_ref (agreement_row s.agreement_id w) in
    let filled = record_values env req s hash values [] w in
    let signed = set_signer s.id (sign_row env req) filled in
    event env s.agreement_id EventType.signed (some s.id) req.ip req.user_agent
      (show (length req.values) +s " field(s)") signed
