-- ===== src/Esign/Draft.antt =====
-- sign/esign.py, the draft: `create_agreement`, `set_signers`, `set_fields` and `update_message`.
use lifted_sign.Base.{
  ℕ, suc, ◌+◌, String, Bool, true, false, ◌||◌, Option, none, some, List, [], ◌∷◌, ◌++◌,
  if◌then◌else◌, select, delete_where, count_where, sort_by,
}
use lifted_sign.Base.Int.{ℤ}
use lifted_sign.Base.Text.{str_eq, or_text, strip, lower, show, ◌+s◌}
use lifted_sign.Store.{
  Store, Env, Agreement, Signer, SignerStatus, Field, Status, EventType, OrderMode, Bytes, Error,
  Result, ok, guard, checked, set_agreement, event, is_draft, source_pdf,
}
use lifted_sign.Store.Reads.{
  View, get_agreement, of_agreement, field_of_agreement, order_key, write_file,
}

-- The row of a new agreement, after both of its statements.
abbrev pub new_agreement : Env → ℕ → String → Bytes → String → String → Option ℕ → Agreement
new_agreement env aid name pdf_bytes message created_by owner = record {
  id = aid;
  name = or_text name "Untitled";
  message = message;
  status = Status.draft;
  created_by = created_by;
  order_mode = OrderMode.parallel;
  source_path = some source_pdf;
  frozen_path = none;
  executed_path = none;
  doc_hash = env.pdf.sha256 pdf_bytes;
  frozen_hash = "";
  preseal_hash = "";
  sealed_hash = "";
  seal_method = "";
  envelope_id = "LS-" +s env.fresh 0;
  owner_account_id = owner;
  created_at = some env.now;
  sent_at = none;
  completed_at = none;
  sealing_at = none;
  expires_at = none;
  expired_at = none;
  env_session_epoch = 0;
  edited_pages = [];
}

abbrev pub insert_agreement : Agreement → Store → Store
insert_agreement row w = record w {
  agreements = w.agreements ++ row ∷ [];
  next_agreement = suc w.next_agreement;
}

-- The end of `create_agreement`, by the count of the pages: a PDF that cannot be read raises, and
-- of all that was done only the file is left.
unfoldable pub commit_agreement : Env → Option ℕ → Agreement → Bytes → Store → Option ℕ × Store
unfolding event write_file
commit_agreement env none row pdf_bytes w = (none, write_file row.id source_pdf pdf_bytes w)
commit_agreement env (some n) row pdf_bytes w = (
  some row.id,
  event env row.id EventType.created none "" "" (show n +s " pages")
      (write_file row.id source_pdf pdf_bytes (insert_agreement row w)),
)

-- `create_agreement`: the new id.
unfoldable pub create_agreement :
    Env → String → Bytes → String → String → Option ℕ → Store → Option ℕ × Store
unfolding commit_agreement
create_agreement env name pdf_bytes message created_by owner w =
    commit_agreement env (env.pdf.page_count pdf_bytes)
      (new_agreement env w.next_agreement name pdf_bytes message created_by owner) pdf_bytes w

-- One entry of the `signers` argument; an order that is given is not negative.
pub record NewSigner : Type 0 where
  pub name : String
  pub email : String
  pub role : String
  pub order : Option ℕ
  pub is_consumer : Bool
  pub auth : String

abbrev pub known_auth : String → String
known_auth a =
    if str_eq a "email" || str_eq a "email_otp" || str_eq a "access_code" then a else "email"

abbrev pub order_or : Option ℕ → ℕ → ℕ
order_or none n = n
order_or (some o) n = o

abbrev pub new_signer : ℕ → ℕ → ℕ → NewSigner → Signer
new_signer sid aid i s = record {
  id = sid;
  agreement_id = aid;
  name = s.name;
  email = lower (strip s.email);
  role = s.role;
  sign_order = order_or s.order (suc i);
  token = none;
  status = SignerStatus.pending;
  viewed_at = none;
  signed_at = none;
  ip = "";
  user_agent = "";
  consent = false;
  signature_id = "";
  is_consumer = s.is_consumer;
  auth_method = known_auth (lower (strip (or_text s.auth "email")));
  consent_at = none;
  consent_ip = "";
  disclosure_version = "";
  disclosure_text_hash = "";
  access_demonstrated = false;
  access_method = "";
  consent_withdrawn_at = none;
  challenge_type = "none";
  challenge_prompt = "";
  challenge_salt = "";
  challenge_hash = "";
  challenge_iters = 0;
  challenge_passed_at = none;
}

unfoldable pub new_signers : ℕ → ℕ → ℕ → List NewSigner → List Signer
new_signers sid aid i [] = []
new_signers sid aid i (s ∷ rest) = new_signer sid aid i s ∷ new_signers (suc sid) aid (suc i) rest

abbrev pub count {ℓ} : {A : Type ℓ} → List A → ℕ
count [] = 0
count (x ∷ xs) = suc (count xs)

abbrev pub draft_view : Option View → Bool
draft_view none = true
draft_view (some v) = is_draft v.row.status

-- The lock of `set_signers` and `set_fields`; an unknown agreement passes it.
unfoldable pub draft_lock : ℕ → Store → Result (Unit {0})
unfolding get_agreement
draft_lock aid w = guard (draft_view (get_agreement aid w)) Error.locked

unfoldable pub replace_signers : ℕ → List NewSigner → Store → Result (List Signer) × Store
unfolding new_signers
replace_signers aid signers w =
    let inserted = record w {
      signers =
          delete_where (of_agreement aid) w.signers ++ new_signers w.next_signer aid 0 signers;
      next_signer = w.next_signer + count signers;
    } in
    (ok (sort_by order_key (select (of_agreement aid) inserted.signers)), inserted)

unfoldable pub set_signers : ℕ → List NewSigner → Store → Result (List Signer) × Store
unfolding draft_lock replace_signers
set_signers aid signers w = checked (draft_lock aid w) (λ _. replace_signers aid signers) w

-- One entry of the `fields` argument; its page is not negative, and a coordinate is the bits of its
-- float.
pub record NewField : Type 0 where
  pub signer_id : Option ℕ
  pub type : String
  pub page : ℕ
  pub x : ℤ
  pub y : ℤ
  pub w : ℤ
  pub h : ℤ
  pub required : Bool
  pub value : String
  pub preset : String

abbrev pub new_field : ℕ → ℕ → NewField → Field
new_field fid aid f = record {
  id = fid;
  agreement_id = aid;
  signer_id = f.signer_id;
  type = f.type;
  page = f.page;
  x = f.x;
  y = f.y;
  w = f.w;
  h = f.h;
  required = f.required;
  value = or_text f.value f.preset;
  adopted_at = none;
  sign_method = "";
}

unfoldable pub new_fields : ℕ → ℕ → List NewField → List Field
new_fields fid aid [] = []
new_fields fid aid (f ∷ rest) = new_field fid aid f ∷ new_fields (suc fid) aid rest

unfoldable pub replace_fields : ℕ → List NewField → Store → Result ℕ × Store
unfolding new_fields
replace_fields aid fields w =
    let inserted = record w {
      fields = delete_where (field_of_agreement aid) w.fields ++ new_fields w.next_field aid fields;
      next_field = w.next_field + count fields;
    } in
    (ok (count_where (field_of_agreement aid) inserted.fields), inserted)

unfoldable pub set_fields : ℕ → List NewField → Store → Result ℕ × Store
unfolding draft_lock replace_fields
set_fields aid fields w = checked (draft_lock aid w) (λ _. replace_fields aid fields) w

-- `update_message`, which tests no status.
unfoldable pub update_message : ℕ → String → Store → Store
unfolding set_agreement
update_message aid message w = set_agreement aid (λ a. record a { message = message }) w
