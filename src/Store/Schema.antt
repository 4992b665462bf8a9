-- ===== src/Store/Schema.antt =====
-- `_SCHEMA` and the additive columns of `ensure_tables` in sign/esign.py: one record for each
-- table. A time is a number of seconds, a NULL is `none`, and the list columns hold their items.
-- The columns that no modelled operation reads or writes are left out.
use lifted_sign.Base.{ℕ, String, Bool, true, false, Option, List}
use lifted_sign.Base.Int.{ℤ}

-- `agreements.status`; `blank` is the '' of a legacy row.
pub data Status : Type 0 where
  draft blank out_for_signature sealing completed voided cancelled declined expired : Status

-- `agreement_signers.status`
pub data SignerStatus : Type 0 where
  unset drafted pending sent viewed signed declined : SignerStatus

-- The three PDFs that the engine keeps for an agreement, `agr_{id}_{kind}.pdf`.
pub data FileKind : Type 0 where
  source_pdf frozen_pdf executed_pdf : FileKind

pub data EventType : Type 0 where
  created edited pages_delete pages_reorder pages_rotate pages_add : EventType
  sent signer_authenticated doc_frozen emailed self_sign reminded viewed : EventType
  field_signed signature_adopted signed : EventType
  econsent_accepted records_access_demonstrated econsent_withdrawn : EventType
  declined expired voided doc_sealed doc_seal_degraded completed : EventType
  completed_copy_delivered : EventType
  access_challenge_passed access_challenge_failed access_challenge_locked : EventType
  access_challenge_configured : EventType

-- `order_mode`: 'sequential', or anything else, which counts as 'parallel'.
pub data OrderMode : Type 0 where
  parallel sequential : OrderMode

pub record Agreement : Type 0 where
  pub id : ℕ
  pub name : String
  pub message : String
  pub status : Status
  pub created_by : String
  pub order_mode : OrderMode
  pub source_path : Option FileKind
  pub frozen_path : Option FileKind
  pub executed_path : Option FileKind
  pub doc_hash : String
  pub frozen_hash : String
  pub preseal_hash : String
  pub sealed_hash : String
  pub seal_method : String
  pub envelope_id : String
  pub owner_account_id : Option ℕ
  pub created_at : Option ℕ
  pub sent_at : Option ℕ
  pub completed_at : Option ℕ
  pub sealing_at : Option ℕ
  pub expires_at : Option ℕ
  pub expired_at : Option ℕ
  pub env_session_epoch : ℕ
  pub edited_pages : List ℕ

pub record Signer : Type 0 where
  pub id : ℕ
  pub agreement_id : ℕ
  pub name : String
  pub email : String
  pub role : String
  pub sign_order : ℕ
  pub token : Option String
  pub status : SignerStatus
  pub viewed_at : Option ℕ
  pub signed_at : Option ℕ
  pub ip : String
  pub user_agent : String
  pub consent : Bool
  pub signature_id : String
  pub is_consumer : Bool
  pub auth_method : String
  pub consent_at : Option ℕ
  pub consent_ip : String
  pub disclosure_version : String
  pub disclosure_text_hash : String
  pub access_demonstrated : Bool
  pub access_method : String
  pub consent_withdrawn_at : Option ℕ
  pub challenge_type : String
  pub challenge_prompt : String
  pub challenge_salt : String
  pub challenge_hash : String
  pub challenge_iters : ℕ
  pub challenge_passed_at : Option ℕ

pub record Field : Type 0 where
  pub id : ℕ
  pub agreement_id : ℕ
  pub signer_id : Option ℕ
  pub type : String
  pub page : ℕ
  pub x : ℤ
  pub y : ℤ
  pub w : ℤ
  pub h : ℤ
  pub required : Bool
  pub value : String
  pub adopted_at : Option ℕ
  pub sign_method : String

pub record Event : Type 0 where
  pub agreement_id : ℕ
  pub signer_id : Option ℕ
  pub type : EventType
  pub ip : String
  pub user_agent : String
  pub detail : String
  pub at : ℕ

pub Status-discrete : Discrete Status
Status-discrete = hlevel

-- A status as the messages print it.
unfoldable pub status_text : Status → String
status_text Status.draft = "draft"
status_text Status.blank = ""
status_text Status.out_for_signature = "out_for_signature"
status_text Status.sealing = "sealing"
status_text Status.completed = "completed"
status_text Status.voided = "voided"
status_text Status.cancelled = "cancelled"
status_text Status.declined = "declined"
status_text Status.expired = "expired"

-- `status in ("voided", "cancelled", "declined")`
abbrev pub is_revoked : Status → Bool
is_revoked Status.voided = true
is_revoked Status.cancelled = true
is_revoked Status.declined = true
is_revoked _ = false

-- `status not in ("draft", None, "")`, negated
abbrev pub is_draft : Status → Bool
is_draft Status.draft = true
is_draft Status.blank = true
is_draft _ = false

abbrev pub is_completed : Status → Bool
is_completed Status.completed = true
is_completed _ = false

abbrev pub is_expired : Status → Bool
is_expired Status.expired = true
is_expired _ = false

abbrev pub is_out : Status → Bool
is_out Status.out_for_signature = true
is_out _ = false

-- `status in ("completed", "voided", "cancelled")`
abbrev pub is_finished : Status → Bool
is_finished Status.completed = true
is_finished Status.voided = true
is_finished Status.cancelled = true
is_finished _ = false

abbrev pub is_signed : SignerStatus → Bool
is_signed SignerStatus.signed = true
is_signed _ = false

abbrev pub is_signer_declined : SignerStatus → Bool
is_signer_declined SignerStatus.declined = true
is_signer_declined _ = false
