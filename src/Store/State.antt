-- ===== src/Store/State.antt =====
-- The state that an operation of sign/esign.py changes: the tables, the stored PDFs, the mail that
-- left through sign/mailer.py and the events handed to sign/webhooks.py. `Env` is what a call
-- reads from outside: the clock, fresh random texts, the answers of the mail service and the PDF
-- library. A call reads the clock once; the source reads it at each stamp.
use lifted_sign.Base.{ℕ, String, Bool, Option, List, [], ◌∷◌, ◌++◌, ◌==◌}
use lifted_sign.Base.{update_where, if◌then◌else◌}
use lifted_sign.Base.Int.{ℤ}
use lifted_sign.Base.Text.{clip}
use lifted_sign.Store.Schema.{Agreement, Signer, Field, Event, EventType, FileKind}

-- A PDF's bytes.
abbrev pub Bytes : Type 0
Bytes = List ℕ

pub record File : Type 0 where
  pub agreement_id : ℕ
  pub kind : FileKind
  pub content : Bytes

pub data MailKind : Type 0 where
  invite reminder completed_copy declined_notice expired_notice : MailKind

pub record Mail : Type 0 where
  pub to : String
  pub kind : MailKind
  pub agreement_id : ℕ

pub data WebhookEvent : Type 0 where
  envelope_sent envelope_viewed signer_signed envelope_completed : WebhookEvent
  envelope_declined envelope_voided envelope_expired : WebhookEvent

-- A call of `webhooks.emit`.
pub record Emit : Type 0 where
  pub event : WebhookEvent
  pub agreement_id : ℕ
  pub owner_account_id : Option ℕ

pub record Store : Type 0 where
  pub agreements : List Agreement
  pub signers : List Signer
  pub fields : List Field
  pub events : List Event
  pub files : List File
  pub outbox : List Mail
  pub emitted : List Emit
  pub next_agreement : ℕ
  pub next_signer : ℕ
  pub next_field : ℕ

abbrev pub empty : Store
empty = record {
  agreements = [];
  signers = [];
  fields = [];
  events = [];
  files = [];
  outbox = [];
  emitted = [];
  next_agreement = 1;
  next_signer = 1;
  next_field = 1;
}

-- One item of `stamp_fields`.
pub record Stamp : Type 0 where
  pub type : String
  pub page : ℕ
  pub x : ℤ
  pub y : ℤ
  pub w : ℤ
  pub h : ℤ
  pub content : String
  pub signed_by : Option Signer
  pub env : String

-- The PDF layer (sign/pdf_edit.py over its third-party libraries); `none` is an exception. The
-- certificate is rendered from the agreement, the seal method and the stamped bytes' hash.
pub record Pdf : Type 0 where
  -- Of sign/pdf_edit.py and of sign/pdf_ops.py, which raise on what is not a PDF.
  pub page_count : Bytes → Option ℕ
  pub flatten_pages : Bytes → List ℕ → Option Bytes
  pub sha256 : Bytes → String
  pub stamp_fields : Bytes → List Stamp → Option Bytes
  pub make_certificate : Agreement → List Signer → List Event → String → String → Option Bytes
  pub append_pdf : Bytes → Bytes → Option Bytes
  pub sanitize_pdf : Bytes → Option Bytes
  pub secure_pdf : Bytes → Option Bytes
  pub certify_pdf : Bytes → Option Bytes
  -- `is_valid_image(_png_from_data_url(v))`
  pub is_valid_image : String → Bool

pub record Env : Type 0 where
  pub now : ℕ
  pub fresh : ℕ → String
  pub mail_ok : String → Bool
  pub mail_from : String
  pub pdf : Pdf
  -- a signing certificate and key are configured, and `pdf_sign.material_ok` accepts them
  pub has_cert : Bool
  pub material_ok : Bool

abbrev pub has_id : ℕ → Agreement → Bool
has_id aid a = a.id == aid

abbrev pub has_signer_id : ℕ → Signer → Bool
has_signer_id sid s = s.id == sid

-- `UPDATE agreements SET … WHERE id=?`
unfoldable pub set_agreement : ℕ → (Agreement → Agreement) → Store → Store
set_agreement aid f w = record w { agreements = update_where (has_id aid) f w.agreements }

-- `UPDATE agreement_signers SET … WHERE id=?`
unfoldable pub set_signer : ℕ → (Signer → Signer) → Store → Store
set_signer sid f w = record w { signers = update_where (has_signer_id sid) f w.signers }

-- `_event`
unfoldable pub event : Env → ℕ → EventType → Option ℕ → String → String → String → Store → Store
event env aid etype sid ip ua detail w = record w {
  events =
      w.events
      ++ record {
        agreement_id = aid;
        signer_id = sid;
        type = etype;
        ip = ip;
        user_agent = clip 300 ua;
        detail = clip 300 detail;
        at = env.now;
      }
        ∷ [];
}

unfoldable pub send_html : Env → String → MailKind → ℕ → Store → Store
send_html env to kind aid w =
    if env.mail_ok to
    then record w { outbox = w.outbox ++ record { to = to; kind = kind; agreement_id = aid } ∷ [] }
    else w

unfoldable pub emit : WebhookEvent → ℕ → Option ℕ → Store → Store
emit kind aid owner w = record w {
  emitted = w.emitted ++ record { event = kind; agreement_id = aid; owner_account_id = owner } ∷ [];
}
