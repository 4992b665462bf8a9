-- ===== src/Examples.antt =====
-- Concrete data for the tests and witnesses: an outside world, and the stores that a small
-- two-signer envelope passes through.
pub mod Witnesses
pub mod Limits
pub mod Pages
pub mod Envelope
pub mod Keys
pub mod Webhooks
use lifted_sign.Base.{
  ℕ, zero, suc, ◌+◌, String, Bool, true, false, Option, none, some, List, [], ◌∷◌, ◌++◌, length,
}
use lifted_sign.Base.Int.{ℤ, pos}
use lifted_sign.Store.{
  Store, Env, Pdf, Agreement, Signer, Field, Event, Status, SignerStatus, EventType, OrderMode,
  empty, source_pdf, frozen_pdf, executed_pdf,
}
use lifted_sign.Store.Reads.{expiry_window}
use lifted_sign.Esign.Draft.{NewSigner}
use lifted_sign.Limits.{Attempts}
use lifted_sign.Esign.Submit.Values.{Request, Json}

-- A PDF layer that keeps the bytes and appends the certificate.
abbrev pub plain_pdf : Pdf
plain_pdf = record {
  page_count = λ b. some (length b);
  flatten_pages = λ b pages. some b;
  sha256 = λ b. "hash";
  stamp_fields = λ b items. some b;
  make_certificate = λ a signers events preseal method. some (7 ∷ []);
  append_pdf = λ b c. some (b ++ c);
  sanitize_pdf = λ b. some b;
  secure_pdf = λ b. some b;
  certify_pdf = λ b. none;
  is_valid_image = λ v. true;
}

abbrev pub tokens : ℕ → String
tokens zero = "token-a"
tokens (suc n) = "token-b"

abbrev pub world : ℕ → Env
world now = record {
  now = now;
  fresh = tokens;
  mail_ok = λ to. true;
  mail_from = "office@example.com";
  pdf = plain_pdf;
  has_cert = false;
  material_ok = false;
}

abbrev pub ann : NewSigner
ann = record {
  name = "Ann";
  email = "ann@example.com";
  role = "signer";
  order = none;
  is_consumer = false;
  auth = "email";
}

abbrev pub request : String → List (String × Json) → Request
request token values = record {
  token = token;
  consent = true;
  values = values;
  field_meta = [];
  ip = "10.0.0.1";
  user_agent = "browser";
}

abbrev pub answers : List (String × Json)
answers = ("1", Json.text "Director") ∷ []

-- The row of a new draft of owner 5.
abbrev pub draft_row : Agreement
draft_row = record {
  id = 1;
  name = "Lease";
  message = "";
  status = Status.draft;
  created_by = "";
  order_mode = OrderMode.parallel;
  source_path = some source_pdf;
  frozen_path = none;
  executed_path = none;
  doc_hash = "hash";
  frozen_hash = "";
  preseal_hash = "";
  sealed_hash = "";
  seal_method = "";
  envelope_id = "LS-token-a";
  owner_account_id = some 5;
  created_at = some 100;
  sent_at = none;
  completed_at = none;
  sealing_at = none;
  expires_at = none;
  expired_at = none;
  env_session_epoch = 0;
  edited_pages = [];
}

abbrev pub ann_row : Signer
ann_row = record {
  id = 1;
  agreement_id = 1;
  name = "Ann";
  email = "ann@example.com";
  role = "signer";
  sign_order = 1;
  token = none;
  status = SignerStatus.pending;
  viewed_at = none;
  signed_at = none;
  ip = "";
  user_agent = "";
  consent = false;
  signature_id = "";
  is_consumer = false;
  auth_method = "email";
  consent_at = none;
  consent_ip = "";
  disclosure_version = "";
  disclosure_text_hash = "";
  access_demonstrated = false;
  access_method = "";
  consent_withdrawn_at = none;
  challenge_type = "none";
  challenge_prompt = "";
  challenge_salt = "";
  challenge_hash = "";
  challenge_iters = 0;
  challenge_passed_at = none;
}

-- The store after `create_agreement`, `set_signers` and `self_sign_link`.
abbrev pub created_event : Event
created_event = record {
  agreement_id = 1;
  signer_id = none;
  type = EventType.created;
  ip = "";
  user_agent = "";
  detail = "1 pages";
  at = 100;
}

abbrev pub created : Store
created = record empty {
  agreements = draft_row ∷ [];
  events = created_event ∷ [];
  files = record { agreement_id = 1; kind = source_pdf; content = 1 ∷ [] } ∷ [];
  next_agreement = 2;
}

abbrev pub peopled : Store
peopled = record created { signers = ann_row ∷ []; next_signer = 2 }

abbrev pub opened : Store
opened = record peopled {
  agreements = record draft_row { status = Status.out_for_signature; sent_at = some 200 } ∷ [];
  signers = record ann_row { token = some "token-a" } ∷ [];
  events =
      created_event
      ∷ record created_event {
        signer_id = some 1;
        type = EventType.self_sign;
        detail = "ann@example.com self-signing (no email)";
        at = 200;
      }
      ∷ [];
}

-- A sequential envelope that is out: Ann has signed, and Bob's turn has come.
abbrev pub out_row : Agreement
out_row = record draft_row {
  status = Status.out_for_signature;
  order_mode = OrderMode.sequential;
  frozen_path = some frozen_pdf;
  frozen_hash = "hash";
  sent_at = some 200;
  expires_at = some (200 + expiry_window);
}

abbrev pub ann_signed : Signer
ann_signed = record ann_row { token = some "token-a"; status = SignerStatus.signed }

abbrev pub bob_row : Signer
bob_row = record ann_row {
  id = 2;
  name = "Bob";
  email = "bob@example.com";
  sign_order = 2;
  token = some "token-b";
  status = SignerStatus.sent;
}

abbrev pub title_field : Field
title_field = record {
  id = 1;
  agreement_id = 1;
  signer_id = some 2;
  type = "text";
  page = 0;
  x = pos 1;
  y = pos 1;
  w = pos 1;
  h = pos 1;
  required = true;
  value = "";
  adopted_at = none;
  sign_method = "";
}

abbrev pub desk_with : Agreement → Signer → Store
desk_with a s = record empty {
  agreements = a ∷ [];
  signers = ann_signed ∷ s ∷ [];
  fields = title_field ∷ [];
  files =
      record { agreement_id = 1; kind = frozen_pdf; content = 1 ∷ [] }
      ∷ record { agreement_id = 1; kind = source_pdf; content = 1 ∷ [] }
      ∷ [];
  next_agreement = 2;
  next_signer = 3;
  next_field = 2;
}

abbrev pub desk : Store
desk = desk_with out_row bob_row

abbrev pub bob_signed : Signer
bob_signed = record bob_row { status = SignerStatus.signed }

abbrev pub void_row : Agreement
void_row = record out_row { status = Status.voided }

abbrev pub stuck_row : Agreement
stuck_row = record out_row { status = Status.sealing; sealing_at = some 1000 }

-- The same envelope after its completion.
abbrev pub done_row : Agreement
done_row = record out_row { status = Status.completed; executed_path = some executed_pdf }

abbrev pub done_desk : Store
done_desk = record (desk_with done_row bob_signed) {
  files = record { agreement_id = 1; kind = executed_pdf; content = 1 ∷ 7 ∷ [] } ∷ [];
}

-- A key of the login limiter with four failures, and one that is locked.
abbrev pub four_failures : List Attempts
four_failures = record { key = "login"; fails = 4; lock_until = 0 } ∷ []

abbrev pub locked_login : List Attempts
locked_login = record { key = "login"; fails = 0; lock_until = 900 } ∷ []
