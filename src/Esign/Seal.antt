-- ===== src/Esign/Seal.antt =====
-- sign/esign.py, `finalize` and `_seal_and_complete`: the atomic claim, the sealing of the
-- document, its completion and the release of the claim after a failure.
pub mod Claim
use lifted_sign.Base.{
  ℕ, ◌+◌, String, Bool, true, false, not, ◌&&◌, ◌||◌, Option, none, some, List, [], ◌∷◌, ◌++◌, map,
  ◌==◌, ltb, if◌then◌else◌, find, select, update_where, count_where, any,
}
use lifted_sign.Base.Text.{str_eq, is_blank, or_text, strip, lower, clip, ◌+s◌}
use lifted_sign.Store.{
  Store, Env, Pdf, Stamp, Agreement, Signer, Field, Event, Status, EventType, WebhookEvent,
  MailKind, FileKind, Bytes, has_id, set_agreement, event, send_html, emit, is_completed,
  executed_pdf,
}
use lifted_sign.Store.Reads.{
  View, get_agreement, agreement_row, challenge_unmet, presented_bytes, write_file, seal_stale,
  event_of_agreement,
}

abbrev pub is_sealing : Status → Bool
is_sealing Status.sealing = true
is_sealing _ = false

-- `status IN ('completed','voided','cancelled','declined','expired')`
abbrev pub is_terminal : Status → Bool
is_terminal Status.completed = true
is_terminal Status.voided = true
is_terminal Status.cancelled = true
is_terminal Status.declined = true
is_terminal Status.expired = true
is_terminal _ = false

-- `sealing_at IS NULL OR sealing_at < ?`
abbrev pub stale_claim : ℕ → Option ℕ → Bool
stale_claim now none = true
stale_claim now (some at) = ltb (at + seal_stale) now

-- The `WHERE` of the claim.
unfoldable pub claimable : ℕ → ℕ → Agreement → Bool
claimable now aid a =
    (a.id == aid)
    && not (is_terminal a.status)
    && (not (is_sealing a.status) || stale_claim now a.sealing_at)

abbrev pub mark_sealing : ℕ → Agreement → Agreement
mark_sealing now a = record a { status = Status.sealing; sealing_at = some now }

-- The claim: whether one row was updated, and the updated table.
unfoldable pub claim : Env → ℕ → Store → Bool × Store
unfolding claimable
claim env aid w = (
  count_where (claimable env.now aid) w.agreements == 1,
  record w {
    agreements = update_where (claimable env.now aid) (mark_sealing env.now) w.agreements;
  },
)

abbrev pub prior_status : Status → Status
prior_status Status.sealing = Status.out_for_signature
prior_status Status.blank = Status.out_for_signature
prior_status s = s

abbrev pub sealing_row : ℕ → Agreement → Bool
sealing_row aid a = (a.id == aid) && is_sealing a.status

-- The release: `UPDATE … SET status=? WHERE id=? AND status='sealing'`.
unfoldable pub release : ℕ → Status → Store → Store
release aid prior w = record w {
  agreements = update_where (sealing_row aid) (λ a. record a { status = prior }) w.agreements;
}

abbrev pub is_image_field : String → Bool
is_image_field t = str_eq t "signature" || str_eq t "initials"

abbrev pub signed_for : Option ℕ → Signer → Bool
signed_for none s = false
signed_for (some sid) s = s.id == sid

abbrev pub stamp_of : String → List Signer → Field → Stamp
stamp_of env signers f = record {
  type = f.type;
  page = f.page;
  x = f.x;
  y = f.y;
  w = f.w;
  h = f.h;
  content = f.value;
  signed_by = if is_image_field f.type then find (signed_for f.signer_id) signers else none;
  env = env;
}

abbrev pub has_value : Field → Bool
has_value f = not (is_blank (strip f.value))

unfoldable pub stamps : View → List Stamp
stamps v = map (stamp_of v.row.envelope_id v.signers) (select has_value v.fields)

-- What sealing a document yields, or `none` where a step raises.
pub record Sealed : Type 0 where
  pub method : String
  pub preseal_hash : String
  pub executed : Bytes

infixl 5 ◌>>=◌
abbrev pub ◌>>=◌ {ℓ κ} : {A : Type ℓ} {B : Type κ} → Option A → (A → Option B) → Option B
◌>>=◌ none f = none
◌>>=◌ (some a) f = f a

-- The agreement as the certificate is told to show it.
abbrev pub certified_row : Agreement → String → Agreement
certified_row a preseal = record a { status = Status.completed; preseal_hash = preseal }

-- `_render_cert` and `append_pdf`, for one seal method.
render : Pdf → View → List Event → Bytes → String → Option Bytes
render pdf v events stamped method = do
  let preseal = pdf.sha256 stamped
  cert ← pdf.make_certificate (certified_row v.row preseal) v.signers events preseal method
  pdf.append_pdf stamped cert

-- The AES fallback.
seal_aes : Pdf → View → List Event → Bytes → Option Sealed
unfolding render
seal_aes pdf v events stamped = do
  executed ← render pdf v events stamped "aes"
  secured ← pdf.secure_pdf executed
  some (record { method = "aes"; preseal_hash = pdf.sha256 stamped; executed = secured })

-- The PAdES seal: signing is the last step, and its failure degrades to the AES seal.
seal_pades : Pdf → View → List Event → Bytes → Option Sealed
unfolding render seal_aes
seal_pades pdf v events stamped = do
  executed ← render pdf v events stamped "pades"
  sanitized ← pdf.sanitize_pdf executed
  elim (pdf.certify_pdf sanitized) [
    | none ↦ seal_aes pdf v events stamped
    | some certified ↦
        some (record { method = "pades"; preseal_hash = pdf.sha256 stamped; executed = certified })
  ]

-- The first half of `_seal_and_complete`, up to the write of the executed copy.
unfoldable pub seal_document : Env → View → List Event → Option Bytes → Option Sealed
unfolding seal_aes seal_pades stamps
seal_document env v events src = do
  presented ← src
  stamped ← env.pdf.stamp_fields presented (stamps v)
  if env.material_ok then seal_pades env.pdf v events stamped else seal_aes env.pdf v events stamped

abbrev pub complete_row : Env → Sealed → Agreement → Agreement
complete_row env s a = record a {
  status = Status.completed;
  completed_at = some env.now;
  executed_path = some executed_pdf;
  doc_hash = env.pdf.sha256 s.executed;
  preseal_hash = s.preseal_hash;
  sealed_hash = env.pdf.sha256 s.executed;
  seal_method = s.method;
}

-- The detail of DOC_SEALED.
abbrev pub seal_detail : Env → Sealed → String
seal_detail env s =
    "method="
    +s s.method
    +s " preseal="
    +s clip 16 s.preseal_hash
    +s " sealed="
    +s clip 16 (env.pdf.sha256 s.executed)

-- The transaction that flips the status to 'completed'; its `WHERE` names the id alone.
unfoldable pub complete : Env → ℕ → Sealed → Store → Store
unfolding set_agreement event write_file
complete env aid s w =
    let stored = write_file aid executed_pdf s.executed w in
    let flipped = set_agreement aid (complete_row env s) stored in
    let logged = event env aid EventType.doc_sealed none "" "" (seal_detail env s) flipped in
    let degraded = env.has_cert && not (str_eq s.method "pades") in
    let noted =
      if degraded
      then event env aid EventType.doc_seal_degraded none "" ""
          "signing cert configured but PAdES certification failed; sealed with AES fallback" logged
      else logged in
    event env aid EventType.completed none "" "" "executed copy + certificate generated" noted
