-- ===== src/Esign/Download.antt =====
-- sign/esign.py, `signer_download` and `signer_download_by_id`: the executed copy for a signer, with
-- one delivery event for each signer. The file name of the reply is not modelled.
pub mod Once
use lifted_sign.Base.{
  ℕ, String, Bool, true, false, ◌&&◌, Option, none, some, ◌==◌, if◌then◌else◌, find, any,
}
use lifted_sign.Store.{
  Store, Env, Agreement, Signer, Event, EventType, Bytes, Error, Result, ok, err, guard, ◌>>=◌,
  ◌>>◌, checked, event, is_completed,
}
use lifted_sign.Store.Reads.{View, get_agreement, signer_by_token, read_file}

abbrev pub is_delivery : EventType → Bool
is_delivery EventType.completed_copy_delivered = true
is_delivery _ = false

abbrev pub delivered_to : ℕ → ℕ → Event → Bool
delivered_to aid sid e =
    (e.agreement_id == aid)
    && elim e.signer_id [ none ↦ false | some i ↦ i == sid ]
    && is_delivery e.type

abbrev pub stored_copy : Agreement → Store → Option Bytes
stored_copy a w = elim a.executed_path [ none ↦ none | some k ↦ read_file a.id k w ]

-- The stored copy of a completed agreement.
unfoldable pub executed_copy : Error → ℕ → Store → Result Bytes
unfolding get_agreement
executed_copy missing aid w = do
  v ← elim (get_agreement aid w) [ none ↦ err missing | some v ↦ ok v ]
  guard (is_completed v.row.status) Error.not_completed
  elim (stored_copy v.row w) [ none ↦ err Error.not_completed | some b ↦ ok b ]

-- The delivery is logged unless one is.
unfoldable pub log_delivery : Env → ℕ → ℕ → String → Store → Store
unfolding event
log_delivery env aid sid detail w =
    if any (delivered_to aid sid) w.events
    then w
    else event env aid EventType.completed_copy_delivered (some sid) "" "" detail w

unfoldable pub download_checks : String → Store → Result (Signer × Bytes)
unfolding executed_copy signer_by_token
download_checks token w = do
  s ← elim (signer_by_token token w) [ none ↦ err Error.invalid | some s ↦ ok s ]
  b ← executed_copy Error.invalid s.agreement_id w
  ok (s, b)

abbrev pub hand_out : Env → Signer × Bytes → Store → Result Bytes × Store
hand_out env (s, b) w = (ok b, log_delivery env s.agreement_id s.id "signer download" w)

unfoldable pub signer_download : Env → String → Store → Result Bytes × Store
unfolding download_checks log_delivery
signer_download env token w = checked (download_checks token w) (hand_out env) w

abbrev pub signer_of : ℕ → ℕ → Signer → Bool
signer_of sid aid s = (s.id == sid) && (s.agreement_id == aid)

unfoldable pub download_by_id_checks : ℕ → ℕ → Store → Result Bytes
unfolding executed_copy
download_by_id_checks aid sid w = do
  s ← elim (find (signer_of sid aid) w.signers) [ none ↦ err Error.invalid | some s ↦ ok s ]
  executed_copy Error.not_completed aid w

abbrev pub hand_out_by_id : Env → ℕ → ℕ → Bytes → Store → Result Bytes × Store
hand_out_by_id env aid sid b w = (ok b, log_delivery env aid sid "envelope download" w)

unfoldable pub signer_download_by_id : Env → ℕ → ℕ → Store → Result Bytes × Store
unfolding download_by_id_checks log_delivery
signer_download_by_id env aid sid w =
    checked (download_by_id_checks aid sid w) (hand_out_by_id env aid sid) w
