-- ===== src/Envelope/Session.antt =====
-- The envelope sessions: `mint_env_session`, `read_env_session`, `require_env_session` of
-- sign/esign_access.py, `_sign` and `_unsign` of sign/webauth.py, `agreement_by_envelope` and
-- `signer_for_envelope` of sign/esign.py. JSON in base64 and HMAC are the parameter `Sealing`.
pub mod Tokens
pub mod Authorized
pub mod Revoked
use Prim.Native.Char.{code}
use lifted_sign.Base.{
  ℕ, ◌+◌, String, Bool, true, false, not, ◌&&◌, ◌||◌, Option, none, some, List, [], ◌∷◌, ◌==◌, ltb,
  if◌then◌else◌, find, any,
}
use lifted_sign.Base.Text.{str_eq, is_blank, lower, ◌+s◌}
use lifted_sign.Base.Cut.{split_once}
use lifted_sign.Store.{Store, Agreement, Signer, Status}
use lifted_sign.Store.Reads.{View, get_agreement}

-- The payload of a session token.
pub record Claims : Type 0 where
  pub k : String
  pub env_id : String
  pub signer_id : ℕ
  pub email_lc : String
  pub method : String
  pub chal_ok : Bool
  pub ep : ℕ
  pub exp : ℕ

pub record Sealing : Type 0 where
  pub encode : Claims → String
  -- `none` is an exception
  pub decode : String → Option Claims
  pub mac : String → String

unfoldable pub seal : Sealing → Claims → String
seal z c = z.encode c +s ("." +s z.mac (z.encode c))

abbrev pub unexpired : ℕ → Option Claims → Option Claims
unexpired now none = none
unexpired now (some c) = if ltb c.exp now then none else some c

abbrev pub checked_body : Sealing → ℕ → Option (String × String) → Option Claims
checked_body z now none = none
checked_body z now (some (body, sig)) =
    if str_eq sig (z.mac body) then unexpired now (z.decode body) else none

-- `_unsign`
unfoldable pub unseal : Sealing → ℕ → String → Option Claims
unfolding split_once
unseal z now token = checked_body z now (split_once b'.' token)

abbrev pub session_ttl : ℕ
session_ttl = 1800

unfoldable pub minted :
    ℕ
    → (env_id : String) (signer_id : ℕ) (email method : String) (chal_ok : Bool) (epoch : ℕ)
    → Claims
unfolding lower
minted now env_id signer_id email method chal_ok epoch = record {
  k = "envsess";
  env_id = env_id;
  signer_id = signer_id;
  email_lc = lower email;
  method = method;
  chal_ok = chal_ok;
  ep = epoch;
  exp = now + session_ttl;
}

unfoldable pub mint_env_session :
    Sealing
    → ℕ
    → (env_id : String) (signer_id : ℕ) (email method : String) (chal_ok : Bool) (epoch : ℕ)
    → String
unfolding seal minted
mint_env_session z now env_id signer_id email method chal_ok epoch =
    seal z (minted now env_id signer_id email method chal_ok epoch)

abbrev pub of_kind : Option Claims → Option Claims
of_kind none = none
of_kind (some c) = if str_eq c.k "envsess" then some c else none

unfoldable pub read_env_session : Sealing → ℕ → Option String → Option Claims
unfolding unseal
read_env_session z now none = none
read_env_session z now (some cookie) =
    if is_blank cookie then none else of_kind (unseal z now cookie)

abbrev pub has_envelope : String → Agreement → Bool
has_envelope env_id a = str_eq a.envelope_id env_id

-- `agreement_by_envelope`
unfoldable pub agreement_by_envelope : String → Store → Option View
unfolding get_agreement
agreement_by_envelope env_id w = elim (find (has_envelope env_id) w.agreements) [
  | none ↦ none
  | some a ↦ get_agreement a.id w
]

abbrev pub is_signer_of : String → ℕ → List Agreement → Signer → Bool
is_signer_of env_id sid agreements s =
    (s.id == sid) && any (λ a. (a.id == s.agreement_id) && has_envelope env_id a) agreements

-- `signer_for_envelope`
unfoldable pub signer_for_envelope : String → ℕ → Store → Option Signer
signer_for_envelope env_id sid w = find (is_signer_of env_id sid w.agreements) w.signers

-- What `require_env_session` returns.
pub data Access : Type 0 where
  deny : Access
  granted voided : Claims → View → Signer → Access

abbrev pub is_voided : Status → Bool
is_voided Status.voided = true
is_voided Status.cancelled = true
is_voided _ = false

abbrev pub admit : Claims → View → Option Signer → Access
admit c v none = Access.deny
admit c v (some s) =
    if not (s.agreement_id == v.row.id) || not (c.ep == v.row.env_session_epoch)
    then Access.deny
    else if is_voided v.row.status
    then Access.voided c v s
    else Access.granted c v s

abbrev pub admit_on : String → Store → Claims → Option View → Access
admit_on path w c none = Access.deny
admit_on path w c (some v) =
    if str_eq c.env_id path
    then admit c v (signer_for_envelope c.env_id c.signer_id w)
    else Access.deny

abbrev pub admit_claims : String → Store → Option Claims → Access
admit_claims path w none = Access.deny
admit_claims path w (some c) = admit_on path w c (agreement_by_envelope c.env_id w)

unfoldable pub require_env_session : Sealing → ℕ → String → Option String → Store → Access
unfolding read_env_session agreement_by_envelope signer_for_envelope
require_env_session z now path cookie w = admit_claims path w (read_env_session z now cookie)
