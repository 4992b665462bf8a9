-- ===== src/Esign/Access.antt =====
-- sign/esign.py, the access lock: `set_signer_challenge`, `bump_env_session_epoch` and
-- `mark_challenge_passed`.
use lifted_sign.Base.{
  ℕ, ◌+◌, String, Bool, true, false, ◌&&◌, Option, none, some, ◌==◌, leb, if◌then◌else◌, find,
  update_where, count_where,
}
use lifted_sign.Base.Text.{str_eq, ◌+s◌}
use lifted_sign.Store.{Store, Env, Agreement, Signer, EventType, set_agreement, set_signer, event}
use lifted_sign.Store.Reads.{agreement_row, has_token}

abbrev pub bump_row : Agreement → Agreement
bump_row a = record a { env_session_epoch = a.env_session_epoch + 1 }

abbrev pub epoch_of : Option Agreement → ℕ
epoch_of none = 0
epoch_of (some a) = a.env_session_epoch

-- `bump_env_session_epoch`: the new epoch.
unfoldable pub bump_env_session_epoch : ℕ → Store → ℕ × Store
unfolding set_agreement
bump_env_session_epoch aid w =
    let w' = set_agreement aid bump_row w in (epoch_of (agreement_row aid w'), w')

-- A challenge as the caller has derived it: the raw value is not among its parts.
pub record Challenge : Type 0 where
  pub ctype : String
  pub prompt : String
  pub salt : String
  pub wrapped_hash : String
  pub iters : ℕ

abbrev pub challenge_row : Challenge → Signer → Signer
challenge_row c s =
    if str_eq c.ctype "none"
    then record s {
      challenge_type = "none";
      challenge_prompt = "";
      challenge_salt = "";
      challenge_hash = "";
      challenge_iters = 0;
      challenge_passed_at = none;
    }
    else record s {
      challenge_type = c.ctype;
      challenge_prompt = c.prompt;
      challenge_salt = c.salt;
      challenge_hash = c.wrapped_hash;
      challenge_iters = c.iters;
      challenge_passed_at = none;
    }

abbrev pub signer_on : ℕ → ℕ → Signer → Bool
signer_on sid aid s = (s.id == sid) && (s.agreement_id == aid)

-- The update, its event, and the new session epoch.
unfoldable pub configure : Env → ℕ → ℕ → Challenge → Option Signer → Store → Bool × Store
unfolding set_signer event bump_env_session_epoch
configure env aid sid c none w = (false, w)
configure env aid sid c (some _) w =
    let stored = set_signer sid (challenge_row c) w in
    let logged =
      event env aid EventType.access_challenge_configured (some sid) "" "" ("type=" +s c.ctype)
        stored in
    (true, (bump_env_session_epoch aid logged).1)

unfoldable pub set_signer_challenge : Env → ℕ → ℕ → Challenge → Store → Bool × Store
unfolding configure
set_signer_challenge env aid sid c w =
    configure env aid sid c (find (signer_on sid aid) w.signers) w

-- `mark_challenge_passed`: whether the token has a row.
unfoldable pub mark_challenge_passed : Env → String → Store → Bool × Store
mark_challenge_passed env token w = (
  leb 1 (count_where (has_token token) w.signers),
  record w {
    signers =
        update_where (has_token token) (λ s. record s { challenge_passed_at = some env.now })
          w.signers;
  },
)
