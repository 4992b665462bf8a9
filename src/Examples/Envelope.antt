-- ===== src/Examples/Envelope.antt =====
-- A sealing of sessions and an office that mails codes, and the theorems on envelope access at them.
use lifted_sign.Base.{
  String, Bool, true, false, Option, none, some, [], ◌≡◌, refl, any, find, arith,
}
use lifted_sign.Base.Text.{strip, lower, show, str_eq}
use lifted_sign.Base.Cut.{free_of}
use lifted_sign.Store.{Agreement, Signer, Status}
use lifted_sign.Store.Reads.{view_of, get_agreement}
use lifted_sign.Limits.{auth_limit_locked, auth_rate_allowed, put_rate}
use lifted_sign.Esign.Access.{bump_env_session_epoch}
use lifted_sign.Envelope.Session.{
  Claims, Sealing, seal, unseal, minted, mint_env_session, read_env_session, agreement_by_envelope,
  signer_for_envelope, Access, require_env_session,
}
use lifted_sign.Envelope.Session.Tokens.{IsSealing, require_env_session-mint_env_session}
use lifted_sign.Envelope.Session.Authorized.{
  session_of, IsAuthorized, require_env_session-IsAuthorized,
}
use lifted_sign.Envelope.Session.Revoked.{require_env_session-revoked}
use lifted_sign.Envelope.Otp.{
  Channel, Codes, Office, otp_key, otp_destination, send_email_otp, send_env_otp, check_env_otp,
}
use lifted_sign.Envelope.Otp.Single.{IsSixDigits, check_env_otp-once, check_env_otp-send_env_otp}
use lifted_sign.Examples.{opened, draft_row, ann_row}

-- The one session of these examples: of Ann on her envelope.
abbrev ann_session : Claims
ann_session = record {
  k = "envsess";
  env_id = "LS-token-a";
  signer_id = 1;
  email_lc = "ann@example.com";
  method = "otp";
  chal_ok = true;
  ep = 0;
  exp = 2100;
}

abbrev sealing : Sealing
sealing = record {
  encode = λ c. c.env_id;
  decode = λ t. if_ann (str_eq t "LS-token-a");
  mac = λ t. "mac";
}
  where
    if_ann : Bool → Option Claims
    if_ann true = some ann_session
    if_ann false = none

abbrev ann_agreement : Agreement
ann_agreement = record draft_row { status = Status.out_for_signature; sent_at = some 200 }

abbrev ann_signer : Signer
ann_signer = record ann_row { token = some "token-a" }

abbrev cookie : Option String
cookie = some (mint_env_session sealing 300 "LS-token-a" 1 "Ann@example.com" "otp" true 0)

agreement-found : agreement_by_envelope "LS-token-a" opened ≡ some (view_of opened ann_agreement)
unfolding agreement_by_envelope get_agreement find
agreement-found = refl

signer-found : signer_for_envelope "LS-token-a" 1 opened ≡ some ann_signer
unfolding signer_for_envelope find any
signer-found = refl

sealing-IsSealing : IsSealing sealing (minted 300 "LS-token-a" 1 "Ann@example.com" "otp" true 0)
unfolding minted lower free_of
sealing-IsSealing = record { decodes = refl; dotless = refl }

require_env_session-mint_env_session_example :
    (c : Claims) × (c.env_id ≡ "LS-token-a")
    × (c.signer_id ≡ 1)
    × (session_of (require_env_session sealing 2000 "LS-token-a" cookie opened)
        ≡ some (c, view_of opened ann_agreement, ann_signer))
require_env_session-mint_env_session_example =
    require_env_session-mint_env_session sealing 300 2000 "LS-token-a" 1 "Ann@example.com" "otp"
      true opened (view_of opened ann_agreement) ann_signer sealing-IsSealing (omega arith)
      agreement-found signer-found refl

ann-authorized :
    session_of (require_env_session sealing 2000 "LS-token-a" cookie opened)
    ≡ some (ann_session, view_of opened ann_agreement, ann_signer)
unfolding require_env_session read_env_session unseal mint_env_session minted seal lower
    agreement_by_envelope get_agreement signer_for_envelope find any
ann-authorized = refl

require_env_session-IsAuthorized_example :
    IsAuthorized sealing 2000 "LS-token-a" cookie opened ann_session
      (view_of opened ann_agreement)
      ann_signer
require_env_session-IsAuthorized_example =
    require_env_session-IsAuthorized sealing 2000 "LS-token-a" cookie opened ann_session
      (view_of opened ann_agreement) ann_signer ann-authorized

require_env_session-revoked_example :
    require_env_session sealing 2001 "LS-token-a" cookie (bump_env_session_epoch 1 opened).1
    ≡ Access.deny
require_env_session-revoked_example =
    require_env_session-revoked sealing 2000 2001 "LS-token-a" "LS-token-a" cookie opened
      ann_session (view_of opened ann_agreement) ann_signer ann-authorized

abbrev office : Office
office = record { mac = λ t. t; fresh_code = "123456"; fresh_salt = "s"; delivers = λ to. true }

abbrev no_codes : Codes
no_codes = record { code = λ s. none; sent = λ s c. 0; attempts = []; rates = [] }

abbrev mailed_codes : Codes
mailed_codes = (send_env_otp office 5000 "LS-token-a" 1 "email" opened no_codes).1

code-sent : send_env_otp office 5000 "LS-token-a" 1 "email" opened no_codes ≡ (true, mailed_codes)
unfolding send_env_otp auth_rate_allowed auth_limit_locked otp_destination signer_for_envelope
    send_email_otp find any strip show put_rate
code-sent = refl

fresh_code-IsSixDigits : IsSixDigits "123456"
unfolding strip
fresh_code-IsSixDigits = record { trimmed = refl; digits = refl; six = refl }

code-unlocked : auth_limit_locked 5100 (otp_key 1 Channel.email) mailed_codes.attempts ≡ false
unfolding send_env_otp auth_rate_allowed auth_limit_locked otp_destination signer_for_envelope
    send_email_otp find any strip show put_rate
code-unlocked = refl

check_env_otp-send_env_otp_example :
    (check_env_otp office 5100 1 "123456" "email" mailed_codes).0 ≡ true
check_env_otp-send_env_otp_example =
    check_env_otp-send_env_otp office 5000 5100 1 "LS-token-a" "email" "email" opened no_codes
      mailed_codes code-sent fresh_code-IsSixDigits refl (omega arith) code-unlocked

code-accepted : (check_env_otp office 5100 1 "123456" "email" mailed_codes).0 ≡ true
code-accepted =
    check_env_otp-send_env_otp office 5000 5100 1 "LS-token-a" "email" "email" opened no_codes
      mailed_codes code-sent fresh_code-IsSixDigits refl (omega arith) code-unlocked

check_env_otp-once_example :
    (check_env_otp office 5200 1 "123456" "email"
      (check_env_otp office 5100 1 "123456" "email" mailed_codes).1).0
    ≡ false
check_env_otp-once_example =
    check_env_otp-once office 5100 5200 1 "123456" "email" "123456" "email" mailed_codes
      code-accepted
