-- ===== src/Envelope/Otp.antt =====
-- The mailed codes of sign/esign_access.py: `otp_destination`, `send_env_otp`, `check_env_otp` and
-- what they call, with the attempt limiters of sign/db.py. The settings that they read and write
-- are the last code mailed to each signer and the time of the last send on each channel.
pub mod Single
use lifted_sign.Base.{
  ℕ, zero, suc, ◌+◌, String, Bool, true, false, not, ◌&&◌, ◌||◌, Option, none, some, List, [], ◌∷◌,
  ◌==◌, leb, ltb, if◌then◌else◌,
}
use lifted_sign.Base.Text.{str_eq, is_blank, strip, show, ◌+s◌}
use lifted_sign.Store.{Store, Signer}
use lifted_sign.Limits.{Attempts, Rate, auth_limit_locked, auth_limit_record, auth_rate_allowed}
use lifted_sign.Envelope.Session.{signer_for_envelope}
use Prim.Native.Char.{code}

pub data Channel : Type 0 where
  sms email : Channel

-- `"sms" if channel == "sms" else "email"`
abbrev pub channel_of : String → Channel
channel_of c = if str_eq c "sms" then Channel.sms else Channel.email

abbrev pub channel_name : Channel → String
channel_name Channel.sms = "sms"
channel_name Channel.email = "email"

-- The setting `env_eotp:<signer>`; 0 is `none`.
pub record Code : Type 0 where
  pub digest : String
  pub salt : String
  pub exp : ℕ

pub record Codes : Type 0 where
  pub code : ℕ → Option Code
  pub sent : ℕ → Channel → ℕ
  pub attempts : List Attempts
  pub rates : List Rate

-- The server's HMAC, a fresh code and salt, and whether the mail goes out.
pub record Office : Type 0 where
  pub mac : String → String
  pub fresh_code : String
  pub fresh_salt : String
  pub delivers : String → Bool

abbrev pub put {ℓ} : {A : Type ℓ} → ℕ → A → (ℕ → A) → ℕ → A
put i a f j = if j == i then a else f j

abbrev pub same_channel : Channel → Channel → Bool
same_channel Channel.sms Channel.sms = true
same_channel Channel.email Channel.email = true
same_channel _ _ = false

abbrev pub put_sent : ℕ → Channel → ℕ → (ℕ → Channel → ℕ) → ℕ → Channel → ℕ
put_sent i ch t f j c = if (j == i) && same_channel c ch then t else f j c

abbrev pub otp_key : ℕ → Channel → String
otp_key sid ch = "env:otp:" +s (show sid +s (":" +s channel_name ch))

-- `otp_destination`. No row has a `phone`, so the channel `sms` has no address.
abbrev pub address_on : Channel → Signer → Option (Channel × String)
address_on Channel.sms s = none
address_on Channel.email s =
    if is_blank (strip s.email) then none else some (Channel.email, strip s.email)

unfoldable pub otp_destination : String → ℕ → String → Store → Option (Channel × String)
unfolding signer_for_envelope strip
otp_destination env_id sid channel w = elim (signer_for_envelope env_id sid w) [
  | none ↦ none
  | some s ↦ address_on (channel_of channel) s
]

abbrev pub code_ttl : ℕ
code_ttl = 600

-- `_send_email_otp`
unfoldable pub send_email_otp : Office → ℕ → ℕ → String → Codes → Bool × Codes
send_email_otp o now sid to q =
    let row : Code = record {
      digest = o.mac (o.fresh_salt +s o.fresh_code);
      salt = o.fresh_salt;
      exp = now + code_ttl;
    } in
    if o.delivers to
    then (
      true,
      record q { code = put sid (some row) q.code; sent = put_sent sid Channel.email now q.sent },
    )
    else (false, record q { code = put sid none q.code })

abbrev pub send_unlocked : Office → ℕ → ℕ → Option (Channel × String) → Codes → Bool × Codes
send_unlocked o now sid none q = (false, q)
send_unlocked o now sid (some (ch, to)) q =
    if auth_limit_locked now (otp_key sid ch) q.attempts
    then (false, q)
    else send_email_otp o now sid to q

unfoldable pub send_env_otp : Office → ℕ → String → ℕ → String → Store → Codes → Bool × Codes
unfolding auth_rate_allowed otp_destination auth_limit_locked send_email_otp show
send_env_otp o now env_id sid channel w q =
    let rate = auth_rate_allowed now ("env:otpsend:" +s show sid) 5 3600 q.rates in
    let counted = record q { rates = rate.1 } in
    if not rate.0
    then (false, counted)
    else send_unlocked o now sid (otp_destination env_id sid channel w) counted

abbrev pub all_digits : String → Bool
all_digits String.[] = true
all_digits (String.◌∷◌ c s) = (leb b'0' (code c) && leb (code c) b'9') && all_digits s

-- `s.isdigit()`, of ASCII text.
abbrev pub is_digits : String → Bool
is_digits s = not (is_blank s) && all_digits s

abbrev pub size : String → ℕ
size String.[] = 0
size (String.◌∷◌ _ s) = suc (size s)

-- `_otp_send_fresh`
abbrev pub send_fresh : ℕ → ℕ → Channel → Codes → Bool
send_fresh now sid ch q = leb now (q.sent sid ch + code_ttl)

abbrev pub consumed : ℕ → Codes → Codes
consumed sid q = record q { code = put sid none q.code }

abbrev pub match_code : Office → ℕ → ℕ → String → Option Code → Codes → Bool × Codes
match_code o now sid c none q = (false, q)
match_code o now sid c (some row) q =
    if ltb row.exp now
    then (false, q)
    else if str_eq (o.mac (row.salt +s c)) row.digest
    then (true, consumed sid q)
    else (false, q)

-- `_verify_email_otp`
unfoldable pub verify_email_otp : Office → ℕ → ℕ → String → Codes → Bool × Codes
unfolding strip
verify_email_otp o now sid given q =
    let c = strip given in
    if is_digits c && (size c == 6) then match_code o now sid c (q.code sid) q else (false, q)

abbrev pub record_attempt : ℕ → String → Bool → Codes → Codes
record_attempt now key ok q = record q { attempts = auth_limit_record now key ok 5 900 q.attempts }

abbrev pub settle : ℕ → ℕ → Channel → Bool × Codes → Bool × Codes
settle now sid ch (true, q) =
    (true, record (record_attempt now (otp_key sid ch) true q) { sent = put_sent sid ch 0 q.sent })
settle now sid ch (false, q) = (false, record_attempt now (otp_key sid ch) false q)

unfoldable pub check_env_otp : Office → ℕ → ℕ → String → String → Codes → Bool × Codes
unfolding auth_limit_locked auth_limit_record verify_email_otp strip show
check_env_otp o now sid given channel q =
    let ch = channel_of channel in
    if auth_limit_locked now (otp_key sid ch) q.attempts || not (is_digits (strip given))
    then (false, record_attempt now (otp_key sid ch) false q)
    else if not (send_fresh now sid ch q)
    then (false, q)
    else settle now sid ch (verify_email_otp o now sid given q)
