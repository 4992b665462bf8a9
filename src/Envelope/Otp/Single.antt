-- ===== src/Envelope/Otp/Single.antt =====
-- A mailed code of sign/esign_access.py, from `send_env_otp` to `check_env_otp` and after it.
use lifted_sign.Base.{
  ℕ, ◌+◌, ◌≤◌, String, Bool, true, false, not, ◌&&◌, ◌||◌, Option, none, some, ◌≡◌, refl, sym, ap,
  ◌∙◌, arith, ◌==◌, ==-refl, leb, ltb, Bool-cases, inl, inr,
}
use lifted_sign.Base.Text.{str_eq, eq_refl, strip, show, ◌+s◌}
use lifted_sign.Store.{Store}
use lifted_sign.Limits.{auth_limit_locked, auth_rate_allowed}
use lifted_sign.Envelope.Otp.{
  Channel, channel_of, Code, Codes, Office, put, put_sent, otp_key, otp_destination, code_ttl,
  send_email_otp, send_unlocked, send_env_otp, is_digits, size, send_fresh, match_code,
  verify_email_otp, settle, check_env_otp,
}

put_same : {A : Type 0} (i : ℕ) (a : A) (f : ℕ → A) → put i a f i ≡ a
put_same i a f = rw (==-refl i) refl

-- A signer without a code passes no check.
no_code :
    (o : Office) (now sid : ℕ) (given channel : String) (q : Codes)
    → q.code sid ≡ none
    → (check_env_otp o now sid given channel q).0 ≡ false
unfolding check_env_otp verify_email_otp
no_code o now sid given channel q empty =
    elim (Bool-cases (
      auth_limit_locked now (otp_key sid (channel_of channel)) q.attempts
      || not (is_digits (strip given)))) [
        | inl e ↦ rw e refl
        | inr e ↦ elim (Bool-cases (not (send_fresh now sid (channel_of channel) q))) [
          | inl f ↦ rw (e, f) refl
          | inr f ↦ elim (Bool-cases (is_digits (strip given) && (size (strip given) == 6))) [
            | inl g ↦ rw (e, f, g, empty) refl
            | inr g ↦ rw (e, f, g) refl
          ]
        ]
      ]

settle_code :
    (now sid : ℕ) (ch : Channel) (r : Bool × Codes)
    → (settle now sid ch r).0 ≡ true
    → (r.0 ≡ true) × ((settle now sid ch r).1.code ≡ r.1.code)
settle_code now sid ch (true, q) h = (refl, refl)
settle_code now sid ch (false, q) h = absurd (cc h)

match_consumes :
    (o : Office) (now sid : ℕ) (c : String) (row : Option Code) (q : Codes)
    → (match_code o now sid c row q).0 ≡ true
    → (match_code o now sid c row q).1.code sid ≡ none
match_consumes o now sid c none q h = absurd (cc h)
match_consumes o now sid c (some row) q h = elim (Bool-cases (ltb row.exp now)) [
  | inl e ↦ absurd (cc (rw e at h))
  | inr e ↦ elim (Bool-cases (str_eq (o.mac (row.salt +s c)) row.digest)) [
    | inl f ↦ rw (e, f) (put_same sid none q.code)
    | inr f ↦ absurd (cc (rw (e, f) at h))
  ]
]

verified_consumes :
    (o : Office) (now sid : ℕ) (given : String) (q : Codes)
    → (verify_email_otp o now sid given q).0 ≡ true
    → (verify_email_otp o now sid given q).1.code sid ≡ none
unfolding verify_email_otp
verified_consumes o now sid given q h =
    elim (Bool-cases (is_digits (strip given) && (size (strip given) == 6))) [
      | inl e ↦ rw e (match_consumes o now sid (strip given) (q.code sid) q (rw e at h))
      | inr e ↦ absurd (cc (rw e at h))
    ]

checked_consumes :
    (o : Office) (now sid : ℕ) (given channel : String) (q : Codes)
    → (check_env_otp o now sid given channel q).0 ≡ true
    → (check_env_otp o now sid given channel q).1.code sid ≡ none
unfolding check_env_otp
checked_consumes o now sid given channel q h =
    elim (Bool-cases (
      auth_limit_locked now (otp_key sid (channel_of channel)) q.attempts
      || not (is_digits (strip given)))) [
        | inl e ↦ absurd (cc (rw e at h))
        | inr e ↦ elim (Bool-cases (not (send_fresh now sid (channel_of channel) q))) [
          | inl f ↦ absurd (cc (rw (e, f) at h))
          | inr f ↦
              let r = verify_email_otp o now sid given q in
              let s = settle_code now sid (channel_of channel) r (rw (e, f) at h) in
              rw (e, f) (ap (λ g. g sid) s.1 ∙ verified_consumes o now sid given q s.0)
        ]
      ]

-- A code is accepted once: after a check that succeeded, no check for that signer succeeds, of any
-- code, at any time, on any channel, in the state that it left.
pub check_env_otp-once :
    (o : Office) (now later sid : ℕ) (given channel given' channel' : String) (q : Codes)
    → (check_env_otp o now sid given channel q).0 ≡ true
    → (check_env_otp o later sid given' channel' (check_env_otp o now sid given channel q).1).0
      ≡ false
check_env_otp-once o now later sid given channel given' channel' q h =
    no_code o later sid given' channel' (check_env_otp o now sid given channel q).1
      (checked_consumes o now sid given channel q h)

-- What the source generates: six digits, with no space around them.
pub record IsSixDigits (c : String) : Type 0 where
  pub trimmed : strip c ≡ c
  pub digits : is_digits c ≡ true
  pub six : size c ≡ 6

-- The state after a mail that went out.
record IsSent (o : Office) (now sid : ℕ) (q : Codes) : Type 0 where
  code :
      q.code sid
      ≡ some (record {
        digest = o.mac (o.fresh_salt +s o.fresh_code);
        salt = o.fresh_salt;
        exp = now + code_ttl;
      })
  sent : q.sent sid Channel.email ≡ now

mailed :
    (o : Office) (now sid : ℕ) (to : String) (q q' : Codes)
    → send_email_otp o now sid to q ≡ (true, q')
    → IsSent o now sid q'
unfolding send_email_otp
mailed o now sid to q q' h = elim (Bool-cases (o.delivers to)) [
  | inr e ↦ absurd (cc (ap (λ p. p.0) (rw e at h)))
  | inl e ↦
      let same : q' ≡ record q {
        code =
            put sid
              (some (record {
                digest = o.mac (o.fresh_salt +s o.fresh_code);
                salt = o.fresh_salt;
                exp = now + code_ttl;
              }))
              q.code;
        sent = put_sent sid Channel.email now q.sent;
      } =
        sym (ap (λ p. p.1) (rw e at h)) in
      record {
        code = ap (λ x. x.code sid) same ∙ put_same sid _ q.code;
        sent = ap (λ x. x.sent sid Channel.email) same ∙ rw (==-refl sid) refl;
      }
]

unlocked_mail :
    (o : Office) (now sid : ℕ) (dest : Option (Channel × String)) (q q' : Codes)
    → send_unlocked o now sid dest q ≡ (true, q')
    → IsSent o now sid q'
unlocked_mail o now sid none q q' h = absurd (cc (ap (λ p. p.0) h))
unlocked_mail o now sid (some (ch, to)) q q' h =
    elim (Bool-cases (auth_limit_locked now (otp_key sid ch) q.attempts)) [
      | inl e ↦ absurd (cc (ap (λ p. p.0) (rw e at h)))
      | inr e ↦ mailed o now sid to q q' (rw e at h)
    ]

send_env_otp-IsSent :
    (o : Office) (now sid : ℕ) (env_id channel : String) (w : Store) (q q' : Codes)
    → send_env_otp o now env_id sid channel w q ≡ (true, q')
    → IsSent o now sid q'
unfolding send_env_otp
send_env_otp-IsSent o now sid env_id channel w q q' h =
    let rate = auth_rate_allowed now ("env:otpsend:" +s show sid) 5 3600 q.rates in
    elim (Bool-cases (not rate.0)) [
      | inl e ↦ absurd (cc (ap (λ p. p.0) (rw e at h)))
      | inr e ↦
          unlocked_mail o now sid (otp_destination env_id sid channel w)
            (record q { rates = rate.1 }) q' (rw e at h)
    ]

-- The code that `send_env_otp` mailed is accepted during the 600 seconds after, on the email
-- channel, as long as the limiter has not locked that channel.
pub check_env_otp-send_env_otp :
    (o : Office) (now later sid : ℕ) (env_id channel reply : String) (w : Store) (q q' : Codes)
    → send_env_otp o now env_id sid channel w q ≡ (true, q')
    → IsSixDigits o.fresh_code
    → channel_of reply ≡ Channel.email
    → later ≤ now + code_ttl
    → auth_limit_locked later (otp_key sid Channel.email) q'.attempts ≡ false
    → (check_env_otp o later sid o.fresh_code reply q').0 ≡ true
unfolding check_env_otp verify_email_otp
check_env_otp-send_env_otp o now later sid env_id channel reply w q q' sent code on_email soon
      unlocked =
    let s : IsSent o now sid q' = send_env_otp-IsSent o now sid env_id channel w q q' sent in
    let live : ltb (now + code_ttl) later ≡ false = ground (arith, soon) in
    let fresh : send_fresh later sid Channel.email q' ≡ true =
      ap (λ t. leb later (t + code_ttl)) s.sent ∙ ground (arith, soon) in
    let six : (size o.fresh_code == 6) ≡ true = ap (λ n. n == 6) code.six in
    rw
      (
        on_email,
        unlocked,
        code.trimmed,
        code.digits,
        fresh,
        six,
        s.code,
        live,
        eq_refl (o.mac (o.fresh_salt +s o.fresh_code)),
      )
      refl
