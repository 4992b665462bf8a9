-- ===== src/Envelope/Session/Tokens.antt =====
-- A minted session, read again: `mint_env_session` and `require_env_session` of sign/esign_access.py
-- over `_sign` and `_unsign` of sign/webauth.py.
use Prim.Native.String.{char_at}
use lifted_sign.Base.{
  ℕ, ◌+◌, ◌≤◌, String, Bool, true, false, some, ◌≡◌, refl, ap, ◌∙◌, arith, ◌==◌, ==_iff, ==-refl,
  ltb, Bool-cases, inl, inr,
}
use lifted_sign.Base.Text.{eq_refl}
use lifted_sign.Base.Cut.{free_of, split_once-append, append-nonblank}
use lifted_sign.Store.{Store, Signer}
use lifted_sign.Store.Reads.{View}
use lifted_sign.Envelope.Session.{
  Claims, Sealing, seal, unexpired, checked_body, unseal, session_ttl, minted, mint_env_session,
  of_kind, read_env_session, agreement_by_envelope, signer_for_envelope, admit, admit_on,
  admit_claims, require_env_session, is_voided,
}
use lifted_sign.Envelope.Session.Authorized.{session_of}

-- The base64 of the claims has no dots and is decoded as it was.
pub record IsSealing (z : Sealing) (c : Claims) : Type 0 where
  pub decodes : z.decode (z.encode c) ≡ some c
  pub dotless : free_of b'.' (z.encode c) ≡ true

unseal-seal :
    (z : Sealing) (now : ℕ) (c : Claims)
    → IsSealing z c
    → unseal z now (seal z c) ≡ unexpired now (some c)
unfolding unseal seal
unseal-seal z now c i =
    ap (checked_body z now)
      (split_once-append (char_at "." 0) (z.encode c) (z.mac (z.encode c)) i.dotless)
    ∙ rw (eq_refl (z.mac (z.encode c))) (ap (unexpired now) i.decodes)

read-mint :
    (z : Sealing) (now later : ℕ) (env_id : String) (sid : ℕ) (email method : String)
    (chal_ok : Bool) (epoch : ℕ)
    → IsSealing z (minted now env_id sid email method chal_ok epoch)
    → later ≤ now + session_ttl
    → read_env_session z later (some (mint_env_session z now env_id sid email method chal_ok epoch))
      ≡ some (minted now env_id sid email method chal_ok epoch)
unfolding read_env_session mint_env_session minted seal
read-mint z now later env_id sid email method chal_ok epoch i fresh =
    let c : Claims = minted now env_id sid email method chal_ok epoch in
    let live : ltb (now + session_ttl) later ≡ false = ground (arith, fresh) in
    let opened : unseal z later (seal z c) ≡ some c = unseal-seal z later c i ∙ rw live refl in
    rw (append-nonblank (z.encode c) (z.mac (z.encode c)) (char_at "." 0)) (ap of_kind opened)

-- A session that was minted for a signer of an agreement, at its present epoch, is authorized for
-- that signer and that agreement during the 1800 seconds after, on the path of the envelope.
pub require_env_session-mint_env_session :
    (z : Sealing) (now later : ℕ) (env_id : String) (sid : ℕ) (email method : String)
    (chal_ok : Bool) (w : Store) (v : View) (s : Signer)
    → IsSealing z (minted now env_id sid email method chal_ok v.row.env_session_epoch)
    → later ≤ now + session_ttl
    → agreement_by_envelope env_id w ≡ some v
    → signer_for_envelope env_id sid w ≡ some s
    → s.agreement_id ≡ v.row.id
    → (c : Claims) × (c.env_id ≡ env_id)
      × (c.signer_id ≡ sid)
      × (session_of (
            require_env_session z later env_id
              (some
                (mint_env_session z now env_id sid email method chal_ok v.row.env_session_epoch))
              w)
          ≡ some (c, v, s))
unfolding require_env_session minted
require_env_session-mint_env_session z now later env_id sid email method chal_ok w v s i fresh agr
      signer own =
    let c : Claims = minted now env_id sid email method chal_ok v.row.env_session_epoch in
    let mine : (s.agreement_id == v.row.id) ≡ true = (==_iff s.agreement_id v.row.id).1 own in
    (
      c,
      refl,
      refl,
      ap (λ o. session_of (admit_claims env_id w o))
            (read-mint z now later env_id sid email method chal_ok v.row.env_session_epoch i fresh)
          ∙ ap (λ o. session_of (admit_on env_id w c o)) agr
          ∙ rw (eq_refl env_id) (
              ap (λ o. session_of (admit c v o)) signer
              ∙ granted c mine (==-refl v.row.env_session_epoch)),
    )
  where
    granted :
        (c : Claims)
        → (s.agreement_id == v.row.id) ≡ true
        → (c.ep == v.row.env_session_epoch) ≡ true
        → session_of (admit c v (some s)) ≡ some (c, v, s)
    granted c mine current = elim (Bool-cases (is_voided v.row.status)) [
      | inl e ↦ rw (mine, current, e) refl
      | inr e ↦ rw (mine, current, e) refl
    ]
