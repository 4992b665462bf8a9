-- ===== src/Envelope/Session/Revoked.antt =====
-- The end of an envelope session when the sender revokes it: sign/esign_access.py
-- together with `bump_env_session_epoch` of sign/esign.py.
use lifted_sign.Base.{
  ℕ, ◌+◌, String, true, false, ◌⊎◌, Option, none, some, ◌≡◌, refl, sym, ap, ◌∙◌, arith, ◌==◌,
  ==_iff, ltb, find, Bool-cases, inl, inr,
}
use lifted_sign.Base.Members.{find_holds}
use lifted_sign.Base.Keys.{find-update_kept}
use lifted_sign.Base.Text.{str_eq, is_blank}
use lifted_sign.Base.Cut.{split_once}
use lifted_sign.Store.{Store, Agreement, Signer, has_id, set_agreement}
use lifted_sign.Store.Reads.{View, view_of, agreement_row, get_agreement}
use lifted_sign.Esign.Access.{bump_row, bump_env_session_epoch}
use lifted_sign.Envelope.Session.Authorized.{
  session_of, IsAuthorized, require_env_session-IsAuthorized,
}
use lifted_sign.Envelope.Session.{
  Claims, Sealing, unexpired, checked_body, unseal, of_kind, read_env_session, has_envelope,
  agreement_by_envelope, signer_for_envelope, Access, admit, admit_on, admit_claims,
  require_env_session,
}

-- A cookie that has been read stands for the same session later, until it has expired.
unexpired_later :
    (now later : ℕ) (o : Option Claims) (c : Claims)
    → unexpired now o ≡ some c
    → (unexpired later o ≡ none) ⊎ (unexpired later o ≡ some c)
unexpired_later now later none c h = absurd (cc h)
unexpired_later now later (some d) c h = elim (Bool-cases (ltb d.exp now)) [
  | inl e ↦ absurd (cc (rw e at h))
  | inr e ↦
      let same : some d ≡ some c = rw e at h in
      elim (Bool-cases (ltb d.exp later)) [ inl t ↦ inl (rw t refl) | inr t ↦ inr (rw t same) ]
]

unseal_later :
    (z : Sealing) (now later : ℕ) (p : Option (String × String)) (c : Claims)
    → checked_body z now p ≡ some c
    → (checked_body z later p ≡ none) ⊎ (checked_body z later p ≡ some c)
unseal_later z now later none c h = absurd (cc h)
unseal_later z now later (some (body, sig)) c h = elim (Bool-cases (str_eq sig (z.mac body))) [
  | inl e ↦ elim (unexpired_later now later (z.decode body) c (rw e at h)) [
    | inl t ↦ inl (rw e t)
    | inr t ↦ inr (rw e t)
  ]
  | inr e ↦ absurd (cc (rw e at h))
]

of_kind_later :
    (o o' : Option Claims) (c : Claims)
    → of_kind o ≡ some c
    → ((d : Claims) → o ≡ some d → (o' ≡ none) ⊎ (o' ≡ some d))
    → (of_kind o' ≡ none) ⊎ (of_kind o' ≡ some c)
of_kind_later none o' c h k = absurd (cc h)
of_kind_later (some d) o' c h k = elim (k d refl) [
  | inl e ↦ inl (ap of_kind e)
  | inr e ↦ inr (ap of_kind e ∙ h)
]

read_later :
    (z : Sealing) (now later : ℕ) (cookie : Option String) (c : Claims)
    → read_env_session z now cookie ≡ some c
    → (read_env_session z later cookie ≡ none) ⊎ (read_env_session z later cookie ≡ some c)
unfolding read_env_session unseal
read_later z now later none c h = absurd (cc h)
read_later z now later (some t) c h = elim (Bool-cases (is_blank t)) [
  | inl e ↦ absurd (cc (rw e at h))
  | inr e ↦ rw e (
      of_kind_later (unseal z now t) (unseal z later t) c (rw e at h)
        (λ d k. unseal_later z now later (split_once b'.' t) d k))
]

-- The agreement of an envelope, after its epoch has been bumped.
bumped_envelope :
    (env_id : String) (w : Store) (v : View)
    → agreement_by_envelope env_id w ≡ some v
    → (u : View) × (agreement_by_envelope env_id (bump_env_session_epoch v.row.id w).1 ≡ some u)
      × (u.row.env_session_epoch ≡ v.row.env_session_epoch + 1)
unfolding agreement_by_envelope get_agreement bump_env_session_epoch set_agreement
bumped_envelope env_id w v h = by_envelope (find (has_envelope env_id) w.agreements) refl h
  where
    by_id :
        (a : Agreement)
        → find (has_envelope env_id) w.agreements ≡ some a
        → (o : Option Agreement) → agreement_row a.id w ≡ o
        → elim o [ none ↦ none | some b ↦ some (view_of w b) ] ≡ some v
        → (u : View) × (agreement_by_envelope env_id (bump_env_session_epoch v.row.id w).1 ≡ some u)
          × (u.row.env_session_epoch ≡ v.row.env_session_epoch + 1)
    by_id a e none f k = absurd (cc k)
    by_id a e (some b) f k =
        let W : Store = (bump_env_session_epoch v.row.id w).1 in
        let seen : view_of w b ≡ v = cc k in
        let row : b ≡ v.row = ap (λ u. u.row) seen in
        let b_id : b.id ≡ a.id = (==_iff b.id a.id).0 (find_holds (has_id a.id) w.agreements b f) in
        let v_id : b.id ≡ v.row.id = ap (λ x. x.id) row in
        let a_here : has_id v.row.id a ≡ true = (==_iff a.id v.row.id).1 (sym b_id ∙ v_id) in
        let b_here : has_id v.row.id b ≡ true = (==_iff b.id v.row.id).1 v_id in
        let first : find (has_envelope env_id) W.agreements ≡ some (bump_row a) =
          find-update_kept (has_envelope env_id) (has_id v.row.id) bump_row (λ x. refl) w.agreements
            a e
          ∙ rw a_here refl in
        let second : agreement_row a.id W ≡ some (bump_row b) =
          find-update_kept (has_id a.id) (has_id v.row.id) bump_row (λ x. refl) w.agreements b f
          ∙ rw b_here refl in
        (
          view_of W (bump_row b),
          ap (λ o. elim o [ none ↦ none | some x ↦ get_agreement x.id W ]) first
              ∙ ap (λ o. elim o [ none ↦ none | some x ↦ some (view_of W x) ]) second,
          ap (λ x. x.env_session_epoch + 1) row,
        )

    by_envelope :
        (o : Option Agreement)
        → find (has_envelope env_id) w.agreements ≡ o
        → elim o [ none ↦ none | some a ↦ get_agreement a.id w ] ≡ some v
        → (u : View) × (agreement_by_envelope env_id (bump_env_session_epoch v.row.id w).1 ≡ some u)
          × (u.row.env_session_epoch ≡ v.row.env_session_epoch + 1)
    by_envelope none e k = absurd (cc k)
    by_envelope (some a) e k = by_id a e (agreement_row a.id w) refl k

refused :
    (c : Claims) (u : View) (path : String) (w : Store)
    → (c.ep == u.row.env_session_epoch) ≡ false
    → admit_on path w c (some u) ≡ Access.deny
refused c u path w stale = elim (Bool-cases (str_eq c.env_id path)) [
  | inr e ↦ rw e refl
  | inl e ↦ rw e (no_signer (signer_for_envelope c.env_id c.signer_id w))
]
  where
    no_signer : (o : Option Signer) → admit c u o ≡ Access.deny
    no_signer none = refl
    no_signer (some s) = elim (Bool-cases (s.agreement_id == u.row.id)) [
      | inl e ↦ rw (e, stale) refl
      | inr e ↦ rw e refl
    ]

-- A cookie that was authorized for an agreement is denied from the moment on which the agreement's
-- epoch is bumped, whatever the path and the time of the later request.
pub require_env_session-revoked :
    (z : Sealing) (now later : ℕ) (path path' : String) (cookie : Option String) (w : Store)
    (c : Claims) (v : View) (s : Signer)
    → session_of (require_env_session z now path cookie w) ≡ some (c, v, s)
    → require_env_session z later path' cookie (bump_env_session_epoch v.row.id w).1 ≡ Access.deny
unfolding require_env_session
require_env_session-revoked z now later path path' cookie w c v s h =
    let a : IsAuthorized z now path cookie w c v s =
      require_env_session-IsAuthorized z now path cookie w c v s h in
    let W : Store = (bump_env_session_epoch v.row.id w).1 in
    let (u, there, bumped) = bumped_envelope c.env_id w v a.agreement in
    let stale : (c.ep == u.row.env_session_epoch) ≡ false = ground (arith, a.epoch, bumped) in
    elim (read_later z now later cookie c a.read) [
      | inl gone ↦ ap (admit_claims path' W) gone
      | inr read ↦
          ap (admit_claims path' W) read ∙ ap (admit_on path' W c) there ∙ refused c u path' W stale
    ]
