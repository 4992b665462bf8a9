-- ===== src/Envelope/Session/Authorized.antt =====
-- The authorization by an envelope session: `require_env_session` of sign/esign_access.py.
use lifted_sign.Base.{
  ℕ, String, false, not, ◌||◌, Option, none, some, ◌≡◌, refl, sym, ap, ◌∙◌, arith, ◌==◌, Bool-cases,
  inl, inr,
}
use lifted_sign.Base.Text.{str_eq, eq_iff}
use lifted_sign.Store.{Store, Signer}
use lifted_sign.Store.Reads.{View}
use lifted_sign.Envelope.Session.{
  Claims, Sealing, read_env_session, agreement_by_envelope, signer_for_envelope, Access, admit,
  admit_on, admit_claims, require_env_session, is_voided,
}

-- What a session authorizes, if anything.
abbrev pub session_of : Access → Option (Claims × View × Signer)
session_of Access.deny = none
session_of (Access.granted c v s) = some (c, v, s)
session_of (Access.voided c v s) = some (c, v, s)

-- The session is the cookie's, for the envelope of the path, at the agreement's epoch, of a signer
-- of that agreement.
pub record IsAuthorized (z : Sealing) (now : ℕ) (path : String) (cookie : Option String) (w : Store)
    (c : Claims) (v : View) (s : Signer) : Type 0 where
  pub read : read_env_session z now cookie ≡ some c
  pub agreement : agreement_by_envelope c.env_id w ≡ some v
  pub on_path : c.env_id ≡ path
  pub signer : signer_for_envelope c.env_id c.signer_id w ≡ some s
  pub own : s.agreement_id ≡ v.row.id
  pub epoch : c.ep ≡ v.row.env_session_epoch

record IsAdmitted (o : Option Signer) (c d : Claims) (v u : View) (s : Signer) : Type 0 where
  claims : d ≡ c
  view : u ≡ v
  signer : o ≡ some s
  own : s.agreement_id ≡ v.row.id
  epoch : c.ep ≡ v.row.env_session_epoch

admitted :
    (d c : Claims) (u v : View) (o : Option Signer) (s : Signer)
    → session_of (admit d u o) ≡ some (c, v, s)
    → IsAdmitted o c d v u s
admitted d c u v none s h = absurd (cc h)
admitted d c u v (some t) s h =
    elim (Bool-cases (not (t.agreement_id == u.row.id) || not (d.ep == u.row.env_session_epoch))) [
      | inl e ↦ absurd (cc (rw e at h))
      | inr e ↦ elim (Bool-cases (is_voided u.row.status)) [
        | inl k ↦ matched e (rw (e, k) at h)
        | inr k ↦ matched e (rw (e, k) at h)
      ]
    ]
  where
    matched :
        (not (t.agreement_id == u.row.id) || not (d.ep == u.row.env_session_epoch)) ≡ false
        → ◌≡◌ {A = Option (Claims × View × Signer)} (some (d, u, t)) (some (c, v, s))
        → IsAdmitted (some t) c d v u s
    matched e same =
        let claims : d ≡ c = cc same in
        let view : u ≡ v = cc same in
        let signer : t ≡ s = cc same in
        let own : t.agreement_id ≡ u.row.id = ground arith in
        let epoch : d.ep ≡ u.row.env_session_epoch = ground arith in
        record {
          claims = claims;
          view = view;
          signer = ap some signer;
          own = ap (λ x. x.agreement_id) (sym signer) ∙ own ∙ ap (λ x. x.row.id) view;
          epoch = ap (λ x. x.ep) (sym claims) ∙ epoch ∙ ap (λ x. x.row.env_session_epoch) view;
        }

-- Whoever `require_env_session` authorizes holds a valid session cookie for the envelope of the
-- path, of a signer of that envelope's agreement, minted at the agreement's present epoch.
pub require_env_session-IsAuthorized :
    (z : Sealing) (now : ℕ) (path : String) (cookie : Option String) (w : Store) (c : Claims)
    (v : View) (s : Signer)
    → session_of (require_env_session z now path cookie w) ≡ some (c, v, s)
    → IsAuthorized z now path cookie w c v s
unfolding require_env_session
require_env_session-IsAuthorized z now path cookie w c v s h =
    from_claims (read_env_session z now cookie) refl h
  where
    from_view :
        (d : Claims)
        → read_env_session z now cookie ≡ some d
        → (o : Option View) → agreement_by_envelope d.env_id w ≡ o
        → session_of (admit_on path w d o) ≡ some (c, v, s)
        → IsAuthorized z now path cookie w c v s
    from_view d e none f k = absurd (cc k)
    from_view d e (some u) f k = elim (Bool-cases (str_eq d.env_id path)) [
      | inr q ↦ absurd (cc (rw q at k))
      | inl q ↦
          let r : IsAdmitted (signer_for_envelope d.env_id d.signer_id w) c d v u s =
            admitted d c u v (signer_for_envelope d.env_id d.signer_id w) s (rw q at k) in
          record {
            read = e ∙ ap some r.claims;
            agreement =
                ap (λ x. agreement_by_envelope x.env_id w) (sym r.claims) ∙ f ∙ ap some r.view;
            on_path = ap (λ x. x.env_id) (sym r.claims) ∙ (eq_iff d.env_id path).0 q;
            signer = ap (λ x. signer_for_envelope x.env_id x.signer_id w) (sym r.claims) ∙ r.signer;
            own = r.own;
            epoch = r.epoch;
          }
    ]

    from_claims :
        (o : Option Claims)
        → read_env_session z now cookie ≡ o
        → session_of (admit_claims path w o) ≡ some (c, v, s)
        → IsAuthorized z now path cookie w c v s
    from_claims none e k = absurd (cc k)
    from_claims (some d) e k = from_view d e (agreement_by_envelope d.env_id w) refl k
