-- ===== src/Esign/Submit/Safety.antt =====
-- What an accepted submission has passed: the gates of `submit_signature` in terms of the rows.
use mathlib.Core.Path.{subst}
use lifted_sign.Base.{
  ℕ, ◌<◌, String, Bool, true, false, not, ◌&&◌, ◌||◌, Option, none, some, List, [], ◌∷◌, ◌≡◌, refl,
  sym, ◌∙◌, inl, inr, find-holds, arith, if◌then◌else◌, Bool-cases, select, any, All, truthy,
  sort_by,
}
use lifted_sign.Base.Int.{ℤ}
use lifted_sign.Base.Text.{show, lower}
use lifted_sign.Base.Origins.{All-of_select, All-of_sort_by, All-of_map, All-of_any}
use lifted_sign.Base.Members.{All-map_weaken}
use lifted_sign.Store.{
  Store, Env, Signer, Field, Agreement, has_id, Error, Result, ok, err, guard, ◌>>=◌, ◌>>◌,
  guard-holds, bind-ok, is_signed, is_revoked, is_expired, is_completed, is_signer_declined,
}
use lifted_sign.Store.Reads.{
  get_agreement, agreement_row, signer_by_token, challenge_unmet, token_expired, is_sequential,
  order_of, order_key, of_agreement, signers_of, strip_signer_secrets,
}
use lifted_sign.Esign.Submit.Values.{
  Request, Json, check_fields, check_field, check_typed, lookup, has_content,
}
use lifted_sign.Esign.Submit.Gates.{
  accept, submit_checks, link_gates, first_gates, decide, ahead_unsigned, row_is, revoked_row,
  expired_row, link_over, before, required_of,
}

-- The agreement can be signed at the time `now`.
pub record IsOpen (now : ℕ) (a : Agreement) : Type 0 where
  pub live : is_revoked a.status ≡ false
  pub unexpired : is_expired a.status ≡ false
  pub in_time : is_completed a.status ≡ false → token_expired now a ≡ false

-- A signer of the same agreement with a lower order has signed.
abbrev pub IsPreceded : Signer → Signer → Type 0
IsPreceded s o =
    of_agreement s.agreement_id o ≡ true → order_of o < order_of s → is_signed o.status ≡ true

-- The submitted map answers a required field of the signer.
abbrev pub IsAnswered : List (String × Json) → Signer → Field → Type 0
IsAnswered values s f =
    required_of s f ≡ true
    → (v : Json) × (lookup (show f.id) values ≡ some v) × (has_content v ≡ true)

-- What the link of an accepted submission shows, whoever signs.
pub record IsAdmitted (env : Env) (req : Request) (w : Store) (s : Signer) : Type 0 where
  pub consented : req.consent ≡ true
  pub holder : signer_by_token req.token w ≡ some s
  pub challenged : challenge_unmet s ≡ false
  pub agreement : (a : Agreement) → agreement_row s.agreement_id w ≡ some a → IsOpen env.now a
  pub willing : is_signer_declined s.status ≡ false
  pub standing : truthy s.consent_withdrawn_at ≡ false

-- What a first signature shows besides.
pub record IsCleared (req : Request) (w : Store) (s : Signer) : Type 0 where
  pub turn :
      (a : Agreement)
      → agreement_row s.agreement_id w ≡ some a
      → is_sequential a ≡ true
      → All (IsPreceded s) w.signers
  pub disclosed : s.is_consumer ≡ true → truthy s.consent_at ≡ true
  pub answered : All (IsAnswered req.values s) w.fields

open_row :
    (now : ℕ) (o : Option Agreement)
    → row_is revoked_row o ≡ false
    → row_is expired_row o ≡ false
    → row_is (link_over now) o ≡ false
    → (a : Agreement) → o ≡ some a
    → IsOpen now a
open_row now none r e l a h = absurd (cc h)
open_row now (some b) r e l a h =
    let same : b ≡ a = cc h in
    subst (IsOpen now) same (record { live = r; unexpired = e; in_time = λ c. ground arith })

not-true : (b : Bool) → not b ≡ true → b ≡ false
not-true true h = cc h
not-true false h = refl

or-left : (b c : Bool) → (b || c) ≡ false → b ≡ false
or-left true c h = h
or-left false c h = refl

or-right : (b c : Bool) → (b || c) ≡ false → c ≡ false
or-right true c h = absurd (cc h)
or-right false c h = h

pub link_gates-IsAdmitted :
    (env : Env) (req : Request) (w : Store) (s : Signer)
    → link_gates env req w ≡ ok s
    → IsAdmitted env req w s
unfolding link_gates
link_gates-IsAdmitted env req w s h =
    let (consent, h1) = guard-holds req.consent _ _ s h in
    go consent (signer_by_token req.token w) refl h1
  where
    go :
        req.consent ≡ true
        → (o : Option Signer) → signer_by_token req.token w ≡ o
        → (elim o [ none ↦ err Error.invalid_link | some s ↦ ok s ] >>= λ s. do
          guard (not (challenge_unmet s)) Error.challenge_required
          let st = agreement_row s.agreement_id w
          guard (not (row_is revoked_row st)) Error.unavailable
          guard (not (row_is expired_row st)) Error.request_expired
          guard (not (row_is (link_over env.now) st)) Error.link_expired
          guard
              (not (truthy s.consent_withdrawn_at || is_signer_declined s.status))
              Error.consent_withdrawn
          ok s)
          ≡ ok s
        → IsAdmitted env req w s
    go consent none found k = absurd (cc k)
    go consent (some t) found k =
        let (c, k1) = guard-holds (not (challenge_unmet t)) _ _ s k in
        let (r, k2) =
          guard-holds (not (row_is revoked_row (agreement_row t.agreement_id w))) _ _ s k1 in
        let (e, k3) =
          guard-holds (not (row_is expired_row (agreement_row t.agreement_id w))) _ _ s k2 in
        let (l, k4) =
          guard-holds (not (row_is (link_over env.now) (agreement_row t.agreement_id w))) _ _ s
            k3 in
        let (d, k5) =
          guard-holds (not (truthy t.consent_withdrawn_at || is_signer_declined t.status)) _ _ s
            k4 in
        let same : t ≡ s = cc k5 in
        let blocked = not-true (truthy t.consent_withdrawn_at || is_signer_declined t.status) d in
        subst (IsAdmitted env req w) same (record {
          consented = consent;
          holder = found;
          challenged = not-true _ c;
          agreement =
              open_row env.now (agreement_row t.agreement_id w) (not-true _ r) (not-true _ e)
                (not-true _ l);
          willing = or-right (truthy t.consent_withdrawn_at) _ blocked;
          standing = or-left _ (is_signer_declined t.status) blocked;
        })

answered-if :
    (b : Bool) (m : Result (Unit {0})) (e : Error) (u : Unit {0})
    → (if b then m else err e) ≡ ok u
    → b ≡ true
answered-if true m e u h = refl
answered-if false m e u h = absurd (cc h)

check_field-answered :
    (env : Env) (values : List (String × Json)) (f : Field) (u : Unit {0})
    → check_field env values f ≡ ok u
    → (v : Json) × (lookup (show f.id) values ≡ some v) × (has_content v ≡ true)
unfolding check_field
check_field-answered env values f u h = go (lookup (show f.id) values) refl h
  where
    go :
        (o : Option Json)
        → lookup (show f.id) values ≡ o
        → elim o [
          | none ↦ err Error.required_missing
          | some raw ↦
              if has_content raw
              then check_typed env (lower f.type) raw
              else err Error.required_missing
        ]
          ≡ ok u
        → (v : Json) × (lookup (show f.id) values ≡ some v) × (has_content v ≡ true)
    go none found k = absurd (cc k)
    go (some raw) found k = (raw, found, answered-if (has_content raw) _ _ u k)

check_fields-answered :
    (env : Env) (values : List (String × Json)) (l : List Field)
    → check_fields env values l ≡ ok tt
    → All (λ f. (v : Json) × (lookup (show f.id) values ≡ some v) × (has_content v ≡ true)) l
unfolding check_fields
check_fields-answered env values [] h = tt
check_fields-answered env values (f ∷ rest) h =
    go (check_field env values f) refl (check_fields-answered env values rest) h
  where
    go :
        (r : Result (Unit {0}))
        → check_field env values f ≡ r
        → (check_fields env values rest ≡ ok tt
            → All
                (λ f. (v : Json) × (lookup (show f.id) values ≡ some v) × (has_content v ≡ true))
                rest)
        → elim r [ ok _ ↦ check_fields env values rest | err e ↦ err e ] ≡ ok tt
        → All
            (λ f. (v : Json) × (lookup (show f.id) values ≡ some v) × (has_content v ≡ true))
            (f ∷ rest)
    go (err e) found later k = absurd (cc k)
    go (ok u) found later k = (check_field-answered env values f u found, later k)

-- The test of the gate reads the orders and statuses, which no secret column changes.
before_strip : (s o : Signer) → before s (strip_signer_secrets o) ≡ before s o
unfolding strip_signer_secrets
before_strip s o = refl

before-false :
    (s o : Signer) → before s o ≡ false → order_of o < order_of s → is_signed o.status ≡ true
before-false s o h lt = ground arith

turn-IsPreceded :
    (s : Signer) (w : Store)
    → any (before s) (signers_of s.agreement_id w) ≡ false
    → All (IsPreceded s) w.signers
unfolding signers_of
turn-IsPreceded s w h =
    let quiet = All-of_any (before s) (signers_of s.agreement_id w) h in
    let plain =
      All-of_map (λ o. before s o ≡ false) strip_signer_secrets
        (sort_by order_key (select (of_agreement s.agreement_id) w.signers)) quiet in
    let sorted =
      All-of_sort_by (λ o. before s (strip_signer_secrets o) ≡ false) order_key
        (select (of_agreement s.agreement_id) w.signers) plain in
    let own =
      All-of_select (λ o. before s (strip_signer_secrets o) ≡ false) (of_agreement s.agreement_id)
        w.signers sorted in
    All-map_weaken
      (λ o. of_agreement s.agreement_id o ≡ true → before s (strip_signer_secrets o) ≡ false)
      (IsPreceded s) w.signers (λ o k mine. before-false s o (sym (before_strip s o) ∙ k mine)) own

agreement_row-id : (aid : ℕ) (w : Store) (a : Agreement) → agreement_row aid w ≡ some a → a.id ≡ aid
agreement_row-id aid w a found =
    let h = find-holds (has_id aid) w.agreements a found in ground arith

turn-row :
    (s : Signer) (w : Store)
    → ahead_unsigned s (get_agreement s.agreement_id w) ≡ false
    → (a : Agreement) → agreement_row s.agreement_id w ≡ some a
    → is_sequential a ≡ true
    → All (IsPreceded s) w.signers
unfolding ahead_unsigned get_agreement
turn-row s w h a found seq =
    turn-IsPreceded s w (
      rw (get_agreement, found, ahead_unsigned, seq, agreement_row-id s.agreement_id w a found) at
        h)

disclosed-if : (b c : Bool) → not (b && not c) ≡ true → b ≡ true → c ≡ true
disclosed-if b c h k = ground arith

first_gates-IsCleared :
    (env : Env) (req : Request) (w : Store) (s : Signer) (values : List (ℤ × String))
    → first_gates env req s w ≡ ok values
    → IsCleared req w s
unfolding first_gates
first_gates-IsCleared env req w s values h =
    let (t, h1) =
      guard-holds (not (ahead_unsigned s (get_agreement s.agreement_id w))) _ _ values h in
    let (d, h2) = guard-holds (not (s.is_consumer && not (truthy s.consent_at))) _ _ values h1 in
    let (u, c, _) =
      bind-ok (check_fields env req.values (select (required_of s) w.fields)) _ values h2 in
    record {
      turn = turn-row s w (not-true _ t);
      disclosed = disclosed-if s.is_consumer (truthy s.consent_at) d;
      answered =
          All-of_select
            (λ f. (v : Json) × (lookup (show f.id) req.values ≡ some v) × (has_content v ≡ true))
            (required_of s) w.fields
            (check_fields-answered env req.values (select (required_of s) w.fields) c);
    }

decide-first :
    (env : Env) (req : Request) (w : Store) (t s : Signer) (values : List (ℤ × String))
    → decide env req w t ≡ ok (accept s values)
    → (t ≡ s) × (is_signed t.status ≡ false) × (first_gates env req t w ≡ ok values)
decide-first env req w t s values h = elim (Bool-cases (is_signed t.status)) [
  | inl e ↦ absurd (cc (rw e at h))
  | inr e ↦
      let (vs, k, k1) = bind-ok (first_gates env req t w) _ (accept s values) (rw e at h) in
      (cc k1, e, cc (k, k1))
]

-- A submission that is accepted as a first signature was consented to; its signer holds the link,
-- has not signed, declined or withdrawn, and has passed the challenge and, as a consumer, the
-- disclosure; the agreement is not revoked, not expired and, unless it is completed, its link is
-- not past 60 days; if it is sequential, every signer of it with a lower order has signed; and
-- each required field of the signer has a value.
pub submit_checks-accepts :
    (env : Env) (req : Request) (w : Store) (s : Signer) (values : List (ℤ × String))
    → submit_checks env req w ≡ ok (accept s values)
    → IsAdmitted env req w s × IsCleared req w s × (is_signed s.status ≡ false)
unfolding submit_checks
submit_checks-accepts env req w s values h =
    let (t, k, k1) = bind-ok (link_gates env req w) (decide env req w) (accept s values) h in
    let (same, fresh, gates) = decide-first env req w t s values k1 in
    subst (λ r. IsAdmitted env req w r × IsCleared req w r × (is_signed r.status ≡ false)) same
      (link_gates-IsAdmitted env req w t k, first_gates-IsCleared env req w t values gates, fresh)
