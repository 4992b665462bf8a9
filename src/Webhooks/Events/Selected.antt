-- ===== src/Webhooks/Events/Selected.antt =====
-- The loop of `normalize_events` in sign/webhooks.py over the items.
use lifted_sign.Base.{
  String, true, false, ◌||◌, List, [], ◌∷◌, ◌++◌, ◌≡◌, refl, sym, ap, ◌∙◌, any, all, inl, inr,
  Bool-cases, arith,
}
use lifted_sign.Base.Text.{str_eq, eq_iff, eq_refl}
use lifted_sign.Webhooks.Events.{
  known_events, listed, join, Outcome, pick_events, joined, selects_all, normalize_items,
}
use lifted_sign.Webhooks.Events.Names.{given_inj, is_known}

-- What a pick holds: the names picked before and those of the items, all of them known.
record IsPicked (picked items ws : List String) : Type 0 where
  members : (e : String) → listed e ws ≡ (listed e picked || listed e items)
  known : all is_known picked ≡ true → all is_known ws ≡ true

listed-append : (e : String) (l m : List String) → listed e (l ++ m) ≡ (listed e l || listed e m)
unfolding any
listed-append e [] m = refl
listed-append e (s ∷ l) m = ground (arith, listed-append e l m)

known-append :
    (l m : List String)
    → all is_known l ≡ true
    → all is_known m ≡ true
    → all is_known (l ++ m) ≡ true
unfolding all
known-append [] m h k = k
known-append (s ∷ l) m h k = ground (arith, known-append l m (ground arith) k)

again :
    (d i : String) (picked items : List String)
    → listed i picked ≡ true
    → (listed d picked || listed d items) ≡ (listed d picked || listed d (i ∷ items))
unfolding any
again d i picked items h = elim (Bool-cases (str_eq d i)) [
  | inl e ↦
      let same : d ≡ i = (eq_iff d i).0 e in
      let there : listed d picked ≡ true = ap (λ x. listed x picked) same ∙ h in rw (e, there) refl
  | inr e ↦ rw e refl
]

pick_events-IsPicked :
    (picked items ws : List String)
    → pick_events picked items ≡ Outcome.given ws
    → IsPicked picked items ws
unfolding pick_events any all
pick_events-IsPicked picked [] ws h =
    let same : picked ≡ ws = given_inj h in
    record {
      members = λ e. ap (listed e) (sym same) ∙ ground arith;
      known = λ k. ap (all is_known) (sym same) ∙ k;
    }
pick_events-IsPicked picked (i ∷ items) ws h = elim (Bool-cases (listed i known_events)) [
  | inr e ↦ absurd (cc (rw e at h))
  | inl e ↦ elim (Bool-cases (listed i picked)) [
    | inl t ↦
        let r : IsPicked picked items ws = pick_events-IsPicked picked items ws (rw (e, t) at h) in
        record { members = λ d. r.members d ∙ again d i picked items t; known = r.known }
    | inr t ↦
        let r : IsPicked (picked ++ i ∷ []) items ws =
          pick_events-IsPicked (picked ++ i ∷ []) items ws (rw (e, t) at h) in
        record {
          members = λ d. ground (arith, r.members d, listed-append d picked (i ∷ []));
          known = λ k. r.known (known-append picked (i ∷ []) k (rw e refl));
        }
  ]
]

pick_events-append :
    (picked items ws more : List String)
    → pick_events picked items ≡ Outcome.given ws
    → pick_events picked (items ++ more) ≡ pick_events ws more
unfolding pick_events
pick_events-append picked [] ws more h = ap (λ l. pick_events l more) (given_inj h)
pick_events-append picked (i ∷ items) ws more h = elim (Bool-cases (listed i known_events)) [
  | inr e ↦ absurd (cc (rw e at h))
  | inl e ↦ elim (Bool-cases (listed i picked)) [
    | inl t ↦ rw (e, t) (pick_events-append picked items ws more (rw (e, t) at h))
    | inr t ↦ rw (e, t) (pick_events-append (picked ++ i ∷ []) items ws more (rw (e, t) at h))
  ]
]

-- What was picked is picked again as it is.
pick_events-again :
    (picked items ws : List String)
    → pick_events [] picked ≡ Outcome.given picked
    → pick_events picked items ≡ Outcome.given ws
    → pick_events [] ws ≡ Outcome.given ws
unfolding pick_events
pick_events-again picked [] ws k h = let same : picked ≡ ws = given_inj h in cc (k, same)
pick_events-again picked (i ∷ items) ws k h = elim (Bool-cases (listed i known_events)) [
  | inr e ↦ absurd (cc (rw e at h))
  | inl e ↦ elim (Bool-cases (listed i picked)) [
    | inl t ↦ pick_events-again picked items ws k (rw (e, t) at h)
    | inr t ↦
        pick_events-again (picked ++ i ∷ []) items ws
          (pick_events-append [] picked picked (i ∷ []) k ∙ rw (e, t) refl) (rw (e, t) at h)
  ]
]

-- A selector that is kept as a list of names.
pub record IsListed (items : List String) (stored : String) : Type 0 where
  pub first : String
  pub rest : List String
  pub is_join : stored ≡ join (first ∷ rest)
  pub known : all is_known (first ∷ rest) ≡ true
  pub members : (e : String) → listed e (first ∷ rest) ≡ listed e items
  pub picks : pick_events [] (first ∷ rest) ≡ Outcome.given (first ∷ rest)

pub normalize_items-IsListed :
    (items : List String) (stored : String)
    → selects_all items ≡ false
    → normalize_items items ≡ Outcome.given stored
    → IsListed items stored
unfolding pick_events any all
normalize_items-IsListed [] stored all_of h = absurd (cc all_of)
normalize_items-IsListed (i ∷ items) stored all_of h =
    go (pick_events [] (i ∷ items)) refl (rw all_of at h)
  where
    named :
        (ws : List String)
        → pick_events [] (i ∷ items) ≡ Outcome.given ws
        → stored ≡ join ws
        → IsPicked [] (i ∷ items) ws
        → IsListed (i ∷ items) stored
    named [] e j p =
        let none_left : false ≡ true = p.members i ∙ ap (λ b. b || listed i items) (eq_refl i) in
        absurd (cc none_left)
    named (w ∷ ws) e j p = record {
      first = w;
      rest = ws;
      is_join = j;
      known = p.known refl;
      members = p.members;
      picks = pick_events-again [] (i ∷ items) (w ∷ ws) refl e;
    }

    go :
        (o : Outcome (List String))
        → pick_events [] (i ∷ items) ≡ o
        → joined o ≡ Outcome.given stored
        → IsListed (i ∷ items) stored
    go (Outcome.refused r) e k = absurd (cc k)
    go (Outcome.given ws) e k =
        named ws e (sym (given_inj k)) (pick_events-IsPicked [] (i ∷ items) ws e)
