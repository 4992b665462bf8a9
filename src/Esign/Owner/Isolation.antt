-- ===== src/Esign/Owner/Isolation.antt =====
-- The owner's view in sign/esign.py: `get_agreement_owned` and `delete_agreements_for_owner`.
use lifted_sign.Base.{
  ℕ, Bool, true, false, Option, none, some, List, [], ◌∷◌, ◌≡◌, ◌≢◌, refl, ap, sym, ◌∙◌, arith,
  ◌==◌, if◌then◌else◌, Bool-cases, inl, inr, select, delete_where, any, count_where, length,
}
use lifted_sign.Base.Members.{All-map_weaken}
use lifted_sign.Base.Membership.{keyed, keyed-rows, delete_where-All, All-true}
use lifted_sign.Store.{Store, Agreement}
use lifted_sign.Store.Reads.{View, get_agreement, get_agreement_owned, owned_by}
use lifted_sign.Esign.Invariant.{IsConsistent, agreement_key}
use lifted_sign.Esign.Owner.{delete_agreements_for_owner, owned_ids, row_of_owner, in_ids}

-- The owner of a row that the owner-scoped read returns is the caller, who is not 0 or NULL, and
-- the row is the one that the unscoped read returns.
pub get_agreement_owned-owner :
    (aid : ℕ) (owner : Option ℕ) (w : Store) (v : View)
    → get_agreement_owned aid owner w ≡ some v
    → (v.row.owner_account_id ≡ owner)
      × (owner ≢ some 0)
      × (owner ≢ none)
      × (get_agreement aid w ≡ some v)
unfolding get_agreement_owned
get_agreement_owned-owner aid none w v h = absurd (cc h)
get_agreement_owned-owner aid (some o) w v h = elim (Bool-cases (o == 0)) [
  | inl e ↦ absurd (cc (rw e at h))
  | inr e ↦
      let (same, found) = go (get_agreement aid w) refl (rw e at h) in
      (same, λ z. nonzero e z, λ z. cc z, found)
]
  where
    nonzero : (o == 0) ≡ false → some o ≡ some 0 → ⊥
    nonzero e z = let k : o ≡ 0 = cc z in ground arith

    same_owner : (p : Option ℕ) → owned_by p o ≡ true → p ≡ some o
    same_owner none k = absurd (cc k)
    same_owner (some q) k = let r : q ≡ o = ground arith in rw r

    returned : (b : Bool) (u : View) → (if b then some u else none) ≡ some v → (b ≡ true) × (u ≡ v)
    returned true u k = (refl, cc k)
    returned false u k = absurd (cc k)

    go :
        (r : Option View)
        → get_agreement aid w ≡ r
        → elim r [
          | none ↦ none
          | some u ↦ if owned_by u.row.owner_account_id o then some u else none
        ]
          ≡ some v
        → (v.row.owner_account_id ≡ some o) × (get_agreement aid w ≡ some v)
    go none found k = absurd (cc k)
    go (some u) found k =
        let (mine, same) = returned (owned_by u.row.owner_account_id o) u k in
        (
          ap (λ z. z.row.owner_account_id) (sym same) ∙ same_owner u.row.owner_account_id mine,
          found ∙ ap some same,
        )

-- The agreement with this id is the owner's.
abbrev pub belongs : ℕ → List Agreement → ℕ → Bool
belongs owner rows aid = keyed agreement_key (row_of_owner owner) rows aid

in_ids-owned :
    (owner x : ℕ) (rows : List Agreement) → in_ids (owned_ids owner rows) x ≡ belongs owner rows x
unfolding owned_ids select any
in_ids-owned owner x [] = refl
in_ids-owned owner x (a ∷ rest) = elim (Bool-cases (row_of_owner owner a)) [
  | inl e ↦ rw (e, in_ids-owned owner x rest) refl
  | inr e ↦ rw (e, in_ids-owned owner x rest) refl
]

length-owned :
    (owner : ℕ) (rows : List Agreement)
    → length (owned_ids owner rows) ≡ count_where (row_of_owner owner) rows
unfolding owned_ids select count_where
length-owned owner [] = refl
length-owned owner (a ∷ rest) = elim (Bool-cases (row_of_owner owner a)) [
  | inl e ↦ rw (e, length-owned owner rest) (omega arith)
  | inr e ↦ rw (e, length-owned owner rest) (omega arith)
]

-- What an owner's purge leaves.
pub record IsPurged (owner : ℕ) (w w' : Store) : Type 0 where
  pub agreements : w'.agreements ≡ delete_where (row_of_owner owner) w.agreements
  pub signers : w'.signers ≡ delete_where (λ s. belongs owner w.agreements s.agreement_id) w.signers
  pub fields : w'.fields ≡ delete_where (λ f. belongs owner w.agreements f.agreement_id) w.fields
  pub events : w'.events ≡ delete_where (λ e. belongs owner w.agreements e.agreement_id) w.events

-- In consistent tables, a purge of an owner other than 0 removes exactly the owner's agreements,
-- with the signers, fields and events of these agreements alone, and replies how many agreements
-- it removed.
pub delete_agreements_for_owner-exact :
    (owner : ℕ) (w : Store)
    → IsConsistent w
    → owner ≢ 0
    → ((delete_agreements_for_owner owner w).0 ≡ count_where (row_of_owner owner) w.agreements)
      × IsPurged owner w (delete_agreements_for_owner owner w).1
unfolding delete_agreements_for_owner
delete_agreements_for_owner-exact owner w i some_owner =
    let nonzero : (owner == 0) ≡ false = ground arith in
    rw nonzero (
      length-owned owner w.agreements,
      record {
        agreements =
            delete_where-All (λ a. in_ids (owned_ids owner w.agreements) a.id) (row_of_owner owner)
              w.agreements
              (All-map_weaken (λ a. belongs owner w.agreements a.id ≡ row_of_owner owner a)
                (λ a. in_ids (owned_ids owner w.agreements) a.id ≡ row_of_owner owner a)
                w.agreements (λ a h. in_ids-owned owner a.id w.agreements ∙ h)
                (keyed-rows agreement_key (row_of_owner owner) w.agreements i.ids));
        signers =
            delete_where-All _ _ w.signers
              (All-true _ w.signers (λ s. in_ids-owned owner s.agreement_id w.agreements));
        fields =
            delete_where-All _ _ w.fields
              (All-true _ w.fields (λ f. in_ids-owned owner f.agreement_id w.agreements));
        events =
            delete_where-All _ _ w.events
              (All-true _ w.events (λ e. in_ids-owned owner e.agreement_id w.agreements));
      },
    )
