-- ===== src/Esign/Invariant/Owning.antt =====
-- The self-signing link, the fields, the message and the operations of an owner keep the invariant.
use lifted_sign.Base.{
  ℕ, String, Bool, true, Option, some, List, [], ◌∷◌, ◌≡◌, refl, arith, All, delete_where, inl, inr,
  Bool-cases, ◌==◌,
}
use lifted_sign.Base.RowLaws.{
  any-delete_where, count_where-delete_where, Distinct-delete_where, Below-delete_where,
}
use lifted_sign.Store.{
  Store, Env, Agreement, Signer, Field, Event, File, SignerStatus, EventType, has_signer_id,
  set_signer, is_signed,
}
use lifted_sign.Esign.Submit.Record.{unsigned_of, unsigned_in}
use lifted_sign.Esign.Draft.{NewField, set_fields, draft_lock, replace_fields, update_message}
use lifted_sign.Esign.Send.{
  self_sign_link, self_sign_checks, self_sign_open, self_status, token_or, open_row, draft_with_id,
}
use lifted_sign.Esign.Owner.{
  delete_rows, delete_draft, delete_draft_owned, owned_draft, set_order_mode_owned,
  order_mode_checks, store_mode, delete_agreements_for_owner,
}
use lifted_sign.Esign.Invariant.{
  IsConsistent, done, agreement_key, signer_key, Quiet-IsConsistent, agreements-IsConsistent,
  signers-IsConsistent, checked-IsConsistent,
}
use lifted_sign.Esign.Invariant.Rules.{event-IsConsistent, set_agreement-IsConsistent}

-- Deleting signers and agreements, and changing anything else, keeps the invariant.
deleted-IsConsistent :
    (p : Agreement → Bool) (q : Signer → Bool) (fields : List Field) (events : List Event)
    (files : List File) (w : Store)
    → IsConsistent w
    → IsConsistent (record w {
      agreements = delete_where p w.agreements;
      signers = delete_where q w.signers;
      fields = fields;
      events = events;
      files = files;
    })
unfolding unsigned_of
deleted-IsConsistent p q fields events files w i = record {
  ids = Distinct-delete_where agreement_key p w.agreements i.ids;
  ids_below = Below-delete_where agreement_key w.next_agreement p w.agreements i.ids_below;
  signer_ids = Distinct-delete_where signer_key q w.signers i.signer_ids;
  signer_ids_below = Below-delete_where signer_key w.next_signer q w.signers i.signer_ids_below;
  sealed = λ x h. omega (
    arith,
    i.sealed x (any-delete_where (done x) p w.agreements h),
    count_where-delete_where (unsigned_in x) q w.signers,
  );
}

pub delete_draft_owned-IsConsistent :
    (aid : ℕ) (owner : Option ℕ) (w : Store)
    → IsConsistent w
    → IsConsistent (delete_draft_owned aid owner w).1
unfolding delete_draft_owned delete_draft delete_rows
delete_draft_owned-IsConsistent aid owner w i =
    checked-IsConsistent (owned_draft aid owner w) (delete_draft aid) w i
      (λ v e. deleted-IsConsistent _ _ _ _ _ w i)

pub delete_agreements_for_owner-IsConsistent :
    (owner : ℕ) (w : Store) → IsConsistent w → IsConsistent (delete_agreements_for_owner owner w).1
unfolding delete_agreements_for_owner
delete_agreements_for_owner-IsConsistent owner w i = elim (Bool-cases (owner == 0)) [
  | inl e ↦ rw e i
  | inr e ↦ rw e (deleted-IsConsistent _ _ _ _ w.files w i)
]

pub set_order_mode_owned-IsConsistent :
    (aid : ℕ) (owner : Option ℕ) (mode : String) (w : Store)
    → IsConsistent w
    → IsConsistent (set_order_mode_owned aid owner mode w).1
unfolding set_order_mode_owned
set_order_mode_owned-IsConsistent aid owner mode w i =
    checked-IsConsistent (order_mode_checks aid owner mode w) (store_mode aid) w i (λ m e.
      set_agreement-IsConsistent aid (λ a. record a { order_mode = m }) (λ a. refl) (λ a h. h) w i)

pub update_message-IsConsistent :
    (aid : ℕ) (message : String) (w : Store)
    → IsConsistent w
    → IsConsistent (update_message aid message w)
unfolding update_message
update_message-IsConsistent aid message w i =
    set_agreement-IsConsistent aid (λ a. record a { message = message }) (λ a. refl) (λ a h. h) w i

pub set_fields-IsConsistent :
    (aid : ℕ) (fields : List NewField) (w : Store)
    → IsConsistent w
    → IsConsistent (set_fields aid fields w).1
unfolding set_fields replace_fields
set_fields-IsConsistent aid fields w i =
    checked-IsConsistent (draft_lock aid w) (λ _. replace_fields aid fields) w i
      (λ u e.
        Quiet-IsConsistent
          (record { agreements = refl; signers = refl; next_agreement = refl; next_signer = refl })
          i)

is_signed-self_status : (s : SignerStatus) → is_signed (self_status s) ≡ is_signed s
is_signed-self_status SignerStatus.signed = refl
is_signed-self_status _ = refl

abbrev self_row : String → Signer → Signer
self_row tok r = record r { token = some tok; status = self_status r.status }

self_rows :
    (sid x : ℕ) (tok : String) (signers : List Signer)
    → All
        (λ s. (s.id == sid) ≡ true → unsigned_in x (self_row tok s) ≡ true → unsigned_in x s ≡ true)
        signers
self_rows sid x tok [] = tt
self_rows sid x tok (s ∷ rest) = (λ _ h. rw is_signed-self_status at h, self_rows sid x tok rest)

self_sign_open-IsConsistent :
    (env : Env) (aid : ℕ) (s : Signer) (w : Store)
    → IsConsistent w
    → IsConsistent (self_sign_open env aid s w).1
unfolding self_sign_open set_signer
self_sign_open-IsConsistent env aid s w i =
    event-IsConsistent env aid EventType.self_sign (some s.id) "" "" _ _ (
      agreements-IsConsistent (draft_with_id aid) (open_row env.now) (λ a. refl)
        (λ x a p h. ground arith) _
        (signers-IsConsistent (has_signer_id s.id) (self_row (token_or s.token (env.fresh 0)))
          (λ r. refl) w (λ x _. self_rows s.id x (token_or s.token (env.fresh 0)) w.signers) i))

pub self_sign_link-IsConsistent :
    (env : Env) (aid sid : ℕ) (w : Store)
    → IsConsistent w
    → IsConsistent (self_sign_link env aid sid w).1
unfolding self_sign_link
self_sign_link-IsConsistent env aid sid w i =
    checked-IsConsistent (self_sign_checks aid sid w) (self_sign_open env aid) w i
      (λ s e. self_sign_open-IsConsistent env aid s w i)
