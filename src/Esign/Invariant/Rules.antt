-- ===== src/Esign/Invariant/Rules.antt =====
-- The rules by which an operation keeps the invariant: an event, a branch, an update of a row.
use lifted_sign.Base.{
  ℕ, String, Bool, true, false, Option, some, List, ◌≡◌, refl, sym, ◌∙◌, arith, ◌==◌, any, All,
  update_where, if◌then◌else◌, find,
}
use lifted_sign.Base.Members.{All-map_weaken, All-update_where}
use lifted_sign.Store.{
  Store, Env, Agreement, Signer, EventType, has_signer_id, set_signer, set_agreement, is_signed,
  is_completed, event, has_id,
}
use lifted_sign.Store.Reads.{agreement_row}
use lifted_sign.Esign.Quiet.{Quiet-event}
use lifted_sign.Esign.Submit.Record.{unsigned_in}
use lifted_sign.Esign.Invariant.{
  IsConsistent, done, Quiet-IsConsistent, agreements-IsConsistent, signers-IsConsistent,
  done-agreement_row, row_completed, signer_unique,
}

-- An update of one signer that keeps the signer's status and agreement.
pub status_kept-IsConsistent :
    (p : Signer → Bool) (f : Signer → Signer)
    → ((s : Signer)
        → ((f s).id ≡ s.id) × ((f s).agreement_id ≡ s.agreement_id) × ((f s).status ≡ s.status))
    → (w : Store) → IsConsistent w
    → IsConsistent (record w { signers = update_where p f w.signers })
status_kept-IsConsistent p f same w i =
    signers-IsConsistent p f (λ s. (same s).0) w (λ x d. everywhere x w.signers) i
  where
    kept : (x : ℕ) (s : Signer) → unsigned_in x (f s) ≡ true → unsigned_in x s ≡ true
    kept x s h = ground (arith, same s)

    everywhere :
        (x : ℕ) (xs : List Signer)
        → All (λ s. p s ≡ true → unsigned_in x (f s) ≡ true → unsigned_in x s ≡ true) xs
    everywhere x List.[] = tt
    everywhere x (List.◌∷◌ s rest) = (λ _ h. kept x s h, everywhere x rest)

-- An update, by id, of a signer that a search found and who has not signed.
pub unsigned-IsConsistent :
    (p : Signer → Bool) (f : Signer → Signer)
    → ((s : Signer) → ((f s).id ≡ s.id) × ((f s).agreement_id ≡ s.agreement_id))
    → (w : Store) (s : Signer) → IsConsistent w
    → find p w.signers ≡ some s
    → is_signed s.status ≡ false
    → IsConsistent (set_signer s.id f w)
unfolding set_signer
unsigned-IsConsistent p f same w s i found unsigned =
    signers-IsConsistent (has_signer_id s.id) f (λ r. (same r).0) w
      (λ x d.
        All-map_weaken (λ r. r.id ≡ s.id → r ≡ s)
          (λ r. (r.id == s.id) ≡ true → unsigned_in x (f r) ≡ true → unsigned_in x r ≡ true)
          w.signers (λ r only h g. kept x r only h g) (signer_unique p w s i found))
      i
  where
    kept :
        (x : ℕ) (r : Signer)
        → (r.id ≡ s.id → r ≡ s)
        → (r.id == s.id) ≡ true
        → unsigned_in x (f r) ≡ true
        → unsigned_in x r ≡ true
    kept x r only h g =
        let e : r ≡ s = only (ground arith) in
        let u : is_signed r.status ≡ false = rw e unsigned in ground (arith, same r)

pub event-IsConsistent :
    (env : Env) (aid : ℕ) (t : EventType) (sid : Option ℕ) (ip ua detail : String) (w : Store)
    → IsConsistent w
    → IsConsistent (event env aid t sid ip ua detail w)
event-IsConsistent env aid t sid ip ua detail w =
    Quiet-IsConsistent (Quiet-event env aid t sid ip ua detail w)

pub if-IsConsistent :
    (b : Bool) (u v : Store)
    → (b ≡ true → IsConsistent u)
    → (b ≡ false → IsConsistent v)
    → IsConsistent (if b then u else v)
if-IsConsistent true u v p q = p refl
if-IsConsistent false u v p q = q refl

pub set_agreement-IsConsistent :
    (aid : ℕ) (f : Agreement → Agreement)
    → ((a : Agreement) → (f a).id ≡ a.id)
    → ((a : Agreement) → is_completed (f a).status ≡ true → is_completed a.status ≡ true)
    → (w : Store) → IsConsistent w
    → IsConsistent (set_agreement aid f w)
unfolding set_agreement
set_agreement-IsConsistent aid f same keeps w i =
    agreements-IsConsistent (has_id aid) f same (λ x a p h. ground (arith, same a, keeps a)) w i

-- The rows with this id belong to this agreement.
abbrev pub OnlyOn : ℕ → ℕ → List Signer → Type 0
OnlyOn sid aid signers = All (λ r. r.id ≡ sid → r.agreement_id ≡ aid) signers

pub OnlyOn-found :
    (p : Signer → Bool) (w : Store) (s : Signer)
    → IsConsistent w
    → find p w.signers ≡ some s
    → OnlyOn s.id s.agreement_id w.signers
OnlyOn-found p w s i found =
    All-map_weaken (λ r. r.id ≡ s.id → r ≡ s) (λ r. r.id ≡ s.id → r.agreement_id ≡ s.agreement_id)
      w.signers (λ r only e. rw (only e)) (signer_unique p w s i found)

pub OnlyOn-update_where :
    (p : Signer → Bool) (f : Signer → Signer)
    → ((s : Signer) → ((f s).id ≡ s.id) × ((f s).agreement_id ≡ s.agreement_id))
    → (sid aid : ℕ) (signers : List Signer) → OnlyOn sid aid signers
    → OnlyOn sid aid (update_where p f signers)
OnlyOn-update_where p f same sid aid signers h =
    All-update_where (λ r. r.id ≡ sid → r.agreement_id ≡ aid) p f signers
      (λ a _ only e. rw (same a).1 (only (sym (same a).0 ∙ e))) h

-- An update, by id, of a signer of an agreement that is not completed.
pub open_on-IsConsistent :
    (sid aid : ℕ) (f : Signer → Signer)
    → ((s : Signer) → ((f s).id ≡ s.id) × ((f s).agreement_id ≡ s.agreement_id))
    → (w : Store) → IsConsistent w
    → OnlyOn sid aid w.signers
    → row_completed (agreement_row aid w) ≡ false
    → IsConsistent (set_signer sid f w)
unfolding set_signer
open_on-IsConsistent sid aid f same w i on not_done =
    signers-IsConsistent (has_signer_id sid) f (λ r. (same r).0) w
      (λ x d.
        All-map_weaken (λ r. r.id ≡ sid → r.agreement_id ≡ aid)
          (λ r. (r.id == sid) ≡ true → unsigned_in x (f r) ≡ true → unsigned_in x r ≡ true)
          w.signers (λ r only h g. kept x d r only h g) on)
      i
  where
    no_row : any (done aid) w.agreements ≡ false
    no_row = rw (done-agreement_row aid w i) not_done

    kept :
        (x : ℕ)
        → any (done x) w.agreements ≡ true
        → (r : Signer) → (r.id ≡ sid → r.agreement_id ≡ aid)
        → (r.id == sid) ≡ true
        → unsigned_in x (f r) ≡ true
        → unsigned_in x r ≡ true
    kept x d r only h g =
        let here : r.agreement_id ≡ aid = only (ground arith) in
        let at_x : aid ≡ x = ground (arith, same r) in absurd (cc (rw at_x at no_row))
