-- ===== src/Esign/Invariant.antt =====
-- The invariant of the tables: ids are unique and below the counters, and a completed agreement has
-- no signer who has not signed. Here are its rules; the operations keep it in the modules below.
pub mod Rules
pub mod Signing
pub mod Ending
pub mod Sealing
pub mod Submitting
pub mod Sweeping
pub mod Drafting
pub mod Sending
pub mod Owning
pub mod Paging
use lifted_sign.Base.{
  ℕ, ◌+◌, ◌≤◌, ◌<◌, String, Bool, true, false, not, ◌&&◌, Option, none, some, List, ◌≡◌, refl, ◌∙◌,
  arith, ◌==◌, any, find, find-holds, update_where, All,
}
use lifted_sign.Base.RowLaws.{
  Distinct, Below, any-update_where, any-find_key, any-find-none, Distinct-update_where,
  Below-update_where,
}
use lifted_sign.Base.Members.{count_where-update_where-All, find_unique}
use lifted_sign.Store.{
  Store, Agreement, Signer, Status, Result, ok, err, checked, has_id, has_signer_id, is_completed,
}
use lifted_sign.Store.Reads.{agreement_row}
use lifted_sign.Esign.Submit.Record.{unsigned_of, unsigned_in}
use lifted_sign.Esign.Quiet.{Quiet}

abbrev pub agreement_key : Agreement → ℕ
agreement_key a = a.id

abbrev pub signer_key : Signer → ℕ
signer_key s = s.id

-- A completed agreement with this id.
abbrev pub done : ℕ → Agreement → Bool
done x a = (a.id == x) && is_completed a.status

pub record IsConsistent (w : Store) : Type 0 where
  pub ids : Distinct agreement_key w.agreements
  pub ids_below : Below agreement_key w.next_agreement w.agreements
  pub signer_ids : Distinct signer_key w.signers
  pub signer_ids_below : Below signer_key w.next_signer w.signers
  pub sealed : (x : ℕ) → any (done x) w.agreements ≡ true → unsigned_of x w ≡ 0

pub Quiet-IsConsistent : {w w' : Store} → Quiet w w' → IsConsistent w → IsConsistent w'
unfolding unsigned_of
Quiet-IsConsistent q i = record {
  ids = rw q.agreements i.ids;
  ids_below = rw (q.agreements, q.next_agreement) i.ids_below;
  signer_ids = rw q.signers i.signer_ids;
  signer_ids_below = rw (q.signers, q.next_signer) i.signer_ids_below;
  sealed = λ x h. rw q.signers (i.sealed x (rw q.agreements at h));
}

-- An update of agreements that keeps the ids and completes nothing.
pub agreements-IsConsistent :
    (p : Agreement → Bool) (f : Agreement → Agreement)
    → ((a : Agreement) → (f a).id ≡ a.id)
    → ((x : ℕ) (a : Agreement) → p a ≡ true → done x (f a) ≡ true → done x a ≡ true)
    → (w : Store) → IsConsistent w
    → IsConsistent (record w { agreements = update_where p f w.agreements })
unfolding unsigned_of
agreements-IsConsistent p f same keeps w i = record {
  ids = Distinct-update_where agreement_key p f same w.agreements i.ids;
  ids_below = Below-update_where agreement_key w.next_agreement p f same w.agreements i.ids_below;
  signer_ids = i.signer_ids;
  signer_ids_below = i.signer_ids_below;
  sealed = λ x h. i.sealed x (any-update_where (done x) p f (keeps x) w.agreements h);
}

-- An update of signers that keeps the ids and leaves nobody of a completed agreement unsigned.
pub signers-IsConsistent :
    (p : Signer → Bool) (f : Signer → Signer)
    → ((s : Signer) → (f s).id ≡ s.id)
    → (w : Store)
    → ((x : ℕ)
        → any (done x) w.agreements ≡ true
        → All (λ s. p s ≡ true → unsigned_in x (f s) ≡ true → unsigned_in x s ≡ true) w.signers)
    → IsConsistent w
    → IsConsistent (record w { signers = update_where p f w.signers })
unfolding unsigned_of
signers-IsConsistent p f same w keeps i = record {
  ids = i.ids;
  ids_below = i.ids_below;
  signer_ids = Distinct-update_where signer_key p f same w.signers i.signer_ids;
  signer_ids_below =
      Below-update_where signer_key w.next_signer p f same w.signers i.signer_ids_below;
  sealed = λ x h.
      omega (
        arith,
        i.sealed x h,
        count_where-update_where-All (unsigned_in x) p f w.signers (keeps x h),
      );
}

-- An agreement whose row is absent or not completed has no completed row.
abbrev pub row_completed : Option Agreement → Bool
row_completed none = false
row_completed (some a) = is_completed a.status

done_id : (x : ℕ) (a : Agreement) → done x a ≡ true → a.id ≡ x
done_id x a h = ground arith

done-eq-row_completed :
    (x : ℕ) (w : Store) (o : Option Agreement)
    → IsConsistent w
    → agreement_row x w ≡ o
    → any (done x) w.agreements ≡ row_completed o
done-eq-row_completed x w none i e =
    any-find-none agreement_key x (done x) w.agreements e (done_id x)
done-eq-row_completed x w (some a) i e =
    any-find_key agreement_key x (done x) w.agreements a i.ids e (done_id x)
    ∙ done_found x a (find-holds (has_id x) w.agreements a e)
  where
    done_found : (k : ℕ) (b : Agreement) → (b.id == k) ≡ true → done k b ≡ is_completed b.status
    done_found k b h = ground arith

pub done-agreement_row :
    (x : ℕ) (w : Store)
    → IsConsistent w
    → any (done x) w.agreements ≡ row_completed (agreement_row x w)
done-agreement_row x w i = done-eq-row_completed x w (agreement_row x w) i refl

-- The row of a signer that a search found is the only one with its id.
pub signer_unique :
    (p : Signer → Bool) (w : Store) (s : Signer)
    → IsConsistent w
    → find p w.signers ≡ some s
    → All (λ r. r.id ≡ s.id → r ≡ s) w.signers
signer_unique p w s i e = find_unique signer_key p w.signers s i.signer_ids e

-- An operation that only reads before its checks pass keeps what its writes keep.
pub checked-IsConsistent :
    {A B : Type 0} (r : Result A) (run : A → Store → Result B × Store) (w : Store)
    → IsConsistent w
    → ((a : A) → r ≡ ok a → IsConsistent (run a w).1)
    → IsConsistent (checked r run w).1
checked-IsConsistent (ok a) run w i k = k a refl
checked-IsConsistent (err e) run w i k = i
