-- ===== src/Esign/Reach.antt =====
-- The engine as a step relation: one constructor for each modelled operation of sign/esign.py that
-- writes, the downloads aside, each run to its end; and the states that these steps reach.
use lifted_sign.Base.{ℕ, String, Option, List, ◌≡◌, true, any, arith}
use lifted_sign.Store.{Store, Env, Bytes, empty}
use lifted_sign.Esign.Draft.{
  NewSigner, NewField, create_agreement, set_signers, set_fields, update_message,
}
use lifted_sign.Esign.Send.{send, self_sign_link}
use lifted_sign.Esign.Remind.{remind}
use lifted_sign.Esign.View.{signing_payload}
use lifted_sign.Esign.Submit.{submit_signature}
use lifted_sign.Esign.Submit.Values.{Request}
use lifted_sign.Esign.Submit.Record.{unsigned_of}
use lifted_sign.Esign.Consent.{Body, record_consent, withdraw_consent}
use lifted_sign.Esign.Decline.{decline, void}
use lifted_sign.Esign.Sweep.{sweep_expired}
use lifted_sign.Esign.Access.{
  Challenge, set_signer_challenge, bump_env_session_epoch, mark_challenge_passed,
}
use lifted_sign.Base.Int.{ℤ}
use lifted_sign.Pdf.{Codec}
use lifted_sign.Esign.Pages.{Floats, delete_page, reorder, rotate_page, add_pages}
use lifted_sign.Esign.Invariant.Paging.{
  delete_page-IsConsistent, reorder-IsConsistent, rotate_page-IsConsistent, add_pages-IsConsistent,
}
use lifted_sign.Esign.Owner.{delete_draft_owned, set_order_mode_owned, delete_agreements_for_owner}
use lifted_sign.Esign.Invariant.{IsConsistent, done}
use lifted_sign.Esign.Invariant.Signing.{signing_payload-IsConsistent, record_consent-IsConsistent}
use lifted_sign.Esign.Invariant.Ending.{
  decline-IsConsistent, withdraw_consent-IsConsistent, void-IsConsistent,
  set_signer_challenge-IsConsistent, bump-IsConsistent, mark_challenge_passed-IsConsistent,
}
use lifted_sign.Esign.Invariant.Submitting.{submit_signature-IsConsistent}
use lifted_sign.Esign.Invariant.Sweeping.{sweep_expired-IsConsistent}
use lifted_sign.Esign.Invariant.Drafting.{create_agreement-IsConsistent, set_signers-IsConsistent}
use lifted_sign.Esign.Invariant.Sending.{send-IsConsistent, remind-IsConsistent}
use lifted_sign.Esign.Invariant.Owning.{
  self_sign_link-IsConsistent, set_fields-IsConsistent, update_message-IsConsistent,
  delete_draft_owned-IsConsistent, set_order_mode_owned-IsConsistent,
  delete_agreements_for_owner-IsConsistent,
}

pub data Step : Store → Store → Type 0 where
  create :
      (env : Env) (name : String) (pdf : Bytes) (message created_by : String) (owner : Option ℕ)
      (w : Store)
      → Step w (create_agreement env name pdf message created_by owner w).1
  signers : (aid : ℕ) (l : List NewSigner) (w : Store) → Step w (set_signers aid l w).1
  fields : (aid : ℕ) (l : List NewField) (w : Store) → Step w (set_fields aid l w).1
  message : (aid : ℕ) (m : String) (w : Store) → Step w (update_message aid m w)
  order_mode :
      (aid : ℕ) (owner : Option ℕ) (m : String) (w : Store)
      → Step w (set_order_mode_owned aid owner m w).1
  dispatch : (env : Env) (aid : ℕ) (w : Store) → Step w (send env aid w).1
  self_sign : (env : Env) (aid sid : ℕ) (w : Store) → Step w (self_sign_link env aid sid w).1
  reminder : (env : Env) (aid : ℕ) (w : Store) → Step w (remind env aid w).1
  page_deletion :
      (env : Env) (c : Codec) (aid : ℕ) (page : ℤ) (w : Store)
      → Step w (delete_page env c aid page w).1
  page_order :
      (env : Env) (c : Codec) (aid : ℕ) (order : List ℤ) (w : Store)
      → Step w (reorder env c aid order w).1
  page_rotation :
      (fl : Floats) (env : Env) (c : Codec) (aid : ℕ) (page deg : ℤ) (w : Store)
      → Step w (rotate_page fl env c aid page deg w).1
  page_addition :
      (env : Env) (c : Codec) (aid : ℕ) (extra : Bytes) (w : Store)
      → Step w (add_pages env c aid extra w).1
  view :
      (env : Env) (token ip ua : String) (w : Store) → Step w (signing_payload env token ip ua w).1
  submit : (env : Env) (req : Request) (w : Store) → Step w (submit_signature env req w).1
  consent :
      (env : Env) (body : Body) (token ip ua : String) (w : Store)
      → Step w (record_consent env body token ip ua w).1
  withdrawal :
      (env : Env) (token reason ip ua : String) (w : Store)
      → Step w (withdraw_consent env token reason ip ua w).1
  refusal :
      (env : Env) (token reason ip ua : String) (w : Store)
      → Step w (decline env token reason ip ua w).1
  sweep : (env : Env) (w : Store) → Step w (sweep_expired env w).1
  voiding : (env : Env) (aid : ℕ) (reason : String) (w : Store) → Step w (void env aid reason w)
  challenge :
      (env : Env) (aid sid : ℕ) (c : Challenge) (w : Store)
      → Step w (set_signer_challenge env aid sid c w).1
  passed : (env : Env) (token : String) (w : Store) → Step w (mark_challenge_passed env token w).1
  revoke : (aid : ℕ) (w : Store) → Step w (bump_env_session_epoch aid w).1
  delete_draft :
      (aid : ℕ) (owner : Option ℕ) (w : Store) → Step w (delete_draft_owned aid owner w).1
  purge : (owner : ℕ) (w : Store) → Step w (delete_agreements_for_owner owner w).1

pub data Reach (s : Store) : Store → Type 0 where
  here : Reach s s
  next : {t u : Store} → Reach s t → Step t u → Reach s u

-- Every step of `Step` keeps the tables consistent: the ids of agreements and of signers are distinct
-- and below the next id, and no completed agreement has a signer who has not signed.
pub Step-IsConsistent : {t u : Store} → Step t u → IsConsistent t → IsConsistent u
Step-IsConsistent (create env name pdf m c o w) i =
    create_agreement-IsConsistent env name pdf m c o w i
Step-IsConsistent (signers aid l w) i = set_signers-IsConsistent aid l w i
Step-IsConsistent (fields aid l w) i = set_fields-IsConsistent aid l w i
Step-IsConsistent (message aid m w) i = update_message-IsConsistent aid m w i
Step-IsConsistent (order_mode aid o m w) i = set_order_mode_owned-IsConsistent aid o m w i
Step-IsConsistent (dispatch env aid w) i = send-IsConsistent env aid w i
Step-IsConsistent (self_sign env aid sid w) i = self_sign_link-IsConsistent env aid sid w i
Step-IsConsistent (reminder env aid w) i = remind-IsConsistent env aid w i
Step-IsConsistent (page_deletion env c aid p w) i = delete_page-IsConsistent env c aid p w i
Step-IsConsistent (page_order env c aid o w) i = reorder-IsConsistent env c aid o w i
Step-IsConsistent (page_rotation fl env c aid p d w) i =
    rotate_page-IsConsistent fl env c aid p d w i
Step-IsConsistent (page_addition env c aid b w) i = add_pages-IsConsistent env c aid b w i
Step-IsConsistent (view env t ip ua w) i = signing_payload-IsConsistent env t ip ua w i
Step-IsConsistent (submit env req w) i = submit_signature-IsConsistent env req w i
Step-IsConsistent (consent env b t ip ua w) i = record_consent-IsConsistent env b t ip ua w i
Step-IsConsistent (withdrawal env t r ip ua w) i = withdraw_consent-IsConsistent env t r ip ua w i
Step-IsConsistent (refusal env t r ip ua w) i = decline-IsConsistent env t r ip ua w i
Step-IsConsistent (sweep env w) i = sweep_expired-IsConsistent env w i
Step-IsConsistent (voiding env aid r w) i = void-IsConsistent env aid r w i
Step-IsConsistent (challenge env aid sid c w) i =
    set_signer_challenge-IsConsistent env aid sid c w i
Step-IsConsistent (passed env t w) i = mark_challenge_passed-IsConsistent env t w i
Step-IsConsistent (revoke aid w) i = bump-IsConsistent aid w i
Step-IsConsistent (delete_draft aid o w) i = delete_draft_owned-IsConsistent aid o w i
Step-IsConsistent (purge o w) i = delete_agreements_for_owner-IsConsistent o w i

pub IsConsistent-empty : IsConsistent empty
unfolding any
IsConsistent-empty = record {
  ids = tt;
  ids_below = tt;
  signer_ids = tt;
  signer_ids_below = tt;
  sealed = λ x h. ground arith;
}

pub Reach-IsConsistent : {s t : Store} → IsConsistent s → Reach s t → IsConsistent t
Reach-IsConsistent i here = i
Reach-IsConsistent i (next r st) = Step-IsConsistent st (Reach-IsConsistent i r)

-- In every state that the steps of `Step` reach from the empty tables, an agreement that is
-- completed has no signer who has not signed.
pub completed-signed :
    (w : Store) (x : ℕ) → Reach empty w → any (done x) w.agreements ≡ true → unsigned_of x w ≡ 0
completed-signed w x r h = (Reach-IsConsistent IsConsistent-empty r).sealed x h
