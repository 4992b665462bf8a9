-- ===== src/Esign/Quiet.antt =====
-- Mail, webhooks, audit events and files leave the rows of agreements and signers alone.
use lifted_sign.Base.{
  ℕ, String, Bool, true, false, Option, none, some, List, [], ◌∷◌, ◌≡◌, refl, ◌∙◌, if◌then◌else◌,
}
use lifted_sign.Store.{
  Store, Env, Signer, FileKind, Bytes, MailKind, WebhookEvent, EventType, event, send_html, emit,
}
use lifted_sign.Store.Reads.{View, write_file, get_agreement}
use lifted_sign.Esign.Finalize.{send_copies, recipients, deliver, sender_email}
use lifted_sign.Esign.Send.{invite_all, invited}
use lifted_sign.Esign.Remind.{remind_all}
use lifted_sign.Esign.Sweep.{notify_one, notify_expired}
use lifted_sign.Esign.Decline.{tell_declined}

-- The second store has the rows of the first.
pub record Quiet (w w' : Store) : Type 0 where
  pub agreements : w'.agreements ≡ w.agreements
  pub signers : w'.signers ≡ w.signers
  pub next_agreement : w'.next_agreement ≡ w.next_agreement
  pub next_signer : w'.next_signer ≡ w.next_signer

pub Quiet-refl : (w : Store) → Quiet w w
Quiet-refl w = record {
  agreements = refl;
  signers = refl;
  next_agreement = refl;
  next_signer = refl;
}

pub Quiet-trans : {u v w : Store} → Quiet u v → Quiet v w → Quiet u w
Quiet-trans p q = record {
  agreements = q.agreements ∙ p.agreements;
  signers = q.signers ∙ p.signers;
  next_agreement = q.next_agreement ∙ p.next_agreement;
  next_signer = q.next_signer ∙ p.next_signer;
}

pub Quiet-if : (b : Bool) (w u v : Store) → Quiet w u → Quiet w v → Quiet w (if b then u else v)
Quiet-if true w u v p q = p
Quiet-if false w u v p q = q

pub Quiet-event :
    (env : Env) (aid : ℕ) (t : EventType) (sid : Option ℕ) (ip ua detail : String) (w : Store)
    → Quiet w (event env aid t sid ip ua detail w)
unfolding event
Quiet-event env aid t sid ip ua detail w = record {
  agreements = refl;
  signers = refl;
  next_agreement = refl;
  next_signer = refl;
}

pub Quiet-send_html :
    (env : Env) (to : String) (kind : MailKind) (aid : ℕ) (w : Store)
    → Quiet w (send_html env to kind aid w)
unfolding send_html
Quiet-send_html env to kind aid w =
    Quiet-if (env.mail_ok to) w _ w
      (record { agreements = refl; signers = refl; next_agreement = refl; next_signer = refl })
      (Quiet-refl w)

pub Quiet-emit :
    (e : WebhookEvent) (aid : ℕ) (owner : Option ℕ) (w : Store) → Quiet w (emit e aid owner w)
unfolding emit
Quiet-emit e aid owner w = record {
  agreements = refl;
  signers = refl;
  next_agreement = refl;
  next_signer = refl;
}

pub Quiet-write_file :
    (aid : ℕ) (k : FileKind) (b : Bytes) (w : Store) → Quiet w (write_file aid k b w)
unfolding write_file
Quiet-write_file aid k b w = record {
  agreements = refl;
  signers = refl;
  next_agreement = refl;
  next_signer = refl;
}

-- The event that follows a mail which went out.
Quiet-mailed_event :
    (env : Env) (b : Bool) (to : String) (kind : MailKind) (aid : ℕ) (t : EventType)
    (sid : Option ℕ) (detail : String) (w : Store)
    → Quiet w (
        if b
        then event env aid t sid "" "" detail (send_html env to kind aid w)
        else send_html env to kind aid w)
Quiet-mailed_event env b to kind aid t sid detail w =
    Quiet-if b w _ _
      (Quiet-trans (Quiet-send_html env to kind aid w) (Quiet-event env aid t sid "" "" detail _))
      (Quiet-send_html env to kind aid w)

pub Quiet-send_copies :
    (env : Env) (aid : ℕ) (signers : List Signer) (tos : List String) (w : Store)
    → Quiet w (send_copies env aid signers tos w)
unfolding send_copies
Quiet-send_copies env aid signers [] w = Quiet-refl w
Quiet-send_copies env aid signers (to ∷ rest) w =
    Quiet-trans
      (Quiet-mailed_event env (env.mail_ok to) to MailKind.completed_copy aid
        EventType.completed_copy_delivered _ _ w)
      (Quiet-send_copies env aid signers rest _)

pub Quiet-deliver : (env : Env) (aid : ℕ) (v : View) (w : Store) → Quiet w (deliver env aid v w)
unfolding deliver
Quiet-deliver env aid v w =
    Quiet-trans (Quiet-send_copies env aid v.signers (recipients env v) w)
      (Quiet-emit WebhookEvent.envelope_completed aid v.row.owner_account_id _)

pub Quiet-invite_all :
    (env : Env) (aid : ℕ) (v : View) (signers : List Signer) (acc : ℕ × ℕ) (w : Store)
    → Quiet w (invite_all env aid v signers acc w).1
unfolding invite_all
Quiet-invite_all env aid v [] acc w = Quiet-refl w
Quiet-invite_all env aid v (s ∷ rest) acc w =
    Quiet-trans
      (Quiet-if (invited v s) w _ w (Quiet-send_html env s.email MailKind.invite aid w)
        (Quiet-refl w))
      (Quiet-invite_all env aid v rest _ _)

pub Quiet-remind_all :
    (env : Env) (aid : ℕ) (signers : List Signer) (sent : ℕ) (w : Store)
    → Quiet w (remind_all env aid signers sent w).1
unfolding remind_all
Quiet-remind_all env aid [] sent w = Quiet-refl w
Quiet-remind_all env aid (s ∷ rest) sent w =
    Quiet-trans
      (Quiet-mailed_event env (env.mail_ok s.email) s.email MailKind.reminder aid EventType.reminded
        _ _ w)
      (Quiet-remind_all env aid rest _ _)

Quiet-notify_one :
    (env : Env) (aid : ℕ) (o : Option View) (w : Store) → Quiet w (notify_one env aid o w)
unfolding notify_one
Quiet-notify_one env aid none w = Quiet-refl w
Quiet-notify_one env aid (some v) w =
    Quiet-trans (Quiet-emit WebhookEvent.envelope_expired aid v.row.owner_account_id w)
      (Quiet-send_html env (sender_email env v.row) MailKind.expired_notice aid _)

pub Quiet-notify_expired :
    (env : Env) (ids : List ℕ) (w : Store) → Quiet w (notify_expired env ids w)
unfolding notify_expired
Quiet-notify_expired env [] w = Quiet-refl w
Quiet-notify_expired env (aid ∷ rest) w =
    Quiet-trans (Quiet-notify_one env aid (get_agreement aid w) w) (Quiet-notify_expired env rest _)

pub Quiet-tell_declined :
    (env : Env) (aid : ℕ) (o : Option View) (w : Store) → Quiet w (tell_declined env aid o w)
unfolding tell_declined
Quiet-tell_declined env aid none w = Quiet-emit WebhookEvent.envelope_declined aid none w
Quiet-tell_declined env aid (some v) w =
    Quiet-trans (Quiet-send_html env (sender_email env v.row) MailKind.declined_notice aid w)
      (Quiet-emit WebhookEvent.envelope_declined aid v.row.owner_account_id _)
