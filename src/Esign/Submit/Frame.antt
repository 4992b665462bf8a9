-- ===== src/Esign/Submit/Frame.antt =====
-- What the parts of a submission leave alone: the cascade changes no row, and recording the values
-- changes no signer and no agreement.
use lifted_sign.Base.{ℕ, String, Option, none, some, List, [], ◌∷◌, refl}
use lifted_sign.Base.Int.{ℤ}
use lifted_sign.Base.Text.{strip}
use lifted_sign.Store.{Store, Env, Signer, EventType, MailKind}
use lifted_sign.Store.Reads.{View, get_agreement, next_order_to_notify}
use lifted_sign.Esign.Quiet.{Quiet, Quiet-refl, Quiet-trans, Quiet-if, Quiet-event, Quiet-send_html}
use lifted_sign.Esign.Submit.{
  notify_signer, notify_group, notify_order, cascade, notify_next_sequential,
}
use lifted_sign.Esign.Submit.Values.{Request}
use lifted_sign.Esign.Submit.Record.{record_values, log_field}

Quiet-notify_signer :
    (env : Env) (aid nxt : ℕ) (s : Signer) (w : Store) → Quiet w (notify_signer env aid nxt s w)
unfolding notify_signer
Quiet-notify_signer env aid nxt s w = Quiet-if _ w w _ (Quiet-refl w) (
    Quiet-if _ w _ _
      (Quiet-trans (Quiet-send_html env (strip s.email) MailKind.invite aid w)
        (Quiet-event env aid EventType.emailed (some s.id) "" "" _ _))
      (Quiet-send_html env (strip s.email) MailKind.invite aid w))

Quiet-notify_group :
    (env : Env) (aid nxt : ℕ) (signers : List Signer) (w : Store)
    → Quiet w (notify_group env aid nxt signers w)
unfolding notify_group
Quiet-notify_group env aid nxt [] w = Quiet-refl w
Quiet-notify_group env aid nxt (s ∷ rest) w =
    Quiet-trans (Quiet-notify_signer env aid nxt s w) (Quiet-notify_group env aid nxt rest _)

Quiet-notify_order :
    (env : Env) (aid : ℕ) (v : View) (o : Option ℕ) (w : Store)
    → Quiet w (notify_order env aid v o w)
unfolding notify_order
Quiet-notify_order env aid v none w = Quiet-refl w
Quiet-notify_order env aid v (some n) w = Quiet-notify_group env aid n v.signers w

Quiet-cascade : (env : Env) (aid : ℕ) (o : Option View) (w : Store) → Quiet w (cascade env aid o w)
unfolding cascade
Quiet-cascade env aid none w = Quiet-refl w
Quiet-cascade env aid (some v) w =
    Quiet-if _ w w _ (Quiet-refl w)
      (Quiet-notify_order env aid v (next_order_to_notify v.signers) w)

pub Quiet-notify_next_sequential :
    (env : Env) (aid : ℕ) (w : Store) → Quiet w (notify_next_sequential env aid w)
unfolding notify_next_sequential
Quiet-notify_next_sequential env aid w = Quiet-cascade env aid (get_agreement aid w) w

Quiet-log_field :
    (env : Env) (req : Request) (s : Signer) (hash : String) (fid : ℤ) (val : String)
    (adopted : List String) (w : Store)
    → Quiet w (log_field env req s hash fid val adopted w)
unfolding log_field
Quiet-log_field env req s hash fid val adopted w =
    Quiet-if _ w _ _ (Quiet-event env s.agreement_id EventType.field_signed (some s.id) _ _ _ w) (
      Quiet-trans (Quiet-event env s.agreement_id EventType.field_signed (some s.id) _ _ _ w)
        (Quiet-event env s.agreement_id EventType.signature_adopted (some s.id) _ _ _ _))

pub Quiet-record_values :
    (env : Env) (req : Request) (s : Signer) (hash : String) (values : List (ℤ × String))
    (adopted : List String) (w : Store)
    → Quiet w (record_values env req s hash values adopted w)
unfolding record_values
Quiet-record_values env req s hash [] adopted w = Quiet-refl w
Quiet-record_values env req s hash ((fid, val) ∷ rest) adopted w =
    Quiet-trans
      (Quiet-if _ w _ _
        (Quiet-trans {v = record w { fields = _ }}
          (record { agreements = refl; signers = refl; next_agreement = refl; next_signer = refl })
          (Quiet-log_field env req s hash fid val adopted _))
        (record { agreements = refl; signers = refl; next_agreement = refl; next_signer = refl }))
      (Quiet-record_values env req s hash rest _ _)
