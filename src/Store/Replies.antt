-- ===== src/Store/Replies.antt =====
-- The replies of the operations: `{"ok": True, …}`, or `{"ok": False, "error": …}` with one
-- constructor for each message. `raised` is an exception that reaches the caller.
use lifted_sign.Base.{Bool, true, false, ◌≡◌, refl}
use lifted_sign.Store.Schema.{Status}
use lifted_sign.Store.State.{Store}

pub data Error : Type 0 where
  not_found no_signers edited_inconsistent freeze_failed signer_not_found : Error
  already_sent cannot_remind cannot_decline : Status → Error
  already_signed no_pending voided_document request_expired link_expired : Error
  consent_required invalid_link challenge_required unavailable consent_withdrawn : Error
  not_your_turn required_missing bad_signature unchecked_box malformed : Error
  invalid not_completed locked bad_mode bad_page only_page bad_order bad_degrees : Error
  not_a_pdf raised : Error

-- The source replies with a dict; here a refusal carries its reason only.
pub data Result {ℓ} (Value : Type ℓ) : Type ℓ where
  err : (reason : Error) → Result Value
  ok : (value : Value) → Result Value

-- `if not holds: return {"ok": False, "error": reason}`
abbrev pub guard : (holds : Bool) (reason : Error) → Result (Unit {0})
guard false reason = err reason
guard true reason = ok tt

infixl 5 ◌>>=◌ ◌>>◌
-- The first refusal ends an operation's checks.
abbrev pub ◌>>=◌ {ℓ κ} :
    {Value : Type ℓ} {Next : Type κ} (found : Result Value) (later : Value → Result Next)
    → Result Next
err reason >>= later = err reason
ok value >>= later = later value

abbrev pub ◌>>◌ {κ} : {Next : Type κ} (test : Result (Unit {0})) (later : Result Next) → Result Next
test >> later = test >>= λ _. later

-- The checks of an operation read the store; what follows them writes it.
abbrev pub checked :
    {A B : Type 0} → Result A → (A → Store → Result B × Store) → Store → Result B × Store
checked (ok a) run w = run a w
checked (err e) run w = (err e, w)

pub guard-holds :
    {A : Type 0} (b : Bool) (e : Error) (m : Result A) (a : A)
    → (guard b e >> m) ≡ ok a
    → (b ≡ true) × (m ≡ ok a)
guard-holds true e m a h = (refl, h)
guard-holds false e m a h = absurd (cc h)

pub bind-ok :
    {A B : Type 0} (m : Result A) (f : A → Result B) (b : B)
    → (m >>= f) ≡ ok b
    → (a : A) × (m ≡ ok a) × (f a ≡ ok b)
bind-ok (ok a) f b h = (a, refl, h)
bind-ok (err e) f b h = absurd (cc h)

-- An operation that succeeds has passed its checks.
pub checked-ok :
    {A B : Type 0} (r : Result A) (run : A → Store → Result B × Store) (w w' : Store) (b : B)
    → checked r run w ≡ (ok b, w')
    → (a : A) × (r ≡ ok a) × (run a w ≡ (ok b, w'))
checked-ok (ok a) run w w' b h = (a, refl, h)
checked-ok (err e) run w w' b h = absurd (cc h)
