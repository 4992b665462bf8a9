-- ===== src/Esign/Download/Once.antt =====
-- Repeated calls of `signer_download` in sign/esign.py.
use lifted_sign.Base.{
  ℕ, String, Bool, true, false, some, ◌≡◌, refl, ==-refl, any, if◌then◌else◌, Bool-cases, inl, inr,
}
use lifted_sign.Base.RowLaws.{any-append}
use lifted_sign.Store.{Store, Env, Signer, EventType, Bytes, Result, ok, err, checked, event}
use lifted_sign.Store.Reads.{get_agreement, signer_by_token, read_file, signers_of, fields_of}
use lifted_sign.Esign.Download.{
  delivered_to, log_delivery, download_checks, hand_out, signer_download,
}

logged-delivery :
    (env : Env) (aid sid : ℕ) (d : String) (w : Store)
    → any (delivered_to aid sid) (log_delivery env aid sid d w).events ≡ true
unfolding log_delivery event any
logged-delivery env aid sid d w = elim (Bool-cases (any (delivered_to aid sid) w.events)) [
  | inl e ↦ rw e e
  | inr e ↦
      rw (e, any-append (delivered_to aid sid) w.events) (rw (e, ==-refl aid, ==-refl sid) refl)
]

log_delivery-again :
    (env env' : Env) (aid sid : ℕ) (d : String) (w : Store)
    → log_delivery env' aid sid d (log_delivery env aid sid d w) ≡ log_delivery env aid sid d w
unfolding log_delivery
log_delivery-again env env' aid sid d w = rw (logged-delivery env aid sid d w) refl

checks-event :
    (env : Env) (aid sid : ℕ) (d token : String) (w : Store)
    → download_checks token (event env aid EventType.completed_copy_delivered (some sid) "" "" d w)
      ≡ download_checks token w
unfolding event download_checks signer_by_token get_agreement signers_of fields_of read_file
checks-event env aid sid d token w = refl

checks-if :
    (b : Bool) (token : String) (u w : Store)
    → download_checks token u ≡ download_checks token w
    → download_checks token (if b then w else u) ≡ download_checks token w
checks-if true token u w h = refl
checks-if false token u w h = h

checks-delivery :
    (env : Env) (aid sid : ℕ) (d token : String) (w : Store)
    → download_checks token (log_delivery env aid sid d w) ≡ download_checks token w
unfolding log_delivery
checks-delivery env aid sid d token w =
    checks-if (any (delivered_to aid sid) w.events) token _ w (checks-event env aid sid d token w)

-- A signer's download that succeeded can be repeated at any time: it returns the same bytes and
-- changes nothing, so the delivery is logged once.
pub signer_download-repeats :
    (env env' : Env) (token : String) (w : Store) (b : Bytes)
    → (signer_download env token w).0 ≡ ok b
    → signer_download env' token (signer_download env token w).1
      ≡ (ok b, (signer_download env token w).1)
unfolding signer_download
signer_download-repeats env env' token w b h = go (download_checks token w) refl h
  where
    go :
        (r : Result (Signer × Bytes))
        → download_checks token w ≡ r
        → (checked r (hand_out env) w).0 ≡ ok b
        → checked
            (download_checks token (checked r (hand_out env) w).1)
            (hand_out env')
            (checked r (hand_out env) w).1
          ≡ (ok b, (checked r (hand_out env) w).1)
    go (err e) found k = absurd (cc k)
    go (ok (s, c)) found k =
        let same : c ≡ b = cc k in
        rw
          (
            checks-delivery env s.agreement_id s.id "signer download" token w,
            found,
            log_delivery-again env env' s.agreement_id s.id "signer download" w,
            same,
          )
          refl
