-- ===== src/Examples/Limits.antt =====
-- The theorems on repeated submissions, downloads and limiters at concrete inputs.
use lifted_sign.Base.{
  ◌+◌, ◌≤◌, ℕ, true, false, ◌&&◌, some, [], ◌∷◌, ◌≡◌, refl, arith, leb, ltb, find, List, length,
}
use lifted_sign.Store.{ok}
use lifted_sign.Store.Reads.{signers_of, read_file, signer_by_token}
use lifted_sign.Esign.Download.{signer_download}
use lifted_sign.Esign.Download.Once.{signer_download-repeats}
use lifted_sign.Limits.{auth_limit_locked, auth_limit_record, has_key, has_rate_key, Rate}
use lifted_sign.Limits.Window.{
  fails_of, auth_limit_record-locks, auth_limit_record-keeps, allowed, at_most, allowed-eq-at_most,
}
use lifted_sign.Esign.Submit.{submit_signature}
use lifted_sign.Esign.Submit.Again.{submit_signature-again}
use lifted_sign.Examples.{request, desk, ann_signed, world, done_desk, four_failures, locked_login}

bob-downloads : (signer_download (world 600) "token-b" done_desk).0 ≡ ok (1 ∷ 7 ∷ [])
unfolding signer_download find signers_of read_file
bob-downloads = refl

signer_download-repeats_example :
    signer_download (world 700) "token-b" (signer_download (world 600) "token-b" done_desk).1
    ≡ (ok (1 ∷ 7 ∷ []), (signer_download (world 600) "token-b" done_desk).1)
signer_download-repeats_example =
    signer_download-repeats (world 600) (world 700) "token-b" done_desk (1 ∷ 7 ∷ []) bob-downloads

login-unlocked : auth_limit_locked 100 "login" four_failures ≡ false
unfolding auth_limit_locked find
login-unlocked = refl

auth_limit_record-locks_example :
    auth_limit_locked 400 "login" (auth_limit_record 100 "login" false 5 600 four_failures)
    ≡ (leb 5 (fails_of (find (has_key "login") four_failures) + 1) && ltb 400 (100 + 600))
auth_limit_record-locks_example =
    auth_limit_record-locks 100 400 5 600 "login" four_failures login-unlocked

login-locked : auth_limit_locked 100 "login" locked_login ≡ true
unfolding auth_limit_locked find
login-locked = refl

auth_limit_record-keeps_example :
    auth_limit_locked 950 "login" (auth_limit_record 100 "login" false 5 600 locked_login)
    ≡ auth_limit_locked 950 "login" locked_login
auth_limit_record-keeps_example =
    auth_limit_record-keeps 100 950 5 600 "login" locked_login login-locked

-- A window from 10 to 70 that has had its two requests.
abbrev spent : List Rate
spent = record { key = "ip"; count = 2; window_start = 10 } ∷ []

spent-over : (r : Rate) → find (has_rate_key "ip") spent ≡ some r → r.window_start + 60 ≤ 100
unfolding find
spent-over r h = ground arith

allowed-eq-at_most_example :
    allowed "ip" 2 60 (100 ∷ 110 ∷ 120 ∷ 130 ∷ []) spent
    ≡ at_most 2 (length {A = ℕ} (100 ∷ 110 ∷ 120 ∷ 130 ∷ []))
allowed-eq-at_most_example =
    allowed-eq-at_most "ip" 2 60 100 (110 ∷ 120 ∷ 130 ∷ []) spent spent-over
      (omega arith, (omega arith, (omega arith, tt)))

ann-holds : signer_by_token "token-a" desk ≡ some ann_signed
unfolding signer_by_token find
ann-holds = refl

submit_signature-again_example :
    (submit_signature (world 300) (request "token-a" []) desk).1.signers ≡ desk.signers
submit_signature-again_example =
    submit_signature-again (world 300) (request "token-a" []) desk ann_signed ann-holds refl
