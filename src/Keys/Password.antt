-- ===== src/Keys/Password.antt =====
-- sign/sign_accounts.py, the password hashes: `hash_password` and `verify_password`. Base64, PBKDF2
-- and `int()` are the parameter `Kdf`.
use lifted_sign.Base.{
  ℕ, zero, suc, String, Bool, true, false, Option, none, some, [], ◌∷◌, ◌≡◌, refl, ap, ◌∙◌, ◌==◌,
  ==-refl, if◌then◌else◌,
}
use lifted_sign.Base.Text.{str_eq, ◌+s◌}
use lifted_sign.Base.Cut.{split_once, free_of, split_once-append}
use lifted_sign.Store.{Bytes}
use Prim.Native.String.{char_at}

pub record Kdf : Type 0 where
  pub encode : Bytes → String
  -- `none` is an exception
  pub decode : String → Option Bytes
  pub parse : String → Option ℕ
  pub pbkdf2 : String → Bytes → ℕ → Bytes

abbrev pub pw_iters : ℕ
pw_iters = 200000

-- `salt$digest`, `iterations$salt$digest` and the whole record.
abbrev pub tail_of : Kdf → Bytes → Bytes → String
tail_of k salt digest = k.encode salt +s ("$" +s k.encode digest)

unfoldable pub hash_password : Kdf → Bytes → String → String
hash_password k salt pw =
    "pbkdf2" +s ("$" +s ("200000" +s ("$" +s tail_of k salt (k.pbkdf2 pw salt pw_iters))))

abbrev pub eq_bytes : Bytes → Bytes → Bool
eq_bytes [] [] = true
eq_bytes (x ∷ xs) (y ∷ ys) = let rest = eq_bytes xs ys in if x == y then rest else false
eq_bytes _ _ = false

abbrev pub zeros : ℕ → Bytes
zeros zero = []
zeros (suc n) = 0 ∷ zeros n

-- The parts of a record that can be read; the dummy's otherwise.
abbrev pub compare_parts : Kdf → String → Option ℕ → Option Bytes → Option Bytes → Bool
compare_parts k pw (some n) (some salt) (some digest) = eq_bytes (k.pbkdf2 pw salt n) digest
compare_parts k pw _ _ _ = eq_bytes (k.pbkdf2 pw (zeros 16) pw_iters) (zeros 32)

abbrev pub compare_last : Kdf → String → Option ℕ → Option (String × String) → Bool
compare_last k pw n none = compare_parts k pw none none none
compare_last k pw n (some (salt, digest)) = compare_parts k pw n (k.decode salt) (k.decode digest)

unfoldable pub compare_rest : Kdf → String → Option (String × String) → Bool
unfolding split_once
compare_rest k pw none = compare_parts k pw none none none
compare_rest k pw (some (iters, rest)) = compare_last k pw (k.parse iters) (split_once b'$' rest)

abbrev pub compare_record : Kdf → String → Option (String × String) → Bool
compare_record k pw none = false
compare_record k pw (some (kind, rest)) =
    if str_eq kind "pbkdf2" then compare_rest k pw (split_once b'$' rest) else false

-- A record that is not PBKDF2's never authenticates.
unfoldable pub verify_password : Kdf → String → String → Bool
unfolding compare_rest split_once
verify_password k pw stored = compare_record k pw (split_once b'$' stored)

-- Base64 has no `$` and is decoded as it was, and `int()` reads the number of iterations.
pub record IsKdf (k : Kdf) : Type 0 where
  pub decodes : (b : Bytes) → k.decode (k.encode b) ≡ some b
  pub dollarless : (b : Bytes) → free_of b'$' (k.encode b) ≡ true
  pub parses : k.parse "200000" ≡ some 200000

eq_bytes_refl : (b : Bytes) → eq_bytes b b ≡ true
eq_bytes_refl [] = refl
eq_bytes_refl (x ∷ b) = rw (==-refl x) (eq_bytes_refl b)

pub verify-hash :
    (k : Kdf) (salt : Bytes) (pw : String)
    → IsKdf k
    → verify_password k pw (hash_password k salt pw) ≡ true
unfolding verify_password hash_password compare_rest free_of
verify-hash k salt pw i =
    let digest : Bytes = k.pbkdf2 pw salt pw_iters in
    let d = char_at "$" 0 in
    ap (compare_record k pw)
      (split_once-append d "pbkdf2" ("200000" +s ("$" +s tail_of k salt digest)) refl)
    ∙ ap (compare_rest k pw) (split_once-append d "200000" (tail_of k salt digest) refl)
    ∙ ap (compare_last k pw (k.parse "200000"))
        (split_once-append d (k.encode salt) (k.encode digest) (i.dollarless salt))
    ∙ ap (λ n. compare_parts k pw n (k.decode (k.encode salt)) (k.decode (k.encode digest)))
        i.parses
    ∙ ap (λ s. compare_parts k pw (some pw_iters) s (k.decode (k.encode digest))) (i.decodes salt)
    ∙ ap (compare_parts k pw (some pw_iters) (some salt)) (i.decodes digest)
    ∙ eq_bytes_refl digest
