-- ===== src/Examples/Keys.antt =====
-- A hash, an account and its API keys, and the theorems on keys at them.
use Prim.Native.Char.{code}
use lifted_sign.Base.{
  ap, ◌∙◌, ℕ, zero, suc, String, true, false, Option, none, some, [], ◌∷◌, ◌++◌, ◌≡◌, refl, any,
  All, select, ◌==◌, if◌then◌else◌,
}
use lifted_sign.Base.Text.{clip, str_eq}
use lifted_sign.Base.Cut.{free_of}
use lifted_sign.Store.{Bytes}
use lifted_sign.Keys.Password.{Kdf, IsKdf}
use lifted_sign.Keys.{ApiKeys, Account, has_prefix, prefix_len, issue, resolve, revoke}
use lifted_sign.Keys.Resolved.{opens, resolve-issue, resolve-revoke}

-- Bytes in unary.
abbrev write_byte : ℕ → String → String
write_byte zero s = String.◌∷◌ "a" s
write_byte (suc n) s = String.◌∷◌ "b" (write_byte n s)

abbrev write_bytes : Bytes → String
write_bytes [] = String.[]
write_bytes (n ∷ l) = write_byte n (write_bytes l)

abbrev more : Bytes → Bytes
more [] = []
more (n ∷ l) = suc n ∷ l

abbrev read_bytes : String → Bytes
read_bytes String.[] = []
read_bytes (String.◌∷◌ c s) =
    let rest = read_bytes s in if code c == b'a' then 0 ∷ rest else more rest

abbrev codes : String → Bytes
codes String.[] = []
codes (String.◌∷◌ c s) = code c ∷ codes s

abbrev kdf : Kdf
kdf = record {
  encode = write_bytes;
  decode = λ s. some (read_bytes s);
  parse = λ s. if str_eq s "200000" then some 200000 else none;
  pbkdf2 = λ pw salt n. codes pw ++ salt;
}

read-write_byte : (n : ℕ) (s : String) → read_bytes (write_byte n s) ≡ n ∷ read_bytes s
read-write_byte zero s = refl
read-write_byte (suc n) s = ap more (read-write_byte n s)

read-write_bytes : (l : Bytes) → read_bytes (write_bytes l) ≡ l
read-write_bytes [] = refl
read-write_bytes (n ∷ l) = read-write_byte n (write_bytes l) ∙ ap (λ t. n ∷ t) (read-write_bytes l)

free_of-write_byte : (n : ℕ) (s : String) → free_of b'$' (write_byte n s) ≡ free_of b'$' s
unfolding free_of
free_of-write_byte zero s = refl
free_of-write_byte (suc n) s = free_of-write_byte n s

free_of-write_bytes : (l : Bytes) → free_of b'$' (write_bytes l) ≡ true
unfolding free_of
free_of-write_bytes [] = refl
free_of-write_bytes (n ∷ l) = free_of-write_byte n (write_bytes l) ∙ free_of-write_bytes l

kdf-IsKdf : IsKdf kdf
kdf-IsKdf = record {
  decodes = λ b. ap some (read-write_bytes b);
  dollarless = free_of-write_bytes;
  parses = refl;
}

abbrev accounts : ℕ → Option Account
accounts i = if i == 5 then some (record { id = 5; status = "active" }) else none

abbrev no_keys : ApiKeys
no_keys = record { rows = []; next_id = 1 }

abbrev issued : String × ApiKeys
issued = issue kdf 100 "abc" (7 ∷ []) 5 "ci" "live" no_keys

alone :
    any (opens kdf issued.0) (select (has_prefix (clip prefix_len issued.0)) no_keys.rows) ≡ false
unfolding any select
alone = refl

resolve-issue_example :
    (resolve kdf accounts 200 issued.0 issued.1).0 ≡ some (record { id = 5; status = "active" })
resolve-issue_example =
    resolve-issue kdf accounts 100 200 "abc" (7 ∷ []) 5 "ci" "live" no_keys
      (record { id = 5; status = "active" }) kdf-IsKdf refl refl alone

only_issued : All (λ r. opens kdf issued.0 r ≡ true → (r.id ≡ 1) × (r.account_id ≡ 5)) issued.1.rows
unfolding issue
only_issued = ((λ _. (refl, refl)), tt)

resolve-revoke_example :
    resolve kdf accounts 300 issued.0 (revoke 200 1 5 issued.1).1
    ≡ (none, (revoke 200 1 5 issued.1).1)
resolve-revoke_example = resolve-revoke kdf accounts 200 300 issued.0 1 5 issued.1 only_issued
