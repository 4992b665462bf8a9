-- ===== src/Keys.antt =====
-- sign/sign_api_keys.py: `issue`, `resolve` and `revoke`, over the password
-- hashes of sign/sign_accounts.py (Password). The account of an id, a read of another table, is a
-- function.
pub mod Password
pub mod Resolved
use Prim.Native.Nat.{ℕ}
use lifted_sign.Base.{
  ◌+◌, String, Bool, true, false, not, ◌&&◌, Option, none, some, List, [], ◌∷◌, ◌++◌, map, ◌==◌,
  ltb, coalesce, if◌then◌else◌, select, update_where, count_where, sort_by,
}
use lifted_sign.Base.Text.{str_eq, is_blank, or_text, clip, ◌+s◌}
use lifted_sign.Store.{Bytes}
use lifted_sign.Keys.Password.{Kdf, hash_password, verify_password}

pub record ApiKey : Type 0 where
  pub id : ℕ
  pub account_id : ℕ
  pub label : String
  pub key_prefix : String
  pub key_hash : String
  pub mode : String
  pub created_at : ℕ
  pub last_used_at : Option ℕ
  pub revoked_at : Option ℕ

pub record ApiKeys : Type 0 where
  pub rows : List ApiKey
  pub next_id : ℕ

pub record Account : Type 0 where
  pub id : ℕ
  pub status : String

abbrev pub prefix_len : ℕ
prefix_len = 14

abbrev pub mode_of : String → String
mode_of m = if str_eq m "test" then "test" else "live"

-- `issue`, of a fresh token and salt: the raw key, which is not stored.
unfoldable pub issue :
    Kdf
    → ℕ
    → (token : String) (salt : Bytes) (account_id : ℕ) (label mode : String) → ApiKeys
    → String × ApiKeys
unfolding clip hash_password
issue k now token salt account_id label mode t =
    let raw = "sk_" +s (mode_of mode +s ("_" +s token)) in
    (
      raw,
      record t {
        rows =
            t.rows
            ++ record {
              id = t.next_id;
              account_id = account_id;
              label = clip 80 label;
              key_prefix = clip prefix_len raw;
              key_hash = hash_password k salt raw;
              mode = mode_of mode;
              created_at = now;
              last_used_at = none;
              revoked_at = none;
            }
              ∷ [];
        next_id = t.next_id + 1;
      },
    )

abbrev pub is_unrevoked : ApiKey → Bool
is_unrevoked r = elim r.revoked_at [ none ↦ true | some _ ↦ false ]

-- `key_prefix=? AND revoked_at IS NULL`
abbrev pub has_prefix : String → ApiKey → Bool
has_prefix p r = str_eq r.key_prefix p && is_unrevoked r

abbrev pub is_active : Account → Bool
is_active a = str_eq (or_text a.status "active") "active"

abbrev pub used : ℕ → ApiKey → ApiKey
used now r = record r { last_used_at = some now }

abbrev pub account_of : ℕ → ApiKey → Option Account → ApiKeys → Option Account × ApiKeys
account_of now r none t = (none, t)
account_of now r (some a) t =
    if is_active a
    then (some a, record t { rows = update_where (λ x. x.id == r.id) (used now) t.rows })
    else (none, t)

-- The loop over the rows of the prefix.
unfoldable pub resolve_rows :
    Kdf → (ℕ → Option Account) → ℕ → String → List ApiKey → ApiKeys → Option Account × ApiKeys
unfolding verify_password
resolve_rows k accounts now bearer [] t = (none, t)
resolve_rows k accounts now bearer (r ∷ rest) t =
    let later = resolve_rows k accounts now bearer rest t in
    if verify_password k bearer r.key_hash
    then account_of now r (accounts r.account_id) t
    else later

-- `bearer.startswith("sk_")`, which a blank bearer fails as well.
abbrev pub is_key : String → Bool
is_key b = str_eq (clip 3 b) "sk_"

unfoldable pub resolve :
    Kdf → (ℕ → Option Account) → ℕ → String → ApiKeys → Option Account × ApiKeys
unfolding resolve_rows clip
resolve k accounts now bearer t =
    if is_key bearer
    then resolve_rows k accounts now bearer (select (has_prefix (clip prefix_len bearer)) t.rows) t
    else (none, t)

-- `id=? AND account_id=? AND revoked_at IS NULL`
abbrev pub is_own_key : ℕ → ℕ → ApiKey → Bool
is_own_key key_id account_id r =
    (r.id == key_id) && ((r.account_id == account_id) && is_unrevoked r)

abbrev pub revoked : ℕ → ApiKey → ApiKey
revoked now r = record r { revoked_at = some now }

unfoldable pub revoke : ℕ → (key_id account_id : ℕ) → ApiKeys → Bool × ApiKeys
revoke now key_id account_id t = (
  ltb 0 (count_where (is_own_key key_id account_id) t.rows),
  record t { rows = update_where (is_own_key key_id account_id) (revoked now) t.rows },
)
