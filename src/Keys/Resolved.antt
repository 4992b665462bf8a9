-- ===== src/Keys/Resolved.antt =====
-- An API key of sign/sign_api_keys.py, from `issue` to `revoke`.
use Prim.Native.String.append
use lifted_sign.Base.{
  ℕ, suc, ◌+◌, String, Bool, true, false, ◌&&◌, Option, none, some, List, [], ◌∷◌, ◌++◌, ◌≡◌, refl,
  ap, ◌∙◌, arith, ◌==◌, ==_iff, Bool-cases, inl, inr, any, All, select, update_where,
}
use lifted_sign.Base.Text.{str_eq, eq_refl, clip, ◌+s◌}
use lifted_sign.Store.{Bytes}
use lifted_sign.Keys.Password.{Kdf, IsKdf, hash_password, verify_password, verify-hash}
use lifted_sign.Keys.{
  ApiKey, ApiKeys, Account, prefix_len, mode_of, issue, is_unrevoked, has_prefix, is_active,
  account_of, resolve_rows, is_key, resolve, is_own_key, revoked, revoke,
}

-- Whether a row is the key of this bearer.
abbrev pub opens : Kdf → String → ApiKey → Bool
opens k bearer r = verify_password k bearer r.key_hash

size : String → ℕ
size String.[] = 0
size (String.◌∷◌ _ s) = suc (size s)

clip_size : (s t : String) → clip (size s) (s +s t) ≡ s
unfolding clip size
clip_size String.[] t = refl
clip_size (String.◌∷◌ c s) t =
    ap (clip (suc (size s))) (append.cons c s t) ∙ ap (λ r. String.◌∷◌ c r) (clip_size s t)

select-last :
    (p : ApiKey → Bool) (l : List ApiKey) (r : ApiKey)
    → p r ≡ true
    → select p (l ++ r ∷ []) ≡ select p l ++ r ∷ []
unfolding select
select-last p [] r h = rw h refl
select-last p (x ∷ l) r h = elim (Bool-cases (p x)) [
  | inl e ↦ rw (e, select-last p l r h) refl
  | inr e ↦ rw (e, select-last p l r h) refl
]

resolve_rows-last :
    (k : Kdf) (accounts : ℕ → Option Account) (now : ℕ) (bearer : String) (l : List ApiKey)
    (r : ApiKey) (t : ApiKeys)
    → any (opens k bearer) l ≡ false
    → opens k bearer r ≡ true
    → resolve_rows k accounts now bearer (l ++ r ∷ []) t
      ≡ account_of now r (accounts r.account_id) t
unfolding resolve_rows any
resolve_rows-last k accounts now bearer [] r t none_before h = rw h refl
resolve_rows-last k accounts now bearer (x ∷ l) r t none_before h =
    let here : opens k bearer x ≡ false = ground arith in
    rw here (resolve_rows-last k accounts now bearer l r t (ground arith) h)

account_active :
    (now : ℕ) (r : ApiKey) (o : Option Account) (a : Account) (t : ApiKeys)
    → o ≡ some a
    → is_active a ≡ true
    → (account_of now r o t).0 ≡ some a
account_active now r o a t h on = ap (λ x. (account_of now r x t).0) h ∙ rw on refl

-- A key that was issued for an active account resolves to that account, unless an older row of the
-- same prefix has a hash that the key opens too.
pub resolve-issue :
    (k : Kdf) (accounts : ℕ → Option Account) (now later : ℕ) (token : String) (salt : Bytes)
    (aid : ℕ) (label mode : String) (t : ApiKeys) (a : Account)
    → IsKdf k
    → accounts aid ≡ some a
    → is_active a ≡ true
    → any
        (opens k (issue k now token salt aid label mode t).0)
        (select (has_prefix (clip prefix_len (issue k now token salt aid label mode t).0)) t.rows)
      ≡ false
    → (resolve k accounts later
        (issue k now token salt aid label mode t).0
        (issue k now token salt aid label mode t).1).0
      ≡ some a
unfolding resolve issue size
resolve-issue k accounts now later token salt aid label mode t a i found on alone =
    let raw : String = "sk_" +s (mode_of mode +s ("_" +s token)) in
    let row : ApiKey = record {
      id = t.next_id;
      account_id = aid;
      label = clip 80 label;
      key_prefix = clip prefix_len raw;
      key_hash = hash_password k salt raw;
      mode = mode_of mode;
      created_at = now;
      last_used_at = none;
      revoked_at = none;
    } in
    let table : ApiKeys = record t { rows = t.rows ++ row ∷ []; next_id = t.next_id + 1 } in
    let keyed : is_key raw ≡ true =
      ap (λ s. str_eq s "sk_") (clip_size "sk_" (mode_of mode +s ("_" +s token))) in
    let mine : has_prefix (clip prefix_len raw) row ≡ true =
      rw (eq_refl (clip prefix_len raw)) refl in
    rw keyed (
      ap (λ l. (resolve_rows k accounts later raw l table).0)
        (select-last (has_prefix (clip prefix_len raw)) t.rows row mine)
      ∙ ap (λ p. p.0)
          (resolve_rows-last k accounts later raw (select (has_prefix (clip prefix_len raw)) t.rows)
            row table alone (verify-hash k salt raw i))
      ∙ account_active later row (accounts aid) a table found on)

-- A row that is left after a revocation does not open.
left_shut :
    (k : Kdf) (now : ℕ) (bearer p : String) (key_id aid : ℕ) (l : List ApiKey)
    → All (λ r. opens k bearer r ≡ true → (r.id ≡ key_id) × (r.account_id ≡ aid)) l
    → any
        (opens k bearer)
        (select (has_prefix p) (update_where (is_own_key key_id aid) (revoked now) l))
      ≡ false
unfolding any select update_where
left_shut k now bearer p key_id aid [] only = refl
left_shut k now bearer p key_id aid (r ∷ l) only = elim (Bool-cases (is_own_key key_id aid r)) [
  | inl e ↦ elim (Bool-cases (str_eq r.key_prefix p)) [
    | inl q ↦ rw (e, q) (left_shut k now bearer p key_id aid l only.1)
    | inr q ↦ rw (e, q) (left_shut k now bearer p key_id aid l only.1)
  ]
  | inr e ↦ elim (Bool-cases (has_prefix p r)) [
    | inr q ↦ rw (e, q) (left_shut k now bearer p key_id aid l only.1)
    | inl q ↦ elim (Bool-cases (opens k bearer r)) [
      | inr s ↦ rw (e, q, s) (left_shut k now bearer p key_id aid l only.1)
      | inl s ↦
          let same = only.0 s in
          let id_here : (r.id == key_id) ≡ true = (==_iff r.id key_id).1 same.0 in
          let owner_here : (r.account_id == aid) ≡ true = (==_iff r.account_id aid).1 same.1 in
          absurd (
            cc (
              own_of (r.id == key_id) (r.account_id == aid) (str_eq r.key_prefix p) (is_unrevoked r)
                  id_here owner_here q,
              e,
            ))
    ]
  ]
]
  where
    own_of : (a b c d : Bool) → a ≡ true → b ≡ true → (c && d) ≡ true → (a && (b && d)) ≡ true
    own_of true true true d h i j = j
    own_of true true false d h i j = cc j
    own_of true false c d h i j = cc i
    own_of false b c d h i j = cc h

resolve_rows-none :
    (k : Kdf) (accounts : ℕ → Option Account) (now : ℕ) (bearer : String) (l : List ApiKey)
    (t : ApiKeys)
    → any (opens k bearer) l ≡ false
    → resolve_rows k accounts now bearer l t ≡ (none, t)
unfolding resolve_rows any
resolve_rows-none k accounts now bearer [] t h = refl
resolve_rows-none k accounts now bearer (r ∷ l) t h =
    let here : opens k bearer r ≡ false = ground arith in
    rw here (resolve_rows-none k accounts now bearer l t (ground arith))

-- When the only rows that a bearer opens are the key that its account revokes, the bearer resolves
-- to nothing from then on, whatever the accounts are.
pub resolve-revoke :
    (k : Kdf) (accounts : ℕ → Option Account) (now later : ℕ) (bearer : String) (key_id aid : ℕ)
    (t : ApiKeys)
    → All (λ r. opens k bearer r ≡ true → (r.id ≡ key_id) × (r.account_id ≡ aid)) t.rows
    → resolve k accounts later bearer (revoke now key_id aid t).1
      ≡ (none, (revoke now key_id aid t).1)
unfolding resolve revoke
resolve-revoke k accounts now later bearer key_id aid t only =
    let table : ApiKeys = record t {
      rows = update_where (is_own_key key_id aid) (revoked now) t.rows;
    } in
    elim (Bool-cases (is_key bearer)) [
      | inr e ↦ rw e refl
      | inl e ↦ rw e (
          resolve_rows-none k accounts later bearer
            (select (has_prefix (clip prefix_len bearer)) table.rows) table
            (left_shut k now bearer (clip prefix_len bearer) key_id aid t.rows only))
    ]
