-- ===== src/Esign/Sweep/Bulk.antt =====
-- The loop of `sweep_expired` in sign/esign.py against a bulk update of the table.
use lifted_sign.Base.{
  ℕ, Bool, false, ◌&&◌, ◌||◌, List, [], ◌∷◌, ◌≡◌, refl, sym, ap, ◌∙◌, arith, ◌==◌, leb, any,
  Bool-cases, inl, inr, select, update_where, count_where,
}
use lifted_sign.Base.Keys.{update_where-update_where}
use lifted_sign.Base.Members.{All-map_weaken}
use lifted_sign.Base.Membership.{keyed, keyed-rows, update_where-All, any-select}
use lifted_sign.Store.{Store, Env, Agreement, event, is_out}
use lifted_sign.Esign.Sweep.{sweep_expired, expire_all, expire_one, expire_row, out_with_id, due}
use lifted_sign.Esign.Quiet.{Quiet-notify_expired}
use lifted_sign.Esign.Invariant.{IsConsistent, agreement_key}

abbrev named : List Agreement → Agreement → Bool
named l a = any (λ b. b.id == a.id) l && is_out a.status

agreements-expire_one :
    (env : Env) (aid : ℕ) (w : Store)
    → (expire_one env aid w).1.agreements
      ≡ update_where (out_with_id aid) (expire_row env.now) w.agreements
unfolding expire_one event
agreements-expire_one env aid w =
    elim (Bool-cases (leb 1 (count_where (out_with_id aid) w.agreements))) [
      | inl e ↦ rw e refl
      | inr e ↦ rw e refl
    ]

update_where-none :
    (f : Agreement → Agreement) (xs : List Agreement) → update_where (λ a. false) f xs ≡ xs
unfolding update_where
update_where-none f [] = refl
update_where-none f (x ∷ xs) = rw (update_where-none f xs) refl

update_where-same :
    (p q : Agreement → Bool) (f : Agreement → Agreement) (xs : List Agreement)
    → ((a : Agreement) → p a ≡ q a)
    → update_where p f xs ≡ update_where q f xs
unfolding update_where
update_where-same p q f [] h = refl
update_where-same p q f (x ∷ xs) h = rw (h x, update_where-same p q f xs h) refl

agreements-expire_all :
    (env : Env) (l : List Agreement) (w : Store)
    → (expire_all env l w).1.agreements ≡ update_where (named l) (expire_row env.now) w.agreements
unfolding expire_all any
agreements-expire_all env [] w = sym (update_where-none (expire_row env.now) w.agreements)
agreements-expire_all env (x ∷ rest) w =
    agreements-expire_all env rest (expire_one env x.id w).1
    ∙ ap (update_where (named rest) (expire_row env.now)) (agreements-expire_one env x.id w)
    ∙ update_where-update_where (out_with_id x.id) (named rest) (expire_row env.now)
        (λ a h. ground arith) w.agreements
    ∙ update_where-same (λ a. out_with_id x.id a || named rest a) (named (x ∷ rest))
        (expire_row env.now) w.agreements (λ a. ground arith)

-- In consistent tables, the sweep leaves the agreements as they were, with every row that was due
-- expired now and no other row changed.
pub sweep_expired-bulk :
    (env : Env) (w : Store)
    → IsConsistent w
    → (sweep_expired env w).1.agreements
      ≡ update_where (due env.now) (expire_row env.now) w.agreements
unfolding sweep_expired
sweep_expired-bulk env w i =
    (Quiet-notify_expired env (expire_all env (select (due env.now) w.agreements) w).0
      (expire_all env (select (due env.now) w.agreements) w).1).agreements
    ∙ agreements-expire_all env (select (due env.now) w.agreements) w
    ∙ update_where-All (named (select (due env.now) w.agreements)) (due env.now)
        (expire_row env.now) w.agreements
        (All-map_weaken (λ a. keyed agreement_key (due env.now) w.agreements a.id ≡ due env.now a)
          (λ a. named (select (due env.now) w.agreements) a ≡ due env.now a) w.agreements
          (λ a h. rw (any-select (λ b. b.id == a.id) (due env.now) w.agreements, h) (ground arith))
          (keyed-rows agreement_key (due env.now) w.agreements i.ids))
