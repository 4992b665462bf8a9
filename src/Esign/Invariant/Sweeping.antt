-- ===== src/Esign/Invariant/Sweeping.antt =====
-- The sweep of overdue envelopes keeps the invariant.
use lifted_sign.Base.{ℕ, none, List, [], ◌∷◌, refl, arith, select, leb, count_where}
use lifted_sign.Store.{Store, Env, Agreement, EventType}
use lifted_sign.Esign.Quiet.{Quiet-notify_expired}
use lifted_sign.Esign.Sweep.{sweep_expired, expire_all, expire_one, expire_row, out_with_id, due}
use lifted_sign.Esign.Invariant.{IsConsistent, Quiet-IsConsistent, agreements-IsConsistent}
use lifted_sign.Esign.Invariant.Rules.{event-IsConsistent, if-IsConsistent}

expire_one-IsConsistent :
    (env : Env) (aid : ℕ) (w : Store) → IsConsistent w → IsConsistent (expire_one env aid w).1
unfolding expire_one
expire_one-IsConsistent env aid w i =
    let flipped =
      agreements-IsConsistent (out_with_id aid) (expire_row env.now) (λ a. refl)
        (λ x a p h. ground arith) w i in
    if-IsConsistent (leb 1 (count_where (out_with_id aid) w.agreements)) _ _
      (λ _.
        event-IsConsistent env aid EventType.expired none "" ""
          "auto-expired: signing window elapsed" _ flipped)
      (λ _. flipped)

expire_all-IsConsistent :
    (env : Env) (rows : List Agreement) (w : Store)
    → IsConsistent w
    → IsConsistent (expire_all env rows w).1
unfolding expire_all
expire_all-IsConsistent env [] w i = i
expire_all-IsConsistent env (a ∷ rest) w i =
    expire_all-IsConsistent env rest _ (expire_one-IsConsistent env a.id w i)

pub sweep_expired-IsConsistent :
    (env : Env) (w : Store) → IsConsistent w → IsConsistent (sweep_expired env w).1
unfolding sweep_expired
sweep_expired-IsConsistent env w i =
    let rows = select (due env.now) w.agreements in
    Quiet-IsConsistent (Quiet-notify_expired env (expire_all env rows w).0 _)
      (expire_all-IsConsistent env rows w i)
