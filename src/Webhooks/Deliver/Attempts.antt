-- ===== src/Webhooks/Deliver/Attempts.antt =====
-- The loop of `_deliver_sync` in sign/webhooks.py against the answers that the receiver gives.
use mathlib.Core.Path.{subst}
use lifted_sign.Base.{
  ℕ, zero, suc, ◌+◌, ◌-◌, ◌<◌, ◌≤◌, String, Bool, true, false, List, [], ◌∷◌, ◌++◌, map, ◌≡◌, refl,
  sym, ap, ◌∙◌, arith, ◌⊎◌, inl, inr, leb, ltb, Bool-cases, if◌then◌else◌,
}
use lifted_sign.Pdf.{range_from}
use lifted_sign.Webhooks.Host.{Net}
use lifted_sign.Webhooks.Events.{Outcome}
use lifted_sign.Webhooks.Tables.{Subscription, Hooks, mark_result}
use lifted_sign.Webhooks.Deliver.{
  Response, Receiver, Run, Next, backoff, begin_attempt, pause_before_next, after_post,
  attempt_from, go_on, at_least_one, untried, check_receiver, deliver_sync,
}
use lifted_sign.Webhooks.Deliver.Tried.{
  is_ok, is_crash, is_failure, numbers, Tried, tried, append-nil, mark_result-numbers,
}

-- A delivery's attempts, from the number `n` on with `left` of them allowed.
pub record IsRun (r : Receiver) (n left : ℕ) (run out : Run) : Type 0 where
  pub from : n ≤ out.result.attempts
  pub within : out.result.attempts < n + left
  -- every earlier attempt failed
  pub earlier : (m : ℕ) → n ≤ m → m < out.result.attempts → is_failure (r.post m) ≡ true
  -- the last one decides, and a failure is the last one only when none is left
  pub ok : out.result.ok ≡ is_ok (r.post out.result.attempts)
  pub ended : is_failure (r.post out.result.attempts) ≡ true → suc out.result.attempts ≡ n + left
  -- the log has a row for each attempt, except for one that crashed
  pub log :
      numbers out.hooks
      ≡ numbers run.hooks
        ++ range_from n
            (out.result.attempts - n + (if is_crash (r.post out.result.attempts) then 0 else 1))
  -- between two attempts there is one pause
  pub pauses : out.pauses ≡ run.pauses ++ map backoff (range_from n (out.result.attempts - n))

at_end :
    (r : Receiver) (n left : ℕ) (run out : Run)
    → Tried n (r.post n) run out
    → (is_failure (r.post n) ≡ true → left ≡ 0)
    → IsRun r n (suc left) run out
unfolding range_from
at_end r n left run out t last =
    let same : n ≡ out.result.attempts = sym t.attempts in
    let none_left : out.result.attempts - n ≡ 0 = omega (arith, same) in
    record {
      from = omega (arith, same);
      within = omega (arith, same);
      earlier = λ m a b. absurd (omega (arith, same, a, b));
      ok = t.ok ∙ ap (λ i. is_ok (r.post i)) same;
      ended = λ f.
          let z : left ≡ 0 = last (ap (λ i. is_failure (r.post i)) same ∙ f) in
          omega (arith, same, z);
      log =
          t.log
          ∙ ap (λ i. numbers run.hooks ++ range_from n (if is_crash (r.post i) then 0 else 1)) same
          ∙ ap (λ k. numbers run.hooks ++ range_from n k) (omega (arith, none_left));
      pauses =
          t.pauses
          ∙ sym (append-nil run.pauses)
          ∙ ap (λ k. run.pauses ++ map backoff (range_from n k)) (sym none_left);
    }

append_assoc : {A : Type 0} (l m k : List A) → (l ++ m) ++ k ≡ l ++ (m ++ k)
append_assoc [] m k = refl
append_assoc (x ∷ l) m k = ap (λ t. x ∷ t) (append_assoc l m k)

-- A failed attempt, the pause, and the rest of the run.
later_end :
    (r : Receiver) (attempts n left : ℕ) (run next out : Run)
    → n < attempts
    → is_failure (r.post n) ≡ true
    → Tried n (r.post n) run next
    → IsRun r (suc n) (suc left) (pause_before_next attempts n next) out
    → IsRun r n (suc (suc left)) run out
unfolding range_from
later_end r attempts n left run next out more failed t rest =
    let N : ℕ = out.result.attempts in
    let b : ℕ = if is_crash (r.post out.result.attempts) then 0 else 1 in
    let away : N - n ≡ suc (N - suc n) = omega (arith, rest.from) in
    let count : suc (N - suc n + b) ≡ N - n + b = omega (arith, away) in
    let kept : is_crash (r.post n) ≡ false = no_crash (r.post n) failed in
    record {
      from = omega (arith, rest.from);
      within = omega (arith, rest.within);
      earlier = λ m a c. elim (Bool-cases (leb (suc n) m)) [
        | inl e ↦ rest.earlier m (ground arith) c
        | inr e ↦
            let same : n ≡ m = ground arith in ap (λ i. is_failure (r.post i)) (sym same) ∙ failed
      ];
      ok = rest.ok;
      ended = λ f. let z = rest.ended f in omega (arith, z);
      log =
          rest.log
          ∙ ap (λ l. l ++ range_from (suc n) (N - suc n + b)) (logs (ltb n attempts))
          ∙ ap (λ l. l ++ range_from (suc n) (N - suc n + b))
              (t.log ∙ ap (λ c. numbers run.hooks ++ range_from n (if c then 0 else 1)) kept)
          ∙ append_assoc (numbers run.hooks) (n ∷ []) (range_from (suc n) (N - suc n + b))
          ∙ ap (λ k. numbers run.hooks ++ range_from n k) count;
      pauses =
          rest.pauses
          ∙ ap (λ l. l ++ map backoff (range_from (suc n) (N - suc n)))
              (paused ∙ ap (λ l. l ++ backoff n ∷ []) t.pauses)
          ∙ append_assoc run.pauses (backoff n ∷ []) (map backoff (range_from (suc n) (N - suc n)))
          ∙ ap (λ k. run.pauses ++ map backoff (range_from n k)) (sym away);
    }
  where
    no_crash : (resp : Response) → is_failure resp ≡ true → is_crash resp ≡ false
    no_crash (Response.answer c) h = refl
    no_crash (Response.http_error e) h = refl
    no_crash (Response.crash e) h = absurd (cc h)

    logs :
        (c : Bool)
        → numbers (if c then record next { pauses = next.pauses ++ backoff n ∷ [] } else next).hooks
          ≡ numbers next.hooks
    logs true = refl
    logs false = refl

    paused : (pause_before_next attempts n next).pauses ≡ next.pauses ++ backoff n ∷ []
    paused = let e : ltb n attempts ≡ true = ground (arith, more) in rw e refl

failed_not_ok : (resp : Response) → is_failure resp ≡ true → is_ok resp ≡ false
failed_not_ok (Response.answer c) h = ground arith
failed_not_ok (Response.http_error e) h = refl
failed_not_ok (Response.crash e) h = refl

module _ (r : Receiver) (now : ℕ) (sub : Subscription) (event : String) (attempts n : ℕ)
    (run : Run) where
  abbrev rest_of : ℕ → Run → Run
  rest_of left next =
      attempt_from r now sub event attempts left (suc n) (pause_before_next attempts n next)

  abbrev Split : Type 0
  Split =
      ((next : Run) × (after_post r now sub event n (r.post n) (begin_attempt n run)
          ≡ Next.again next)
        × (is_failure (r.post n) ≡ true)
        × Tried n (r.post n) run next)
      ⊎ ((out : Run) × (after_post r now sub event n (r.post n) (begin_attempt n run)
            ≡ Next.stop out)
          × (is_failure (r.post n) ≡ false)
          × Tried n (r.post n) run out)

  only_attempt :
      attempts ≤ n
      → Split
      → IsRun r n 1 run
          (go_on (after_post r now sub event n (r.post n) (begin_attempt n run)) (rest_of 0))
  unfolding attempt_from
  only_attempt size (inr (out, stops, over, t)) =
      subst (λ o. IsRun r n 1 run (go_on o (rest_of 0))) (sym stops)
        (at_end r n 0 run out t (λ _. refl))
  only_attempt size (inl (next, goes, failed, t)) =
      subst (λ o. IsRun r n 1 run (go_on o (rest_of 0))) (sym goes)
        (at_end r n 0 run (rest_of 0 next) finished (λ _. refl))
    where
      over : ltb n attempts ≡ false
      over = ground (arith, size)

      quiet : pause_before_next attempts n next ≡ next
      quiet = rw over refl

      finish : Run → Run
      finish q = record q { hooks = mark_result now sub.id false q.last_status q.hooks }

      marked : Tried n (r.post n) run (finish next)
      marked = record {
        attempts = t.attempts;
        ok = t.ok;
        log = mark_result-numbers now sub.id false next.last_status next.hooks ∙ t.log;
        pauses = t.pauses;
      }

      finished : Tried n (r.post n) run (rest_of 0 next)
      finished = subst (λ q. Tried n (r.post n) run (finish q)) (sym quiet) marked

  some_attempt :
      (left : ℕ)
      → n + suc left ≡ attempts
      → ((next : Run)
          → next.result.ok ≡ false
          → IsRun r
              (suc n)
              (suc left)
              next
              (attempt_from r now sub event attempts (suc left) (suc n) next))
      → Split
      → IsRun r n (suc (suc left)) run (
          go_on
            (after_post r now sub event n (r.post n) (begin_attempt n run))
            (rest_of (suc left)))
  some_attempt left size ih (inr (out, stops, over, t)) =
      subst (λ o. IsRun r n (suc (suc left)) run (go_on o (rest_of (suc left)))) (sym stops)
        (at_end r n (suc left) run out t (λ f. absurd (cc (f, over))))
  some_attempt left size ih (inl (next, goes, failed, t)) =
      subst (λ o. IsRun r n (suc (suc left)) run (go_on o (rest_of (suc left)))) (sym goes)
        (later_end r attempts n left run next (rest_of (suc left) next) (omega (arith, size)) failed
          t
          (ih (pause_before_next attempts n next)
            (kept (ltb n attempts) ∙ t.ok ∙ failed_not_ok (r.post n) failed)))
    where
      kept :
          (c : Bool)
          → (if c then record next { pauses = next.pauses ++ backoff n ∷ [] } else next).result.ok
            ≡ next.result.ok
      kept true = refl
      kept false = refl

IsRun-from :
    (r : Receiver) (now : ℕ) (sub : Subscription) (event : String) (attempts left n : ℕ) (run : Run)
    → (0 < left → n + left ≡ attempts)
    → attempts ≤ n + left
    → run.result.ok ≡ false
    → IsRun r n (suc left) run (attempt_from r now sub event attempts (suc left) n run)
unfolding attempt_from
IsRun-from r now sub event attempts zero n run size most fresh =
    only_attempt r now sub event attempts n run (omega (arith, most))
      (tried r now sub event n (r.post n) run fresh)
IsRun-from r now sub event attempts (suc left) n run size most fresh =
    some_attempt r now sub event attempts n run left (size (omega arith))
      (λ next h.
        IsRun-from r now sub event attempts left (suc n) next
          (λ _. let e = size (omega arith) in omega (arith, e)) (omega (arith, most)) h)
      (tried r now sub event n (r.post n) run fresh)

-- A delivery to a receiver whose address passes the check ends: it makes at least one attempt and
-- at most as many as it may; each attempt before its last one failed; it succeeds exactly if the
-- last one was answered by a status of 2xx; if that failed too, every attempt was used; the log
-- has the attempts in order, less one that raised; and there is a backoff between any two.
pub deliver_sync-IsRun :
    (net : Net) (r : Receiver) (now : ℕ) (sub : Subscription) (event : String) (attempts : ℕ)
    (h : Hooks)
    → check_receiver net (net.urlsplit sub.url) ≡ Outcome.given tt
    → IsRun r 1
        (at_least_one attempts)
        (untried sub h)
        (deliver_sync net r now sub event attempts h)
unfolding deliver_sync
deliver_sync-IsRun net r now sub event zero h passed = rw passed (
    IsRun-from r now sub event 0 0 1 (untried sub h) (λ e. absurd (omega (arith, e))) (omega arith)
      refl)
deliver_sync-IsRun net r now sub event (suc k) h passed =
    rw passed
      (IsRun-from r now sub event (suc k) k 1 (untried sub h) (λ _. omega arith) (omega arith) refl)
