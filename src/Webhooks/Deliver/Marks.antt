-- ===== src/Webhooks/Deliver/Marks.antt =====
-- The health of a subscription after a series of deliveries by `_deliver_sync` of sign/webhooks.py.
use lifted_sign.Base.{
  ℕ, zero, suc, String, Bool, true, false, not, Option, none, some, List, [], ◌∷◌, ◌≡◌, refl, sym,
  ap, ◌∙◌, leb, ltb, find, update_where, if◌then◌else◌, Bool-cases, inl, inr,
}
use lifted_sign.Webhooks.Events.{Outcome}
use lifted_sign.Webhooks.Host.{Net}
use lifted_sign.Webhooks.Tables.{
  Subscription, Hooks, mark_result, record_delivery, has_hook_id, failed, disabled, disable_after,
  fails_of, succeeded,
}
use lifted_sign.Webhooks.Deliver.{
  Response, Receiver, Run, is_2xx, after_post, begin_attempt, pause_before_next, go_on,
  attempt_from, at_least_one, untried, check_receiver, if_public, stopped_crash, refusal_text,
  logged, deliver_sync,
}
use lifted_sign.Webhooks.Health.{Mark, mark_all, failed_in_a_row, history, mark_all-disables}

same_marks :
    (now wid : ℕ) (ok : Bool) (status : Option ℕ) (h g : Hooks)
    → h.subscriptions ≡ g.subscriptions
    → (mark_result now wid ok status h).subscriptions
      ≡ (mark_result now wid ok status g).subscriptions
unfolding mark_result
same_marks now wid true status h g e = ap (update_where (has_hook_id wid) (succeeded now status)) e
same_marks now wid false status h g e =
    ap
      (λ l.
        let rows = update_where (has_hook_id wid) (failed now status) l in
        if leb disable_after (fails_of (find (has_hook_id wid) rows))
        then update_where (has_hook_id wid) disabled rows
        else rows)
      e

-- The one update of the health counters that a delivery makes.
pub record IsMarked (now wid : ℕ) (h : Hooks) (out : Run) : Type 0 where
  pub status : Option ℕ
  pub marked : out.hooks.subscriptions ≡ (mark_result now wid out.result.ok status h).subscriptions

module _ (r : Receiver) (now : ℕ) (sub : Subscription) (event : String) (h : Hooks) where
  after_post-IsMarked :
      (n : ℕ) (resp : Response) (run : Run) (k : Run → Run)
      → run.hooks.subscriptions ≡ h.subscriptions
      → run.result.ok ≡ false
      → ((next : Run)
          → next.hooks.subscriptions ≡ h.subscriptions
          → next.result.ok ≡ false
          → IsMarked now sub.id h (k next))
      → IsMarked now sub.id h (go_on (after_post r now sub event n resp (begin_attempt n run)) k)
  unfolding after_post record_delivery
  after_post-IsMarked n (Response.answer c) run k e fresh ih = elim (Bool-cases (is_2xx c)) [
    | inl t ↦ rw t (record {
      status = some c;
      marked =
          same_marks now sub.id true (some c)
            (logged r now sub event n (some c) true "" (begin_attempt n run)).hooks h e;
    })
    | inr t ↦ rw t (ih _ e fresh)
  ]
  after_post-IsMarked n (Response.http_error t) run k e fresh ih = ih _ e fresh
  after_post-IsMarked n (Response.crash t) run k e fresh ih = record {
    status = run.result.status_code;
    marked =
        same_marks now sub.id false run.result.status_code run.hooks h e
        ∙ ap (λ b. (mark_result now sub.id b run.result.status_code h).subscriptions) (sym fresh);
  }

  attempt_from-IsMarked :
      (attempts left n : ℕ) (run : Run)
      → run.hooks.subscriptions ≡ h.subscriptions
      → run.result.ok ≡ false
      → IsMarked now sub.id h (attempt_from r now sub event attempts left n run)
  unfolding attempt_from
  attempt_from-IsMarked attempts zero n run e fresh = record {
    status = run.last_status;
    marked =
        same_marks now sub.id false run.last_status run.hooks h e
        ∙ ap (λ b. (mark_result now sub.id b run.last_status h).subscriptions) (sym fresh);
  }
  attempt_from-IsMarked attempts (suc left) n run e fresh =
      after_post-IsMarked n (r.post n) run _ e fresh (λ next f ok.
        attempt_from-IsMarked attempts left (suc n) (pause_before_next attempts n next)
          (rows next ∙ f) (oks next ∙ ok))
    where
      rows :
          (next : Run)
          → (pause_before_next attempts n next).hooks.subscriptions ≡ next.hooks.subscriptions
      rows next = elim (Bool-cases (ltb n attempts)) [ inl t ↦ rw t refl | inr t ↦ rw t refl ]

      oks : (next : Run) → (pause_before_next attempts n next).result.ok ≡ next.result.ok
      oks next = elim (Bool-cases (ltb n attempts)) [ inl t ↦ rw t refl | inr t ↦ rw t refl ]

deliver_sync-IsMarked :
    (net : Net) (r : Receiver) (now : ℕ) (sub : Subscription) (event : String) (attempts : ℕ)
    (h : Hooks)
    → IsMarked now sub.id h (deliver_sync net r now sub event attempts h)
unfolding deliver_sync
deliver_sync-IsMarked net r now sub event attempts h =
    go (check_receiver net (net.urlsplit sub.url))
  where
    go :
        (o : Outcome (Unit {0}))
        → IsMarked now sub.id h (
            if_public o
              (λ e. stopped_crash now sub (refusal_text e) (untried sub h))
              (attempt_from r now sub event attempts (at_least_one attempts) 1 (untried sub h)))
    go (Outcome.refused e) = record { status = none; marked = refl }
    go (Outcome.given u) =
        attempt_from-IsMarked r now sub event h attempts (at_least_one attempts) 1 (untried sub h)
          refl refl

-- One delivery of a series: when, what, how the receiver answers.
pub record Sent : Type 0 where
  pub now : ℕ
  pub event : String
  pub receiver : Receiver
  pub attempts : ℕ

-- The deliveries of a series to one subscription, and which of them succeeded.
unfoldable pub deliver_each : Net → Subscription → List Sent → Hooks → List Bool × Hooks
unfolding deliver_sync
deliver_each net sub [] h = ([], h)
deliver_each net sub (d ∷ rest) h =
    let run = deliver_sync net d.receiver d.now sub d.event d.attempts h in
    let (oks, h') = deliver_each net sub rest run.hooks in (run.result.ok ∷ oks, h')

-- The marks of a series, and the tables that they leave.
record Series (wid : ℕ) (h : Hooks) (oks : List Bool) (h' : Hooks) : Type 0 where
  marks : List Mark
  same : history marks ≡ oks
  rows : h'.subscriptions ≡ (mark_all wid marks h).subscriptions

same_series :
    (wid : ℕ) (l : List Mark) (h g : Hooks)
    → h.subscriptions ≡ g.subscriptions
    → (mark_all wid l h).subscriptions ≡ (mark_all wid l g).subscriptions
unfolding mark_all
same_series wid [] h g e = e
same_series wid (m ∷ l) h g e =
    same_series wid l (mark_result m.now wid m.ok m.status h)
      (mark_result m.now wid m.ok m.status g) (same_marks m.now wid m.ok m.status h g e)

deliver_each-Series :
    (net : Net) (sub : Subscription) (l : List Sent) (h : Hooks)
    → Series sub.id h (deliver_each net sub l h).0 (deliver_each net sub l h).1
unfolding deliver_each mark_all
deliver_each-Series net sub [] h = record { marks = []; same = refl; rows = refl }
deliver_each-Series net sub (d ∷ rest) h =
    let run : Run = deliver_sync net d.receiver d.now sub d.event d.attempts h in
    let one : IsMarked d.now sub.id h run =
      deliver_sync-IsMarked net d.receiver d.now sub d.event d.attempts h in
    let later : Series sub.id run.hooks (deliver_each net sub rest run.hooks).0
        (deliver_each net sub rest run.hooks).1 =
      deliver_each-Series net sub rest run.hooks in
    record {
      marks = record { now = d.now; ok = run.result.ok; status = one.status } ∷ later.marks;
      same = ap (λ l. run.result.ok ∷ l) later.same;
      rows =
          later.rows
          ∙ same_series sub.id later.marks run.hooks
              (mark_result d.now sub.id run.result.ok one.status h) one.marked;
    }

-- A subscription that is active without failures, after any series of deliveries to it: it is
-- inactive exactly if 15 deliveries in a row failed somewhere in the series.
pub deliver_each-disables :
    (net : Net) (sub : Subscription) (l : List Sent) (h : Hooks) (s : Subscription)
    → find (has_hook_id sub.id) h.subscriptions ≡ some s
    → s.active ≡ true
    → s.failure_count ≡ 0
    → (t : Subscription) × (find (has_hook_id sub.id) (deliver_each net sub l h).1.subscriptions
        ≡ some t)
      × (t.active ≡ not (failed_in_a_row (deliver_each net sub l h).0))
deliver_each-disables net sub l h s found on none_yet =
    let series : Series sub.id h (deliver_each net sub l h).0 (deliver_each net sub l h).1 =
      deliver_each-Series net sub l h in
    let (t, row, health) = mark_all-disables sub.id series.marks h s found on none_yet in
    (
      t,
      ap (find (has_hook_id sub.id)) series.rows ∙ row,
      health ∙ ap (λ b. not (failed_in_a_row b)) series.same,
    )
