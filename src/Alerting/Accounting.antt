-- ===== src/Alerting/Accounting.antt =====
-- Any calls on a dispatcher: the order of its jobs, and its counters.
use thism.Base.{
  append_nil, append_assoc, ℕ, ◌+◌, ◌%◌, ◌^◌, ◌≤◌, ◌<◌, ◌≡◌, refl, ◌∙◌, sym, ap, Bool, true, false,
  Option, none, some, List, [], ◌∷◌, ◌++◌, nat_eq, if◌then◌else◌, leb, length, arith, Bool-cases,
  inl, inr, length-append,
}
use thism.Alerting.Settings.{NotificationSettings}
use thism.Alerting.Dispatcher.{
  Job, Shared, Dispatcher, RuntimeConfig, bump, new_dispatcher, load_runtime_config, log_is_held,
  is_fresh, get_runtime_config, apply_queue_capacity, should_log_drop, enqueue_in, enqueue,
  dequeue_in, dequeue, count_processed, close, finish_drop_alert,
}
use thism.Alerting.Fifo.{
  Call, enqueues, dequeues, processes, closes, ends_alert, Event, accepted, refused, took, Fifo,
  FifoStep, accept, refuse_full, refuse_closed, take_first, wait, stop, shuts, skip, call,
  call_refines, event_of_enqueue, event_of_next, dequeue_in-shift,
}

module _ {W : Type 0} where
  unfoldable pub run_calls :
      List (Call W) → Dispatcher W × Shared → (Dispatcher W × Shared) × List (Event W)
  run_calls [] s = (s, [])
  run_calls (c ∷ cs) s =
      let (after, e) = call c s in let (last, es) = run_calls cs after in (last, e ∷ es)

  abbrev pub accepted_of : Event W → List (Job W)
  accepted_of (accepted capacity job) = job ∷ []
  accepted_of _ = []

  abbrev pub taken_of : Event W → List (Job W)
  taken_of (took job) = job ∷ []
  taken_of _ = []

  abbrev pub refusals_of : Event W → ℕ
  refusals_of (refused capacity job) = 1
  refusals_of _ = 0

  abbrev pub accepted_jobs : List (Event W) → List (Job W)
  accepted_jobs [] = []
  accepted_jobs (e ∷ es) = accepted_of e ++ accepted_jobs es

  abbrev pub taken_jobs : List (Event W) → List (Job W)
  taken_jobs [] = []
  taken_jobs (e ∷ es) = taken_of e ++ taken_jobs es

  abbrev pub refusals : List (Event W) → ℕ
  refusals [] = 0
  refusals (e ∷ es) = refusals_of e + refusals es

  step-order :
      (p q : Fifo W) (e : Event W)
      → FifoStep p e q
      → p.waiting ++ accepted_of e ≡ taken_of e ++ q.waiting
  step-order p q e (accept jobs capacity job h) = refl
  step-order p q e (refuse_full jobs capacity job h) = append_nil jobs
  step-order p q e (refuse_closed jobs capacity job) = append_nil jobs
  step-order p q e (take_first job jobs c) = ap (λ js. job ∷ js) (append_nil jobs)
  step-order p q e wait = refl
  step-order p q e stop = refl
  step-order p q e (shuts r) = append_nil r.waiting
  step-order p q e (skip r) = append_nil r.waiting

-- Over any calls, no job that was accepted is lost, repeated or overtaken: the jobs that were
-- waiting at first followed by those that were accepted are, in order, those that the worker was
-- handed followed by those that still wait.
pub run_calls-order :
    {W : Type 0} (cs : List (Call W)) (d : Dispatcher W) (g : Shared)
    → d.queue ++ accepted_jobs (run_calls cs (d, g)).1
      ≡ taken_jobs (run_calls cs (d, g)).1 ++ (run_calls cs (d, g)).0.0.queue
unfolding run_calls
run_calls-order [] d g = append_nil d.queue
run_calls-order (c ∷ cs) d g =
    let s = (call c (d, g)).0 in
    let e = (call c (d, g)).1 in
    let es = (run_calls cs s).1 in
    sym (append_assoc d.queue (accepted_of e) (accepted_jobs es))
    ∙ ap (λ js. js ++ accepted_jobs es) (step-order _ _ e (call_refines c d g))
    ∙ append_assoc (taken_of e) s.0.queue (accepted_jobs es)
    ∙ ap (λ js. taken_of e ++ js) (run_calls-order cs s.0 s.1)
    ∙ sym (append_assoc (taken_of e) (taken_jobs es) (run_calls cs s).0.0.queue)

bump-mod : (n k : ℕ) → n ≡ k % 2 ^ 64 → bump n ≡ (k + 1) % 2 ^ 64
bump-mod n k h = omega arith

module _ {W : Type 0} where
  -- The counters of a dispatcher that accepted and refused so many jobs.
  pub record Counted (accepts refuses : ℕ) (d : Dispatcher W) : Type 0 where
    pub enqueued : d.stats.enqueued ≡ accepts % 2 ^ 64
    pub dropped : d.stats.dropped ≡ refuses % 2 ^ 64
    pub peak : length d.queue ≤ d.stats.high_watermark
    pub capacity : d.stats.capacity ≡ d.queue_capacity
    pub positive : 0 < d.queue_capacity

  config-Counted :
      (a r : ℕ) (stored : Option (NotificationSettings W)) (now : ℕ) (d : Dispatcher W)
      → Counted a r d
      → Counted a r (get_runtime_config stored now d).1
  unfolding get_runtime_config
  config-Counted a r stored now d k =
      elim (Bool-cases
        (is_fresh d.runtime_config_loaded_at d.runtime_config_refresh_interval now)) [
          | inl cached ↦ rw cached k
          | inr stale ↦ rw stale (record {
            enqueued = k.enqueued;
            dropped = k.dropped;
            peak = k.peak;
            capacity = k.capacity;
            positive = k.positive;
          })
        ]

  if-Counted :
      (a r : ℕ) (b : Bool) (x y : Dispatcher W × Shared)
      → Counted a r x.0
      → Counted a r y.0
      → Counted a r (if b then x else y).0
  if-Counted a r true x y p q = p
  if-Counted a r false x y p q = q

  capacity-Counted :
      (a r n : ℕ) (s : Dispatcher W × Shared)
      → Counted a r s.0
      → Counted a r (apply_queue_capacity n s).0
  unfolding apply_queue_capacity
  capacity-Counted a r n (d, g) k =
      if-Counted a r _ (d, g) _ k
        (record {
          enqueued = k.enqueued;
          dropped = k.dropped;
          peak = k.peak;
          capacity = refl;
          positive = ground arith;
        })

  -- A dispatcher that differs in the jobs that it dropped only.
  refused-Counted :
      (a r : ℕ) (d d' : Dispatcher W)
      → d'.stats ≡ record d.stats { dropped = bump d.stats.dropped }
      → d'.queue ≡ d.queue
      → d'.queue_capacity ≡ d.queue_capacity
      → Counted a r d
      → Counted (a + 0) (r + 1) d'
  refused-Counted a r d d' p q c k = record {
    enqueued = ap (λ t. t.enqueued) p ∙ k.enqueued ∙ omega arith;
    dropped = ap (λ t. t.dropped) p ∙ bump-mod _ r k.dropped;
    peak = rw (ap (λ t. t.high_watermark) p, q) k.peak;
    capacity = ap (λ t. t.capacity) p ∙ k.capacity ∙ sym c;
    positive = rw c k.positive;
  }

  offer-Counted :
      (a r now : ℕ) (job : Job W) (config : RuntimeConfig W) (d : Dispatcher W) (g : Shared)
      → Counted a r d
      → Counted
          (a + length (accepted_of (event_of_enqueue job (enqueue_in now job config (d, g))).1))
          (r + refusals_of (event_of_enqueue job (enqueue_in now job config (d, g))).1)
          (enqueue_in now job config (d, g)).dispatcher
  unfolding enqueue_in event_of_enqueue should_log_drop
  offer-Counted a r now job config d g k = elim (Bool-cases d.closed) [
    | inl over ↦ rw over (refused-Counted a r d _ refl refl refl k)
    | inr open_ ↦ elim (Bool-cases (leb d.queue_capacity (length d.queue))) [
      | inl full ↦ elim (Bool-cases (log_is_held d.last_drop_log_at d.drop_log_interval now)) [
        | inl held ↦ rw (open_, full, held) (refused-Counted a r d _ refl refl refl k)
        | inr due ↦ rw (open_, full, due) (refused-Counted a r d _ refl refl refl k)
      ]
      | inr room ↦
          rw (open_, room)
            (record {
              enqueued = bump-mod _ a k.enqueued;
              dropped = omega (arith, k.dropped);
              peak = omega arith;
              capacity = k.capacity;
              positive = k.positive;
            })
    ]
  ]

  -- A dispatcher whose queue and counters of jobs are the same or whose queue is shorter.
  kept-Counted :
      (a r : ℕ) (d d' : Dispatcher W)
      → (d'.stats.enqueued ≡ d.stats.enqueued)
        × (d'.stats.dropped ≡ d.stats.dropped)
        × (d'.stats.high_watermark ≡ d.stats.high_watermark)
        × (d'.stats.capacity ≡ d.stats.capacity)
      → length d'.queue ≤ length d.queue
      → d'.queue_capacity ≡ d.queue_capacity
      → Counted a r d
      → Counted (a + 0) (r + 0) d'
  kept-Counted a r d d' (e, x, h, s) q c k = record {
    enqueued = e ∙ k.enqueued ∙ omega arith;
    dropped = x ∙ k.dropped ∙ omega arith;
    peak = omega (arith, k.peak, h, q);
    capacity = s ∙ k.capacity ∙ sym c;
    positive = rw c k.positive;
  }

  next-Counted :
      (a r : ℕ) (d : Dispatcher W) (g : Shared) (queue : List (Job W))
      → d.queue ≡ queue
      → Counted a r d
      → Counted
          (a + length (accepted_of (event_of_next (dequeue_in queue d) d g).1))
          (r + refusals_of (event_of_next (dequeue_in queue d) d g).1)
          (event_of_next (dequeue_in queue d) d g).0.0
  unfolding event_of_next
  next-Counted a r d g [] p k = elim (Bool-cases d.closed) [
    | inl over ↦
        unfold dequeue_in in
        rw over (kept-Counted a r d _ (refl, refl, refl, refl) (omega arith) refl k)
    | inr open_ ↦
        unfold dequeue_in in
        rw open_ (kept-Counted a r d _ (refl, refl, refl, refl) (omega arith) refl k)
  ]
  next-Counted a r d g (job ∷ jobs) p k =
      rw (dequeue_in-shift job jobs d)
        (kept-Counted a r d _ (refl, refl, refl, refl) (rw p (omega arith)) refl k)

  call-Counted :
      (a r : ℕ) (c : Call W) (d : Dispatcher W) (g : Shared)
      → Counted a r d
      → Counted
          (a + length (accepted_of (call c (d, g)).1))
          (r + refusals_of (call c (d, g)).1)
          (call c (d, g)).0.0
  unfolding call
  call-Counted a r (enqueues stored now job) d g k =
      let config = (get_runtime_config stored now d).0 in
      let ready =
        apply_queue_capacity config.queue_capacity ((get_runtime_config stored now d).1, g) in
      unfold enqueue event_of_enqueue in
      offer-Counted a r now job config ready.0 ready.1
        (capacity-Counted a r config.queue_capacity _ (config-Counted a r stored now d k))
  call-Counted a r dequeues d g k = unfold dequeue in next-Counted a r d g d.queue refl k
  call-Counted a r processes d g k =
      unfold count_processed in kept-Counted a r d _ (refl, refl, refl, refl) (omega arith) refl k
  call-Counted a r closes d g k = elim (Bool-cases d.closed) [
    | inl over ↦
        unfold close in rw over (kept-Counted a r d _ (refl, refl, refl, refl) (omega arith) refl k)
    | inr open_ ↦
        unfold close in
        rw open_ (kept-Counted a r d _ (refl, refl, refl, refl) (omega arith) refl k)
  ]
  call-Counted a r ends_alert d g k =
      unfold finish_drop_alert in kept-Counted a r d _ (refl, refl, refl, refl) (omega arith) refl k

  Counted-at : {a b r q : ℕ} {d : Dispatcher W} → a ≡ b → r ≡ q → Counted a r d → Counted b q d
  Counted-at {d} p q k = record {
    enqueued = k.enqueued ∙ ap (λ n. n % 2 ^ 64) p;
    dropped = k.dropped ∙ ap (λ n. n % 2 ^ 64) q;
    peak = k.peak;
    capacity = k.capacity;
    positive = k.positive;
  }

  run_calls-Counted :
      (cs : List (Call W)) (d : Dispatcher W) (g : Shared) (a r : ℕ)
      → Counted a r d
      → Counted
          (a + length (accepted_jobs (run_calls cs (d, g)).1))
          (r + refusals (run_calls cs (d, g)).1)
          (run_calls cs (d, g)).0.0
  unfolding run_calls
  run_calls-Counted [] d g a r k =
      kept-Counted a r d _ (refl, refl, refl, refl) (omega arith) refl k
  run_calls-Counted (c ∷ cs) d g a r k =
      let s = (call c (d, g)).0 in
      let e = (call c (d, g)).1 in
      let es = (run_calls cs s).1 in
      Counted-at (omega (arith, length-append (accepted_of e) (accepted_jobs es))) (omega arith) (
        run_calls-Counted cs s.0 s.1 (a + length (accepted_of e)) (r + refusals_of e)
          (call-Counted a r c d g k))

  fresh-Counted :
      (stored : Option (NotificationSettings W)) (now capacity : ℕ) (g : Shared)
      → Counted 0 0 (new_dispatcher stored now capacity g).0
  unfolding new_dispatcher load_runtime_config
  fresh-Counted none now capacity g = record {
    enqueued = refl;
    dropped = refl;
    peak = omega arith;
    capacity = refl;
    positive = ground arith;
  }
  fresh-Counted (some s) now capacity g = record {
    enqueued = refl;
    dropped = refl;
    peak = omega arith;
    capacity = refl;
    positive = ground arith;
  }

-- From a new dispatcher, whatever the settings and the clock say at each call: the dispatcher counts
-- the jobs that were accepted and those that were refused, each modulo 2 ^ 64, its high watermark
-- bounds the queue, the capacity that it shows is the one that it uses, and that is positive.
pub new_dispatcher-Counted :
    {W : Type 0} (stored : Option (NotificationSettings W)) (now capacity : ℕ) (g : Shared)
    (cs : List (Call W))
    → Counted
        (length (accepted_jobs (run_calls cs (new_dispatcher stored now capacity g)).1))
        (refusals (run_calls cs (new_dispatcher stored now capacity g)).1)
        (run_calls cs (new_dispatcher stored now capacity g)).0.0
new_dispatcher-Counted {W} stored now capacity g cs =
    let new = new_dispatcher stored now capacity g in
    Counted-at (omega arith) (omega arith)
      (run_calls-Counted cs new.0 new.1 0 0 (fresh-Counted stored now capacity g))
