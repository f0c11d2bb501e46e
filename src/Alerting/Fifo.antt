-- ===== src/Alerting/Fifo.antt =====
-- The dispatcher as a first-in first-out queue: the calls on a dispatcher, one after the other in the
-- order in which its mutex lets them in, against a queue that says which of them may happen.
use thism.Base.{
  ℕ, suc, ◌-◌, ◌≤◌, ◌<◌, ◌≡◌, refl, ap, subst, Bool, true, false, Option, List, [], ◌∷◌, ◌++◌,
  nat_eq, if◌then◌else◌, leb, length, take, arith, Bool-cases, inl, inr,
}
use thism.Alerting.Settings.{NotificationSettings}
use thism.Alerting.Dispatcher.{
  Job, no_job, Shared, Dispatcher, RuntimeConfig, Enqueued, Next, waits, stops, takes, copy, set_at,
  get_runtime_config, apply_queue_capacity, should_log_drop, log_is_held, is_fresh, enqueue_in,
  enqueue, dequeue_in, dequeue, count_processed, close, finish_drop_alert,
}

pub data Call (W : Type 0) : Type 0 where
  enqueues : Option (NotificationSettings W) → ℕ → Job W → Call W
  dequeues : Call W
  processes : Call W
  closes : Call W
  ends_alert : Call W

-- What a caller sees of a call; an offer shows the capacity that it met.
pub data Event (W : Type 0) : Type 0 where
  accepted : ℕ → Job W → Event W
  refused : ℕ → Job W → Event W
  took : Job W → Event W
  waited : Event W
  stopped : Event W
  shut : Event W
  silent : Event W

pub record Fifo (W : Type 0) : Type 0 where
  pub waiting : List (Job W)
  pub is_closed : Bool

-- The specification. A job goes in at the end, if the queue is open and shorter than its capacity,
-- and comes out at the front, also once the queue is closed.
pub data FifoStep {W : Type 0} : Fifo W → Event W → Fifo W → Type 0 where
  accept :
      (jobs : List (Job W)) (capacity : ℕ) (job : Job W)
      → length jobs < capacity
      → FifoStep
          (record { waiting = jobs; is_closed = false })
          (accepted capacity job)
          (record { waiting = jobs ++ (job ∷ []); is_closed = false })
  refuse_full :
      (jobs : List (Job W)) (capacity : ℕ) (job : Job W)
      → capacity ≤ length jobs
      → FifoStep
          (record { waiting = jobs; is_closed = false })
          (refused capacity job)
          (record { waiting = jobs; is_closed = false })
  refuse_closed :
      (jobs : List (Job W)) (capacity : ℕ) (job : Job W)
      → FifoStep
          (record { waiting = jobs; is_closed = true })
          (refused capacity job)
          (record { waiting = jobs; is_closed = true })
  take_first :
      (job : Job W) (jobs : List (Job W)) (is_closed : Bool)
      → FifoStep
          (record { waiting = job ∷ jobs; is_closed = is_closed })
          (took job)
          (record { waiting = jobs; is_closed = is_closed })
  wait :
      FifoStep
        (record { waiting = []; is_closed = false })
        waited
        (record { waiting = []; is_closed = false })
  stop :
      FifoStep
        (record { waiting = []; is_closed = true })
        stopped
        (record { waiting = []; is_closed = true })
  shuts : (q : Fifo W) → FifoStep q shut (record { waiting = q.waiting; is_closed = true })
  skip : (q : Fifo W) → FifoStep q silent q

suc-less_1 : (n : ℕ) → suc n - 1 ≡ n
suc-less_1 n = omega arith

module _ {W : Type 0} where
  -- The dispatcher and the counters after a call, and the event.
  unfoldable pub event_of_enqueue : Job W → Enqueued W → (Dispatcher W × Shared) × Event W
  event_of_enqueue job r = (
    (r.dispatcher, r.shared),
    if r.accepted
        then accepted r.dispatcher.queue_capacity job
        else refused r.dispatcher.queue_capacity job,
  )

  unfoldable pub event_of_next : Next W → Dispatcher W → Shared → (Dispatcher W × Shared) × Event W
  event_of_next waits d g = ((d, g), waited)
  event_of_next stops d g = ((d, g), stopped)
  event_of_next (takes job d') d g = ((d', g), took job)

  unfoldable pub call : Call W → Dispatcher W × Shared → (Dispatcher W × Shared) × Event W
  unfolding event_of_enqueue event_of_next
  call (enqueues stored now job) (d, g) = event_of_enqueue job (enqueue stored now job d g)
  call dequeues (d, g) = event_of_next (dequeue d) d g
  call processes s = (count_processed s, silent)
  call closes s = (close s, shut)
  call ends_alert (d, g) = ((finish_drop_alert d, g), silent)

  abbrev pub fifo : Dispatcher W → Fifo W
  fifo d = record { waiting = d.queue; is_closed = d.closed }

  take-shift :
      (job last : Job W) (jobs : List (Job W))
      → take (length jobs) (set_at (length jobs) last (copy (job ∷ jobs) jobs)) ≡ jobs
  unfolding copy set_at
  take-shift job last [] = refl
  take-shift job last (j ∷ jobs) = ap (λ js. j ∷ js) (take-shift j last jobs)

  -- The shift of the slice leaves the jobs after the first.
  pub dequeue_in-shift :
      (job : Job W) (jobs : List (Job W)) (d : Dispatcher W)
      → dequeue_in (job ∷ jobs) d ≡ takes job (record d { queue = jobs })
  unfolding dequeue_in
  dequeue_in-shift job jobs d =
      ap (λ js. takes job (record d { queue = js }))
        (rw (suc-less_1 (length jobs)) (take-shift job no_job jobs))

  offer_refines :
      (now : ℕ) (job : Job W) (config : RuntimeConfig W) (d : Dispatcher W) (g : Shared)
      → FifoStep
          (fifo d)
          (event_of_enqueue job (enqueue_in now job config (d, g))).1
          (fifo (enqueue_in now job config (d, g)).dispatcher)
  unfolding event_of_enqueue enqueue_in should_log_drop
  offer_refines now job config d g = elim (Bool-cases d.closed) [
    | inl over ↦ rw over (refuse_closed d.queue d.queue_capacity job)
    | inr open_ ↦ elim (Bool-cases (leb d.queue_capacity (length d.queue))) [
      | inl full ↦ elim (Bool-cases (log_is_held d.last_drop_log_at d.drop_log_interval now)) [
        | inl held ↦
            rw (open_, full, held) (refuse_full d.queue d.queue_capacity job (ground arith))
        | inr due ↦ rw (open_, full, due) (refuse_full d.queue d.queue_capacity job (ground arith))
      ]
      | inr room ↦ rw (open_, room) (accept d.queue d.queue_capacity job (ground arith))
    ]
  ]

  if-fifo :
      (b : Bool) (x y : Dispatcher W × Shared)
      → fifo y.0 ≡ fifo x.0
      → fifo (if b then x else y).0 ≡ fifo x.0
  if-fifo true x y p = refl
  if-fifo false x y p = p

  capacity-fifo :
      (n : ℕ) (d : Dispatcher W) (g : Shared) → fifo (apply_queue_capacity n (d, g)).0 ≡ fifo d
  unfolding apply_queue_capacity
  capacity-fifo n d g = if-fifo _ (d, g) _ refl

  prepared-fifo :
      (stored : Option (NotificationSettings W)) (now : ℕ) (d : Dispatcher W) (g : Shared)
      → fifo
          (apply_queue_capacity
            (get_runtime_config stored now d).0.queue_capacity
            ((get_runtime_config stored now d).1, g)).0
        ≡ fifo d
  unfolding get_runtime_config
  prepared-fifo stored now d g =
      elim (Bool-cases
        (is_fresh d.runtime_config_loaded_at d.runtime_config_refresh_interval now)) [
          | inl cached ↦ rw cached (capacity-fifo d.runtime_config.queue_capacity d g)
          | inr stale ↦ rw stale (capacity-fifo _ _ g)
        ]

  next_refines :
      (d : Dispatcher W) (g : Shared) (queue : List (Job W))
      → d.queue ≡ queue
      → FifoStep
          (record { waiting = queue; is_closed = d.closed })
          (event_of_next (dequeue_in queue d) d g).1
          (fifo (event_of_next (dequeue_in queue d) d g).0.0)
  next_refines d g [] p = elim (Bool-cases d.closed) [
    | inl over ↦ unfold dequeue_in event_of_next in rw (over, p) stop
    | inr open_ ↦ unfold dequeue_in event_of_next in rw (open_, p) wait
  ]
  next_refines d g (job ∷ jobs) p =
      rw (dequeue_in-shift job jobs d) (unfold event_of_next in take_first job jobs d.closed)

-- Every call on a dispatcher, whatever the settings and the clock say, does what the bounded queue
-- of the specification does, with the capacity of that moment: an offer is accepted exactly if the
-- dispatcher is open and its queue is shorter than the capacity, and then the job is the last one;
-- a job that is handed to the worker is the first one; the worker is stopped only if the queue is
-- empty and closed; the other calls leave the jobs as they are.
pub call_refines :
    {W : Type 0} (c : Call W) (d : Dispatcher W) (g : Shared)
    → FifoStep (fifo d) (call c (d, g)).1 (fifo (call c (d, g)).0.0)
unfolding call
call_refines (enqueues stored now job) d g =
    let config = (get_runtime_config stored now d).0 in
    let ready =
      apply_queue_capacity config.queue_capacity ((get_runtime_config stored now d).1, g) in
    let result = event_of_enqueue job (enqueue_in now job config ready) in
    unfold enqueue in
    subst (λ q. FifoStep q result.1 (fifo result.0.0)) (prepared-fifo stored now d g)
      (unfold event_of_enqueue in offer_refines now job config ready.0 ready.1)
call_refines dequeues d g = unfold dequeue in next_refines d g d.queue refl
call_refines processes d g = unfold count_processed in skip (fifo d)
call_refines closes d g = elim (Bool-cases d.closed) [
  | inl over ↦ unfold close in rw over (shuts _)
  | inr open_ ↦ unfold close in rw open_ (shuts _)
]
call_refines ends_alert d g = unfold finish_drop_alert in skip (fifo d)
