-- ===== src/Alerting/Dispatcher.antt =====
-- internal/alerting/dispatcher.go: the bounded queue between a connection and the evaluator. `Shared`
-- is the counters of all dispatchers of the process. Times are in nanoseconds.
use thism.Base.{
  ℕ, zero, suc, ◌+◌, ◌-◌, ◌*◌, ◌/◌, ◌%◌, ◌^◌, Bool, true, false, Option, none, some, List, [], ◌∷◌,
  ◌++◌, ◌==◌, ◌&&◌, ◌||◌, not, max, string_eq, nat_eq, if◌then◌else◌, leb, ltb, length, take, drop,
}
use thism.Alerting.Settings.{
  Float, warning, dispatcher_queue, NotificationSettings, AlertEvent, is_empty, or_else,
  default_dispatcher_queue_capacity,
}
use thism.Alerting.Deliveries.{Tables, alerted, should_send_alert, record_alert_delivery}
use thism.Alerting.Evaluator.{AlertNode, AlertMetrics, Alerts, process, process_heartbeat}

-- dispatchJob; `no_job` is its zero value. The copies of the node and of the sample hold the fields
-- that AlertNode and AlertMetrics have.
pub data Job (W : Type 0) : Type 0 where
  no_job : Job W
  metrics_job : AlertNode → AlertMetrics W → Job W
  heartbeat_job : AlertNode → Bool → ℕ → Job W

-- DispatcherStats; its QueueDepth is the length of the queue.
pub record DispatcherStats : Type 0 where
  pub capacity : ℕ
  pub high_watermark : ℕ
  pub enqueued : ℕ
  pub processed : ℕ
  pub dropped : ℕ

pub record Shared : Type 0 where
  pub active_dispatchers : ℕ
  pub total_capacity : ℕ
  pub queue_depth : ℕ
  pub high_watermark : ℕ
  pub enqueued : ℕ
  pub processed : ℕ
  pub dropped : ℕ

-- The settings are none where they were not read.
pub record RuntimeConfig (W : Type 0) : Type 0 where
  pub queue_capacity : ℕ
  pub notify_dispatcher_drops : Bool
  pub settings : Option (NotificationSettings W)

pub record Dispatcher (W : Type 0) : Type 0 where
  pub queue : List (Job W)
  pub queue_capacity : ℕ
  pub closed : Bool
  pub stats : DispatcherStats
  pub last_drop_log_at : Option ℕ
  pub dropped_at_last_log : ℕ
  pub drop_log_interval : ℕ
  pub runtime_config : RuntimeConfig W
  pub runtime_config_loaded_at : Option ℕ
  pub runtime_config_refresh_interval : ℕ
  pub drop_alert_in_flight : Bool

-- A counter of type uint64.
abbrev pub bump : ℕ → ℕ
bump n = (n + 1) % 2 ^ 64

abbrev pub default_dispatcher_drop_log_interval : ℕ
default_dispatcher_drop_log_interval = 60 * 10 ^ 9

abbrev pub default_runtime_config_refresh_interval : ℕ
default_runtime_config_refresh_interval = 15 * 10 ^ 9

abbrev pub normalize_dispatcher_queue_capacity : ℕ → ℕ
normalize_dispatcher_queue_capacity capacity = or_else capacity default_dispatcher_queue_capacity

unfoldable pub record_dispatcher_created : ℕ → Shared → Shared
record_dispatcher_created capacity g = record g {
  active_dispatchers = g.active_dispatchers + 1;
  total_capacity = g.total_capacity + capacity;
}

-- Subtraction on ℕ stops at 0, as the two tests of the code do.
unfoldable pub record_dispatcher_closed : ℕ → Shared → Shared
record_dispatcher_closed capacity g = record g {
  active_dispatchers = g.active_dispatchers - 1;
  total_capacity = g.total_capacity - capacity;
}

unfoldable pub record_dispatcher_capacity_changed : ℕ → ℕ → Shared → Shared
record_dispatcher_capacity_changed previous current g = record g {
  total_capacity = g.total_capacity + current - previous;
}

unfoldable pub record_dispatcher_enqueue : ℕ → Shared → Shared
record_dispatcher_enqueue queue_depth g = record g {
  enqueued = bump g.enqueued;
  queue_depth = g.queue_depth + 1;
  high_watermark = max (max g.high_watermark (g.queue_depth + 1)) queue_depth;
}

unfoldable pub record_dispatcher_dropped : Shared → Shared
record_dispatcher_dropped g = record g { dropped = bump g.dropped }

unfoldable pub record_dispatcher_processed : Shared → Shared
record_dispatcher_processed g = record g {
  processed = bump g.processed;
  queue_depth = g.queue_depth - 1;
}

-- Go's copy between slices, and an assignment to an element.
unfoldable pub copy {ℓ} : {A : Type ℓ} → List A → List A → List A
copy [] src = []
copy (x ∷ dst) [] = x ∷ dst
copy (x ∷ dst) (y ∷ src) = y ∷ copy dst src

unfoldable pub set_at {ℓ} : {A : Type ℓ} → ℕ → A → List A → List A
set_at n a [] = []
set_at zero a (x ∷ xs) = a ∷ xs
set_at (suc n) a (x ∷ xs) = x ∷ set_at n a xs

-- What a drop alert is given.
pub record DropAlert (W : Type 0) : Type 0 where
  pub settings : Option (NotificationSettings W)
  pub total_dropped : ℕ
  pub capacity : ℕ

unfoldable pub is_fresh : Option ℕ → ℕ → ℕ → Bool
is_fresh none interval now = false
is_fresh (some at) interval now =
    leb at now && ltb now (at + or_else interval default_runtime_config_refresh_interval)

unfoldable pub log_is_held : Option ℕ → ℕ → ℕ → Bool
log_is_held none interval now = false
log_is_held (some at) interval now =
    ltb now (at + or_else interval default_dispatcher_drop_log_interval)

-- What enqueue returns, and the drop alert that it starts.
pub record Enqueued (W : Type 0) : Type 0 where
  pub accepted : Bool
  pub dispatcher : Dispatcher W
  pub shared : Shared
  pub drop_alert : Option (DropAlert W)

-- What dequeue does: the worker waits, it returns, or it has the next job.
pub data Next (W : Type 0) : Type 0 where
  waits : Next W
  stops : Next W
  takes : Job W → Dispatcher W → Next W

module _ {W : Type 0} where
  -- loadRuntimeConfigFromStore, given what GetNotificationSettings returns.
  unfoldable pub load_runtime_config : Option (NotificationSettings W) → ℕ → RuntimeConfig W
  load_runtime_config none capacity = record {
    queue_capacity = normalize_dispatcher_queue_capacity capacity;
    notify_dispatcher_drops = false;
    settings = none;
  }
  load_runtime_config (some s) capacity = record {
    queue_capacity = normalize_dispatcher_queue_capacity s.dispatcher_queue_capacity;
    notify_dispatcher_drops = s.notify_dispatcher_drops;
    settings = some s;
  }

  -- NewDispatcherWithCapacity
  unfoldable pub new_dispatcher :
      Option (NotificationSettings W) → ℕ → ℕ → Shared → Dispatcher W × Shared
  unfolding load_runtime_config record_dispatcher_created
  new_dispatcher stored now capacity g =
      let config = load_runtime_config stored (normalize_dispatcher_queue_capacity capacity) in
      (
        record {
          queue = [];
          queue_capacity = config.queue_capacity;
          closed = false;
          stats = record {
            capacity = config.queue_capacity;
            high_watermark = 0;
            enqueued = 0;
            processed = 0;
            dropped = 0;
          };
          last_drop_log_at = none;
          dropped_at_last_log = 0;
          drop_log_interval = default_dispatcher_drop_log_interval;
          runtime_config = config;
          runtime_config_loaded_at = some now;
          runtime_config_refresh_interval = default_runtime_config_refresh_interval;
          drop_alert_in_flight = false;
        },
        record_dispatcher_created (normalize_dispatcher_queue_capacity capacity) g,
      )

  unfoldable pub get_runtime_config :
      Option (NotificationSettings W) → ℕ → Dispatcher W → RuntimeConfig W × Dispatcher W
  unfolding is_fresh
  get_runtime_config stored now d =
      let config = load_runtime_config stored d.queue_capacity in
      if is_fresh d.runtime_config_loaded_at d.runtime_config_refresh_interval now
      then (d.runtime_config, d)
      else (config, record d { runtime_config = config; runtime_config_loaded_at = some now })

  unfoldable pub apply_queue_capacity : ℕ → Dispatcher W × Shared → Dispatcher W × Shared
  apply_queue_capacity capacity (d, g) =
      let new = normalize_dispatcher_queue_capacity capacity in
      if d.queue_capacity == new then (d, g) else (
        record d { queue_capacity = new; stats = record d.stats { capacity = new } },
        record_dispatcher_capacity_changed d.queue_capacity new g,
      )

  -- shouldLogDropLocked: whether a drop is logged, which updates when it was logged last.
  unfoldable pub should_log_drop : ℕ → Dispatcher W → Bool × Dispatcher W
  unfolding log_is_held
  should_log_drop now d =
      if log_is_held d.last_drop_log_at d.drop_log_interval now
      then (false, d)
      else (true, record d { last_drop_log_at = some now; dropped_at_last_log = d.stats.dropped })

  count_drop : Dispatcher W → Dispatcher W
  count_drop d = record d { stats = record d.stats { dropped = bump d.stats.dropped } }

  full : RuntimeConfig W → Bool × Dispatcher W → Shared → Enqueued W
  full config (logged, d) g =
      let alerting = logged && (config.notify_dispatcher_drops && not d.drop_alert_in_flight) in
      record {
        accepted = false;
        dispatcher = record d { drop_alert_in_flight = d.drop_alert_in_flight || alerting };
        shared = g;
        drop_alert =
            if alerting
            then some (record {
              settings = config.settings;
              total_dropped = d.stats.dropped;
              capacity = d.queue_capacity;
            })
            else none;
      }

  append_job : Job W → Dispatcher W → Shared → Enqueued W
  append_job job d g =
      let queue = d.queue ++ (job ∷ []) in
      record {
        accepted = true;
        dispatcher = record d {
          queue = queue;
          stats = record d.stats {
            enqueued = bump d.stats.enqueued;
            high_watermark = max d.stats.high_watermark (length queue);
          };
        };
        shared = record_dispatcher_enqueue (length queue) g;
        drop_alert = none;
      }

  -- What follows in enqueue once the capacity is up to date.
  unfoldable pub enqueue_in : ℕ → Job W → RuntimeConfig W → Dispatcher W × Shared → Enqueued W
  unfolding count_drop full append_job
  enqueue_in now job config (d, g) =
      if d.closed
      then record {
        accepted = false;
        dispatcher = count_drop d;
        shared = record_dispatcher_dropped g;
        drop_alert = none;
      }
      else if leb d.queue_capacity (length d.queue)
      then full config (should_log_drop now (count_drop d)) (record_dispatcher_dropped g)
      else append_job job d g

  unfoldable pub enqueue :
      Option (NotificationSettings W) → ℕ → Job W → Dispatcher W → Shared → Enqueued W
  enqueue stored now job d g =
      let (config, d') = get_runtime_config stored now d in
      enqueue_in now job config (apply_queue_capacity config.queue_capacity (d', g))

  shifted : List (Job W) → List (Job W)
  unfolding copy set_at
  shifted queue =
      take (length queue - 1) (set_at (length queue - 1) no_job (copy queue (drop 1 queue)))

  unfoldable pub dequeue_in : List (Job W) → Dispatcher W → Next W
  unfolding shifted
  dequeue_in [] d = if d.closed then stops else waits
  dequeue_in (job ∷ rest) d = takes job (record d { queue = shifted (job ∷ rest) })

  unfoldable pub dequeue : Dispatcher W → Next W
  dequeue d = dequeue_in d.queue d

  -- The end of a turn of run.
  unfoldable pub count_processed : Dispatcher W × Shared → Dispatcher W × Shared
  count_processed (d, g) = (
    record d { stats = record d.stats { processed = bump d.stats.processed } },
    record_dispatcher_processed g,
  )

  -- Close does nothing the second time.
  unfoldable pub close : Dispatcher W × Shared → Dispatcher W × Shared
  close (d, g) =
      if d.closed
      then (d, g)
      else (record d { closed = true }, record_dispatcher_closed d.queue_capacity g)

  unfoldable pub finish_drop_alert : Dispatcher W → Dispatcher W
  finish_drop_alert d = record d { drop_alert_in_flight = false }

  module _ (send : NotificationSettings W → AlertEvent W → Bool) (f : Float W) where
    drop_event : DropAlert W → ℕ → AlertEvent W
    drop_event a at = record {
      node_id = "dispatcher";
      node_name = "Alert Dispatcher";
      metric = dispatcher_queue;
      severity = warning;
      value = f.of_nat a.total_dropped;
      threshold = f.of_nat a.capacity;
      observed_at = at;
    }

    drop_alert_in : NotificationSettings W → AlertEvent W → Tables W → Tables W
    drop_alert_in s e db =
        if s.enabled && (s.channel == "telegram" && not (is_empty s.telegram_targets))
        then if should_send_alert e.node_id e.metric (s.cooldown_minutes * 60) e.observed_at db
          then if send s e
            then record_alert_delivery e (record db { log = alerted e ∷ db.log })
            else db
          else db
        else db

    -- sendDropAlert, which finishDropAlert follows. Settings that were not read are not enabled.
    unfoldable pub send_drop_alert : DropAlert W → ℕ → Tables W → Tables W
    unfolding drop_event drop_alert_in
    send_drop_alert a now db = elim a.settings [
      | none ↦ db
      | some s ↦ drop_alert_in s (drop_event a (now / 10 ^ 9)) db
    ]

    -- One job of run; what the evaluator reads, the settings and the clock in
    -- seconds, comes with it.
    unfoldable pub run_job : Option (NotificationSettings W) → ℕ → Job W → Alerts W → Alerts W
    run_job stored now no_job a = a
    run_job stored now (metrics_job node m) a = record a {
      tables = (process send f stored now node m a.tables).0;
    }
    run_job stored now (heartbeat_job node online at) a =
        (process_heartbeat send f stored now node online at a).0
