-- ===== src/Tests/Alerting.antt =====
-- Runs of the alerting of a node "n1" with numbers for percentages: a processor above its threshold,
-- its recovery, and a dispatcher with room for two jobs.
use thism.Base.{
  ℕ, suc, ◌*◌, ◌≤◌, ◌<◌, ◌≡◌, refl, ◌⊎◌, Bool, true, false, none, some, List, [], ◌∷◌, ◌++◌, length,
  leb, ltb, arith,
}
use thism.Alerting.Settings.{
  Float, cpu, critical, resolved, NotificationSettings, AlertEvent, or_else,
}
use thism.Alerting.Deliveries.{Tables, recovery_streak, has_active_alert_delivery}
use thism.Alerting.Evaluator.{AlertNode, recovery_step, status_event}
use thism.Alerting.Spacing.{Sample, empty_tables}
use thism.Alerting.Recovery.{Ended, Standing, Recovers, recovery_step_lem}
use thism.Alerting.Connection.{Moment, connection, fresh_alerts, connection_lem}
use thism.Alerting.Dispatcher.{Job, heartbeat_job, Shared, Dispatcher, new_dispatcher}
use thism.Alerting.Fifo.{
  Call, enqueues, dequeues, processes, closes, FifoStep, fifo, call, call_refines,
}
use thism.Alerting.Accounting.{
  run_calls, accepted_jobs, taken_jobs, refusals, Counted, run_calls-order, new_dispatcher-Counted,
}
use thism.Alerting.Worker.{Drained, run_worker-drains}

abbrev numbers : Float ℕ
numbers = record {
  of_nat = λ n. n;
  mul = λ a b. a * b;
  div = λ a b. a;
  round = λ a. a;
  is_nan = λ a. false;
  is_inf = λ a. false;
  lt = ltb;
  le = leb;
  gt = λ a b. ltb b a;
  ge = λ a b. leb b a;
}

abbrev settings : NotificationSettings ℕ
settings = record {
  enabled = true;
  channel = "telegram";
  telegram_bot_token = "token";
  telegram_targets = record { name = "ops"; chat_id = "1"; topic_id = 0 } ∷ [];
  enabled_node_ids = [];
  node_scope_mode = "all";
  node_scope_node_ids = [];
  cpu_warning_percent = 85;
  cpu_critical_percent = 95;
  mem_warning_percent = 85;
  mem_critical_percent = 95;
  disk_warning_percent = 85;
  disk_critical_percent = 95;
  cooldown_minutes = 30;
  recovery_successive_samples = 1;
  recovery_notification_cooldown_minutes = 30;
  notify_node_offline = true;
  notify_node_online = true;
  time_zone_mode = "system";
  time_zone = "";
  node_offline_grace_minutes = 0;
  dispatcher_queue_capacity = 2;
  notify_dispatcher_drops = true;
}

abbrev sends : NotificationSettings ℕ → AlertEvent ℕ → Bool
sends s e = true

abbrev node : AlertNode
node = record { id = "n1"; name = "web" }

abbrev sample_at : ℕ → Sample ℕ
sample_at t = record {
  settings = some settings;
  now = t;
  node = node;
  metrics = record { ts = t; cpu = 99; mem_used = 0; mem_total = 0; disk = [] };
}

abbrev recovery : AlertEvent ℕ
recovery = record {
  node_id = "n1";
  node_name = "web";
  metric = cpu;
  severity = resolved;
  value = 10;
  threshold = 0;
  observed_at = 9000;
}

abbrev alerted_tables : Tables ℕ
alerted_tables = record {
  alerts =
      record {
        node_id = "n1";
        metric = cpu;
        severity = critical;
        value = 99;
        threshold = 95;
        delivered_at = 5000;
      }
      ∷ [];
  recoveries = [];
  streaks = [];
  log = [];
}

recovery_step_lem_example :
    ((has_active_alert_delivery "n1" cpu alerted_tables ≡ false)
      × Ended "n1" cpu (recovery_step sends settings recovery alerted_tables).0
      × ((recovery_step sends settings recovery alerted_tables).0.log ≡ [])
      × ((recovery_step sends settings recovery alerted_tables).1 ≡ false))
    ⊎ ((has_active_alert_delivery "n1" cpu alerted_tables ≡ true)
        × (suc (recovery_streak "n1" cpu alerted_tables) < 1)
        × Standing "n1" cpu
            (suc (recovery_streak "n1" cpu alerted_tables))
            (recovery_step sends settings recovery alerted_tables).0
        × ((recovery_step sends settings recovery alerted_tables).0.log ≡ [])
        × ((recovery_step sends settings recovery alerted_tables).1 ≡ false))
    ⊎ ((has_active_alert_delivery "n1" cpu alerted_tables ≡ true)
        × (1 ≤ suc (recovery_streak "n1" cpu alerted_tables))
        × Recovers sends settings recovery alerted_tables
            (recovery_step sends settings recovery alerted_tables))
recovery_step_lem_example = recovery_step_lem sends settings recovery alerted_tables

abbrev moment : ℕ → Moment ℕ
moment t = record { settings = some settings; now = t; observed_at = t }

connection_lem_example :
    ((connection sends numbers node
        (some (moment 10))
        (some (moment 20))
        (fresh_alerts empty_tables)).notified
      ≡ [])
    ⊎ ((o : Moment ℕ) × (c : Moment ℕ) × (some (moment 10) ≡ some o)
        × (some (moment 20) ≡ some c)
        × ((connection sends numbers node
              (some (moment 10))
              (some (moment 20))
              (fresh_alerts empty_tables)).notified
            ≡ status_event sends numbers node false (or_else c.observed_at c.now) ∷ []))
connection_lem_example =
    connection_lem sends numbers node (some (moment 10)) (some (moment 20)) empty_tables

abbrev nothing : Shared
nothing = record {
  active_dispatchers = 0;
  total_capacity = 0;
  queue_depth = 0;
  high_watermark = 0;
  enqueued = 0;
  processed = 0;
  dropped = 0;
}

abbrev new_one : Dispatcher ℕ × Shared
new_one = new_dispatcher (some settings) 0 2 nothing

abbrev up : Job ℕ
up = heartbeat_job node true 10

abbrev down : Job ℕ
down = heartbeat_job node false 20

call_refines_example :
    FifoStep
      (fifo new_one.0)
      (call (enqueues (some settings) 1 up) new_one).1
      (fifo (call (enqueues (some settings) 1 up) new_one).0.0)
call_refines_example = call_refines (enqueues (some settings) 1 up) new_one.0 new_one.1

-- Two jobs are accepted and a third is refused.
abbrev calls : List (Call ℕ)
calls =
    enqueues (some settings) 1 up
    ∷ enqueues (some settings) 2 down
    ∷ enqueues (some settings) 3 up
    ∷ dequeues
    ∷ processes
    ∷ closes
    ∷ []

run_calls-order_example :
    new_one.0.queue ++ accepted_jobs (run_calls calls new_one).1
    ≡ taken_jobs (run_calls calls new_one).1 ++ (run_calls calls new_one).0.0.queue
run_calls-order_example = run_calls-order calls new_one.0 new_one.1

new_dispatcher-Counted_example :
    Counted
      (length (accepted_jobs (run_calls calls (new_dispatcher (some settings) 0 2 nothing)).1))
      (refusals (run_calls calls (new_dispatcher (some settings) 0 2 nothing)).1)
      (run_calls calls (new_dispatcher (some settings) 0 2 nothing)).0.0
new_dispatcher-Counted_example = new_dispatcher-Counted (some settings) 0 2 nothing calls

-- A closed dispatcher that holds two jobs.
abbrev closing : Dispatcher ℕ
closing = record {
  queue = up ∷ down ∷ [];
  queue_capacity = 2;
  closed = true;
  stats = record { capacity = 2; high_watermark = 2; enqueued = 2; processed = 0; dropped = 0 };
  last_drop_log_at = none;
  dropped_at_last_log = 0;
  drop_log_interval = 0;
  runtime_config = record {
    queue_capacity = 2;
    notify_dispatcher_drops = true;
    settings = some settings;
  };
  runtime_config_loaded_at = some 0;
  runtime_config_refresh_interval = 0;
  drop_alert_in_flight = false;
}

run_worker-drains_example :
    Drained sends numbers moment 3 closing nothing (fresh_alerts empty_tables)
run_worker-drains_example =
    run_worker-drains sends numbers moment 3 closing nothing (fresh_alerts empty_tables)
      (omega arith) refl (omega arith)
