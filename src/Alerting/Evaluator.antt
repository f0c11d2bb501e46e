-- ===== src/Alerting/Evaluator.antt =====
-- internal/alerting/alerting.go: the evaluator, from a sample of a node or a change of its
-- connection to the events that it sends. `send` is Sender.Send, which says whether it succeeded.
use thism.Base.{
  ℕ, ◌+◌, ◌*◌, ◌%◌, ◌^◌, Bool, true, false, Option, none, some, List, [], ◌∷◌, String, ◌==◌, ◌&&◌,
  ◌||◌, not, string_eq, nat_eq, if◌then◌else◌, ltb, contains,
}
use thism.Base.Table.{lookup, insert}
use thism.Alerting.Settings.{
  Float, Severity, warning, critical, resolved, info, Metric, cpu, memory, disk, node_status,
  NotificationSettings, AlertEvent, is_empty, or_else,
}
use thism.Alerting.Deliveries.{
  Tables, alerted, recovered, should_send_alert, record_alert_delivery, has_active_alert_delivery,
  clear_alert_delivery, should_send_recovery, record_recovery_delivery, increment_recovery_streak,
  reset_recovery_state,
}

-- The part of models.Node and models.MetricsPayload that alerts look at.
pub record AlertNode : Type 0 where
  pub id : String
  pub name : String

pub record DiskStats : Type 0 where
  pub device : String
  pub used : ℕ
  pub total : ℕ

pub record AlertMetrics (W : Type 0) : Type 0 where
  pub ts : ℕ
  pub cpu : W
  pub mem_used : ℕ
  pub mem_total : ℕ
  pub disk : List DiskStats

pub record EventState (W : Type 0) : Type 0 where
  pub metric : Metric
  pub value : W
  pub severity : Option Severity
  pub threshold : W

-- AggregateDiskTotals: a device that has a name counts once. The sums of uint64 wrap.
unfoldable pub aggregate_disk_totals : List String → List DiskStats → ℕ × ℕ
aggregate_disk_totals seen [] = (0, 0)
aggregate_disk_totals seen (d ∷ ds) =
    let unnamed = aggregate_disk_totals seen ds in
    let named = aggregate_disk_totals (d.device ∷ seen) ds in
    if d.device == ""
    then ((d.used + unnamed.0) % 2 ^ 64, (d.total + unnamed.1) % 2 ^ 64)
    else if contains seen d.device
    then unnamed
    else ((d.used + named.0) % 2 ^ 64, (d.total + named.1) % 2 ^ 64)

first_non_empty : String → String → String
first_non_empty a b = if a == "" then (if b == "" then "node" else b) else a

-- An empty scope mode is one of settings that were not normalised.
unfoldable pub in_scope : String → List String → String → Bool
in_scope mode ids node =
    if mode == "include"
    then is_empty ids || contains ids node
    else if mode == "exclude"
    then is_empty ids || not (contains ids node)
    else true

-- One record of what the evaluator keeps: the tables and, by node, the connection that was seen
-- last (statusState).
pub record Alerts (W : Type 0) : Type 0 where
  pub tables : Tables W
  pub status_state : List (String × Bool)
  pub notified : List (AlertEvent W)

module _ {W : Type 0} (f : Float W) where
  unfoldable pub clamp_percent : W → W
  clamp_percent v =
      if f.is_nan v || f.is_inf v
      then f.of_nat 0
      else if f.lt v (f.of_nat 0)
      then f.of_nat 0
      else if f.gt v (f.of_nat 100)
      then f.of_nat 100
      else f.div (f.round (f.mul v (f.of_nat 10))) (f.of_nat 10)

  ratio_percent : ℕ → ℕ → W
  unfolding clamp_percent
  ratio_percent used total =
      if total == 0
      then f.of_nat 0
      else clamp_percent (f.mul (f.div (f.of_nat used) (f.of_nat total)) (f.of_nat 100))

  -- The severity is none where nothing is triggered.
  unfoldable pub classify : W → W → W → Option Severity × W
  classify value warn crit =
      if f.gt crit (f.of_nat 0) && f.ge value crit
      then (some critical, crit)
      else if f.gt warn (f.of_nat 0) && f.ge value warn
      then (some warning, warn)
      else (none, f.of_nat 0)

  event_state : Metric → W → W → W → EventState W
  event_state metric value warn crit =
      let (severity, threshold) = classify value warn crit in
      record { metric = metric; value = value; severity = severity; threshold = threshold }

  unfoldable pub evaluate_states : AlertMetrics W → NotificationSettings W → List (EventState W)
  unfolding ratio_percent event_state
  evaluate_states m s =
      let (used, total) = aggregate_disk_totals [] m.disk in
      event_state cpu (clamp_percent m.cpu) s.cpu_warning_percent s.cpu_critical_percent
      ∷ event_state memory (ratio_percent m.mem_used m.mem_total) s.mem_warning_percent
          s.mem_critical_percent
      ∷ event_state disk (ratio_percent used total) s.disk_warning_percent s.disk_critical_percent
      ∷ []

  event_of : AlertNode → ℕ → EventState W → Severity → W → AlertEvent W
  event_of node at st severity threshold = record {
    node_id = node.id;
    node_name = first_non_empty node.name node.id;
    metric = st.metric;
    severity = severity;
    value = st.value;
    threshold = threshold;
    observed_at = at;
  }

  -- buildEvents: the alerts and the recoveries.
  unfoldable pub build_events :
      AlertNode → ℕ → List (EventState W) → List (AlertEvent W) × List (AlertEvent W)
  unfolding event_of first_non_empty
  build_events node at [] = ([], [])
  build_events node at (st ∷ sts) =
      let (alerts, recoveries) = build_events node at sts in
      elim st.severity [
        | none ↦ (alerts, event_of node at st resolved (f.of_nat 0) ∷ recoveries)
        | some severity ↦ (event_of node at st severity st.threshold ∷ alerts, recoveries)
      ]

module _ {W : Type 0} (send : NotificationSettings W → AlertEvent W → Bool) where
  -- One turn of the first loop of Process, and whether it returns an error.
  unfoldable pub alert_step : NotificationSettings W → AlertEvent W → Tables W → Tables W × Bool
  alert_step s e db =
      if should_send_alert e.node_id e.metric (s.cooldown_minutes * 60) e.observed_at db
      then if send s e
        then (
          reset_recovery_state e.node_id e.metric
              (record_alert_delivery e (record db { log = alerted e ∷ db.log })),
          false,
        )
        else (db, true)
      else (db, false)

  unfoldable pub alert_loop :
      NotificationSettings W → List (AlertEvent W) → Tables W → Tables W × Bool
  alert_loop s [] db = (db, false)
  alert_loop s (e ∷ es) db =
      let (db', failed) = alert_step s e db in
      let rest = alert_loop s es db' in if failed then (db', true) else rest

  unfoldable pub end_alert : AlertEvent W → Tables W → Tables W
  end_alert e db =
      reset_recovery_state e.node_id e.metric (clear_alert_delivery e.node_id e.metric db)

  -- What follows once the streak is long enough.
  unfoldable pub recover : NotificationSettings W → AlertEvent W → Tables W → Tables W × Bool
  unfolding end_alert
  recover s e db =
      if should_send_recovery e.node_id e.metric (s.recovery_notification_cooldown_minutes * 60)
        e.observed_at db
      then if send s e
        then (
          end_alert e (record_recovery_delivery e (record db { log = recovered e ∷ db.log })),
          false,
        )
        else (db, true)
      else (end_alert e db, false)

  -- One turn of the second loop.
  unfoldable pub recovery_step : NotificationSettings W → AlertEvent W → Tables W → Tables W × Bool
  unfolding recover
  recovery_step s e db =
      let (counted, count) = increment_recovery_streak e.node_id e.metric e.observed_at db in
      let ended = recover s e counted in
      if not (has_active_alert_delivery e.node_id e.metric db)
      then (reset_recovery_state e.node_id e.metric db, false)
      else if ltb count s.recovery_successive_samples
      then (counted, false)
      else ended

  unfoldable pub recovery_loop :
      NotificationSettings W → List (AlertEvent W) → Tables W → Tables W × Bool
  recovery_loop s [] db = (db, false)
  recovery_loop s (e ∷ es) db =
      let (db', failed) = recovery_step s e db in
      let rest = recovery_loop s es db' in if failed then (db', true) else rest

  -- Whether the settings let anything be sent for the node.
  unfoldable pub is_watched : NotificationSettings W → String → Bool
  is_watched s node =
      s.enabled
      && (s.channel == "telegram"
          && (not (is_empty s.telegram_targets)
              && (if s.node_scope_mode == ""
                  then is_empty s.enabled_node_ids || contains s.enabled_node_ids node
                  else in_scope s.node_scope_mode s.node_scope_node_ids node)))

  unfoldable pub process_in :
      NotificationSettings W
      → List (AlertEvent W) × List (AlertEvent W)
      → Tables W
      → Tables W × Bool
  process_in s (alerts, recoveries) db =
      let (db', failed) = alert_loop s alerts db in
      let rest = recovery_loop s recoveries db' in if failed then (db', true) else rest

  -- Process; the settings are none when they cannot be read. The clock is read for a sample
  -- without a time.
  unfoldable pub process :
      Float W
      → Option (NotificationSettings W)
      → ℕ
      → AlertNode
      → AlertMetrics W
      → Tables W
      → Tables W × Bool
  unfolding process_in
  process f none now node m db = (db, true)
  process f (some s) now node m db =
      if is_watched s node.id
      then process_in s (build_events f node (or_else m.ts now) (evaluate_states f m s)) db
      else (db, false)

  unfoldable pub status_event : Float W → AlertNode → Bool → ℕ → AlertEvent W
  unfolding first_non_empty
  status_event f node online at = record {
    node_id = node.id;
    node_name = first_non_empty node.name node.id;
    metric = node_status;
    severity = info;
    value = f.of_nat (if online then 1 else 0);
    threshold = f.of_nat (if online then 1 else 0);
    observed_at = at;
  }

  unfoldable pub notify :
      Float W → NotificationSettings W → AlertNode → Bool → ℕ → Alerts W → Alerts W × Bool
  unfolding status_event
  notify f s node online at a =
      if (if online then s.notify_node_online else s.notify_node_offline)
      then if send s (status_event f node online at)
        then (record a { notified = status_event f node online at ∷ a.notified }, false)
        else (a, true)
      else (a, false)

  unfoldable pub heartbeat_in :
      Float W
      → NotificationSettings W
      → ℕ
      → AlertNode
      → Bool
      → ℕ
      → Option Bool
      → Alerts W
      → Alerts W × Bool
  unfolding notify
  heartbeat_in f s now node online at none a =
      (record a { status_state = insert node.id online a.status_state }, false)
  heartbeat_in f s now node online at (some previous) a =
      if (if previous then online else not online)
      then (a, false)
      else notify f s node online (or_else at now)
          (record a { status_state = insert node.id online a.status_state })

  unfoldable pub process_heartbeat :
      Float W
      → Option (NotificationSettings W)
      → ℕ
      → AlertNode
      → Bool
      → ℕ
      → Alerts W
      → Alerts W × Bool
  unfolding heartbeat_in lookup
  process_heartbeat f none now node online at a = (a, true)
  process_heartbeat f (some s) now node online at a =
      if is_watched s node.id
      then heartbeat_in f s now node online at (lookup node.id a.status_state) a
      else (a, false)
