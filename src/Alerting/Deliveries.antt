-- ===== src/Alerting/Deliveries.antt =====
-- internal/store/store.go: the tables of the alerts that were delivered and of the recoveries.
use thism.Base.{
  ℕ, ◌+◌, Bool, true, Option, none, some, List, [], ◌∷◌, ◌++◌, String, ◌==◌, ◌&&◌, not, max,
  string_eq, nat_eq, if◌then◌else◌, leb, filter, find_first, update_first, any_of,
}
use thism.Alerting.Settings.{Severity, severity_eq, Metric, metric_eq, AlertEvent}

pub record AlertDelivery (W : Type 0) : Type 0 where
  pub node_id : String
  pub metric : Metric
  pub severity : Severity
  pub value : W
  pub threshold : W
  pub delivered_at : ℕ

pub record RecoveryDelivery : Type 0 where
  pub node_id : String
  pub metric : Metric
  pub delivered_at : ℕ

pub record RecoveryState : Type 0 where
  pub node_id : String
  pub metric : Metric
  pub consecutive_successes : ℕ
  pub last_observed_at : ℕ

-- What the calls of ClearAlertDelivery and of Send did: `log` holds the events that were sent and
-- the keys that were cleared, newest first.
pub data Entry (W : Type 0) : Type 0 where
  alerted : AlertEvent W → Entry W
  recovered : AlertEvent W → Entry W
  cleared : String → Metric → Entry W

pub record Tables (W : Type 0) : Type 0 where
  pub alerts : List (AlertDelivery W)
  pub recoveries : List RecoveryDelivery
  pub streaks : List RecoveryState
  pub log : List (Entry W)

abbrev pub is_recovery : String → Metric → RecoveryDelivery → Bool
is_recovery node metric r = r.node_id == node && r.metric == metric

unfoldable pub delivered_at_of : Option RecoveryDelivery → ℕ
delivered_at_of none = 0
delivered_at_of (some r) = r.delivered_at

abbrev pub is_streak : String → Metric → RecoveryState → Bool
is_streak node metric r = r.node_id == node && r.metric == metric

unfoldable pub successes_of : Option RecoveryState → ℕ
successes_of none = 0
successes_of (some r) = r.consecutive_successes

module _ {W : Type 0} where
  abbrev pub is_alert : String → Metric → AlertDelivery W → Bool
  is_alert node metric r = r.node_id == node && r.metric == metric

  -- SELECT MAX(delivered_at), 0 for no row.
  unfoldable pub max_delivered_at : String → Metric → List (AlertDelivery W) → ℕ
  max_delivered_at node metric [] = 0
  max_delivered_at node metric (r ∷ rs) =
      let rest = max_delivered_at node metric rs in
      if is_alert node metric r then max r.delivered_at rest else rest

  -- `cooldown` is in seconds. The severity is not looked at.
  unfoldable pub should_send_alert : String → Metric → ℕ → ℕ → Tables W → Bool
  should_send_alert node metric cooldown now db =
      let last = max_delivered_at node metric db.alerts in
      if cooldown == 0 then true else if last == 0 then true else leb (last + cooldown) now

  -- INSERT … ON CONFLICT(node_id, metric, severity) DO UPDATE.
  unfoldable pub upsert_alert : AlertDelivery W → List (AlertDelivery W) → List (AlertDelivery W)
  upsert_alert new [] = new ∷ []
  upsert_alert new (r ∷ rs) =
      let rest = r ∷ upsert_alert new rs in
      if is_alert new.node_id new.metric r && r.severity == new.severity then new ∷ rs else rest

  unfoldable pub record_alert_delivery : AlertEvent W → Tables W → Tables W
  record_alert_delivery e db = record db {
    alerts =
        upsert_alert
          (record {
            node_id = e.node_id;
            metric = e.metric;
            severity = e.severity;
            value = e.value;
            threshold = e.threshold;
            delivered_at = e.observed_at;
          })
          db.alerts;
  }

  unfoldable pub has_active_alert_delivery : String → Metric → Tables W → Bool
  has_active_alert_delivery node metric db = any_of (is_alert node metric) db.alerts

  unfoldable pub clear_alert_delivery : String → Metric → Tables W → Tables W
  clear_alert_delivery node metric db = record db {
    alerts = filter (λ r. not (is_alert node metric r)) db.alerts;
    log = cleared node metric ∷ db.log;
  }

  unfoldable pub should_send_recovery : String → Metric → ℕ → ℕ → Tables W → Bool
  unfolding delivered_at_of
  should_send_recovery node metric cooldown now db =
      let last = delivered_at_of (find_first (is_recovery node metric) db.recoveries) in
      if cooldown == 0 then true else if last == 0 then true else leb (last + cooldown) now

  unfoldable pub record_recovery_delivery : AlertEvent W → Tables W → Tables W
  record_recovery_delivery e db = record db {
    recoveries =
        if any_of (is_recovery e.node_id e.metric) db.recoveries
        then update_first (is_recovery e.node_id e.metric)
            (λ r. record r { delivered_at = e.observed_at }) db.recoveries
        else db.recoveries
          ++ (record { node_id = e.node_id; metric = e.metric; delivered_at = e.observed_at } ∷ []);
  }

  unfoldable pub recovery_streak : String → Metric → Tables W → ℕ
  unfolding successes_of
  recovery_streak node metric db = successes_of (find_first (is_streak node metric) db.streaks)

  -- The new row, and its count read back.
  unfoldable pub increment_recovery_streak : String → Metric → ℕ → Tables W → Tables W × ℕ
  increment_recovery_streak node metric observed_at db =
      let db' = record db {
        streaks =
            if any_of (is_streak node metric) db.streaks
            then update_first (is_streak node metric)
                (λ r. record r {
                  consecutive_successes = r.consecutive_successes + 1;
                  last_observed_at = observed_at;
                })
                db.streaks
            else db.streaks
              ++ (record {
                node_id = node;
                metric = metric;
                consecutive_successes = 1;
                last_observed_at = observed_at;
              }
                  ∷ []);
      } in
      (db', recovery_streak node metric db')

  unfoldable pub reset_recovery_state : String → Metric → Tables W → Tables W
  reset_recovery_state node metric db = record db {
    streaks = filter (λ r. not (is_streak node metric r)) db.streaks;
  }
