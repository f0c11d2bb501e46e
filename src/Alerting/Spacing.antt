-- ===== src/Alerting/Spacing.antt =====
-- Alerts of one node and metric are apart by the cooldown, over any samples.
use thism.Base.{
  Option, none, some, List, [], ℕ, ◌+◌, ◌*◌, ◌≤◌, ◌≡◌, ◌⊎◌, Bool, ◌∷◌, String, ◌==◌, ◌&&◌,
  string_eq, nat_eq, if◌then◌else◌,
}
use thism.Alerting.Settings.{Float, Metric, metric_eq, NotificationSettings, AlertEvent}
use thism.Alerting.Deliveries.{Tables, Entry, alerted, recovered, cleared, max_delivered_at}
use thism.Alerting.Evaluator.{AlertNode, AlertMetrics, process}

-- One call of Process: the settings that it reads, the clock, the node and its sample.
pub record Sample (W : Type 0) : Type 0 where
  pub settings : Option (NotificationSettings W)
  pub now : ℕ
  pub node : AlertNode
  pub metrics : AlertMetrics W

unfoldable pub run_samples :
    {W : Type 0}
    → (NotificationSettings W → AlertEvent W → Bool)
    → Float W
    → List (Sample W)
    → Tables W
    → Tables W
run_samples send f [] db = db
run_samples send f (x ∷ xs) db =
    run_samples send f xs (process send f x.settings x.now x.node x.metrics db).0

abbrev pub empty_tables : {W : Type 0} → Tables W
empty_tables = record { alerts = []; recoveries = []; streaks = []; log = [] }

module _ {W : Type 0} where
  -- The time of the last alert of a key since it was cleared, 0 if there is none.
  abbrev pub last_alert : String → Metric → List (Entry W) → ℕ
  last_alert node metric [] = 0
  last_alert node metric (alerted e ∷ es) =
      if e.node_id == node && e.metric == metric then e.observed_at else last_alert node metric es
  last_alert node metric (recovered e ∷ es) = last_alert node metric es
  last_alert node metric (cleared n m ∷ es) =
      if n == node && m == metric then 0 else last_alert node metric es

  -- Each alert is the first of its key since the key was cleared, or `gap` after the one before.
  abbrev pub Spaced : ℕ → List (Entry W) → Type 0
  Spaced gap [] = Unit
  Spaced gap (alerted e ∷ es) =
      ((last_alert e.node_id e.metric es ≡ 0)
        ⊎ (last_alert e.node_id e.metric es + gap ≤ e.observed_at))
      × Spaced gap es
  Spaced gap (recovered e ∷ es) = Spaced gap es
  Spaced gap (cleared n m ∷ es) = Spaced gap es

  -- The settings, if they can be read, ask for a cooldown of at least `gap` seconds.
  abbrev pub IsHeld : ℕ → Option (NotificationSettings W) → Type 0
  IsHeld gap none = Unit
  IsHeld gap (some s) = gap ≤ s.cooldown_minutes * 60

  -- The tables know of an alert at least as late as the last one.
  record Known (gap : ℕ) (db : Tables W) : Type 0 where
    spaced : Spaced gap db.log
    known :
        (node : String) (metric : Metric)
        → last_alert node metric db.log ≤ max_delivered_at node metric db.alerts
