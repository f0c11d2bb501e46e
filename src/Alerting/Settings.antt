-- ===== src/Alerting/Settings.antt =====
-- internal/models/notifications.go and the normalisation of the settings in internal/store/store.go.
-- A float64 is any type with the operations that the code uses; an int that is negative is read as 0.
use thism.Base.{
  ℕ, Bool, true, false, List, [], ◌∷◌, String, Eq, ◌≡◌, ◌↔◌, ◌==◌, ◌&&◌, ◌||◌, not, nat_eq,
  string_eq, if◌then◌else◌, contains, trim_space,
}
use thism.Models.{decide_iff}
use mathlib.Core.Bool.{decide}

pub record Float (W : Type 0) : Type 0 where
  pub of_nat : ℕ → W
  pub mul : W → W → W
  pub div : W → W → W
  pub round : W → W
  pub is_nan : W → Bool
  pub is_inf : W → Bool
  pub lt : W → W → Bool
  pub le : W → W → Bool
  pub gt : W → W → Bool
  pub ge : W → W → Bool

-- AlertSeverity
pub data Severity : Type 0 where
  warning critical resolved info : Severity

-- ResourceMetric
pub data Metric : Type 0 where
  cpu memory disk node_status dispatcher_queue : Metric

pub Metric-discrete : Discrete Metric
Metric-discrete = hlevel

unfoldable pub metric_beq : Metric → Metric → Bool
unfolding decide Metric-discrete
metric_beq a b = decide (Metric-discrete a b)

pub metric_beq_iff : (a b : Metric) → (metric_beq a b ≡ true) ↔ (a ≡ b)
unfolding metric_beq
metric_beq_iff a b = decide_iff (Metric-discrete a b)

instance abbrev pub metric_eq : Eq Metric
metric_eq = record { beq = metric_beq; beq_iff = metric_beq_iff }

pub Severity-discrete : Discrete Severity
Severity-discrete = hlevel

unfoldable pub severity_beq : Severity → Severity → Bool
unfolding decide Severity-discrete
severity_beq a b = decide (Severity-discrete a b)

pub severity_beq_iff : (a b : Severity) → (severity_beq a b ≡ true) ↔ (a ≡ b)
unfolding severity_beq
severity_beq_iff a b = decide_iff (Severity-discrete a b)

instance abbrev pub severity_eq : Eq Severity
severity_eq = record { beq = severity_beq; beq_iff = severity_beq_iff }

pub record TelegramTarget : Type 0 where
  pub name : String
  pub chat_id : String
  pub topic_id : ℕ

abbrev pub normalized : TelegramTarget → TelegramTarget
normalized t = record t { name = trim_space t.name; chat_id = trim_space t.chat_id }

pub record NotificationSettings (W : Type 0) : Type 0 where
  pub enabled : Bool
  pub channel : String
  pub telegram_bot_token : String
  pub telegram_targets : List TelegramTarget
  pub enabled_node_ids : List String
  pub node_scope_mode : String
  pub node_scope_node_ids : List String
  pub cpu_warning_percent : W
  pub cpu_critical_percent : W
  pub mem_warning_percent : W
  pub mem_critical_percent : W
  pub disk_warning_percent : W
  pub disk_critical_percent : W
  pub cooldown_minutes : ℕ
  pub recovery_successive_samples : ℕ
  pub recovery_notification_cooldown_minutes : ℕ
  pub notify_node_offline : Bool
  pub notify_node_online : Bool
  pub time_zone_mode : String
  pub time_zone : String
  pub node_offline_grace_minutes : ℕ
  pub dispatcher_queue_capacity : ℕ
  pub notify_dispatcher_drops : Bool

pub record AlertEvent (W : Type 0) : Type 0 where
  pub node_id : String
  pub node_name : String
  pub metric : Metric
  pub severity : Severity
  pub value : W
  pub threshold : W
  pub observed_at : ℕ

abbrev pub default_dispatcher_queue_capacity : ℕ
default_dispatcher_queue_capacity = 256

abbrev pub or_else : ℕ → ℕ → ℕ
or_else n d = if n == 0 then d else n

-- normalizeNodeIDs: trimmed, not empty, and each once, in the order of their first occurrence.
-- `seen` holds what was kept.
unfoldable pub clean_ids : List String → List String → List String
clean_ids seen [] = []
clean_ids seen (id ∷ ids) =
    let t = trim_space id in
    let skipped = clean_ids seen ids in
    let kept = t ∷ clean_ids (t ∷ seen) ids in if t == "" || contains seen t then skipped else kept

unfoldable pub normalize_node_ids : List String → List String
unfolding clean_ids
normalize_node_ids ids = clean_ids [] ids

clean_targets : List TelegramTarget → List TelegramTarget
clean_targets [] = []
clean_targets (t ∷ ts) =
    let rest = clean_targets ts in
    let n = normalized t in if n.chat_id == "" then rest else n ∷ rest

unfoldable pub normalize_notification_time_zone_mode : String → String
normalize_notification_time_zone_mode mode =
    if trim_space mode == "custom" then "custom" else "system"

abbrev pub is_empty {ℓ} : {A : Type ℓ} → List A → Bool
is_empty [] = true
is_empty (x ∷ xs) = false

-- The first of the three rules for the scope: a mode that is not given is found from the lists.
scope_given : String → List String → List String → String × List String
scope_given mode scope enabled =
    if mode == ""
    then if not (is_empty scope)
      then ("include", scope)
      else if not (is_empty enabled)
      then ("include", enabled)
      else ("all", scope)
    else (mode, scope)

scope_known : String × List String → String × List String
scope_known (mode, scope) =
    if mode == "all" || (mode == "include" || mode == "exclude") then (mode, scope) else ("all", [])

scope_legacy : List String → String × List String → String × List String
scope_legacy enabled (mode, scope) =
    if mode == "all" && (is_empty scope && not (is_empty enabled))
    then ("include", enabled)
    else (mode, scope)

unfoldable pub normalize_scope : String → List String → List String → String × List String
unfolding scope_given scope_known scope_legacy
normalize_scope mode scope enabled =
    scope_legacy enabled (scope_known (scope_given (trim_space mode) scope enabled))

module _ {W : Type 0} (f : Float W) where
  percent_or : W → ℕ → W
  percent_or p d = if f.le p (f.of_nat 0) then f.of_nat d else p

  unfoldable pub normalize_notification_settings : NotificationSettings W → NotificationSettings W
  unfolding percent_or clean_targets
  normalize_notification_settings s =
      let mode = normalize_notification_time_zone_mode s.time_zone_mode in
      let enabled_ids = normalize_node_ids s.enabled_node_ids in
      let (scope_mode, scope_ids) =
        normalize_scope s.node_scope_mode (normalize_node_ids s.node_scope_node_ids) enabled_ids in
      record s {
        channel = if trim_space s.channel == "" then "telegram" else s.channel;
        cpu_warning_percent = percent_or s.cpu_warning_percent 85;
        cpu_critical_percent = percent_or s.cpu_critical_percent 95;
        mem_warning_percent = percent_or s.mem_warning_percent 85;
        mem_critical_percent = percent_or s.mem_critical_percent 95;
        disk_warning_percent = percent_or s.disk_warning_percent 85;
        disk_critical_percent = percent_or s.disk_critical_percent 95;
        cooldown_minutes = or_else s.cooldown_minutes 30;
        recovery_successive_samples = or_else s.recovery_successive_samples 3;
        recovery_notification_cooldown_minutes =
            or_else s.recovery_notification_cooldown_minutes 30;
        time_zone_mode = mode;
        time_zone = if mode == "custom" then trim_space s.time_zone else "";
        dispatcher_queue_capacity =
            or_else s.dispatcher_queue_capacity default_dispatcher_queue_capacity;
        telegram_targets = clean_targets s.telegram_targets;
        enabled_node_ids = enabled_ids;
        node_scope_mode = scope_mode;
        node_scope_node_ids = scope_ids;
      }
