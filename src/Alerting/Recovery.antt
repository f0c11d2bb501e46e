-- ===== src/Alerting/Recovery.antt =====
-- When a recovery is told, and what is left afterwards.
use thism.Base.{
  ℕ, suc, ◌*◌, ◌≤◌, ◌<◌, ◌≡◌, refl, ◌∙◌, sym, ◌⊎◌, inl, inr, Bool, true, false, none, List, [], ◌∷◌,
  ◌++◌, String, not, string_eq, nat_eq, if◌then◌else◌, ltb, filter, find_first, update_first,
  any_of, arith, Bool-cases,
}
use text.Mathlib.TextEquality.{eq_iff}
use thism.Alerting.Settings.{Metric, metric_eq, metric_beq_iff, NotificationSettings, AlertEvent}
use thism.Alerting.Deliveries.{
  Tables, RecoveryState, recovered, cleared, is_alert, is_streak, successes_of, recovery_streak,
  has_active_alert_delivery, clear_alert_delivery, should_send_recovery, record_recovery_delivery,
  increment_recovery_streak, reset_recovery_state,
}
use thism.Alerting.Evaluator.{recovery_step, recover, end_alert}

any-filter-not {ℓ} :
    {A : Type ℓ} (p : A → Bool) (xs : List A) → any_of p (filter (λ x. not (p x)) xs) ≡ false
unfolding any_of filter
any-filter-not p [] = refl
any-filter-not p (x ∷ xs) = ground (arith, any-filter-not p xs)

find-filter-not {ℓ} :
    {A : Type ℓ} (p : A → Bool) (xs : List A) → find_first p (filter (λ x. not (p x)) xs) ≡ none
unfolding find_first filter
find-filter-not p [] = refl
find-filter-not p (x ∷ xs) = ground (arith, find-filter-not p xs)

increment-streak :
    (p : RecoveryState → Bool) (up : RecoveryState → RecoveryState) (new : RecoveryState)
    (rs : List RecoveryState)
    → ((r : RecoveryState) → p (up r) ≡ p r)
    → ((r : RecoveryState) → (up r).consecutive_successes ≡ suc r.consecutive_successes)
    → p new ≡ true
    → new.consecutive_successes ≡ 1
    → successes_of (find_first p (if any_of p rs then update_first p up rs else rs ++ (new ∷ [])))
      ≡ suc (successes_of (find_first p rs))
unfolding any_of find_first update_first successes_of
increment-streak p up new [] k c n o = ground arith
increment-streak p up new (r ∷ rs) k c n o =
    ground (arith, k r, c r, increment-streak p up new rs k c n o)

module _ {W : Type 0} where
  increment_recovery_streak-count :
      (node : String) (metric : Metric) (at : ℕ) (db : Tables W)
      → (increment_recovery_streak node metric at db).1 ≡ suc (recovery_streak node metric db)
  unfolding increment_recovery_streak recovery_streak
  increment_recovery_streak-count node metric at db =
      increment-streak (is_streak node metric) _ _ db.streaks (λ r. refl) (λ r. omega arith)
        (ground (arith, eq_iff node node, metric_beq_iff metric metric)) refl

  reset-streak :
      (node : String) (metric : Metric) (db : Tables W)
      → recovery_streak node metric (reset_recovery_state node metric db) ≡ 0
  unfolding reset_recovery_state recovery_streak successes_of
  reset-streak node metric db = rw (find-filter-not (is_streak node metric) db.streaks) refl

  -- The key has no active alert and no streak.
  pub record Ended (node : String) (metric : Metric) (db : Tables W) : Type 0 where
    pub quiet : has_active_alert_delivery node metric db ≡ false
    pub fresh : recovery_streak node metric db ≡ 0

  -- The alert of the key still stands, and its streak is `count`.
  pub record Standing (node : String) (metric : Metric) (count : ℕ) (db : Tables W) : Type 0 where
    pub active : has_active_alert_delivery node metric db ≡ true
    pub counted : recovery_streak node metric db ≡ count

  module _ (send : NotificationSettings W → AlertEvent W → Bool) where
    end_alert-Ended :
        (e : AlertEvent W) (db : Tables W) → Ended e.node_id e.metric (end_alert send e db)
    unfolding end_alert
    end_alert-Ended e db = record {
      quiet =
          unfold has_active_alert_delivery reset_recovery_state clear_alert_delivery in
          any-filter-not (is_alert e.node_id e.metric) db.alerts;
      fresh = reset-streak e.node_id e.metric _;
    }

    counted-Standing :
        (e : AlertEvent W) (db : Tables W)
        → has_active_alert_delivery e.node_id e.metric db ≡ true
        → Standing e.node_id e.metric
            (suc (recovery_streak e.node_id e.metric db))
            (increment_recovery_streak e.node_id e.metric e.observed_at db).0
    counted-Standing e db h = record {
      active = unfold increment_recovery_streak has_active_alert_delivery in h;
      counted =
          unfold increment_recovery_streak in
          increment_recovery_streak-count e.node_id e.metric e.observed_at db;
    }

    -- A recovery that is long enough: it is told and the alert ends, it is held back by the
    -- cooldown and the alert ends, or the send fails and the alert stands.
    abbrev pub Recovers :
        NotificationSettings W → AlertEvent W → Tables W → Tables W × Bool → Type 0
    Recovers s e db (after, failed) =
        ((failed ≡ false)
          × Ended e.node_id e.metric after
          × (after.log ≡ cleared e.node_id e.metric ∷ recovered e ∷ db.log)
          × (should_send_recovery e.node_id e.metric (s.recovery_notification_cooldown_minutes * 60)
                e.observed_at db
              ≡ true)
          × (send s e ≡ true))
        ⊎ ((failed ≡ false)
            × Ended e.node_id e.metric after
            × (after.log ≡ cleared e.node_id e.metric ∷ db.log)
            × (should_send_recovery e.node_id e.metric
                  (s.recovery_notification_cooldown_minutes * 60) e.observed_at db
                ≡ false))
        ⊎ ((failed ≡ true)
            × (send s e ≡ false)
            × Standing e.node_id e.metric (suc (recovery_streak e.node_id e.metric db)) after
            × (after.log ≡ db.log)
            × (should_send_recovery e.node_id e.metric
                  (s.recovery_notification_cooldown_minutes * 60) e.observed_at db
                ≡ true))

    recover-Recovers :
        (s : NotificationSettings W) (e : AlertEvent W) (db : Tables W)
        → has_active_alert_delivery e.node_id e.metric db ≡ true
        → Recovers s e db
            (recover send s e (increment_recovery_streak e.node_id e.metric e.observed_at db).0)
    unfolding recover
    recover-Recovers s e db active =
        let counted = (increment_recovery_streak e.node_id e.metric e.observed_at db).0 in
        let same : should_send_recovery e.node_id e.metric
              (s.recovery_notification_cooldown_minutes * 60) e.observed_at counted
            ≡ should_send_recovery e.node_id e.metric
                (s.recovery_notification_cooldown_minutes * 60) e.observed_at db =
          unfold should_send_recovery increment_recovery_streak in refl in
        elim (Bool-cases (
          should_send_recovery e.node_id e.metric (s.recovery_notification_cooldown_minutes * 60)
            e.observed_at counted)) [
              | inl allowed ↦ elim (Bool-cases (send s e)) [
                | inl ok ↦
                    rw (allowed, ok)
                      (inl (
                        refl,
                        end_alert-Ended e _,
                        unfold end_alert reset_recovery_state clear_alert_delivery
                              record_recovery_delivery increment_recovery_streak in
                            refl,
                        sym same ∙ allowed,
                        refl,
                      ))
                | inr failed ↦
                    rw (allowed, failed)
                      (inr (
                        inr (
                          refl,
                          refl,
                          counted-Standing e db active,
                          unfold increment_recovery_streak in refl,
                          sym same ∙ allowed,
                        )))
              ]
              | inr held ↦ rw held (
                  inr (
                    inl (
                      refl,
                      end_alert-Ended e _,
                      unfold end_alert reset_recovery_state clear_alert_delivery
                            increment_recovery_streak in
                          refl,
                      sym same ∙ held,
                    )))
            ]

-- One turn of the recovery loop for a key that has no active alert sends nothing, and the streak of
-- the key is 0. With an alert, the streak grows by one: below the samples that the settings ask for
-- the alert stands and nothing is sent; from there on the cooldown is over, the recovery is sent and the alert ends, or
-- the cooldown holds the message back and the alert ends all the same, or the cooldown is over and the send fails, which is
-- the error, and then the alert stands with its streak.
pub recovery_step_lem :
    {W : Type 0} (send : NotificationSettings W → AlertEvent W → Bool) (s : NotificationSettings W)
    (e : AlertEvent W) (db : Tables W)
    → ((has_active_alert_delivery e.node_id e.metric db ≡ false)
        × Ended e.node_id e.metric (recovery_step send s e db).0
        × ((recovery_step send s e db).0.log ≡ db.log)
        × ((recovery_step send s e db).1 ≡ false))
      ⊎ ((has_active_alert_delivery e.node_id e.metric db ≡ true)
          × (suc (recovery_streak e.node_id e.metric db) < s.recovery_successive_samples)
          × Standing e.node_id e.metric
              (suc (recovery_streak e.node_id e.metric db))
              (recovery_step send s e db).0
          × ((recovery_step send s e db).0.log ≡ db.log)
          × ((recovery_step send s e db).1 ≡ false))
      ⊎ ((has_active_alert_delivery e.node_id e.metric db ≡ true)
          × (s.recovery_successive_samples ≤ suc (recovery_streak e.node_id e.metric db))
          × Recovers send s e db (recovery_step send s e db))
unfolding recovery_step
recovery_step_lem send s e db =
    let grown = increment_recovery_streak-count e.node_id e.metric e.observed_at db in
    elim (Bool-cases (has_active_alert_delivery e.node_id e.metric db)) [
      | inl active ↦
          elim (Bool-cases (
            ltb (increment_recovery_streak e.node_id e.metric e.observed_at db).1
              s.recovery_successive_samples)) [
                | inl short ↦
                    rw (active, short)
                      (inr (
                        inl (
                          refl,
                          ground arith,
                          counted-Standing send e db active,
                          unfold increment_recovery_streak in refl,
                          refl,
                        )))
                | inr long ↦
                    rw (active, long)
                      (inr (inr (refl, ground arith, recover-Recovers send s e db active)))
              ]
      | inr quiet ↦ rw quiet (
          inl (
            refl,
            record {
              quiet = unfold reset_recovery_state has_active_alert_delivery in quiet;
              fresh = reset-streak e.node_id e.metric db;
            },
            unfold reset_recovery_state in refl,
            refl,
          ))
    ]
