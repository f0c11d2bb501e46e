-- ===== src/Alerting/Connection.antt =====
-- The heartbeats of one connection: api.go's handleAgentWS makes a dispatcher, with an evaluator of
-- its own, for a connection, and enqueues one heartbeat when it opens and one when it closes.
use thism.Base.{
  ℕ, ◌≡◌, refl, ap, ◌⊎◌, inl, inr, Bool, true, false, Option, none, some, [], ◌∷◌, ◌==◌, string_eq,
  if◌then◌else◌, Bool-cases, arith,
}
use text.Mathlib.TextEquality.{eq_iff}
use thism.Base.Table.{lookup, insert, delete}
use thism.Alerting.Settings.{Float, NotificationSettings, AlertEvent, or_else}
use thism.Alerting.Deliveries.{Tables}
use thism.Alerting.Evaluator.{
  AlertNode, Alerts, process_heartbeat, heartbeat_in, notify, status_event, is_watched,
}

-- What a heartbeat finds: the settings, none if they cannot be read, and the clock.
pub record Moment (W : Type 0) : Type 0 where
  pub settings : Option (NotificationSettings W)
  pub now : ℕ
  pub observed_at : ℕ

abbrev pub fresh_alerts : {W : Type 0} → Tables W → Alerts W
fresh_alerts db = record { tables = db; status_state = []; notified = [] }

module _ {W : Type 0} (send : NotificationSettings W → AlertEvent W → Bool) (f : Float W)
    (node : AlertNode) where
  unfoldable pub beat : Moment W → Bool → Alerts W → Alerts W
  beat t online a = (process_heartbeat send f t.settings t.now node online t.observed_at a).0

  -- The connection opens and closes; either heartbeat is missing where the connection is stale or
  -- the queue is full.
  unfoldable pub connection : Option (Moment W) → Option (Moment W) → Alerts W → Alerts W
  connection opened closed a =
      let up : Alerts W = elim opened [ none ↦ a | some t ↦ beat t true a ] in
      elim closed [ none ↦ up | some t ↦ beat t false up ]

  seen : Tables W → Alerts W
  seen db = record { tables = db; status_state = (node.id, true) ∷ []; notified = [] }

  first-beat :
      (t : Moment W) (online : Bool) (db : Tables W)
      → (beat t online (fresh_alerts db)).notified ≡ []
  unfolding beat process_heartbeat heartbeat_in lookup
  first-beat t online db = go t.settings
    where
      go :
          (settings : Option (NotificationSettings W))
          → (process_heartbeat send f settings t.now node online t.observed_at
              (fresh_alerts db)).0.notified
            ≡ []
      go none = refl
      go (some s) = elim (Bool-cases (is_watched send s node.id)) [
        | inl watched ↦ rw watched refl
        | inr other ↦ rw other refl
      ]

  opening :
      (t : Moment W) (db : Tables W)
      → (beat t true (fresh_alerts db) ≡ fresh_alerts db)
        ⊎ (beat t true (fresh_alerts db) ≡ seen db)
  unfolding beat process_heartbeat heartbeat_in lookup insert delete seen
  opening t db = go t.settings
    where
      go :
          (settings : Option (NotificationSettings W))
          → ((process_heartbeat send f settings t.now node true t.observed_at (fresh_alerts db)).0
              ≡ fresh_alerts db)
            ⊎ ((process_heartbeat send f settings t.now node true t.observed_at (fresh_alerts db)).0
                ≡ seen db)
      go none = inl refl
      go (some s) = elim (Bool-cases (is_watched send s node.id)) [
        | inl watched ↦ rw watched (inr refl)
        | inr other ↦ rw other (inl refl)
      ]

  either-branch :
      (P : Alerts W → Type 0) (wanted ok : Bool) (told a : Alerts W)
      → P told
      → P a
      → P
          (if◌then◌else◌ {A = Alerts W × Bool} wanted
            (if ok then (told, false) else (a, true))
            (a, false)).0
  either-branch P true true told a p q = p
  either-branch P true false told a p q = q
  either-branch P false ok told a p q = q

  Told : Moment W → Alerts W → Type 0
  Told t a =
      (a.notified ≡ [])
      ⊎ (a.notified ≡ status_event send f node false (or_else t.observed_at t.now) ∷ [])

  notify-Told :
      (s : NotificationSettings W) (t : Moment W) (a : Alerts W)
      → a.notified ≡ []
      → Told t (notify send f s node false (or_else t.observed_at t.now) a).0
  unfolding notify Told
  notify-Told s t a none_yet =
      let event = status_event send f node false (or_else t.observed_at t.now) in
      either-branch (Told t) s.notify_node_offline (send s event)
        (record a { notified = event ∷ a.notified }) a (inr (ap (λ es. event ∷ es) none_yet))
        (inl none_yet)

  closing : (t : Moment W) (db : Tables W) → Told t (beat t false (seen db))
  unfolding beat process_heartbeat heartbeat_in lookup seen
  closing t db = go t.settings
    where
      self : (node.id == node.id) ≡ true
      self = ground (arith, eq_iff node.id node.id)

      go :
          (settings : Option (NotificationSettings W))
          → Told t (process_heartbeat send f settings t.now node false t.observed_at (seen db)).0
      go none = unfold Told in inl refl
      go (some s) = elim (Bool-cases (is_watched send s node.id)) [
        | inl watched ↦ rw (watched, self) (notify-Told s t _ refl)
        | inr other ↦ rw other (unfold Told in inl refl)
      ]

  Outcome : Option (Moment W) → Option (Moment W) → Alerts W → Type 0
  Outcome opened closed a =
      (a.notified ≡ [])
      ⊎ ((o : Moment W) × (c : Moment W) × (opened ≡ some o)
          × (closed ≡ some c)
          × (a.notified ≡ status_event send f node false (or_else c.observed_at c.now) ∷ []))

  closes :
      (o c : Moment W) (db : Tables W) (a : Alerts W)
      → (a ≡ fresh_alerts db) ⊎ (a ≡ seen db)
      → Outcome (some o) (some c) (beat c false a)
  unfolding Told Outcome
  closes o c db a (inl p) = rw p (inl (first-beat c false db))
  closes o c db a (inr p) = rw p (told_in (closing c db))
    where
      told_in : Told c (beat c false (seen db)) → Outcome (some o) (some c) (beat c false (seen db))
      told_in (inl quiet) = inl quiet
      told_in (inr told) = inr (o, c, refl, refl, told)

  opened-quiet :
      (o : Moment W) (db : Tables W) → Outcome (some o) none (beat o true (fresh_alerts db))
  unfolding Outcome
  opened-quiet o db = inl (first-beat o true db)

-- Over one connection, from an evaluator that has seen nothing and told nothing, no heartbeat tells that the node came online: at most one event is sent, and it
-- is the one that the node went offline, sent when the connection closes, and only if the heartbeat
-- of its opening was seen as well. The option of the settings to tell that a node is online has no
-- effect.
pub connection_lem :
    {W : Type 0} (send : NotificationSettings W → AlertEvent W → Bool) (f : Float W)
    (node : AlertNode) (opened closed : Option (Moment W)) (db : Tables W)
    → ((connection send f node opened closed (fresh_alerts db)).notified ≡ [])
      ⊎ ((o : Moment W) × (c : Moment W) × (opened ≡ some o)
          × (closed ≡ some c)
          × ((connection send f node opened closed (fresh_alerts db)).notified
              ≡ status_event send f node false (or_else c.observed_at c.now) ∷ []))
unfolding connection Outcome
connection_lem send f node none none db = inl refl
connection_lem send f node none (some c) db = inl (first-beat send f node c false db)
connection_lem send f node (some o) none db = opened-quiet send f node o db
connection_lem send f node (some o) (some c) db =
    closes send f node o c db _ (opening send f node o db)
