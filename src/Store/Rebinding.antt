-- ===== src/Store/Rebinding.antt =====
-- internal/store/updates_concurrency.go: the handshake of an agent whose stream the server has lost.
use thism.Base.{
  lit, ◌∷◌, [], find_first-append_none, find_first-update_first, ◌∙◌, ==_self, ℕ, ◌≡◌, refl, false,
  none, some, String, ◌==◌, string_eq,
}
use thism.Models.{CommandStream, control_quarantined}
use thism.Store.Tables.{Db, find_stream, is_stream, update_stream, audit_event}
use thism.Store.Streams.{
  new_stream, ensure_stream, ensure_in, reconcile_command_stream, reconcile_in, reconcile_open,
  reconcile_mismatch,
}

ensured-none :
    (fresh node : String) (now : ℕ) (db : Db)
    → find_stream node db ≡ none
    → ensure_stream fresh node now db ≡ ensure_in fresh node now none db
unfolding ensure_stream
ensured-none fresh node now db h = rw h refl

created-found :
    (fresh node : String) (now : ℕ) (db : Db)
    → find_stream node db ≡ none
    → find_stream node (ensure_in fresh node now none db).0 ≡ some (new_stream node fresh now)
unfolding ensure_in audit_event find_stream
created-found fresh node now db h =
    find_first-append_none (is_stream node) db.streams (new_stream node fresh now) h (==_self node)

mismatch-found :
    (node agent_stream : String) (now : ℕ) (s t : CommandStream) (db : Db)
    → find_stream node db ≡ some t
    → (u : CommandStream) × (find_stream node (reconcile_mismatch node agent_stream now s db).0
        ≡ some u)
      × (u.stream_id ≡ t.stream_id)
      × (u.control_state ≡ control_quarantined)
unfolding reconcile_mismatch audit_event update_stream find_stream
mismatch-found node agent_stream now s t db h =
    let isolate : CommandStream → CommandStream = λ r. record r {
      control_state = control_quarantined;
      control_reason =
          lit "stream mismatch: agent has "
          ∷ lit agent_stream
          ∷ lit ", server has "
          ∷ lit s.stream_id
          ∷ [];
      updated_at = now;
    } in
    (
      isolate t,
      find_first-update_first (is_stream node) isolate db.streams (λ x. refl) ∙ rw h refl,
      refl,
      refl,
    )

reconcile-missing :
    (fresh node agent_stream : String) (agent_watermark now : ℕ) (db : Db)
    → find_stream node db ≡ none
    → (agent_stream == "") ≡ false
    → (agent_stream == fresh) ≡ false
    → reconcile_command_stream fresh node agent_stream agent_watermark now db
      ≡ reconcile_mismatch node agent_stream now
          (new_stream node fresh 0)
          (ensure_in fresh node now none db).0
unfolding reconcile_command_stream reconcile_in reconcile_open
reconcile-missing fresh node agent_stream agent_watermark now db h a f =
    rw (ensured-none fresh node now db h) (unfold ensure_in in rw (a, f) refl)

-- A handshake of an agent that has a stream, with a server that has none for its node, gives the
-- node a stream with a fresh id and quarantines it, unless the fresh id is the agent's.
pub reconcile_command_stream-missing :
    (fresh node agent_stream : String) (agent_watermark now : ℕ) (db : Db)
    → find_stream node db ≡ none
    → (agent_stream == "") ≡ false
    → (agent_stream == fresh) ≡ false
    → let (db', s) = reconcile_command_stream fresh node agent_stream agent_watermark now db in
      (s.stream_id ≡ fresh)
      × (s.control_state ≡ control_quarantined)
      × (t : CommandStream) × (find_stream node db' ≡ some t)
      × (t.stream_id ≡ fresh)
      × (t.control_state ≡ control_quarantined)
reconcile_command_stream-missing fresh node agent_stream agent_watermark now db h a f =
    let (u, found, id, state) =
      mismatch-found node agent_stream now (new_stream node fresh 0) (new_stream node fresh now)
        (ensure_in fresh node now none db).0 (created-found fresh node now db h) in
    rw (reconcile-missing fresh node agent_stream agent_watermark now db h a f)
      (unfold reconcile_mismatch in refl, unfold reconcile_mismatch in refl, u, found, id, state)
