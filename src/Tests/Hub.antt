-- ===== src/Tests/Hub.antt =====
-- Runs of the hub: a node "n1" that connects twice, and one that leaves before its arrival is handled.
use thism.Base.{
  find_first, ℕ, ◌≡◌, refl, ◌≢◌, ◌⊎◌, true, false, none, some, [], ◌∷◌, string_eq, nat_eq,
}
use thism.Base.Table.{lookup, insert, delete}
use thism.Hub.Connections.{
  close_old, other_message, AgentConn, UnregisterRequest, Hub, new, new_conn, current, entry,
  begin_register, enqueue_register, unregister_generation, sent, send_to_agent, is_current,
  current_generation,
}
use thism.Hub.Loop.{run_register, run_unregister, matches_request}
use thism.Hub.Steps.{here, next, register}
use thism.Hub.Fencing.{replaced_not_current}
use thism.Hub.Races.{send_to_agent_lem, run_register-returns}

abbrev first : Hub
first = (begin_register "n1" (some 70) 100 new).0

abbrev first_conn : AgentConn
first_conn = record {
  node_id = "n1";
  generation = 1;
  conn = some 70;
  fenced = false;
  handshake_done = false;
  handshake_deadline = 130;
}

first-current : current "n1" first ≡ some first_conn
unfolding begin_register new new_conn current lookup insert delete entry close_old find_first
first-current = refl

first-closed : first.closed ≡ false
unfolding begin_register new close_old current
first-closed = refl

replaced_not_current_example :
    let k = (begin_register "n1" (some 71) 105 first).0 in
    (is_current "n1" 1 k ≡ false)
    × ((current_generation "n1" k ≡ 0) ⊎ (current_generation "n1" k ≢ 1))
replaced_not_current_example =
    replaced_not_current "n1" "n1" (some 71) 105 first_conn first
      (begin_register "n1" (some 71) 105 first).0 (next here (register "n1" (some 70) 100))
      first-closed first-current here

send_to_agent_lem_example :
    let (k, result) = send_to_agent true "n1" (other_message "update") first in
    ((result ≡ sent)
      × (first.closed ≡ false)
      × (e : AgentConn) × (current "n1" first ≡ some e)
      × (e.fenced ≡ false)
      × (s : ℕ) × (e.conn ≡ some s)
      × (k ≡ record first { written = (s, other_message "update") ∷ first.written }))
    ⊎ ((result ≢ sent) × (k ≡ first))
send_to_agent_lem_example = send_to_agent_lem true "n1" (other_message "update") first

abbrev leaving : UnregisterRequest
leaving = record { node_id = "n1"; conn = none; generation = 1 }

abbrev crossed : Hub
crossed = unregister_generation "n1" 1 (enqueue_register 1 first)

run_register-returns_example :
    (current "n1" (run_unregister crossed) ≡ none)
    × (current "n1" (run_register (run_unregister crossed)) ≡ some first_conn)
unfolding unregister_generation enqueue_register begin_register new new_conn current lookup insert
    delete entry matches_request close_old find_first
run_register-returns_example =
    run_register-returns leaving [] [] first_conn crossed refl refl refl refl refl refl
