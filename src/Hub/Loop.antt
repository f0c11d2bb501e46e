-- ===== src/Hub/Loop.antt =====
-- internal/hub/hub.go: the cases of Run's select, and Close.
use thism.Base.{
  ℕ, Bool, true, false, Option, none, some, List, [], ◌∷◌, ◌++◌, String, ◌==◌, ◌&&◌, nat_eq,
  string_eq, if◌then◌else◌, ltb, leb, length, update_where, map, any_of,
}
use thism.Base.Table.{insert, delete}
use thism.Hub.Connections.{
  WsMessage, node_status, AgentConn, UnregisterRequest, Subscriber, Hub, entry, current,
  close_socket, broadcast_message,
}

-- The connection takes its place unless a newer one has it.
unfoldable pub announced : Option AgentConn → AgentConn → Bool
announced none e = true
announced (some c) e = leb c.generation e.generation

unfoldable pub admit_entry : Option AgentConn → Hub → Hub
unfolding announced
admit_entry none h = h
admit_entry (some e) h =
    if h.closed
    then close_socket e.conn h
    else if announced (current e.node_id h) e
    then broadcast_message (node_status e.node_id true e.generation)
        (record h { agents = insert e.node_id e.generation h.agents })
    else h

-- `case conn := <-h.register`, for the rest of the channel and its first connection.
unfoldable pub register_first : List ℕ → Hub → Hub
unfolding admit_entry
register_first [] h = h
register_first (g ∷ gs) h = admit_entry (entry (some g) h.entries) (record h { register = gs })

unfoldable pub run_register : Hub → Hub
unfolding register_first
run_register h = register_first h.register h

same_conn : Option ℕ → Option ℕ → Bool
same_conn none c = true
same_conn (some s) none = false
same_conn (some s) (some t) = t == s

unfoldable pub matches_request : UnregisterRequest → Option AgentConn → Bool
unfolding same_conn
matches_request r none = false
matches_request r (some e) = e.generation == r.generation && same_conn r.conn e.conn

unfoldable pub unregister_first : List UnregisterRequest → Hub → Hub
unfolding matches_request
unregister_first [] h = h
unregister_first (r ∷ rs) h =
    let taken = record h { unregister = rs } in
    if matches_request r (current r.node_id h)
    then broadcast_message (node_status r.node_id false r.generation)
        (record taken { agents = delete r.node_id h.agents })
    else taken

unfoldable pub run_unregister : Hub → Hub
unfolding unregister_first
run_unregister h = unregister_first h.unregister h

-- A subscriber whose channel is full misses the message.
unfoldable pub deliver : WsMessage → Subscriber → Subscriber
deliver msg s =
    if ltb (length s.inbox) s.room then record s { inbox = s.inbox ++ (msg ∷ []) } else s

unfoldable pub broadcast_first : List WsMessage → Hub → Hub
unfolding deliver
broadcast_first [] h = h
broadcast_first (msg ∷ msgs) h = record h {
  broadcast = msgs;
  subscribers = map (deliver msg) h.subscribers;
}

unfoldable pub run_broadcast : Hub → Hub
unfolding broadcast_first
run_broadcast h = broadcast_first h.broadcast h

sockets_of : List AgentConn → List ℕ
sockets_of [] = []
sockets_of (e ∷ es) = elim e.conn [ none ↦ sockets_of es | some s ↦ s ∷ sockets_of es ]

current_entries : List (String × ℕ) → List AgentConn → List AgentConn
current_entries [] es = []
current_entries ((node, g) ∷ rest) es = elim (entry (some g) es) [
  | none ↦ current_entries rest es
  | some e ↦ e ∷ current_entries rest es
]

unfoldable pub fence_current : List (String × ℕ) → List AgentConn → List AgentConn
fence_current agents es =
    update_where (λ e. any_of (λ a. a.1 == e.generation) agents) (λ e. record e { fenced = true })
      es

-- The section of Close under the lock and the closing of its sockets. closeOnce lets it run once.
unfoldable pub begin_close : Hub → Hub
unfolding sockets_of current_entries
begin_close h = if h.closing then h else record h {
  entries = fence_current h.agents h.entries;
  agents = [];
  subscribers = [];
  closing = true;
  closed_sockets = sockets_of (current_entries h.agents h.entries) ++ h.closed_sockets;
}

-- close(h.closeCh), at the end of Close.
unfoldable pub finish_close : Hub → Hub
finish_close h = if h.closing then record h { closed = true } else h

-- `case <-h.closeCh`
unfoldable pub run_close : Hub → Hub
unfolding sockets_of current_entries
run_close h =
    if h.closed
    then record h {
      entries = fence_current h.agents h.entries;
      agents = [];
      subscribers = [];
      closed_sockets = sockets_of (current_entries h.agents h.entries) ++ h.closed_sockets;
    }
    else h
