-- ===== src/Hub/Connections.antt =====
-- internal/hub/hub.go: the state of the hub and its methods. A method that holds the lock is one
-- step. An agentConn is shared by pointers: the map and the register channel name it by its
-- generation, and its fields stand in `entries`.
use thism.Base.{
  ℕ, suc, ◌+◌, Bool, true, false, Option, none, some, List, [], ◌∷◌, ◌++◌, String, ◌==◌, ◌&&◌, not,
  nat_eq, string_eq, if◌then◌else◌, ltb, length, find_first, update_where, map,
}
use thism.Base.Table.{lookup, insert, delete}
use thism.Models.{AgentCommandPayload, AgentHandshakeAckPayload, UpdateJobTarget}

-- A message names its type by its constructor.
pub data WsMessage : Type 0 where
  node_status : String → Bool → ℕ → WsMessage
  agent_command : AgentCommandPayload → WsMessage
  agent_command_cancel : String → ℕ → WsMessage
  agent_handshake_ack : AgentHandshakeAckPayload → WsMessage
  agent_update_status : UpdateJobTarget → WsMessage
  other_message : String → WsMessage

-- `conn` is the socket, none for nil.
pub record AgentConn : Type 0 where
  pub node_id : String
  pub generation : ℕ
  pub conn : Option ℕ
  pub fenced : Bool
  pub handshake_done : Bool
  pub handshake_deadline : ℕ

pub record UnregisterRequest : Type 0 where
  pub node_id : String
  pub conn : Option ℕ
  pub generation : ℕ

-- A subscriber's channel: its capacity and what waits in it.
pub record Subscriber : Type 0 where
  pub id : ℕ
  pub room : ℕ
  pub inbox : List WsMessage

-- `closing` is whether closeOnce has run, `closed` whether closeCh is closed.
-- `written` and `closed_sockets` record what was done to sockets, newest first.
pub record Hub : Type 0 where
  pub entries : List AgentConn
  pub agents : List (String × ℕ)
  pub register : List ℕ
  pub unregister : List UnregisterRequest
  pub broadcast : List WsMessage
  pub subscribers : List Subscriber
  pub closing : Bool
  pub closed : Bool
  pub next_gen : ℕ
  pub written : List (ℕ × WsMessage)
  pub closed_sockets : List ℕ

unfoldable pub new : Hub
new = record {
  entries = [];
  agents = [];
  register = [];
  unregister = [];
  broadcast = [];
  subscribers = [];
  closing = false;
  closed = false;
  next_gen = 0;
  written = [];
  closed_sockets = [];
}

abbrev pub grace_period : ℕ
grace_period = 30

unfoldable pub entry : Option ℕ → List AgentConn → Option AgentConn
entry none es = none
entry (some g) es = find_first (λ e. e.generation == g) es

-- h.agents[node]
unfoldable pub current : String → Hub → Option AgentConn
unfolding lookup entry
current node h = entry (lookup node h.agents) h.entries

unfoldable pub fence : ℕ → List AgentConn → List AgentConn
fence g es = update_where (λ e. e.generation == g) (λ e. record e { fenced = true }) es

unfoldable pub close_socket : Option ℕ → Hub → Hub
close_socket none h = h
close_socket (some s) h = record h { closed_sockets = s ∷ h.closed_sockets }

unfoldable pub new_conn : String → Option ℕ → ℕ → ℕ → AgentConn
new_conn node conn generation now = record {
  node_id = node;
  generation = generation;
  conn = conn;
  fenced = false;
  handshake_done = false;
  handshake_deadline = now + grace_period;
}

unfoldable pub fence_old : Option AgentConn → List AgentConn → List AgentConn
fence_old none es = es
fence_old (some old) es = fence old.generation es

unfoldable pub close_old : Option AgentConn → Hub → Hub
close_old none h = h
close_old (some old) h = close_socket old.conn h

-- Register up to the send on the channel, with the close of the old socket. The generation is 0
-- on a closed hub.
unfoldable pub begin_register : String → Option ℕ → ℕ → Hub → Hub × ℕ
unfolding insert
begin_register node conn now h =
    let old = current node h in
    let generation = suc h.next_gen in
    let opened = record h {
      next_gen = generation;
      entries = new_conn node conn generation now ∷ fence_old old h.entries;
      agents = insert node generation h.agents;
    } in
    if h.closed then (close_socket conn h, 0) else (close_old old opened, generation)

abbrev pub register_room : ℕ
register_room = 16

abbrev pub broadcast_room : ℕ
broadcast_room = 64

-- The two cases of Register's select: the send, which waits for room, and the undo on a closed hub.
unfoldable pub enqueue_register : ℕ → Hub → Hub
enqueue_register g h = record h { register = h.register ++ (g ∷ []) }

unfoldable pub undo_register : String → ℕ → Option ℕ → Hub → Hub
undo_register node g conn h =
    let kept = record h {
      agents = elim (lookup node h.agents) [
        | none ↦ h.agents
        | some c ↦ if c == g then delete node h.agents else h.agents
      ];
    } in
    close_socket conn kept

conn_beq : Option ℕ → Option ℕ → Bool
conn_beq none none = true
conn_beq (some a) (some b) = a == b
conn_beq _ _ = false

generation_of : Option ℕ → Option AgentConn → ℕ
unfolding conn_beq
generation_of conn none = 0
generation_of conn (some e) = if conn_beq e.conn conn then e.generation else 0

-- currentGeneration, and Unregister's send.
unfoldable pub unregister_conn : String → Option ℕ → Hub → Hub
unfolding generation_of
unregister_conn node conn h = record h {
  unregister =
      h.unregister
      ++ (record { node_id = node; conn = conn; generation = generation_of conn (current node h) }
          ∷ []);
}

unfoldable pub unregister_generation : String → ℕ → Hub → Hub
unregister_generation node g h = if g == 0 then h else record h {
  unregister = h.unregister ++ (record { node_id = node; conn = none; generation = g } ∷ []);
}

pub data SendResult : Type 0 where
  sent hub_closed agent_offline stale_connection write_error : SendResult

unfoldable pub write_to : Bool → WsMessage → AgentConn → Option ℕ → Hub → Hub × SendResult
write_to ok msg e none h = (h, agent_offline)
write_to ok msg e (some s) h =
    if e.fenced
    then (h, stale_connection)
    else if ok
    then (record h { written = (s, msg) ∷ h.written }, sent)
    else (h, write_error)

unfoldable pub send_in : Bool → WsMessage → Option AgentConn → Hub → Hub × SendResult
unfolding write_to
send_in ok msg none h = (h, agent_offline)
send_in ok msg (some e) h = write_to ok msg e e.conn h

-- `ok` is whether WriteJSON succeeds.
unfoldable pub send_to_agent : Bool → String → WsMessage → Hub → Hub × SendResult
unfolding send_in
send_to_agent ok node msg h =
    if h.closed then (h, hub_closed) else send_in ok msg (current node h) h

unfoldable pub complete_in : ℕ → Option AgentConn → Hub → Hub × Bool
complete_in g none h = (h, false)
complete_in g (some e) h =
    if e.generation == g && not e.fenced
    then (
      record h {
        entries =
            update_where (λ x. x.generation == g) (λ x. record x { handshake_done = true })
              h.entries;
      },
      true,
    )
    else (h, false)

unfoldable pub complete_handshake : String → ℕ → Hub → Hub × Bool
unfolding complete_in
complete_handshake node g h = if h.closed then (h, false) else complete_in g (current node h) h

ready_in : ℕ → Option AgentConn → Bool
ready_in now none = false
ready_in now (some e) =
    if e.fenced then false else if e.handshake_done then true else ltb e.handshake_deadline now

unfoldable pub handshake_ready : String → ℕ → Hub → Bool
unfolding ready_in
handshake_ready node now h = if h.closed then false else ready_in now (current node h)

generation_in : Option AgentConn → ℕ
generation_in none = 0
generation_in (some e) = if e.fenced then 0 else e.generation

unfoldable pub current_generation : String → Hub → ℕ
unfolding generation_in
current_generation node h = if h.closed then 0 else generation_in (current node h)

current_in : ℕ → Option AgentConn → Bool
current_in g none = false
current_in g (some e) = not e.fenced && e.generation == g

unfoldable pub is_current : String → ℕ → Hub → Bool
unfolding current_in
is_current node g h = if h.closed then false else current_in g (current node h)

is_some_entry : Option AgentConn → Bool
is_some_entry none = false
is_some_entry (some e) = true

unfoldable pub is_online : String → Hub → Bool
unfolding is_some_entry
is_online node h = not h.closed && is_some_entry (current node h)

unfoldable pub online_node_ids : Hub → List String
online_node_ids h = map (λ a. a.0) h.agents

-- Broadcast drops the message when its channel is full.
unfoldable pub broadcast_message : WsMessage → Hub → Hub
broadcast_message msg h =
    if ltb (length h.broadcast) broadcast_room
    then record h { broadcast = h.broadcast ++ (msg ∷ []) }
    else h

unfoldable pub subscribe : Subscriber → Hub → Hub
subscribe s h = if h.closed then h else record h { subscribers = h.subscribers ++ (s ∷ []) }

remove_subscriber : ℕ → List Subscriber → List Subscriber
remove_subscriber id [] = []
remove_subscriber id (s ∷ ss) =
    let rest = s ∷ remove_subscriber id ss in if s.id == id then ss else rest

unfoldable pub unsubscribe : ℕ → Hub → Hub
unfolding remove_subscriber
unsubscribe id h = record h { subscribers = remove_subscriber id h.subscribers }
