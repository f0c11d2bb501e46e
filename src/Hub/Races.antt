-- ===== src/Hub/Races.antt =====
-- Sends of the hub, and the race of its two channels.
use thism.Base.{
  ℕ, ◌≡◌, refl, ◌≢◌, sym, ap, subst, Bool, true, false, Option, none, some, List, [], ◌∷◌, String,
  ◌==◌, nat_eq, string_eq, ◌∙◌, ==_self, arith, find_first, Bool-cases, Option-cases, inl, inr, ◌⊎◌,
}
use thism.Base.Table.{lookup, insert, delete, lookup-insert, lookup-delete}
use thism.Hub.Connections.{
  WsMessage, AgentConn, UnregisterRequest, Hub, entry, current, send_in, send_to_agent, sent,
  write_to, node_status, broadcast_message,
}
use thism.Hub.Loop.{
  announced, run_register, run_unregister, register_first, admit_entry, unregister_first,
  matches_request,
}

send_in-cases :
    (ok : Bool) (msg : WsMessage) (o : Option AgentConn) (h : Hub)
    → let (k, result) = send_in ok msg o h in
      ((result ≡ sent)
        × (e : AgentConn) × (o ≡ some e)
        × (e.fenced ≡ false)
        × (s : ℕ) × (e.conn ≡ some s)
        × (k ≡ record h { written = (s, msg) ∷ h.written }))
      ⊎ ((result ≢ sent) × (k ≡ h))
unfolding send_in write_to
send_in-cases ok msg none h = inr (ground arith, refl)
send_in-cases ok msg (some e) h = elim (Option-cases e.conn) [
  | inl c ↦ inr (ground arith, ground arith)
  | inr (s, c) ↦ elim (Bool-cases e.fenced) [
    | inl f ↦ inr (ground arith, ground arith)
    | inr f ↦ elim (Bool-cases ok) [
      | inl t ↦ inl (rw (c, f, t) refl, e, refl, f, s, c, rw (c, f, t) refl)
      | inr t ↦ inr (ground arith, ground arith)
    ]
  ]
]

send_to_agent-open :
    (ok : Bool) (node : String) (msg : WsMessage) (h : Hub)
    → h.closed ≡ false
    → send_to_agent ok node msg h ≡ send_in ok msg (current node h) h
unfolding send_to_agent
send_to_agent-open ok node msg h c = ground arith

-- A send that reports success has written its message, and nothing else, to the socket of the
-- node's current connection, which no newer one has fenced, on an open hub. One that reports
-- anything else has written nothing.
pub send_to_agent_lem :
    (ok : Bool) (node : String) (msg : WsMessage) (h : Hub)
    → let (k, result) = send_to_agent ok node msg h in
      ((result ≡ sent)
        × (h.closed ≡ false)
        × (e : AgentConn) × (current node h ≡ some e)
        × (e.fenced ≡ false)
        × (s : ℕ) × (e.conn ≡ some s)
        × (k ≡ record h { written = (s, msg) ∷ h.written }))
      ⊎ ((result ≢ sent) × (k ≡ h))
send_to_agent_lem ok node msg h = elim (Bool-cases h.closed) [
  | inl c ↦ inr (unfold send_to_agent in ground arith, unfold send_to_agent in ground arith)
  | inr c ↦
      rw (send_to_agent-open ok node msg h c) (elim (send_in-cases ok msg (current node h) h) [
        | inl (q, e, f, g, t, i, w) ↦ inl (q, c, e, f, g, t, i, w)
        | inr q ↦ inr q
      ])
]

find_first-generation :
    (g : ℕ) (es : List AgentConn) (e : AgentConn)
    → find_first (λ x. x.generation == g) es ≡ some e
    → e.generation ≡ g
unfolding find_first
find_first-generation g [] e q = cc
find_first-generation g (x ∷ es) e q = ground (arith, find_first-generation g es e)

entry-current :
    (o : Option ℕ) (es : List AgentConn) (e : AgentConn)
    → entry o es ≡ some e
    → entry (some e.generation) es ≡ some e
entry-current none es e q = unfold entry in cc
entry-current (some g) es e q =
    subst (λ n. entry (some n) es ≡ some e) (sym (find_first-generation g es e (unfold entry in q)))
      q

-- What the loop leaves when it takes the request of the node's current connection.
record Dropped (node : String) (h k : Hub) : Type 0 where
  entries : k.entries ≡ h.entries
  register : k.register ≡ h.register
  closed : k.closed ≡ h.closed
  gone : lookup node k.agents ≡ none

broadcast-Dropped :
    (node : String) (msg : WsMessage) (h k : Hub)
    → Dropped node h k
    → Dropped node h (broadcast_message msg k)
unfolding broadcast_message
broadcast-Dropped node msg h k d = ground (arith, d.entries, d.register, d.closed, d.gone)

lookup-delete_self : (node : String) (m : List (String × ℕ)) → lookup node (delete node m) ≡ none
lookup-delete_self node m = rw (lookup-delete node node m, ==_self node) refl

unregister_first-Dropped :
    (r : UnregisterRequest) (rs : List UnregisterRequest) (h : Hub)
    → matches_request r (current r.node_id h) ≡ true
    → Dropped r.node_id h (unregister_first (r ∷ rs) h)
unfolding unregister_first
unregister_first-Dropped r rs h m = rw m (
    broadcast-Dropped r.node_id _ h _ (record {
      entries = refl;
      register = refl;
      closed = refl;
      gone = lookup-delete_self r.node_id h.agents;
    }))

run_unregister-Dropped :
    (r : UnregisterRequest) (rs : List UnregisterRequest) (h : Hub)
    → h.unregister ≡ r ∷ rs
    → matches_request r (current r.node_id h) ≡ true
    → Dropped r.node_id h (run_unregister h)
unfolding run_unregister
run_unregister-Dropped r rs h u m =
    subst (λ x. Dropped r.node_id h (unregister_first x h)) (sym u)
      (unregister_first-Dropped r rs h m)

current-Dropped : (node : String) (h k : Hub) → Dropped node h k → current node k ≡ none
unfolding current
current-Dropped node h k d = rw d.gone (unfold entry in refl)

current-broadcast_message :
    (node : String) (msg : WsMessage) (k : Hub)
    → current node (broadcast_message msg k) ≡ current node k
unfolding current broadcast_message
current-broadcast_message node msg k = ground arith

admit_entry-open :
    (e : AgentConn) (k : Hub)
    → k.closed ≡ false
    → current e.node_id k ≡ none
    → admit_entry (some e) k
      ≡ broadcast_message
          (node_status e.node_id true e.generation)
          (record k { agents = insert e.node_id e.generation k.agents })
unfolding admit_entry announced
admit_entry-open e k c n = ground arith

admit_entry-online :
    (e : AgentConn) (k : Hub)
    → k.closed ≡ false
    → current e.node_id k ≡ none
    → entry (some e.generation) k.entries ≡ some e
    → current e.node_id (admit_entry (some e) k) ≡ some e
admit_entry-online e k c n q =
    ap (current e.node_id) (admit_entry-open e k c n)
    ∙ current-broadcast_message e.node_id _ _
    ∙ (unfold current in
        rw (lookup-insert e.node_id e.node_id e.generation k.agents, ==_self e.node_id) q)

run_register-online :
    (gs : List ℕ) (e : AgentConn) (k : Hub)
    → k.closed ≡ false
    → k.register ≡ e.generation ∷ gs
    → entry (some e.generation) k.entries ≡ some e
    → current e.node_id k ≡ none
    → current e.node_id (run_register k) ≡ some e
unfolding run_register register_first
run_register-online gs e k c r q n =
    subst (λ x. current e.node_id (register_first x k) ≡ some e) (sym r)
      (rw q (admit_entry-online e (record k { register = gs }) c (unfold current in n) q))

-- The loop may take the request of a connection to leave before the event that it has arrived,
-- since the two wait in different channels. The node is then offline after the first case, and
-- after the second it is online again, with the connection that has left as its current one.
pub run_register-returns :
    (r : UnregisterRequest) (rs : List UnregisterRequest) (gs : List ℕ) (e : AgentConn) (h : Hub)
    → h.closed ≡ false
    → h.unregister ≡ r ∷ rs
    → h.register ≡ e.generation ∷ gs
    → current e.node_id h ≡ some e
    → r.node_id ≡ e.node_id
    → matches_request r (some e) ≡ true
    → (current e.node_id (run_unregister h) ≡ none)
      × (current e.node_id (run_register (run_unregister h)) ≡ some e)
run_register-returns r rs gs e h c u g o n m =
    let d : Dropped e.node_id h (run_unregister h) =
      subst (λ x. Dropped x h (run_unregister h)) n
        (run_unregister-Dropped r rs h u
          (subst (λ x. matches_request r (current x h) ≡ true) (sym n) (rw o m))) in
    let gone = current-Dropped e.node_id h (run_unregister h) d in
    let kept = entry-current (lookup e.node_id h.agents) h.entries e (unfold current in o) in
    (
      gone,
      run_register-online gs e (run_unregister h) (d.closed ∙ c) (d.register ∙ g)
          (ap (entry (some e.generation)) d.entries ∙ kept) gone,
    )
