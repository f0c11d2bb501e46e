-- ===== src/Hub/Steps.antt =====
-- internal/hub/hub.go: the hub's steps, and what is kept by all of them.
use thism.Base.{
  All-map, ℕ, suc, ◌≡◌, refl, sym, subst, Bool, true, Option, none, some, List, [], ◌∷◌, String,
  ◌==◌, nat_eq, string_eq, arith, All, All-update_where, update_where, Bool-cases, inl, inr,
}
use thism.Base.Table.{insert}
use thism.Hub.Connections.{
  WsMessage, AgentConn, UnregisterRequest, new_conn, fence_old, close_old, send_in, complete_in,
  Subscriber, Hub, entry, current, fence, begin_register, enqueue_register, undo_register,
  unregister_conn, unregister_generation, send_to_agent, complete_handshake, broadcast_message,
  subscribe, unsubscribe, close_socket,
}
use thism.Hub.Loop.{
  run_register, run_unregister, run_broadcast, begin_close, finish_close, run_close, fence_current,
  register_first, admit_entry, unregister_first, broadcast_first,
}

-- Any interleaving: a method's section, or a case that the event loop takes.
pub data Step (h : Hub) : Hub → Type 0 where
  register : (node : String) (conn : Option ℕ) (now : ℕ) → Step h (begin_register node conn now h).0
  enqueue : (g : ℕ) → Step h (enqueue_register g h)
  undo :
      (node : String) (g : ℕ) (conn : Option ℕ)
      → h.closed ≡ true
      → Step h (undo_register node g conn h)
  leave : (node : String) (conn : Option ℕ) → Step h (unregister_conn node conn h)
  leave_generation : (node : String) (g : ℕ) → Step h (unregister_generation node g h)
  send : (ok : Bool) (node : String) (msg : WsMessage) → Step h (send_to_agent ok node msg h).0
  handshake : (node : String) (g : ℕ) → Step h (complete_handshake node g h).0
  announce : (msg : WsMessage) → Step h (broadcast_message msg h)
  join : (s : Subscriber) → Step h (subscribe s h)
  part : (id : ℕ) → Step h (unsubscribe id h)
  take_register : Step h (run_register h)
  take_unregister : Step h (run_unregister h)
  take_broadcast : Step h (run_broadcast h)
  take_close : Step h (run_close h)
  close_clear : Step h (begin_close h)
  close_end : Step h (finish_close h)

pub data Reach (h : Hub) : Hub → Type 0 where
  here : Reach h h
  next : {k l : Hub} → Reach h k → Step k l → Reach h l

-- What leaves the connections and the generations alone.
close_socket-same :
    (c : Option ℕ) (h : Hub)
    → ((close_socket c h).entries ≡ h.entries) × ((close_socket c h).next_gen ≡ h.next_gen)
unfolding close_socket
close_socket-same none h = (refl, refl)
close_socket-same (some s) h = (refl, refl)

close_old-same :
    (o : Option AgentConn) (h : Hub)
    → ((close_old o h).entries ≡ h.entries) × ((close_old o h).next_gen ≡ h.next_gen)
unfolding close_old
close_old-same none h = (refl, refl)
close_old-same (some e) h = close_socket-same e.conn h

undo-same :
    (node : String) (g : ℕ) (conn : Option ℕ) (h : Hub)
    → ((undo_register node g conn h).entries ≡ h.entries)
      × ((undo_register node g conn h).next_gen ≡ h.next_gen)
unfolding undo_register
undo-same node g conn h = close_socket-same conn _

send-same :
    (ok : Bool) (node : String) (msg : WsMessage) (h : Hub)
    → ((send_to_agent ok node msg h).0.entries ≡ h.entries)
      × ((send_to_agent ok node msg h).0.next_gen ≡ h.next_gen)
unfolding send_to_agent send_in
send-same ok node msg h = ground arith

broadcast-same :
    (msg : WsMessage) (h : Hub)
    → ((broadcast_message msg h).entries ≡ h.entries)
      × ((broadcast_message msg h).next_gen ≡ h.next_gen)
unfolding broadcast_message
broadcast-same msg h = ground arith

admit-same :
    (o : Option AgentConn) (h : Hub)
    → ((admit_entry o h).entries ≡ h.entries) × ((admit_entry o h).next_gen ≡ h.next_gen)
unfolding admit_entry broadcast_message close_socket
admit-same o h = ground arith

register_first-same :
    (gs : List ℕ) (h : Hub)
    → ((register_first gs h).entries ≡ h.entries) × ((register_first gs h).next_gen ≡ h.next_gen)
unfolding register_first
register_first-same [] h = (refl, refl)
register_first-same (g ∷ gs) h = admit-same (entry (some g) h.entries) (record h { register = gs })

unregister_first-same :
    (rs : List UnregisterRequest) (h : Hub)
    → ((unregister_first rs h).entries ≡ h.entries)
      × ((unregister_first rs h).next_gen ≡ h.next_gen)
unfolding unregister_first broadcast_message
unregister_first-same [] h = (refl, refl)
unregister_first-same (r ∷ rs) h = ground arith

broadcast_first-same :
    (ms : List WsMessage) (h : Hub)
    → ((broadcast_first ms h).entries ≡ h.entries) × ((broadcast_first ms h).next_gen ≡ h.next_gen)
unfolding broadcast_first
broadcast_first-same [] h = (refl, refl)
broadcast_first-same (m ∷ ms) h = (refl, refl)

finish_close-same :
    (h : Hub) → ((finish_close h).entries ≡ h.entries) × ((finish_close h).next_gen ≡ h.next_gen)
unfolding finish_close
finish_close-same h = ground arith

leave-same :
    (node : String) (g : ℕ) (h : Hub)
    → ((unregister_generation node g h).entries ≡ h.entries)
      × ((unregister_generation node g h).next_gen ≡ h.next_gen)
unfolding unregister_generation
leave-same node g h = ground arith

subscribe-same :
    (s : Subscriber) (h : Hub)
    → ((subscribe s h).entries ≡ h.entries) × ((subscribe s h).next_gen ≡ h.next_gen)
unfolding subscribe
subscribe-same s h = ground arith

pub record Holds (Q : ℕ → Type 0) (P : ℕ → AgentConn → Type 0) (h : Hub) : Type 0 where
  pub given : Q h.next_gen
  pub all : All (P h.next_gen) h.entries

-- An invariant of all connections: `P n` holds of each where `n` generations were given, and `Q n`
-- is what a new connection needs for it.
module _ (Q : ℕ → Type 0) (P : ℕ → AgentConn → Type 0) (Q-suc : (n : ℕ) → Q n → Q (suc n))
    (P-suc : (n : ℕ) (e : AgentConn) → P n e → P (suc n) e)
    (P-fenced : (n : ℕ) (e : AgentConn) → P n e → P n (record e { fenced = true }))
    (P-done : (n : ℕ) (e : AgentConn) → P n e → P n (record e { handshake_done = true }))
    (P-new : (n : ℕ) (node : String) (conn : Option ℕ) (now : ℕ)
      → Q n
      → P (suc n) (new_conn node conn (suc n) now)) where
  fence-All :
      (n : ℕ) (p : AgentConn → Bool) (es : List AgentConn)
      → All (P n) es
      → All (P n) (update_where p (λ e. record e { fenced = true }) es)
  fence-All n p es h = All-update_where (P n) p _ es (P-fenced n) h

  fence_old-All :
      (n : ℕ) (o : Option AgentConn) (es : List AgentConn)
      → All (P n) es
      → All (P n) (fence_old o es)
  unfolding fence_old fence
  fence_old-All n none es h = h
  fence_old-All n (some e) es h = fence-All n (λ x. x.generation == e.generation) es h

  Holds-same :
      (h k : Hub) → (k.entries ≡ h.entries) × (k.next_gen ≡ h.next_gen) → Holds Q P h → Holds Q P k
  Holds-same h k e v = record { given = subst Q (sym e.1) v.given; all = rw (e.0, e.1) v.all }

  opened-Holds :
      (node : String) (conn : Option ℕ) (now : ℕ) (agents : List (String × ℕ)) (h : Hub)
      → Holds Q P h
      → Holds Q P (record h {
        next_gen = suc h.next_gen;
        entries = new_conn node conn (suc h.next_gen) now ∷ fence_old (current node h) h.entries;
        agents = agents;
      })
  opened-Holds node conn now agents h v = record {
    given = Q-suc h.next_gen v.given;
    all = (
      P-new h.next_gen node conn now v.given,
      All-map (P h.next_gen) (P (suc h.next_gen)) _ (P-suc h.next_gen)
          (fence_old-All h.next_gen (current node h) h.entries v.all),
    );
  }

  register-Holds :
      (node : String) (conn : Option ℕ) (now : ℕ) (h : Hub)
      → Holds Q P h
      → Holds Q P (begin_register node conn now h).0
  unfolding begin_register
  register-Holds node conn now h v = elim (Bool-cases h.closed) [
    | inl e ↦ simp e (Holds-same h (close_socket conn h) (close_socket-same conn h) v)
    | inr e ↦ simp e (
        Holds-same _ _ (close_old-same (current node h) _)
          (opened-Holds node conn now (insert node (suc h.next_gen) h.agents) h v))
  ]

  handshake-Holds :
      (node : String) (g : ℕ) (h : Hub) → Holds Q P h → Holds Q P (complete_handshake node g h).0
  unfolding complete_handshake complete_in
  handshake-Holds node g h v = ground (
    arith,
    All-update_where (P h.next_gen) (λ x. x.generation == g)
        (λ x. record x { handshake_done = true }) h.entries (P-done h.next_gen) v.all,
  )

  begin_close-Holds : (h : Hub) → Holds Q P h → Holds Q P (begin_close h)
  unfolding begin_close fence_current
  begin_close-Holds h v = elim (Bool-cases h.closing) [
    | inl e ↦ Holds-same h _ (rw e (refl, refl)) v
    | inr e ↦ rw e (record { given = v.given; all = fence-All h.next_gen _ h.entries v.all })
  ]

  run_close-Holds : (h : Hub) → Holds Q P h → Holds Q P (run_close h)
  unfolding run_close fence_current
  run_close-Holds h v = elim (Bool-cases h.closed) [
    | inl e ↦ rw e (record { given = v.given; all = fence-All h.next_gen _ h.entries v.all })
    | inr e ↦ Holds-same h _ (rw e (refl, refl)) v
  ]

  Step-Holds : {h k : Hub} → Step h k → Holds Q P h → Holds Q P k
  unfolding enqueue_register unregister_conn subscribe unsubscribe run_register run_unregister
      run_broadcast
  Step-Holds {h} (register node conn now) v = register-Holds node conn now h v
  Step-Holds {h} (enqueue n) v = Holds-same h _ (refl, refl) v
  Step-Holds {h} (undo node n conn c) v = Holds-same h _ (undo-same node n conn h) v
  Step-Holds {h} (leave node conn) v = Holds-same h _ (refl, refl) v
  Step-Holds {h} (leave_generation node n) v = Holds-same h _ (leave-same node n h) v
  Step-Holds {h} (send ok node msg) v = Holds-same h _ (send-same ok node msg h) v
  Step-Holds {h} (handshake node n) v = handshake-Holds node n h v
  Step-Holds {h} (announce msg) v = Holds-same h _ (broadcast-same msg h) v
  Step-Holds {h} (join s) v = Holds-same h _ (subscribe-same s h) v
  Step-Holds {h} (part id) v = Holds-same h _ (refl, refl) v
  Step-Holds {h} take_register v = Holds-same h _ (register_first-same h.register h) v
  Step-Holds {h} take_unregister v = Holds-same h _ (unregister_first-same h.unregister h) v
  Step-Holds {h} take_broadcast v = Holds-same h _ (broadcast_first-same h.broadcast h) v
  Step-Holds {h} take_close v = run_close-Holds h v
  Step-Holds {h} close_clear v = begin_close-Holds h v
  Step-Holds {h} close_end v = Holds-same h _ (finish_close-same h) v

  pub Reach-Holds : {h k : Hub} → Holds Q P h → Reach h k → Holds Q P k
  Reach-Holds v here = v
  Reach-Holds v (next r s) = Step-Holds s (Reach-Holds v r)
