-- ===== src/Api/Isolation.antt =====
-- What the status reports of one agent can change.
use thism.Base.{
  length, ℕ, ◌≡◌, refl, ◌∙◌, inl, inr, Bool, true, false, Option, none, some, List, [], ◌∷◌, String,
  Message, ◌==◌, ◌&&◌, not, string_eq, nat_eq, if◌then◌else◌, ltb, filter, update_first, arith,
  Bool-cases,
}
use thism.Models.{
  CommandRejectCode, Status, status_eq, unknown, UpdateJobTarget, CommandStream,
  AgentCommandStatusPayload,
}
use thism.Store.Tables.{
  Db, find_target, is_target, is_stream, update_stream, update_target, audit_event,
}
use thism.Store.Watermark.{is_terminal, advance_retired_watermark, retired_watermark_from}
use thism.Store.Aggregate.{recompute_update_job_status}
use thism.Store.Transitions.{
  is_allowed, transition_row, transition_in, block_unknown, retire_terminal,
  apply_execution_transition,
}
use thism.Hub.Connections.{broadcast_message, broadcast_room}
use thism.Api.Server.{Server, World}
use thism.Api.Agent.{announce, commit_status, identifies, is_blank, handle_agent_command_status}

filter-update_first {ℓ} :
    {A : Type ℓ} (q p : A → Bool) (f : A → A) (xs : List A)
    → ((x : A) → p x ≡ true → q x ≡ false)
    → ((x : A) → q (f x) ≡ q x)
    → filter q (update_first p f xs) ≡ filter q xs
unfolding filter update_first
filter-update_first q p f [] h k = refl
filter-update_first q p f (x ∷ xs) h k = ground (arith, h x, k x, filter-update_first q p f xs h k)

-- The rows of other nodes.
abbrev pub foreign_targets : String → Db → List UpdateJobTarget
foreign_targets node db = filter (λ t. not (t.node_id == node)) db.targets

abbrev pub foreign_streams : String → Db → List CommandStream
foreign_streams node db = filter (λ r. not (r.node_id == node)) db.streams

pub record Own (node : String) (db db' : Db) : Type 0 where
  pub targets : foreign_targets node db' ≡ foreign_targets node db
  pub streams : foreign_streams node db' ≡ foreign_streams node db
  pub tombstones : db'.tombstones ≡ db.tombstones
  pub retirements : db'.retirements ≡ db.retirements

Own-refl : (node : String) (db : Db) → Own node db db
Own-refl node db = record { targets = refl; streams = refl; tombstones = refl; retirements = refl }

Own-trans : (node : String) (a b c : Db) → Own node a b → Own node b c → Own node a c
Own-trans node a b c h k = record {
  targets = k.targets ∙ h.targets;
  streams = k.streams ∙ h.streams;
  tombstones = k.tombstones ∙ h.tombstones;
  retirements = k.retirements ∙ h.retirements;
}

stream-Own :
    (node : String) (f : CommandStream → CommandStream) (db : Db)
    → ((r : CommandStream) → (f r).node_id ≡ r.node_id)
    → Own node db (update_stream node f db)
unfolding update_stream
stream-Own node f db h = record {
  targets = refl;
  streams =
      filter-update_first (λ r. not (r.node_id == node)) (is_stream node) f db.streams
        (λ r p. rw p refl) (λ r. rw (h r) refl);
  tombstones = refl;
  retirements = refl;
}

target-Own :
    (job node : String) (f : UpdateJobTarget → UpdateJobTarget) (db : Db)
    → ((t : UpdateJobTarget) → (f t).node_id ≡ t.node_id)
    → Own node db (update_target job node f db)
unfolding update_target
target-Own job node f db h = record {
  targets =
      filter-update_first (λ t. not (t.node_id == node)) (is_target job node) f db.targets
        (λ t p. ground arith) (λ t. rw (h t) refl);
  streams = refl;
  tombstones = refl;
  retirements = refl;
}

if-Own :
    (node : String) (b : Bool) (db x y : Db)
    → Own node db x
    → Own node db y
    → Own node db (if b then x else y)
if-Own node true db x y h k = h
if-Own node false db x y h k = k

audit-Own :
    (node event : String) (detail : Message) (now : ℕ) (db : Db)
    → Own node db (audit_event node event detail now db)
unfolding audit_event
audit-Own node event detail now db = record {
  targets = refl;
  streams = refl;
  tombstones = refl;
  retirements = refl;
}

recompute-Own :
    (node job : String) (now : ℕ) (db : Db) → Own node db (recompute_update_job_status job now db)
unfolding recompute_update_job_status
recompute-Own node job now db = record {
  targets = refl;
  streams = refl;
  tombstones = refl;
  retirements = refl;
}

advance-Own :
    (node : String) (now : ℕ) (db : Db) → Own node db (advance_retired_watermark node now db)
unfolding advance_retired_watermark
advance-Own node now db =
    if-Own node (retired_watermark_from node db == 0) db db _ (Own-refl node db)
      (stream-Own node _ db (λ r. refl))

block-Own :
    (job node : String) (seq : ℕ) (status : Status) (now : ℕ) (db : Db)
    → Own node db (block_unknown job node seq status now db)
unfolding block_unknown
block-Own job node seq status now db =
    if-Own node (status == unknown && ltb 0 seq) db _ db
      (Own-trans node db _ _ (stream-Own node _ db (λ r. refl)) (audit-Own node _ _ now _))
      (Own-refl node db)

retire-Own :
    (node : String) (seq : ℕ) (status : Status) (now : ℕ) (db : Db)
    → Own node db (retire_terminal node seq status now db)
unfolding retire_terminal
retire-Own node seq status now db =
    if-Own node (is_terminal status && ltb 0 seq) db _ db (advance-Own node now db)
      (Own-refl node db)

transition-Own :
    (job node : String) (status : Status) (message : Message) (version : String) (now : ℕ)
    (found : Option UpdateJobTarget) (db : Db)
    → Own node db (transition_in job node status message version now found db).0
unfolding transition_in
transition-Own job node status message version now none db = Own-refl node db
transition-Own job node status message version now (some t) db =
    elim (Bool-cases (is_allowed t.status status)) [
      | inr illegal ↦ rw illegal (Own-refl node db)
      | inl legal ↦
          let a = update_target job node (transition_row status message version now) db in
          let b = block_unknown job node t.seq status now a in
          let c = retire_terminal node t.seq status now b in
          rw legal (
            Own-trans node db a _ (target-Own job node _ db (λ t. unfold transition_row in refl)) (
              Own-trans node a b _ (block-Own job node t.seq status now a) (
                Own-trans node b c _ (retire-Own node t.seq status now b)
                  (recompute-Own node job now c))))
    ]

-- What a report leaves of the server: the rows of other nodes and all that is retired, and the
-- connections and sockets of the hub.
pub record Kept (node : String) (s s' : Server) : Type 0 where
  pub rows : Own node s.db s'.db
  pub nodes : s'.nodes ≡ s.nodes
  pub connections : s'.hub.entries ≡ s.hub.entries
  pub agents : s'.hub.agents ≡ s.hub.agents
  pub written : s'.hub.written ≡ s.hub.written

Kept-refl : (node : String) (s : Server) → Kept node s s
Kept-refl node s = record {
  rows = Own-refl node s.db;
  nodes = refl;
  connections = refl;
  agents = refl;
  written = refl;
}

announced-Kept :
    (node : String) (s : Server) (db : Db) (found : Option UpdateJobTarget)
    → Own node s.db db
    → Kept node s (record s { db = db; hub = announce found s.hub })
unfolding announce broadcast_message
announced-Kept node s db none h = record {
  rows = h;
  nodes = refl;
  connections = refl;
  agents = refl;
  written = refl;
}
announced-Kept node s db (some t) h =
    elim (Bool-cases (ltb (length s.hub.broadcast) broadcast_room)) [
      | inl room ↦
          rw room
            (record { rows = h; nodes = refl; connections = refl; agents = refl; written = refl })
      | inr full ↦
          rw full
            (record { rows = h; nodes = refl; connections = refl; agents = refl; written = refl })
    ]

if-Kept :
    (node : String) (b : Bool) (s x y : Server)
    → Kept node s x
    → Kept node s y
    → Kept node s (if b then x else y)
if-Kept node true s x y h k = h
if-Kept node false s x y h k = k

commit-Kept :
    (w : World) (node : String) (p : AgentCommandStatusPayload) (s : Server)
    → Kept node s (commit_status w node p s)
unfolding commit_status apply_execution_transition
commit-Kept w node p s =
    let found = find_target p.job_id node s.db in
    let after =
      transition_in p.job_id node p.status p.message p.reported_version w.now found s.db in
    if-Kept node after.1 s _ s
      (announced-Kept node s after.0 (find_target p.job_id node after.0)
        (transition-Own p.job_id node p.status p.message p.reported_version w.now found s.db))
      (Kept-refl node s)

-- A status report of one agent, whatever it says, leaves the targets and the streams of all other
-- nodes, the tombstones and the retired sequences, and the connections of the hub as they are, and
-- writes to no socket.
pub handle_agent_command_status-Kept :
    (w : World) (node : String) (p : AgentCommandStatusPayload) (s : Server)
    → Kept node s (handle_agent_command_status w node p s)
unfolding handle_agent_command_status
handle_agent_command_status-Kept w node p s = go p.reject_code
  where
    accepted_report : Server
    accepted_report =
        if is_blank p.job_id
        then s
        else if ltb 0 p.seq && not (identifies p (find_target p.job_id node s.db))
        then s
        else commit_status w node p s

    go :
        (code : Option CommandRejectCode)
        → Kept node s (elim code as (λ x. Server) [ some c ↦ s | none ↦ accepted_report ])
    go (some c) = Kept-refl node s
    go none =
        if-Kept node _ s s _ (Kept-refl node s)
          (if-Kept node _ s s _ (Kept-refl node s) (commit-Kept w node p s))
