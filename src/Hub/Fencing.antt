-- ===== src/Hub/Fencing.antt =====
-- A fenced connection stays fenced: no interleaving of the hub's steps makes it current again.
use thism.Base.{
  ℕ, suc, ◌≤◌, ◌≡◌, refl, ◌≢◌, Bool, true, false, Option, none, some, List, [], ◌∷◌, String, ◌==◌,
  nat_eq, string_eq, arith, All, find_first, update_where, Bool-cases, Option-cases, inl, inr, ◌⊎◌,
}
use thism.Base.Table.{lookup}
use thism.Hub.Connections.{
  new, AgentConn, new_conn, fence_old, close_old, Hub, entry, current, fence, begin_register,
  current_generation, is_current, close_socket,
}
use thism.Hub.Steps.{Reach, Holds, Reach-Holds}

abbrev FencedEntry : ℕ → AgentConn → Type 0
FencedEntry g e = (e.generation ≡ g) → (e.fenced ≡ true)

-- Generation `g` was given, and its connection is fenced.
abbrev IsFenced : ℕ → Hub → Type 0
IsFenced g h = (g ≤ h.next_gen) × All (FencedEntry g) h.entries

Reach-IsFenced : (g : ℕ) {h k : Hub} → IsFenced g h → Reach h k → IsFenced g k
unfolding new_conn
Reach-IsFenced g {h} {k} v r =
    let w : Holds (λ n. g ≤ n) (λ n. FencedEntry g) k =
      Reach-Holds (λ n. g ≤ n) (λ n. FencedEntry g) (λ n q. omega arith) (λ n e q. q)
        (λ n e q t. refl) (λ n e q. q) (λ n node conn now q t. absurd (omega arith))
        (record { given = v.0; all = v.1 }) r in
    (w.given, w.all)

entry-Fenced :
    (g : ℕ) (p : AgentConn → Bool) (es : List AgentConn) (e : AgentConn)
    → All (FencedEntry g) es
    → find_first p es ≡ some e
    → FencedEntry g e
unfolding find_first
entry-Fenced g p [] e a h q = cc
entry-Fenced g p (x ∷ es) e a h q = elim (Bool-cases (p x)) [
  | inl t ↦ ground (arith, a.0)
  | inr t ↦ entry-Fenced g p es e a.1 (rw t at h) q
]

current-Fenced :
    (g : ℕ) (o : Option ℕ) (es : List AgentConn) (e : AgentConn)
    → All (FencedEntry g) es
    → entry o es ≡ some e
    → FencedEntry g e
unfolding entry
current-Fenced g none es e a h q = cc
current-Fenced g (some n) es e a h q = entry-Fenced g (λ x. x.generation == n) es e a h q

not_current_of_fenced :
    (g : ℕ) (node : String) (k : Hub)
    → IsFenced g k
    → (is_current node g k ≡ false)
      × ((current_generation node k ≡ 0) ⊎ (current_generation node k ≢ g))
unfolding is_current current_generation
not_current_of_fenced g node k w = elim (Option-cases (current node k)) [
  | inl e ↦ (ground arith, ground arith)
  | inr (e, q) ↦
      let f = current-Fenced g (lookup node k.agents) k.entries e w.1 (unfold current in q) in
      (ground arith, ground arith)
]

-- Every connection has a generation that was given.
Reach-given : (h : Hub) → Reach new h → All (λ e. e.generation ≤ h.next_gen) h.entries
unfolding new new_conn
Reach-given h r =
    let w : Holds (λ n. Unit {0}) (λ n e. e.generation ≤ n) h =
      Reach-Holds (λ n. Unit {0}) (λ n e. e.generation ≤ n) (λ n q. tt) (λ n e q. omega arith)
        (λ n e q. q) (λ n e q. q) (λ n node conn now q. omega arith)
        (record { given = tt; all = tt }) r in
    w.all

fence-IsFenced :
    (g n : ℕ) (es : List AgentConn)
    → All (λ e. e.generation ≤ n) es
    → All (FencedEntry g) (fence g es)
unfolding fence update_where
fence-IsFenced g n [] h = tt
fence-IsFenced g n (e ∷ es) h = (λ q. ground arith, fence-IsFenced g n es h.1)

begin_register-opened :
    (node : String) (conn : Option ℕ) (now : ℕ) (h : Hub)
    → h.closed ≡ false
    → ((begin_register node conn now h).0.entries
        ≡ new_conn node conn (suc h.next_gen) now ∷ fence_old (current node h) h.entries)
      × ((begin_register node conn now h).0.next_gen ≡ suc h.next_gen)
unfolding begin_register close_old close_socket
begin_register-opened node conn now h c = ground arith

find-given :
    (n : ℕ) (p : AgentConn → Bool) (es : List AgentConn) (e : AgentConn)
    → All (λ x. x.generation ≤ n) es
    → find_first p es ≡ some e
    → e.generation ≤ n
unfolding find_first
find-given n p [] e a q = cc
find-given n p (x ∷ es) e a q = ground (arith, find-given n p es e a.1)

entry-given :
    (n : ℕ) (o : Option ℕ) (es : List AgentConn) (e : AgentConn)
    → All (λ x. x.generation ≤ n) es
    → entry o es ≡ some e
    → e.generation ≤ n
unfolding entry
entry-given n none es e a q = cc
entry-given n (some g) es e a q = find-given n (λ x. x.generation == g) es e a q

register-IsFenced :
    (node : String) (conn : Option ℕ) (now : ℕ) (old : AgentConn) (h : Hub)
    → Reach new h
    → h.closed ≡ false
    → current node h ≡ some old
    → IsFenced old.generation (begin_register node conn now h).0
unfolding current
register-IsFenced node conn now old h r o c =
    let (es, n) = begin_register-opened node conn now h o in
    let given = Reach-given h r in
    let b = entry-given h.next_gen (lookup node h.agents) h.entries old given c in
    (
      omega arith,
      rw (es, c)
          (
            unfold new_conn in λ q. absurd (omega arith),
            unfold fence_old in fence-IsFenced old.generation h.next_gen h.entries given,
          ),
    )

-- A connection that a newer one replaces is never current again: where a node that is connected
-- registers at an open hub, the old generation is refused by `IsCurrent` and is not what
-- `CurrentGeneration` returns, for every node, after every interleaving of the hub's methods with
-- its event loop.
pub replaced_not_current :
    (node other : String) (conn : Option ℕ) (now : ℕ) (old : AgentConn) (h k : Hub)
    → Reach new h
    → h.closed ≡ false
    → current node h ≡ some old
    → Reach (begin_register node conn now h).0 k
    → (is_current other old.generation k ≡ false)
      × ((current_generation other k ≡ 0) ⊎ (current_generation other k ≢ old.generation))
replaced_not_current node other conn now old h k r o c s =
    not_current_of_fenced old.generation other k
      (Reach-IsFenced old.generation (register-IsFenced node conn now old h r o c) s)
