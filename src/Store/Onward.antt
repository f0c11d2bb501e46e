-- ===== src/Store/Onward.antt =====
-- The command streams of the server only go forward.
use thism.Base.{
  ◌≤◌, ◌≡◌, Bool, some, List, [], ◌∷◌, ◌++◌, String, ◌==◌, nat_eq, string_eq, arith, find_first,
  update_first, Bool-cases, inl, inr,
}
use thism.Models.{CommandStream}
use thism.Store.Tables.{Db, is_stream, find_stream, update_stream}

-- A later row of the same stream.
pub record Forward (s t : CommandStream) : Type 0 where
  pub same_node : t.node_id ≡ s.node_id
  pub same_stream : t.stream_id ≡ s.stream_id
  pub next_seq : s.next_seq ≤ t.next_seq
  pub watermark : s.retired_watermark ≤ t.retired_watermark

abbrev pub Onward : List CommandStream → List CommandStream → Type 0
Onward [] ts = Unit
Onward (s ∷ ss) [] = ⊥
Onward (s ∷ ss) (t ∷ ts) = Forward s t × Onward ss ts

pub Forward-refl : (s : CommandStream) → Forward s s
Forward-refl s = ground arith

pub Onward-refl : (ss : List CommandStream) → Onward ss ss
Onward-refl [] = tt
Onward-refl (s ∷ ss) = (Forward-refl s, Onward-refl ss)

Forward-trans : (s t u : CommandStream) → Forward s t → Forward t u → Forward s u
Forward-trans s t u h k = ground arith

pub Onward-trans : (ss ts us : List CommandStream) → Onward ss ts → Onward ts us → Onward ss us
Onward-trans [] ts us h k = tt
Onward-trans (s ∷ ss) [] us h k = absurd h
Onward-trans (s ∷ ss) (t ∷ ts) [] h k = absurd k
Onward-trans (s ∷ ss) (t ∷ ts) (u ∷ us) h k =
    (Forward-trans s t u h.0 k.0, Onward-trans ss ts us h.1 k.1)

pub Onward-append : (ss ts : List CommandStream) → Onward ss (ss ++ ts)
Onward-append [] ts = tt
Onward-append (s ∷ ss) ts = (Forward-refl s, Onward-append ss ts)

-- An update of the row that the key finds, by a function that takes that row forward.
pub update_first-Onward :
    (p : CommandStream → Bool) (f : CommandStream → CommandStream) (ss : List CommandStream)
    → ((s : CommandStream) → find_first p ss ≡ some s → Forward s (f s))
    → Onward ss (update_first p f ss)
unfolding find_first update_first
update_first-Onward p f [] h = tt
update_first-Onward p f (s ∷ ss) h = elim (Bool-cases (p s)) [
  | inl e ↦ rw e (h s (rw e), Onward-refl ss)
  | inr e ↦ rw e (Forward-refl s, update_first-Onward p f ss (λ t q. h t (rw e q)))
]

pub update_stream-Onward :
    (node : String) (f : CommandStream → CommandStream) (db : Db)
    → ((s : CommandStream) → find_stream node db ≡ some s → Forward s (f s))
    → Onward db.streams (update_stream node f db).streams
unfolding update_stream find_stream
update_stream-Onward node f db h = update_first-Onward (is_stream node) f db.streams h

-- The row that a key finds goes forward.
pub Onward-find :
    (node : String) (ss ts : List CommandStream) (s : CommandStream)
    → Onward ss ts
    → find_first (is_stream node) ss ≡ some s
    → (t : CommandStream) × (find_first (is_stream node) ts ≡ some t) × Forward s t
unfolding find_first
Onward-find node [] ts s o h = cc
Onward-find node (x ∷ ss) [] s o h = absurd o
Onward-find node (x ∷ ss) (y ∷ ts) s o h = elim (Bool-cases (x.node_id == node)) [
  | inl e ↦ (y, rw (o.0.same_node) (rw e), ground arith)
  | inr e ↦
      let (t, q, f) = Onward-find node ss ts s o.1 (rw e at h) in
      (t, rw (o.0.same_node) (rw e q), f)
]
