-- ===== src/Agent/Records.antt =====
-- The window of execution records: its bound, and what a lookup finds in it.
use thism.Base.{
  ℕ, ◌≤◌, ◌<◌, ◌-◌, zero, suc, ◌≡◌, refl, ◌≢◌, true, false, some, List, [], ◌∷◌, ◌++◌, length, drop,
  length-append, length-drop, arith, Bool-cases, inl, inr,
}
use thism.Agent.State.{
  Key, key_eq, key_beq_iff, ExecutionRecord, has_key, replace_record, append_record, find_record,
  agent_state_records_window,
}

length-replace_record :
    (r : ExecutionRecord) (rs : List ExecutionRecord) → length (replace_record r rs) ≡ length rs
unfolding replace_record
length-replace_record r [] = refl
length-replace_record r (x ∷ rs) = ground (arith, length-replace_record r rs)

-- The window holds at most 1024 records, if it did before.
pub length-append_record :
    (rs : List ExecutionRecord) (r : ExecutionRecord)
    → length rs ≤ agent_state_records_window
    → length (append_record rs r) ≤ agent_state_records_window
unfolding append_record
length-append_record rs r h = ground (
  arith,
  length-replace_record r rs,
  length-append rs (r ∷ []),
  length-drop (length (rs ++ (r ∷ [])) - agent_state_records_window) (rs ++ (r ∷ [])),
)

find-append_last :
    (rs : List ExecutionRecord) (r : ExecutionRecord)
    → has_key r.key rs ≡ false
    → find_record (rs ++ (r ∷ [])) r.key ≡ some r
unfolding find_record has_key
find-append_last [] r h = ground (arith, key_beq_iff r.key r.key)
find-append_last (x ∷ rs) r h = ground (arith, find-append_last rs r)

has_key-drop :
    (n : ℕ) (k : Key) (rs : List ExecutionRecord)
    → has_key k rs ≡ false
    → has_key k (drop n rs) ≡ false
unfolding has_key
has_key-drop zero k rs h = h
has_key-drop (suc n) k [] h = refl
has_key-drop (suc n) k (x ∷ rs) h = ground (arith, has_key-drop n k rs)

drop-append_le :
    (n : ℕ) (rs ts : List ExecutionRecord) → n ≤ length rs → drop n (rs ++ ts) ≡ drop n rs ++ ts
drop-append_le zero rs ts h = refl
drop-append_le (suc n) [] ts h = elim h [ ]
drop-append_le (suc n) (x ∷ rs) ts h = drop-append_le n rs ts (omega arith)

find-replace_self :
    (rs : List ExecutionRecord) (r : ExecutionRecord)
    → has_key r.key rs ≡ true
    → find_record (replace_record r rs) r.key ≡ some r
unfolding find_record has_key replace_record
find-replace_self [] r h = ground arith
find-replace_self (x ∷ rs) r h = ground (arith, find-replace_self rs r, key_beq_iff r.key r.key)

-- A record that was just appended is found under its key, whatever was evicted for it.
pub find-append_record :
    (rs : List ExecutionRecord) (r : ExecutionRecord)
    → find_record (append_record rs r) r.key ≡ some r
unfolding append_record
find-append_record rs r = elim (Bool-cases (has_key r.key rs)) [
  | inl e ↦ rw e (find-replace_self rs r e)
  | inr e ↦ rw e (
      ground (
        arith,
        length-append rs (r ∷ []),
        drop-append_le (length (rs ++ (r ∷ [])) - agent_state_records_window) rs (r ∷ []),
        find-append_last rs r,
        find-append_last (drop (length (rs ++ (r ∷ [])) - agent_state_records_window) rs) r,
        has_key-drop (length (rs ++ (r ∷ [])) - agent_state_records_window) r.key rs,
      ))
]

find-append_other :
    (rs : List ExecutionRecord) (r : ExecutionRecord) (k : Key)
    → k ≢ r.key
    → find_record (rs ++ (r ∷ [])) k ≡ find_record rs k
unfolding find_record
find-append_other [] r k h = ground (arith, key_beq_iff r.key k)
find-append_other (x ∷ rs) r k h = ground (arith, find-append_other rs r k h)

find-replace_other :
    (rs : List ExecutionRecord) (r : ExecutionRecord) (k : Key)
    → k ≢ r.key
    → find_record (replace_record r rs) k ≡ find_record rs k
unfolding find_record replace_record
find-replace_other [] r k h = refl
find-replace_other (x ∷ rs) r k h = ground (
  arith,
  find-replace_other rs r k h,
  key_beq_iff x.key k,
  key_beq_iff r.key k,
  key_beq_iff x.key r.key,
)

-- Below the limit of the window an appended record evicts nothing: other keys find what they did.
pub find-append_record_ne :
    (rs : List ExecutionRecord) (r : ExecutionRecord) (k : Key)
    → k ≢ r.key
    → length rs < agent_state_records_window
    → find_record (append_record rs r) k ≡ find_record rs k
unfolding append_record
find-append_record_ne rs r k h l =
    ground
      (arith, length-append rs (r ∷ []), find-replace_other rs r k h, find-append_other rs r k h)
