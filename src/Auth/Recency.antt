-- ===== src/Auth/Recency.antt =====
-- The recent failures of a key, after each operation of the limiter.
use thism.Base.{
  ℕ, ◌+◌, ◌≤◌, ◌≡◌, refl, ◌∙◌, ap, inl, inr, Bool, true, false, List, [], ◌∷◌, ◌++◌, String, ◌==◌,
  string_eq, if◌then◌else◌, ltb, leb, filter, length, arith, Bool-cases, text_append, is_blank_text,
  Option, some, ==_false, ==_self,
}
use Prim.Native.Char.{code}
use text.Mathlib.TextEquality.{eq_iff}
use thism.Base.Table.{lookup, insert, lookup-insert, lookup-delete}
use thism.Auth.Limiter.{
  Limiter, login_failure_window, login_failure_lockout, recent_login_failures, failures_of,
  or_empty, locked, record_failure, clear, username_key, ip_key,
}

-- The attempts with their verdicts, newest first.
pub user-not_blank : (name : String) → is_blank_text (username_key name) ≡ false
unfolding username_key text_append is_blank_text
user-not_blank name = refl

first_code : String → ℕ
first_code String.[] = 0
first_code (String.◌∷◌ c s) = code c

pub user-ip : (name address : String) → (ip_key address == username_key name) ≡ false
unfolding username_key ip_key text_append first_code
user-ip name address =
    ==_false (ip_key address) (username_key name) (λ p. absurd (omega (arith, ap first_code p)))

-- What was recent later was recent earlier.
recent-recent :
    (ts : List ℕ) (now later : ℕ)
    → now ≤ later
    → recent_login_failures (recent_login_failures ts now) later ≡ recent_login_failures ts later
unfolding recent_login_failures filter
recent-recent [] now later h = refl
recent-recent (t ∷ ts) now later h = ground (arith, recent-recent ts now later h)

-- Fewer are recent later.
recent-fewer :
    (ts : List ℕ) (now later : ℕ)
    → now ≤ later
    → length (recent_login_failures ts later) ≤ length (recent_login_failures ts now)
unfolding recent_login_failures filter
recent-fewer [] now later h = omega arith
recent-fewer (t ∷ ts) now later h = ground (arith, recent-fewer ts now later h)

recent-append :
    (ts : List ℕ) (t now : ℕ)
    → length (recent_login_failures (ts ++ (t ∷ [])) now)
      ≡ length (recent_login_failures ts now)
        + (if ltb now (t + login_failure_window) then 1 else 0)
unfolding recent_login_failures filter
recent-append [] t now = ground arith
recent-append (x ∷ ts) t now = ground (arith, recent-append ts t now)

-- The younger failures of a key.
unfoldable pub recent_of : String → ℕ → Limiter → ℕ
recent_of key now l = length (recent_login_failures (failures_of key l) now)

or_empty-if :
    (b : Bool) (ts : List ℕ) (o : Option (List ℕ))
    → or_empty (if b then some ts else o) ≡ (if b then ts else or_empty o)
unfolding or_empty
or_empty-if true ts o = refl
or_empty-if false ts o = refl

failures_of-insert :
    (j k : String) (ts : List ℕ) (l : Limiter)
    → failures_of j (insert k ts l) ≡ (if k == j then ts else failures_of j l)
unfolding failures_of
failures_of-insert j k ts l =
    ap or_empty (lookup-insert j k ts l) ∙ or_empty-if (k == j) ts (lookup j l)

pub locked-recent_of :
    (j k : String) (now later : ℕ) (l : Limiter)
    → now ≤ later
    → recent_of j later (locked k now l).0 ≡ recent_of j later l
unfolding recent_of locked
locked-recent_of j k now later l h = elim (Bool-cases (is_blank_text k)) [
  | inl blank ↦ rw blank refl
  | inr given ↦ elim (Bool-cases (k == j)) [
    | inl same ↦
        rw (given, failures_of-insert j k _ l, same)
          (ap length (recent-recent (failures_of k l) now later h)
            ∙ ap (λ i. length (recent_login_failures (failures_of i l) later))
                ((eq_iff k j).0 same))
    | inr other ↦ rw (given, failures_of-insert j k _ l, other) refl
  ]
]

pub locked-limit :
    (k : String) (now : ℕ) (l : Limiter)
    → is_blank_text k ≡ false
    → (locked k now l).1 ≡ leb login_failure_lockout (recent_of k now l)
unfolding recent_of locked
locked-limit k now l given = rw given refl

pub record-recent_of_other :
    (j k : String) (now later : ℕ) (l : Limiter)
    → (k == j) ≡ false
    → recent_of j later (record_failure k now l) ≡ recent_of j later l
unfolding recent_of record_failure
record-recent_of_other j k now later l other = elim (Bool-cases (is_blank_text k)) [
  | inl blank ↦ rw blank refl
  | inr given ↦ rw (given, failures_of-insert j k _ l, other) refl
]

pub record-recent_of_own :
    (k : String) (now later : ℕ) (l : Limiter)
    → is_blank_text k ≡ false
    → now ≤ later
    → recent_of k later (record_failure k now l)
      ≡ recent_of k later l + (if ltb later (now + login_failure_window) then 1 else 0)
unfolding recent_of record_failure
record-recent_of_own k now later l given h =
    rw (given, failures_of-insert k k _ l, ==_self k)
      (recent-append (recent_login_failures (failures_of k l) now) now later
        ∙ ap (λ ts. length ts + (if ltb later (now + login_failure_window) then 1 else 0))
            (recent-recent (failures_of k l) now later h))

pub clear-recent_of_other :
    (j k : String) (later : ℕ) (l : Limiter)
    → (k == j) ≡ false
    → recent_of j later (clear k l) ≡ recent_of j later l
unfolding recent_of clear failures_of
clear-recent_of_other j k later l other = elim (Bool-cases (is_blank_text k)) [
  | inl blank ↦ rw blank refl
  | inr given ↦ rw (given, lookup-delete j k l, other) refl
]

pub clear-recent_of_own :
    (k : String) (later : ℕ) (l : Limiter)
    → is_blank_text k ≡ false
    → recent_of k later (clear k l) ≡ 0
unfolding recent_of clear failures_of or_empty recent_login_failures filter
clear-recent_of_own k later l given = rw (given, lookup-delete k k l, ==_self k) refl

pub recent_of-fewer :
    (k : String) (now later : ℕ) (l : Limiter)
    → now ≤ later
    → recent_of k later l ≤ recent_of k now l
unfolding recent_of
recent_of-fewer k now later l h = recent-fewer (failures_of k l) now later h
