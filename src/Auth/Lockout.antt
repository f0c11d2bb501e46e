-- ===== src/Auth/Lockout.antt =====
-- How many failures let a request to log in go on to its password, over any interleaving.
use thism.Base.{
  ℕ, zero, suc, ◌+◌, ◌≤◌, ◌<◌, ◌≡◌, ◌≢◌, refl, ◌∙◌, sym, ap, ◌⊎◌, inl, inr, List, [], ◌∷◌, ◌++◌,
  String, ◌==◌, string_eq, if◌then◌else◌, ltb, filter, arith, Bool-cases, false,
}
use text.Mathlib.TextEquality.{eq_iff}
use thism.Base.Table.{lookup}
use thism.Auth.Limiter.{
  Limiter, login_failure_window, login_failure_lockout, recent_login_failures, failures_of,
  or_empty, locked, record_failure, clear, Attempt, username_key, ip_key, locked_out, Phase,
  asks_name, asks_ip, checks, fails_name, fails_ip, clears_name, clears_ip, ends, login_section,
}
use thism.Auth.Recency.{
  recent_of, user-not_blank, user-ip, locked-recent_of, locked-limit, record-recent_of_other,
  record-recent_of_own, clear-recent_of_other, clear-recent_of_own, recent_of-fewer,
}

-- A section that ran, with the phases before and after it.
abbrev pub Ran : Type 0
Ran = Attempt × Phase × Phase

-- The next section of the request at an index.
unfoldable pub advance :
    ℕ → List (Attempt × Phase) → Limiter → List (Attempt × Phase) × Limiter × List Ran
advance n [] l = ([], l, [])
advance zero ((a, p) ∷ rs) l =
    let (l', q) = login_section a p l in ((a, q) ∷ rs, l', (a, p, q) ∷ [])
advance (suc n) (r ∷ rs) l = let (rs', l', ran) = advance n rs l in (r ∷ rs', l', ran)

-- The log of the sections, newest first, when requests run in the order of a schedule.
unfoldable pub run_schedule : List ℕ → List (Attempt × Phase) → Limiter → List Ran → List Ran
run_schedule [] rs l log = log
run_schedule (n ∷ ns) rs l log =
    let (rs', l', ran) = advance n rs l in run_schedule ns rs' l' (ran ++ log)

abbrev pub requests : List Attempt → List (Attempt × Phase)
requests [] = []
requests (a ∷ more) = (a, asks_name) ∷ requests more

-- The latest clock that a section used.
abbrev pub latest : List Ran → ℕ
latest [] = 0
latest ((a, p, q) ∷ log) = if ltb a.now (latest log) then latest log else a.now

-- The failures of a name that were recorded since it was last cleared and are younger than the
-- window at `now`.
abbrev pub failed_recently : String → ℕ → List Ran → ℕ
failed_recently name now [] = 0
failed_recently name now ((a, fails_name, q) ∷ log) =
    if username_key a.username == username_key name
    then (if ltb now (a.now + login_failure_window)
        then suc (failed_recently name now log)
        else failed_recently name now log)
    else failed_recently name now log
failed_recently name now ((a, clears_name, q) ∷ log) =
    if username_key a.username == username_key name then 0 else failed_recently name now log
failed_recently name now ((a, asks_name, q) ∷ log) = failed_recently name now log
failed_recently name now ((a, asks_ip, q) ∷ log) = failed_recently name now log
failed_recently name now ((a, checks, q) ∷ log) = failed_recently name now log
failed_recently name now ((a, fails_ip, q) ∷ log) = failed_recently name now log
failed_recently name now ((a, clears_ip, q) ∷ log) = failed_recently name now log
failed_recently name now ((a, ends v, q) ∷ log) = failed_recently name now log

-- The request is for another name, or fewer failures than the limit are recent.
abbrev pub Fewer : String → Attempt → ℕ → List Ran → Type 0
Fewer name a now log =
    (username_key a.username ≢ username_key name)
    ⊎ (failed_recently name now log < login_failure_lockout)

-- Whenever the question for the name let a request go on, fewer failures than the limit were recent.
abbrev pub Guarded : String → List Ran → Type 0
Guarded name [] = Unit
Guarded name ((a, asks_name, asks_ip) ∷ log) =
    Fewer name a (latest ((a, asks_name, asks_ip) ∷ log)) log × Guarded name log
Guarded name (_ ∷ log) = Guarded name log

-- From the latest clock on the limiter counts the failures of the name.
record Held (name : String) (l : Limiter) (log : List Ran) : Type 0 where
  tracked :
      (later : ℕ)
      → latest log ≤ later
      → recent_of (username_key name) later l ≡ failed_recently name later log
  guarded : Guarded name log

now-latest : (a : Attempt) (p q : Phase) (log : List Ran) → a.now ≤ latest ((a, p, q) ∷ log)
now-latest a p q log = ground arith

log-latest : (a : Attempt) (p q : Phase) (log : List Ran) → latest log ≤ latest ((a, p, q) ∷ log)
log-latest a p q log = ground arith

-- A question changes no count.
locked-tracked :
    (name k : String) (a : Attempt) (p q : Phase) (l : Limiter) (log : List Ran)
    → Held name l log
    → (later : ℕ) → latest ((a, p, q) ∷ log) ≤ later
    → recent_of (username_key name) later (locked k a.now l).0 ≡ failed_recently name later log
locked-tracked name k a p q l log held later h =
    locked-recent_of (username_key name) k a.now later l (omega (arith, now-latest a p q log, h))
    ∙ held.tracked later (omega (arith, log-latest a p q log, h))

free-Fewer :
    (name : String) (a : Attempt) (p q : Phase) (l : Limiter) (log : List Ran)
    → Held name l log
    → (locked (username_key a.username) a.now l).1 ≡ false
    → Fewer name a (latest ((a, p, q) ∷ log)) log
free-Fewer name a p q l log held free =
    elim (Bool-cases (username_key a.username == username_key name)) [
      | inl same ↦
          let at = latest ((a, p, q) ∷ log) in
          let own = username_key a.username in
          let count : recent_of own at l ≡ failed_recently name at log =
            ap (λ k. recent_of k at l) ((eq_iff own (username_key name)).0 same)
            ∙ held.tracked at (log-latest a p q log) in
          let fewer = recent_of-fewer own a.now at l (now-latest a p q log) in
          let limit = locked-limit own a.now l (user-not_blank a.username) in
          inr (ground (arith, limit, free, count, fewer))
      | inr other ↦
          inl
            (λ p. ground (arith, other, (eq_iff (username_key a.username) (username_key name)).1 p))
    ]

fails-tracked :
    (name : String) (a : Attempt) (q : Phase) (l : Limiter) (log : List Ran) (later : ℕ)
    → a.now ≤ later
    → recent_of (username_key name) later l ≡ failed_recently name later log
    → recent_of (username_key name) later (record_failure (username_key a.username) a.now l)
      ≡ failed_recently name later ((a, fails_name, q) ∷ log)
fails-tracked name a q l log later h same_count =
    let key = username_key name in
    let own = username_key a.username in
    elim (Bool-cases (own == key)) [
      | inl same ↦
          let p = (eq_iff own key).0 same in
          rw same (
            ap (λ k. recent_of k later (record_failure own a.now l)) (sym p)
            ∙ record-recent_of_own own a.now later l (user-not_blank a.username) h
            ∙ ap
                (λ k.
                  recent_of k later l + (if ltb later (a.now + login_failure_window) then 1 else 0))
                p
            ∙ ground (arith, same_count))
      | inr other ↦ rw other (record-recent_of_other key own a.now later l other ∙ same_count)
    ]

clears-tracked :
    (name : String) (a : Attempt) (q : Phase) (l : Limiter) (log : List Ran) (later : ℕ)
    → recent_of (username_key name) later l ≡ failed_recently name later log
    → recent_of (username_key name) later (clear (username_key a.username) l)
      ≡ failed_recently name later ((a, clears_name, q) ∷ log)
clears-tracked name a q l log later same_count =
    let key = username_key name in
    let own = username_key a.username in
    elim (Bool-cases (own == key)) [
      | inl same ↦ rw same (
          ap (λ k. recent_of k later (clear own l)) (sym ((eq_iff own key).0 same))
          ∙ clear-recent_of_own own later l (user-not_blank a.username))
      | inr other ↦ rw other (clear-recent_of_other key own later l other ∙ same_count)
    ]

section-Held :
    (name : String) (a : Attempt) (p : Phase) (l : Limiter) (log : List Ran)
    → Held name l log
    → Held name (login_section a p l).0 ((a, p, (login_section a p l).1) ∷ log)
unfolding login_section
section-Held name a asks_name l log held =
    elim (Bool-cases (locked (username_key a.username) a.now l).1) [
      | inl busy ↦ rw busy (record {
        tracked = locked-tracked name _ a asks_name (ends locked_out) l log held;
        guarded = held.guarded;
      })
      | inr free ↦ rw free (record {
        tracked = locked-tracked name _ a asks_name asks_ip l log held;
        guarded = (free-Fewer name a asks_name asks_ip l log held free, held.guarded);
      })
    ]
section-Held name a asks_ip l log held = elim (Bool-cases (locked (ip_key a.address) a.now l).1) [
  | inl busy ↦ rw busy (record {
    tracked = locked-tracked name _ a asks_ip (ends locked_out) l log held;
    guarded = held.guarded;
  })
  | inr free ↦ rw free (record {
    tracked = locked-tracked name _ a asks_ip checks l log held;
    guarded = held.guarded;
  })
]
section-Held name a checks l log held = record {
  tracked = λ later h. held.tracked later (omega (arith, log-latest a checks checks log, h));
  guarded = held.guarded;
}
section-Held name a fails_name l log held = record {
  tracked = λ later h.
      fails-tracked name a fails_ip l log later (omega (arith, now-latest a checks checks log, h))
        (held.tracked later (omega (arith, log-latest a checks checks log, h)));
  guarded = held.guarded;
}
section-Held name a fails_ip l log held = record {
  tracked = λ later h.
      record-recent_of_other (username_key name) (ip_key a.address) a.now later l
        (user-ip name a.address)
      ∙ held.tracked later (omega (arith, log-latest a checks checks log, h));
  guarded = held.guarded;
}
section-Held name a clears_name l log held = record {
  tracked = λ later h.
      clears-tracked name a clears_ip l log later
        (held.tracked later (omega (arith, log-latest a checks checks log, h)));
  guarded = held.guarded;
}
section-Held name a clears_ip l log held = record {
  tracked = λ later h.
      clear-recent_of_other (username_key name) (ip_key a.address) later l (user-ip name a.address)
      ∙ held.tracked later (omega (arith, log-latest a checks checks log, h));
  guarded = held.guarded;
}
section-Held name a (ends verdict) l log held = record {
  tracked = λ later h. held.tracked later (omega (arith, log-latest a checks checks log, h));
  guarded = held.guarded;
}

advance-Held :
    (name : String) (n : ℕ) (rs : List (Attempt × Phase)) (l : Limiter) (log : List Ran)
    → Held name l log
    → Held name (advance n rs l).1 ((advance n rs l).2 ++ log)
unfolding advance
advance-Held name n [] l log held = held
advance-Held name zero ((a, p) ∷ rs) l log held = section-Held name a p l log held
advance-Held name (suc n) (r ∷ rs) l log held = advance-Held name n rs l log held

schedule-Guarded :
    (name : String) (ns : List ℕ) (rs : List (Attempt × Phase)) (l : Limiter) (log : List Ran)
    → Held name l log
    → Guarded name (run_schedule ns rs l log)
unfolding run_schedule
schedule-Guarded name [] rs l log held = held.guarded
schedule-Guarded name (n ∷ ns) rs l log held =
    schedule-Guarded name ns _ _ _ (advance-Held name n rs l log held)

-- Over any requests to log in whose sections run in any order, from a new limiter: the question for
-- the user name, in whatever case and with whatever space around it the name is given and from
-- whatever addresses, lets a request go on towards the check of its password only while fewer than 5
-- failures, recorded for the name since it was last cleared, are younger than 5 minutes at the
-- latest clock that a section has used. Failures that are not recorded yet do not count.
pub run_schedule-Guarded :
    (name : String) (attempts : List Attempt) (schedule : List ℕ)
    → Guarded name (run_schedule schedule (requests attempts) [] [])
run_schedule-Guarded name attempts schedule =
    schedule-Guarded name schedule (requests attempts) [] [] (record {
      tracked = λ later q.
          unfold recent_of recent_login_failures failures_of or_empty lookup filter in refl;
      guarded = tt;
    })
