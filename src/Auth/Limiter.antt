-- ===== src/Auth/Limiter.antt =====
-- internal/api/api.go: the limiter of failed logins, and handlePasswordLogin around the check of the
-- password, in its sections. Times are in nanoseconds.
use thism.Base.{
  true, ℕ, ◌+◌, ◌*◌, ◌^◌, Bool, false, Option, none, some, List, [], ◌∷◌, ◌++◌, String, string_eq,
  if◌then◌else◌, ltb, leb, filter, length, trim_space, to_lower, text_append, is_blank_text,
}
use thism.Base.Table.{lookup, insert, delete}

abbrev pub login_failure_window : ℕ
login_failure_window = 5 * 60 * 10 ^ 9

abbrev pub login_failure_lockout : ℕ
login_failure_lockout = 5

-- The failures by key, oldest first.
abbrev pub Limiter : Type 0
Limiter = List (String × List ℕ)

unfoldable pub recent_login_failures : List ℕ → ℕ → List ℕ
recent_login_failures failures now = filter (λ t. ltb now (t + login_failure_window)) failures

unfoldable pub or_empty : Option (List ℕ) → List ℕ
or_empty none = []
or_empty (some ts) = ts

-- l.failures[key]
unfoldable pub failures_of : String → Limiter → List ℕ
unfolding lookup or_empty
failures_of key l = or_empty (lookup key l)

unfoldable pub locked : String → ℕ → Limiter → Limiter × Bool
locked key now l =
    let failures = recent_login_failures (failures_of key l) now in
    if is_blank_text key
    then (l, false)
    else (insert key failures l, leb login_failure_lockout (length failures))

unfoldable pub record_failure : String → ℕ → Limiter → Limiter
record_failure key now l =
    if is_blank_text key
    then l
    else insert key (recent_login_failures (failures_of key l) now ++ (now ∷ [])) l

unfoldable pub clear : String → Limiter → Limiter
clear key l = if is_blank_text key then l else delete key l

-- A request to log in: the address is what remoteAddrIP makes of it, and `authentic` what
-- AuthenticatePassword answers.
pub record Attempt : Type 0 where
  pub username : String
  pub address : String
  pub now : ℕ
  pub authentic : Bool

unfoldable pub username_key : String → String
username_key name = text_append "user:" (to_lower (trim_space name))

unfoldable pub ip_key : String → String
ip_key address = text_append "ip:" address

-- How a request ends: without a check of the password, or with one that fails or succeeds.
pub data Verdict : Type 0 where
  locked_out rejected welcomed : Verdict

-- The sections of handlePasswordLogin: each call of the limiter takes its mutex for itself, and the
-- check of the password is between them.
pub data Phase : Type 0 where
  asks_name asks_ip checks fails_name fails_ip clears_name clears_ip : Phase
  ends : Verdict → Phase

asked : Phase → Limiter × Bool → Limiter × Phase
asked next (l, true) = (l, ends locked_out)
asked next (l, false) = (l, next)

-- One section of a request, and the phase after it.
unfoldable pub login_section : Attempt → Phase → Limiter → Limiter × Phase
unfolding asked
login_section a asks_name l = asked asks_ip (locked (username_key a.username) a.now l)
login_section a asks_ip l = asked checks (locked (ip_key a.address) a.now l)
login_section a checks l = (l, if a.authentic then clears_name else fails_name)
login_section a fails_name l = (record_failure (username_key a.username) a.now l, fails_ip)
login_section a fails_ip l = (record_failure (ip_key a.address) a.now l, ends rejected)
login_section a clears_name l = (clear (username_key a.username) l, clears_ip)
login_section a clears_ip l = (clear (ip_key a.address) l, ends welcomed)
login_section a (ends verdict) l = (l, ends verdict)
