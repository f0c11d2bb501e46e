-- ===== src/Tests/Auth.antt =====
-- Runs of the login guard and of the sessions.
use thism.Base.{
  string_eq, ℕ, zero, suc, not, ltb, contains, ◌+◌, ◌∙◌, ap, String, length, some, none, ◌==◌,
  nat_eq, if◌then◌else◌, ◌≡◌, refl, true, false, [], ◌∷◌, List, arith, is_blank_text, trim_space,
  to_lower, text_append, filter,
}
use thism.Base.Table.{lookup, delete}
use thism.Auth.Limiter.{
  Limiter, Attempt, locked_out, locked, username_key, recent_login_failures, failures_of,
  login_section, asks_name, ends,
}
use thism.Auth.Lockout.{run_schedule, requests, run_schedule-Guarded, Guarded}
use thism.Auth.Sessions.{
  Sessions, session_lifetime, is_valid_row, is_expired, is_in_memory, read_row, remember, forget,
  delete_row, delete_admin_session, Section, looks_in_memory, reads_row, remembers, inserts_row,
  forgets, deletes_row, restarts, run_section,
}
use thism.Auth.Forgotten.{run_sections}
use thism.Auth.Revocation.{created_session, delete_session-revoked, create-has_forever}
use thism.Auth.Passwords.{
  Crypto, has_dollar, Credentials, password_login_enabled, verify_password, strip_prefix,
  needs_password_hash_upgrade, is_password_hash, authenticate_password, changed,
  invalid_current_pass, change_password, handle_change_password, new_password_must_differ,
  upsert_admin_auth, set_credentials,
}
use thism.Auth.Renewal.{IsCrypto, change_password-authenticated}
use Prim.Native.Char.{code}

abbrev guess : Attempt
guess = record { username = " Admin"; address = "10.0.0.1"; now = 7; authentic = false }

abbrev guesses : List Attempt
guesses = guess ∷ guess ∷ record guess { username = "admin"; now = 9; authentic = true } ∷ []

-- The two guesses are interleaved, and the right password comes between their records.
abbrev schedule : List ℕ
schedule = 0 ∷ 1 ∷ 0 ∷ 1 ∷ 0 ∷ 1 ∷ 0 ∷ 2 ∷ 2 ∷ 2 ∷ 2 ∷ 1 ∷ 0 ∷ 2 ∷ 1 ∷ []

abbrev crowded : Limiter
crowded = ("user:admin", 1 ∷ 2 ∷ 3 ∷ 4 ∷ 5 ∷ []) ∷ []

login_section_locked : (login_section guess asks_name crowded).1 ≡ ends locked_out
unfolding login_section locked is_blank_text username_key text_append recent_login_failures filter
    failures_of to_lower trim_space
login_section_locked = refl

run_schedule-Guarded_example : Guarded "admin" (run_schedule schedule (requests guesses) [] [])
run_schedule-Guarded_example = run_schedule-Guarded "admin" guesses schedule

abbrev open_sessions : Sessions
open_sessions = record {
  memory = "abc" ∷ "def" ∷ [];
  rows = ("abc", 900) ∷ ("def", 900) ∷ [];
  found = [];
  created = [];
}

abbrev meanwhile : List Section
meanwhile = looks_in_memory "abc" ∷ reads_row "def" 9 true true ∷ inserts_row "ghi" 10 true ∷ []

abbrev afterwards : List Section
afterwards =
    remembers "def"
    ∷ reads_row "abc" 12 true true
    ∷ remembers "abc"
    ∷ restarts 13 true
    ∷ looks_in_memory "abc"
    ∷ []

delete_session-revoked_example :
    contains
      (run_sections afterwards
        (delete_row "abc" true (run_sections meanwhile (forget "abc" open_sessions)).0)).1
      "abc"
    ≡ false
delete_session-revoked_example =
    delete_session-revoked "abc" meanwhile afterwards open_sessions (unfold is_blank_text in refl)
      (unfold contains in refl) (unfold contains in refl) (tt, (refl, (refl, tt)))
      (tt, (tt, (tt, (tt, (tt, tt)))))

-- A call of Has that read the row before the deletion puts the id back.
delete_session_raced :
    (run_sections
      (reads_row "ghi" 9 true true
        ∷ forgets "ghi"
        ∷ deletes_row "ghi" true
        ∷ remembers "ghi"
        ∷ looks_in_memory "ghi"
        ∷ [])
      (record open_sessions { rows = ("ghi", 900) ∷ [] })).1
    ≡ "ghi" ∷ "ghi" ∷ []
unfolding run_sections run_section read_row is_valid_row is_expired lookup remember forget
    delete_row delete_admin_session delete filter contains is_in_memory is_blank_text
delete_session_raced = refl

create-has_forever_example :
    (is_in_memory "xyz" (run_sections meanwhile (created_session "xyz" 100 open_sessions)).0 ≡ true)
    × (is_valid_row 9000000 (lookup "xyz" (created_session "xyz" 100 open_sessions).rows)
        ≡ not (ltb (100 + session_lifetime) 9000000))
create-has_forever_example =
    create-has_forever "xyz" 100 9000000 meanwhile open_sessions (unfold is_blank_text in refl)
      (tt, (tt, (tt, tt)))

-- A digest of as many copies of the first character as are asked for, and a unary code of bytes.
first_code : String → ℕ
first_code String.[] = 0
first_code (String.◌∷◌ c s) = code c

copies : ℕ → ℕ → List ℕ
copies x zero = []
copies x (suc n) = x ∷ copies x n

length-copies : (x n : ℕ) → length (copies x n) ≡ n
unfolding copies
length-copies x zero = refl
length-copies x (suc n) = omega (arith, length-copies x n)

unary : ℕ → String → String
unary zero s = String.◌∷◌ "b" s
unary (suc n) s = String.◌∷◌ "a" (unary n s)

encode : List ℕ → String
unfolding unary
encode [] = ""
encode (n ∷ ns) = unary n (encode ns)

decode : ℕ → String → List ℕ
decode n String.[] = []
decode n (String.◌∷◌ c s) =
    let more = decode (suc n) s in let next = decode 0 s in if code c == 98 then n ∷ next else more

decode-unary : (m n : ℕ) (s : String) → decode m (unary n s) ≡ (m + n) ∷ decode 0 s
unfolding decode unary
decode-unary m zero s = ap (λ x. x ∷ decode 0 s) (omega arith)
decode-unary m (suc n) s = decode-unary (suc m) n s ∙ ap (λ x. x ∷ decode 0 s) (omega arith)

decode-encode : (ns : List ℕ) → decode 0 (encode ns) ≡ ns
unfolding decode encode
decode-encode [] = refl
decode-encode (n ∷ ns) =
    decode-unary 0 n (encode ns) ∙ rw (decode-encode ns) (ap (λ x. x ∷ ns) (omega arith))

unary-no_dollar : (n : ℕ) (s : String) → has_dollar s ≡ false → has_dollar (unary n s) ≡ false
unfolding has_dollar unary
unary-no_dollar zero s h = h
unary-no_dollar (suc n) s h = unary-no_dollar n s h

encode-no_dollar : (ns : List ℕ) → has_dollar (encode ns) ≡ false
unfolding has_dollar encode
encode-no_dollar [] = refl
encode-no_dollar (n ∷ ns) = unary-no_dollar n (encode ns) (encode-no_dollar ns)

abbrev toy : Crypto
toy = record {
  argon2id = λ password salt n. copies (first_code password) n;
  encode_hex = encode;
  decode_hex = λ s. some (decode 0 s);
}

toy-IsCrypto : IsCrypto toy
toy-IsCrypto = record {
  sized = λ password salt n. length-copies (first_code password) n;
  decoded = λ bytes. ap some (decode-encode bytes);
  no_dollar = encode-no_dollar;
}

-- The password in the configuration is not hashed yet.
abbrev configured : Credentials
configured = record { username = "admin"; password = "secret" }

abbrev salt : List ℕ
salt = 1 ∷ 2 ∷ 3 ∷ []

change_password-authenticated_example :
    ((change_password toy (some salt) true "secret" "changed" configured).1 ≡ changed)
    × (authenticate_password toy none false "admin" "changed"
          (change_password toy (some salt) true "secret" "changed" configured).0
        ≡ ((change_password toy (some salt) true "secret" "changed" configured).0, true))
change_password-authenticated_example =
    change_password-authenticated toy salt "secret" "changed" configured none false toy-IsCrypto
      refl (unfold password_login_enabled in refl) (unfold verify_password strip_prefix in refl)

change_password_wrong :
    (change_password toy (some salt) true "Secret" "changed" configured)
    ≡ (configured, invalid_current_pass)
unfolding change_password password_login_enabled verify_password strip_prefix
change_password_wrong = refl

handle_change_password_same :
    handle_change_password toy (some salt) true "secret" "secret" configured
    ≡ (configured, new_password_must_differ)
unfolding handle_change_password password_login_enabled
handle_change_password_same = refl

set_credentials_trims : set_credentials " admin " "secret" ≡ configured
unfolding set_credentials trim_space
set_credentials_trims = refl

-- A text with the prefix of a hash is saved as it is.
upsert_admin_auth_keeps :
    upsert_admin_auth toy none "admin" "argon2id$ab$cd"
    ≡ some (record { username = "admin"; password = "argon2id$ab$cd" })
unfolding upsert_admin_auth needs_password_hash_upgrade is_password_hash strip_prefix trim_space
upsert_admin_auth_keeps = refl
