-- ===== src/Auth/Passwords.antt =====
-- internal/security/password.go and the credentials of authManager in internal/api/api.go
-- (PasswordLoginEnabled, AuthenticatePassword, ChangePassword). argon2 and the hexadecimal code of
-- bytes are parameters.
use thism.Base.{
  ℕ, Bool, true, false, Option, none, some, List, [], ◌∷◌, String, ◌==◌, ◌&&◌, ◌||◌, not, string_eq,
  nat_eq, if◌then◌else◌, length, trim_space, text_append,
}
use Prim.Native.Char.{code}

-- argon2.IDKey with the constants of the package, by password, salt and length; hex.EncodeToString;
-- hex.DecodeString.
pub record Crypto : Type 0 where
  pub argon2id : String → List ℕ → ℕ → List ℕ
  pub encode_hex : List ℕ → String
  pub decode_hex : String → Option (List ℕ)

-- What follows the prefix, if the text begins with it: HasPrefix and TrimPrefix.
unfoldable pub strip_prefix : String → String → Option String
strip_prefix String.[] s = some s
strip_prefix (String.◌∷◌ c p) String.[] = none
strip_prefix (String.◌∷◌ c p) (String.◌∷◌ d s) =
    let rest = strip_prefix p s in if code c == code d then rest else none

is_some : Option String → Bool
is_some none = false
is_some (some s) = true

unfoldable pub is_password_hash : String → Bool
unfolding is_some
is_password_hash value = is_some (strip_prefix "argon2id$" value)

unfoldable pub needs_password_hash_upgrade : String → Bool
needs_password_hash_upgrade value = not (trim_space value == "") && not (is_password_hash value)

-- Without a salt rand.Read has failed.
unfoldable pub hash_password : Crypto → Option (List ℕ) → String → Option String
hash_password k none password = none
hash_password k (some salt) password = some (
    text_append "argon2id$" (
      text_append (k.encode_hex salt)
        (text_append "$" (k.encode_hex (k.argon2id password salt 32)))))

unfoldable pub has_dollar : String → Bool
has_dollar String.[] = false
has_dollar (String.◌∷◌ c s) = code c == 36 || has_dollar s

prefixed : String → Option (String × String) → Option (String × String)
prefixed c none = none
prefixed c (some (a, b)) = some (text_append c a, b)

-- The text before and after the first dollar sign.
unfoldable pub cut_dollar : String → Option (String × String)
unfolding prefixed
cut_dollar String.[] = none
cut_dollar (String.◌∷◌ c s) =
    let rest = cut_dollar s in
    if code c == 36 then some ("", s) else prefixed (String.◌∷◌ c String.[]) rest

unfoldable pub bytes_equal : List ℕ → List ℕ → Bool
bytes_equal [] [] = true
bytes_equal (x ∷ xs) (y ∷ ys) = x == y && bytes_equal xs ys
bytes_equal _ _ = false

unfoldable pub digests_match : Crypto → String → Option (List ℕ) → Option (List ℕ) → Bool
digests_match k password (some salt) (some expected) =
    not (length salt == 0)
    && (not (length expected == 0)
        && bytes_equal (k.argon2id password salt (length expected)) expected)
digests_match k password _ _ = false

-- The parts of strings.Split are two if there is one dollar sign.
unfoldable pub verify_parts : Crypto → String → Option (String × String) → Bool
verify_parts k password none = false
verify_parts k password (some (salt, expected)) =
    not (has_dollar expected)
    && digests_match k password (k.decode_hex salt) (k.decode_hex expected)

unfoldable pub verify_stored : Crypto → String → String → Option String → Bool
unfolding verify_parts
verify_stored k password stored none = password == stored
verify_stored k password stored (some encoded) = verify_parts k password (cut_dollar encoded)

unfoldable pub verify_password : Crypto → String → String → Bool
unfolding verify_stored
verify_password k password stored =
    not (stored == "") && verify_stored k password stored (strip_prefix "argon2id$" stored)

pub record Credentials : Type 0 where
  pub username : String
  pub password : String

unfoldable pub password_login_enabled : Credentials → Bool
password_login_enabled m = not (m.username == "") && not (m.password == "")

-- The new password is kept if it is hashed and persisted.
unfoldable pub upgraded : Bool → Option String → Credentials → Credentials
upgraded persists none m = m
upgraded persists (some hashed) m = if persists then record m { password = hashed } else m

unfoldable pub authenticate_password :
    Crypto → Option (List ℕ) → Bool → String → String → Credentials → Credentials × Bool
authenticate_password k salt persists username password m =
    if not (password_login_enabled m)
    then (m, false)
    else if not (username == m.username) || not (verify_password k password m.password)
    then (m, false)
    else if needs_password_hash_upgrade m.password
    then (upgraded persists (hash_password k salt password) m, true)
    else (m, true)

pub data Change : Type 0 where
  login_disabled invalid_current_pass not_hashed not_persisted changed : Change

unfoldable pub changed_to : Bool → Option String → Credentials → Credentials × Change
changed_to persists none m = (m, not_hashed)
changed_to persists (some hashed) m =
    if persists then (record m { password = hashed }, changed) else (m, not_persisted)

unfoldable pub change_password :
    Crypto → Option (List ℕ) → Bool → String → String → Credentials → Credentials × Change
change_password k salt persists current new m =
    if not (password_login_enabled m)
    then (m, login_disabled)
    else if not (verify_password k current m.password)
    then (m, invalid_current_pass)
    else changed_to persists (hash_password k salt new) m

-- newAuthManager and SetCredentials.
unfoldable pub set_credentials : String → String → Credentials
set_credentials username password = record { username = trim_space username; password = password }

upserted : String → Option String → Option Credentials
upserted username none = none
upserted username (some hashed) = some (record { username = username; password = hashed })

-- The row of admin_auth, or none if the hash fails and nothing is saved.
unfoldable pub upsert_admin_auth : Crypto → Option (List ℕ) → String → String → Option Credentials
unfolding upserted
upsert_admin_auth k salt username password =
    if needs_password_hash_upgrade password
    then upserted username (hash_password k salt password)
    else some (record { username = username; password = password })

pub data ChangeAnswer : Type 0 where
  not_found password_change_required new_password_must_differ : ChangeAnswer
  answers : Change → ChangeAnswer

change_answer : Credentials × Change → Credentials × ChangeAnswer
change_answer (m, outcome) = (m, answers outcome)

-- The request is decoded.
unfoldable pub handle_change_password :
    Crypto → Option (List ℕ) → Bool → String → String → Credentials → Credentials × ChangeAnswer
unfolding change_answer
handle_change_password k salt persists current new m =
    if not (password_login_enabled m)
    then (m, not_found)
    else if current == "" || new == ""
    then (m, password_change_required)
    else if current == new
    then (m, new_password_must_differ)
    else change_answer (change_password k salt persists current new m)
