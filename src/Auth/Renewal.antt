-- ===== src/Auth/Renewal.antt =====
-- A stored hash verifies its password, and a changed password logs in.
use thism.Base.{
  ℕ, ◌≡◌, ◌≢◌, refl, ◌∙◌, ap, Bool, true, false, Option, none, some, List, [], ◌∷◌, String, ◌==◌,
  string_eq, nat_eq, length, text_append, arith, ==_self, ==_false, Bool-cases, inl, inr,
}
use Prim.Native.Char.{code}
use thism.Auth.Passwords.{
  Crypto, strip_prefix, is_password_hash, needs_password_hash_upgrade, hash_password, has_dollar,
  cut_dollar, bytes_equal, digests_match, verify_parts, verify_stored, verify_password, Credentials,
  password_login_enabled, authenticate_password, changed, changed_to, change_password,
}

-- What is used of the libraries: a digest has the length that is asked for; hexadecimal text is
-- decoded to the bytes that it was made of, and has no dollar sign.
pub record IsCrypto (k : Crypto) : Type 0 where
  pub sized : (password : String) (salt : List ℕ) (n : ℕ) → length (k.argon2id password salt n) ≡ n
  pub decoded : (bytes : List ℕ) → k.decode_hex (k.encode_hex bytes) ≡ some bytes
  pub no_dollar : (bytes : List ℕ) → has_dollar (k.encode_hex bytes) ≡ false

strip_prefix-text_append : (p s : String) → strip_prefix p (text_append p s) ≡ some s
unfolding strip_prefix text_append
strip_prefix-text_append String.[] s = refl
strip_prefix-text_append (String.◌∷◌ c p) s = ground (arith, strip_prefix-text_append p s)

cut_dollar-text_append :
    (a b : String)
    → has_dollar a ≡ false
    → cut_dollar (text_append a (text_append "$" b)) ≡ some (a, b)
unfolding cut_dollar text_append has_dollar
cut_dollar-text_append String.[] b h = refl
cut_dollar-text_append (String.◌∷◌ c a) b h = elim (Bool-cases (code c == 36)) [
  | inl dollar ↦ cc
  | inr other ↦ rw (other, cut_dollar-text_append a b (ground (arith, h, other))) refl
]

bytes_equal_self : (xs : List ℕ) → bytes_equal xs xs ≡ true
unfolding bytes_equal
bytes_equal_self [] = refl
bytes_equal_self (x ∷ xs) = ground (arith, bytes_equal_self xs)

none-some : (o : Option String) (s : String) → o ≡ none → o ≢ some s
none-some o s p q = cc

prefixed-given : (s : String) → (text_append "argon2id$" s == "") ≡ false
prefixed-given s = ==_false (text_append "argon2id$" s) "" (λ p.
    none-some (strip_prefix "argon2id$" (text_append "argon2id$" s)) s
      (ap (strip_prefix "argon2id$") p ∙ (unfold strip_prefix in refl))
      (strip_prefix-text_append "argon2id$" s))

module _ (k : Crypto) (crypto : IsCrypto k) where
  digests_match_self :
      (password : String) (salt : List ℕ)
      → (length salt == 0) ≡ false
      → digests_match k password (some salt) (some (k.argon2id password salt 32)) ≡ true
  unfolding digests_match
  digests_match_self password salt h =
      rw (h, crypto.sized password salt 32, bytes_equal_self (k.argon2id password salt 32)) refl

  -- A stored text that HashPassword made.
  hashed : List ℕ → String → String
  hashed salt password = text_append "argon2id$" (
      text_append (k.encode_hex salt)
        (text_append "$" (k.encode_hex (k.argon2id password salt 32))))

  verify-hashed :
      (password : String) (salt : List ℕ)
      → (length salt == 0) ≡ false
      → verify_password k password (hashed salt password) ≡ true
  unfolding verify_password verify_stored verify_parts hashed
  verify-hashed password salt h =
      let digest = k.argon2id password salt 32 in
      rw
        (
          prefixed-given (text_append (k.encode_hex salt) (text_append "$" (k.encode_hex digest))),
          strip_prefix-text_append "argon2id$"
              (text_append (k.encode_hex salt) (text_append "$" (k.encode_hex digest))),
          cut_dollar-text_append (k.encode_hex salt) (k.encode_hex digest) (crypto.no_dollar salt),
          crypto.no_dollar digest,
          crypto.decoded salt,
          crypto.decoded digest,
        )
        (digests_match_self password salt h)

  hashed-not_upgraded :
      (password : String) (salt : List ℕ)
      → needs_password_hash_upgrade (hashed salt password) ≡ false
  unfolding needs_password_hash_upgrade is_password_hash hashed
  hashed-not_upgraded password salt =
      rw
        (strip_prefix-text_append "argon2id$" (
          text_append (k.encode_hex salt)
            (text_append "$" (k.encode_hex (k.argon2id password salt 32)))))
        (ground arith)

  -- The credentials after a change to the password.
  renewed : List ℕ → String → Credentials → Credentials
  renewed salt new m = record m { password = hashed salt new }

  change_password-renewed :
      (salt : List ℕ) (current new : String) (m : Credentials)
      → password_login_enabled m ≡ true
      → verify_password k current m.password ≡ true
      → change_password k (some salt) true current new m ≡ (renewed salt new m, changed)
  unfolding change_password changed_to hash_password renewed hashed
  change_password-renewed salt current new m enabled known = rw (enabled, known) refl

  renewed-enabled :
      (salt : List ℕ) (new : String) (m : Credentials)
      → password_login_enabled m ≡ true
      → password_login_enabled (renewed salt new m) ≡ true
  unfolding password_login_enabled renewed hashed
  renewed-enabled salt new m enabled =
      rw
        (prefixed-given (
          text_append (k.encode_hex salt)
            (text_append "$" (k.encode_hex (k.argon2id new salt 32)))))
        (ground (arith, enabled))

  renewed-authenticated :
      (salt : List ℕ) (new : String) (m : Credentials) (other : Option (List ℕ)) (persists : Bool)
      → (length salt == 0) ≡ false
      → password_login_enabled m ≡ true
      → authenticate_password k other persists m.username new (renewed salt new m)
        ≡ (renewed salt new m, true)
  unfolding authenticate_password renewed
  renewed-authenticated salt new m other persists h enabled =
      rw (renewed-enabled salt new m enabled, ==_self m.username)
        (rw (verify-hashed new salt h, hashed-not_upgraded new salt) refl)

-- If the digest and the hexadecimal code are as documented, then with login enabled, the right
-- current password, a salt that is not empty, and the new credentials saved: the password is
-- changed, and the user name with the new password is authenticated from then on, which changes the
-- credentials no more.
pub change_password-authenticated :
    (k : Crypto) (salt : List ℕ) (current new : String) (m : Credentials) (other : Option (List ℕ))
    (persists : Bool)
    → IsCrypto k
    → (length salt == 0) ≡ false
    → password_login_enabled m ≡ true
    → verify_password k current m.password ≡ true
    → ((change_password k (some salt) true current new m).1 ≡ changed)
      × (authenticate_password k other persists m.username new
            (change_password k (some salt) true current new m).0
          ≡ ((change_password k (some salt) true current new m).0, true))
change_password-authenticated k salt current new m other persists crypto h enabled known =
    rw (change_password-renewed k crypto salt current new m enabled known)
      (refl, renewed-authenticated k crypto salt new m other persists h enabled)
