-- ===== src/Auth/Libraries.antt =====
-- What the services use of the packages bcrypt and @nestjs/jwt.
use crypto_sim_backend.Common.{
  ℕ, ◌+◌, ◌/◌, ◌%◌, ◌<◌, ◌≡◌, leb, ◌&&◌, ltb, if◌then◌else◌, Bool, take, List, [], ◌∷◌, ◌++◌,
  Option, some, Text, text_eq,
}

-- The bytes of a text in UTF-8; half of a surrogate pair becomes the replacement character.
abbrev pub utf8_of : ℕ → List ℕ
utf8_of c =
    if ltb c 128
    then c ∷ []
    else if ltb c 2048
    then (192 + c / 64) ∷ (128 + c % 64) ∷ []
    else if leb 55296 c && ltb c 57344
    then 239 ∷ 191 ∷ 189 ∷ []
    else if ltb c 65536
    then (224 + c / 4096) ∷ (128 + c / 64 % 64) ∷ (128 + c % 64) ∷ []
    else (240 + c / 262144) ∷ (128 + c / 4096 % 64) ∷ (128 + c / 64 % 64) ∷ (128 + c % 64) ∷ []

abbrev pub utf8 : Text → List ℕ
utf8 [] = []
utf8 (c ∷ s) = utf8_of c ++ utf8 s

-- What bcrypt reads of a value: the first 72 bytes of its UTF-8.
abbrev pub read_bytes : Text → List ℕ
read_bytes value = take 72 (utf8 value)

-- `hash` draws a salt, which is an argument. What is compared with a hash matches it if and only if
-- the bytes that are read of it are those that were read of the hashed value.
pub record Bcrypt : Type 0 where
  pub hash : ℕ → Text → Text
  pub compare : Text → Text → Bool
  pub compare-hash :
      (salt : ℕ) (value other : Text)
      → compare other (hash salt value) ≡ text_eq (read_bytes other) (read_bytes value)

-- Tokens, signed at a time. A refresh token of a user verifies to the user's identifier until its time
-- to live is over.
pub record Jwt : Type 0 where
  pub refresh_ttl : ℕ
  pub sign_access : ℕ → ℕ → Text → List Text → Text
  pub sign_refresh : ℕ → ℕ → Text → Text
  pub verify_refresh : ℕ → Text → Option ℕ
  pub verify-sign :
      (issued now id : ℕ) (email : Text)
      → now < issued + refresh_ttl
      → verify_refresh now (sign_refresh issued id email) ≡ some id
