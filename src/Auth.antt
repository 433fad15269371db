-- ===== src/Auth.antt =====
-- Signed tokens (server/auth.py). PyJWT is a `Jwt`, over its type of tokens; a time is in seconds.
pub mod Lifetime
use coda_node.Prelude.{
  ℕ, ◌+◌, String, ◌<>◌, Bool, true, false, Option, none, some, if◌then◌else◌, str_eq,
}
use coda_node.Exec.{Exn, other, Result, ok, err}

pub record Claims : Type 0 where
  pub sub : String
  pub iss : String
  pub iat : ℕ
  pub exp : ℕ

-- What `jwt.get_unverified_header` ends with: the `kid`, a DecodeError, or another exception.
pub data Header : Type 0 where
  kid_header : Option String → Header
  decode_error : String → Header
  failed : Exn → Header

pub record Jwt (T : Type 0) : Type 0 where
  -- `jwt.encode` with RS256, of the claims, by a private key, with a `kid`
  pub encode : Claims → String → String → Result T
  pub get_unverified_header : T → Header
  -- `jwt.decode` at a time, with a public key and the issuer that is expected
  pub decode : ℕ → T → String → String → Result Claims

-- `key_id or subject`
abbrev pub kid_of : Option String → String → String
kid_of none subject = subject
kid_of (some key_id) subject = if str_eq key_id "" then subject else key_id

abbrev pub claims : ℕ → ℕ → String → String → Claims
claims now ttl subject issuer = record { sub = subject; iss = issuer; iat = now; exp = now + ttl }

module _ {T : Type 0} (jwt : Jwt T) where
  -- sign_token, at a time
  unfoldable pub sign_token : ℕ → String → String → String → ℕ → Option String → Result T
  sign_token now subject private_key_pem issuer ttl key_id =
      jwt.encode (claims now ttl subject issuer) private_key_pem (kid_of key_id subject)

  -- `raise jwt.InvalidTokenError(…)`
  abbrev pub invalid_token : String → Result Claims
  invalid_token e = err (other e)

  -- verify_token_with_key, at a time
  unfoldable pub verify_token_with_key : ℕ → T → String → String → Result Claims
  verify_token_with_key now token public_key_pem issuer = jwt.decode now token public_key_pem issuer

  module _ (now : ℕ) (token : T) (get_public_key : String → Option String) (issuer : String) where
    abbrev pub by_key : String → Option String → Result Claims
    by_key kid none = invalid_token ("Unknown key_id: " <> kid)
    by_key kid (some public_key_pem) =
        if str_eq public_key_pem ""
        then invalid_token ("Unknown key_id: " <> kid)
        else jwt.decode now token public_key_pem issuer

    abbrev pub by_header : Header → Result Claims
    by_header (decode_error e) = invalid_token ("Malformed token header: " <> e)
    by_header (failed e) = err e
    by_header (kid_header none) = invalid_token "Token missing 'kid' header"
    by_header (kid_header (some kid)) =
        if str_eq kid ""
        then invalid_token "Token missing 'kid' header"
        else by_key kid (get_public_key kid)

    -- verify_token, at a time
    unfoldable pub verify_token : Result Claims
    verify_token = by_header (jwt.get_unverified_header token)
