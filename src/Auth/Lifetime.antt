-- ===== src/Auth/Lifetime.antt =====
-- How long a signed token is accepted (server/auth.py).
use coda_node.Prelude.{
  ℕ, ◌+◌, ◌≤◌, ◌<◌, ◌≡◌, ◌≢◌, ◌⊎◌, inl, inr, refl, sym, ap, ◌∙◌, String, Bool, true, false, Option,
  none, some, str_eq, eq_iff,
}
use coda_node.Exec.{Exn, ok, err}
use coda_node.Auth.{
  Claims, kid_header, Jwt, kid_of, claims, sign_token, verify_token, by_key, by_header,
}

-- A token with these claims is good at a time, for an issuer.
abbrev pub IsGood : Claims → ℕ → String → Type 0
IsGood c now issuer = (issuer ≡ c.iss) × (c.iat ≤ now) × (now < c.exp)

-- What PyJWT documents for a pair of keys: a token's header can be read without a key, and a token that
-- one key has signed is decoded by the other between its `iat` and its `exp`, for the issuer that it
-- names, and raises otherwise.
pub record Documented {T : Type 0} (jwt : Jwt T) (private public : String) : Type 0 where
  pub reads_header :
      (c : Claims) (kid : String) (token : T)
      → jwt.encode c private kid ≡ ok token
      → jwt.get_unverified_header token ≡ kid_header (some kid)
  pub decodes :
      (c : Claims) (kid : String) (token : T)
      → jwt.encode c private kid ≡ ok token
      → (now : ℕ) (issuer : String) → IsGood c now issuer
      → jwt.decode now token public issuer ≡ ok c
  pub rejects :
      (c : Claims) (kid : String) (token : T)
      → jwt.encode c private kid ≡ ok token
      → (now : ℕ) (issuer : String) → ¬ IsGood c now issuer
      → (e : Exn) × (jwt.decode now token public issuer ≡ err e)

-- The key id that was given, or the subject where none was, or an empty one.
abbrev pub NamedBy : Option String → String → String → Type 0
NamedBy key_id subject kid =
    ((key_id ≡ some kid) × (kid ≢ "")) ⊎ (((key_id ≡ none) ⊎ (key_id ≡ some "")) × (kid ≡ subject))

nonempty : (s : String) → s ≢ "" → str_eq s "" ≡ false
nonempty s h = go (str_eq s "") refl
  where
    go : (b : Bool) → str_eq s "" ≡ b → b ≡ false
    go true e = absurd (h ((eq_iff s "").0 e))
    go false e = refl

kid_of-NamedBy :
    (key_id : Option String) (subject kid : String)
    → NamedBy key_id subject kid
    → kid_of key_id subject ≡ kid
kid_of-NamedBy key_id subject kid (inl (e, n)) = rw (e, nonempty kid n) refl
kid_of-NamedBy key_id subject kid (inr (inl e, s)) = rw e (sym s)
kid_of-NamedBy key_id subject kid (inr (inr e, s)) = rw e (sym s)

module _ {T : Type 0} (jwt : Jwt T) (private public : String)
    (documented : Documented jwt private public) (get_public_key : String → Option String) where
  by_key-public :
      (later : ℕ) (token : T) (issuer kid : String)
      → public ≢ ""
      → by_key jwt later token get_public_key issuer kid (some public)
        ≡ jwt.decode later token public issuer
  by_key-public later token issuer kid h = rw (nonempty public h) refl

  by_header-kid :
      (later : ℕ) (token : T) (issuer kid : String)
      → kid ≢ ""
      → by_header jwt later token get_public_key issuer (kid_header (some kid))
        ≡ by_key jwt later token get_public_key issuer kid (get_public_key kid)
  by_header-kid later token issuer kid h = rw (nonempty kid h) refl

  -- Verifying is decoding with the key that the header leads to.
  verify_token-decode :
      (now ttl later : ℕ) (subject issuer expected : String) (key_id : Option String) (kid : String)
      {token : T}
      → public ≢ ""
      → NamedBy key_id subject kid
      → kid ≢ ""
      → get_public_key kid ≡ some public
      → jwt.encode (claims now ttl subject issuer) private (kid_of key_id subject) ≡ ok token
      → verify_token jwt later token get_public_key expected
        ≡ jwt.decode later token public expected
  unfolding verify_token
  verify_token-decode now ttl later subject issuer expected key_id kid {token} p k n g s =
      ap (by_header jwt later token get_public_key expected) (
        documented.reads_header (claims now ttl subject issuer) kid token (
          ap (λ h. jwt.encode (claims now ttl subject issuer) private h)
            (sym (kid_of-NamedBy key_id subject kid k))
          ∙ s))
      ∙ by_header-kid later token expected kid n
      ∙ ap (by_key jwt later token get_public_key expected kid) g
      ∙ by_key-public later token expected kid p

  -- A token that is signed for `ttl` seconds is looked up by the key id that was given, or by its
  -- subject where none or an empty one was given. Where the public key is found under it, the token
  -- is accepted from then until before `ttl` seconds later, by a verifier that expects the same issuer,
  -- and comes back as the subject, the issuer and the two times that were signed; at all other times,
  -- or for another issuer, the verification raises.
  pub verify_token-sign_token :
      (now ttl later : ℕ) (subject issuer expected : String) (key_id : Option String) (kid : String)
      {token : T}
      → public ≢ ""
      → NamedBy key_id subject kid
      → kid ≢ ""
      → get_public_key kid ≡ some public
      → sign_token jwt now subject private issuer ttl key_id ≡ ok token
      → let signed : Claims = record { sub = subject; iss = issuer; iat = now; exp = now + ttl } in
        let r = verify_token jwt later token get_public_key expected in
        (IsGood signed later expected → r ≡ ok signed)
        × (¬ IsGood signed later expected → (e : Exn) × (r ≡ err e))
  unfolding sign_token
  verify_token-sign_token now ttl later subject issuer expected key_id kid {token} p k n g s =
      let c = claims now ttl subject issuer in
      let d = verify_token-decode now ttl later subject issuer expected key_id kid p k n g s in
      (
        (λ h. d ∙ documented.decodes c (kid_of key_id subject) token s later expected h),
        (λ h.
            let (e, q) = documented.rejects c (kid_of key_id subject) token s later expected h in
            (e, d ∙ q)),
      )
