-- ===== src/Tests/Tokens.antt =====
-- A token whose signature is the private key itself (server/auth.py).
use coda_node.Prelude.{
  ℕ, ◌≡◌, refl, sym, ap, inl, ◌∙◌, String, Bool, true, false, ◌&&◌, Option, none, some,
  if◌then◌else◌, str_eq, eq_iff, leb, ltb, arith,
}
use coda_node.Exec.{Exn, Result, other, ok, err}
use coda_node.Auth.{Claims, kid_header, Jwt, claims, sign_token, verify_token}
use coda_node.Auth.Lifetime.{Documented, IsGood, verify_token-sign_token}

-- The claims, the private key and the `kid`.
abbrev Token : Type 0
Token = Claims × String × String

abbrev rejected : Exn
rejected = other "invalid"

abbrev decoded : ℕ → String → Claims → Result Claims
decoded now issuer c =
    if str_eq issuer c.iss && (leb c.iat now && ltb now c.exp) then ok c else err rejected

abbrev toy : Jwt Token
toy = record {
  encode = λ c key kid. ok (c, key, kid);
  get_unverified_header = λ t. kid_header (some t.2);
  decode = λ now t key issuer.
      if str_eq t.1 "private" && str_eq key "public" then decoded now issuer t.0 else err rejected;
}

part : {a b : Token} → ok a ≡ ok b → a ≡ b
part e = cc

decoded-IsGood :
    (c : Claims) (now : ℕ) (issuer : String) → IsGood c now issuer → decoded now issuer c ≡ ok c
decoded-IsGood c now issuer (e, a, b) = rw ((eq_iff issuer c.iss).1 e) (ground arith)

decoded-rejects :
    (c : Claims) (now : ℕ) (issuer : String)
    → ¬ IsGood c now issuer
    → decoded now issuer c ≡ err rejected
decoded-rejects c now issuer h =
    go (str_eq issuer c.iss) (leb c.iat now) (ltb now c.exp) refl refl refl
  where
    go :
        (a b d : Bool)
        → str_eq issuer c.iss ≡ a
        → leb c.iat now ≡ b
        → ltb now c.exp ≡ d
        → (if a && (b && d) then ok c else err rejected) ≡ err rejected
    go true true true p q r = absurd (h ((eq_iff issuer c.iss).0 p, ground arith, ground arith))
    go true true false p q r = refl
    go true false d p q r = refl
    go false b d p q r = refl

toy-Documented : Documented toy "private" "public"
toy-Documented = record {
  reads_header = λ c kid token e. ap (λ t. kid_header (some t.2)) (sym (part e));
  decodes = λ c kid token e now issuer h.
      ap (λ t. toy.decode now t "public" issuer) (sym (part e)) ∙ decoded-IsGood c now issuer h;
  rejects = λ c kid token e now issuer h. (
    rejected,
    ap (λ t. toy.decode now t "public" issuer) (sym (part e)) ∙ decoded-rejects c now issuer h,
  );
}

abbrev known : String → Option String
known kid = if str_eq kid "q" then some "public" else none

-- A token of one hour, under a key id of its own, a minute before its end.
abbrev token : Token
token = (claims 1000 3600 "qpu" "coda", "private", "q")

signed : sign_token toy 1000 "qpu" "private" "coda" 3600 (some "q") ≡ ok token
unfolding sign_token
signed = refl

verify_token-sign_token_example :
    (IsGood (claims 1000 3600 "qpu" "coda") 4540 "coda"
      → verify_token toy 4540 token known "coda" ≡ ok (claims 1000 3600 "qpu" "coda"))
    × (¬ IsGood (claims 1000 3600 "qpu" "coda") 4540 "coda"
        → (e : Exn) × (verify_token toy 4540 token known "coda" ≡ err e))
verify_token-sign_token_example =
    verify_token-sign_token toy "private" "public" toy-Documented known 1000 3600 4540 "qpu" "coda"
      "coda" (some "q") "q" (λ e. cc) (inl (refl, λ e. cc)) (λ e. cc) refl signed
