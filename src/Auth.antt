-- ===== src/Auth.antt =====
-- internal/auth/jwt.go: `GenerateTicket`, `ValidateTicket` and `ValidateRealToken`. Signing and
-- parsing are those of the golang-jwt library, a parameter; times are whole seconds.
mod Tests
pub mod Fixture
pub mod Tickets
use Prim.Native.String.{◌++◌}
use scorpion.Prelude.{
  ℕ, ◌+◌, ◌≤◌, ◌<◌, String, ◌≡◌, Bool, true, false, ◌||◌, not, ◌==◌, Result, ok, err, if◌then◌else◌,
}
use scorpion.Config.{Auth}

pub record TicketClaims : Type 0 where
  pub ip : String
  pub subject : String
  pub issued_at : ℕ
  pub expires_at : ℕ
  pub id : String

-- The kind of a token's signing method, on which the key functions branch.
pub data SigningMethod : Type 0 where
  hmac : SigningMethod
  other : String → SigningMethod

pub record TicketToken : Type 0 where
  pub claims : TicketClaims
  pub valid : Bool

-- A token whose claims are a map: what `GetSubject` answers, with the empty text where there is no
-- subject.
pub record MapToken : Type 0 where
  pub get_subject : Result String
  pub valid : Bool

abbrev pub KeyFunction : Type 0
KeyFunction = SigningMethod → Result String

pub record Jwt : Type 0 where
  pub method_of : String → SigningMethod
  -- `SignedString` with HS256 and the key
  pub sign : TicketClaims → String → Result String
  -- `ParseWithClaims` and `Parse` at a time
  pub parse_with_claims : KeyFunction → ℕ → String → Result TicketToken
  pub parse : KeyFunction → ℕ → String → Result MapToken
  -- A signed token is parsed with the same key until it expires.
  pub parse-sign :
      (c : TicketClaims) (key s : String) (f : KeyFunction) (now : ℕ)
      → sign c key ≡ ok s
      → f hmac ≡ ok key
      → now < c.expires_at
      → parse_with_claims f now s ≡ ok (record { claims = c; valid = true })
  pub parse_expired :
      (c : TicketClaims) (key s : String) (f : KeyFunction) (now : ℕ)
      → sign c key ≡ ok s
      → c.expires_at ≤ now
      → (e : String) × (parse_with_claims f now s ≡ err e)
  -- A token is parsed only with a key that the key function gives for its method.
  pub parse_with_claims_key :
      (f : KeyFunction) (now : ℕ) (s e : String)
      → f (method_of s) ≡ err e
      → (e' : String) × (parse_with_claims f now s ≡ err e')
  pub parse_key :
      (f : KeyFunction) (now : ℕ) (s e : String)
      → f (method_of s) ≡ err e
      → (e' : String) × (parse f now s ≡ err e')

-- the function that the parsers are given: HMAC methods only
unfoldable pub key_function : String → KeyFunction
key_function secret hmac = ok secret
key_function secret (other alg) = err ("unexpected signing method: " ++ alg)

module _ (jwt : Jwt) where
  signed : String → Result String → Result (String × String)
  signed jti (err e) = err ("failed to sign ticket: " ++ e)
  signed jti (ok s) = ok (s, jti)

  -- The id is the next value of `uuid.NewString`.
  unfoldable pub generate_ticket :
      Auth → (jti : String) (now : ℕ) → String → String → Result (String × String)
  unfolding signed
  generate_ticket cfg jti now client_id client_ip =
      let claims : TicketClaims = record {
        ip = client_ip;
        subject = client_id;
        issued_at = now;
        expires_at = now + cfg.ticket_ttl;
        id = jti;
      } in
      signed jti (jwt.sign claims cfg.ticket_secret)

  checked : Result TicketToken → Result TicketClaims
  checked (err e) = err ("invalid ticket: " ++ e)
  checked (ok token) = if not token.valid then err "invalid ticket claims" else ok token.claims

  unfoldable pub validate_ticket : Auth → ℕ → String → Result TicketClaims
  unfolding checked
  validate_ticket cfg now token_str =
      checked (jwt.parse_with_claims (key_function cfg.ticket_secret) now token_str)

  subject_checked : Result String → Result String
  subject_checked (err e) = err "missing subject in token"
  subject_checked (ok sub) = if sub == "" then err "missing subject in token" else ok sub

  real_checked : Result MapToken → Result String
  unfolding subject_checked
  real_checked (err e) = err ("invalid token: " ++ e)
  real_checked (ok token) =
      if not token.valid then err "invalid token claims" else subject_checked token.get_subject

  unfoldable pub validate_real_token : Auth → ℕ → String → Result String
  unfolding real_checked
  validate_real_token cfg now token_str =
      real_checked (jwt.parse (key_function cfg.token_secret) now token_str)
