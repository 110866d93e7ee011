-- ===== src/Auth/Tickets.antt =====
-- jwt.go: the life of a ticket, and what a token must be to be accepted.
use Prim.Native.String.{◌++◌}
use native.Mathlib.Decide.{dec_lt}
use scorpion.Prelude.{
  ℕ, ◌+◌, ◌≤◌, ◌<◌, String, ◌≡◌, ◌≢◌, ◌⊎◌, refl, ap, inl, inr, eq_iff, arith, Result, ok, err,
}
use scorpion.Config.{Auth}
use scorpion.Auth.{
  Jwt, TicketClaims, SigningMethod, MapToken, other, key_function, generate_ticket, validate_ticket,
  validate_real_token, signed, checked, real_checked,
}

module _ (jwt : Jwt) (cfg : Auth) where
  -- what a ticket that is generated carries
  abbrev pub ticket_claims : String → ℕ → String → String → TicketClaims
  ticket_claims jti now client_id client_ip = record {
    ip = client_ip;
    subject = client_id;
    issued_at = now;
    expires_at = now + cfg.ticket_ttl;
    id = jti;
  }

  signed-eq-ok :
      (jti s id : String) (m : Result String)
      → signed jwt jti m ≡ ok (s, id)
      → (m ≡ ok s) × (id ≡ jti)
  unfolding signed
  signed-eq-ok jti s id (ok t) e = (cc, cc)
  signed-eq-ok jti s id (err t) e = cc

  -- A ticket that was generated has the id that was drawn for it; validated with the same settings
  -- before its time to live is over it gives back the client, the address and the id that it was
  -- generated for, and from then on it is refused.
  pub ticket_life :
      (jti s id client_id client_ip : String) (now later : ℕ)
      → generate_ticket jwt cfg jti now client_id client_ip ≡ ok (s, id)
      → (id ≡ jti)
        × ((now + cfg.ticket_ttl ≤ later)
              × ((e : String) × (validate_ticket jwt cfg later s ≡ err e))
            ⊎ (later < now + cfg.ticket_ttl)
              × (validate_ticket jwt cfg later s ≡ ok (ticket_claims jti now client_id client_ip)))
  unfolding generate_ticket validate_ticket key_function
  ticket_life jti s id client_id client_ip now later e =
      let claims : TicketClaims = ticket_claims jti now client_id client_ip in
      let key : SigningMethod → Result String = key_function cfg.ticket_secret in
      let (made, same) = signed-eq-ok jti s id (jwt.sign claims cfg.ticket_secret) e in
      elim (dec_lt later (now + cfg.ticket_ttl)) [
        | yes early ↦
            let parsed = jwt.parse-sign claims cfg.ticket_secret s key later made refl early in
            (same, inr (early, ap (checked jwt) parsed))
        | no late ↦
            let over : now + cfg.ticket_ttl ≤ later = omega arith in
            let (why, parsed) = jwt.parse_expired claims cfg.ticket_secret s key later made over in
            (same, inl (over, (_, ap (checked jwt) parsed)))
      ]

  -- Neither a ticket nor a bearer token is accepted whose signing method is not an HMAC.
  hmac_only :
      (now : ℕ) (s alg : String)
      → jwt.method_of s ≡ other alg
      → ((e : String) × (validate_ticket jwt cfg now s ≡ err e))
        × ((e : String) × (validate_real_token jwt cfg now s ≡ err e))
  unfolding validate_ticket validate_real_token key_function
  hmac_only now s alg m =
      let why = "unexpected signing method: " ++ alg in
      let (_, p) =
        jwt.parse_with_claims_key (key_function cfg.ticket_secret) now s why (rw m refl) in
      let (_, q) = jwt.parse_key (key_function cfg.token_secret) now s why (rw m refl) in
      ((_, ap (checked jwt) p), (_, ap (real_checked jwt) q))

  real_checked-subject :
      (m : Result MapToken) (sub : String) → real_checked jwt m ≡ ok sub → sub ≢ ""
  unfolding real_checked
  real_checked-subject (err e) sub h = cc
  real_checked-subject (ok token) sub h = ground (arith, eq_iff sub "")

  -- The client id of an accepted bearer token is not empty.
  pub real_token-subject :
      (now : ℕ) (s sub : String) → validate_real_token jwt cfg now s ≡ ok sub → sub ≢ ""
  unfolding validate_real_token
  real_token-subject now s sub e =
      real_checked-subject (jwt.parse (key_function cfg.token_secret) now s) sub e
