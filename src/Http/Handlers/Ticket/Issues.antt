-- ===== src/Http/Handlers/Ticket/Issues.antt =====
-- ticket.go: when a ticket is issued.
use scorpion.Prelude.{
  ℕ, String, ◌≡◌, ◌≢◌, refl, ap, inl, inr, true, Bool-cases, Option, none, some, ◌==◌, Result, ok,
  err, arith,
}
use scorpion.Redis.{Redis}
use scorpion.World.{World}
use scorpion.Config.{Config}
use scorpion.Auth.{Jwt, generate_ticket}
use scorpion.RateLimit.{Verdict, allow}
use scorpion.Repository.Tickets.{store}
use scorpion.Http.{Request, Context, Body, json, status}
use scorpion.Http.Handlers.Ticket.{stored, generated, issue, limited, found_ip, v1_auth_ticket}

-- 200 is none of the other statuses.
pub not_500 : ◌≢◌ {A = ℕ} 500 200
not_500 e = omega arith

pub not_429 : ◌≢◌ {A = ℕ} 429 200
not_429 e = omega arith

module _ (r : Redis) (jwt : Jwt) (cfg : Config) (jti : String) (now : ℕ) where
  stored_lem :
      (ticket : String) (x : Result (Unit {0}) × World r) (b : Body)
      → (stored jwt cfg jti now ticket x).0 ≡ json 200 b
      → x.0 ≡ ok tt
  unfolding stored
  stored_lem ticket (ok _, w) b e = refl
  stored_lem ticket (err why, w) b e = absurd (not_500 (ap status e))

  generated_lem :
      (c ip : String) (m : Result (String × String)) (w : World r) (b : Body)
      → (generated jwt cfg jti now c ip m w).0 ≡ json 200 b
      → (ticket : String) × (id : String) × (m ≡ ok (ticket, id))
        × ((store c ip id cfg.auth.ticket_ttl w).0 ≡ ok tt)
  unfolding generated
  generated_lem c ip (err why) w b e = absurd (not_500 (ap status e))
  generated_lem c ip (ok (ticket, id)) w b e =
      (ticket, id, refl, stored_lem ticket (store c ip id cfg.auth.ticket_ttl w) b e)

  limited_lem :
      (oc : Option String) (ip : String) (answer : Result Verdict) (w : World r) (b : Body)
      → (limited jwt cfg jti now oc ip (answer, w)).0 ≡ json 200 b
      → (c : String) × (v : Verdict) × (oc ≡ some c)
        × (answer ≡ ok v)
        × (v.allowed ≡ true)
        × ((issue jwt cfg jti now (some c) ip w).0 ≡ json 200 b)
  unfolding limited issue
  limited_lem oc ip (err why) w b e = absurd (not_429 (ap status e))
  limited_lem none ip (ok v) w b e = elim (Bool-cases v.allowed) [
    | inl allowed ↦ absurd (not_500 (ap status (rw allowed at e)))
    | inr refused ↦ absurd (not_429 (ap status (rw refused at e)))
  ]
  limited_lem (some c) ip (ok v) w b e = elim (Bool-cases v.allowed) [
    | inl allowed ↦ (c, v, refl, refl, allowed, rw allowed at e)
    | inr refused ↦ absurd (not_429 (ap status (rw refused at e)))
  ]

  found_ip_lem :
      (oc oip : Option String) (w : World r) (b : Body)
      → (found_ip jwt cfg jti now oc oip w).0 ≡ json 200 b
      → (ip : String) × (oip ≡ some ip)
        × ((limited jwt cfg jti now oc ip (allow cfg.rate_limit now ip w)).0 ≡ json 200 b)
  unfolding found_ip
  found_ip_lem oc none w b e = absurd (not_500 (ap status e))
  found_ip_lem oc (some ip) w b e = elim (Bool-cases (ip == "")) [
    | inl empty ↦ absurd (not_500 (ap status (rw empty at e)))
    | inr known ↦ (ip, refl, rw known at e)
  ]

  -- What a ticket needs: the limiter answered, and allowed the request; a ticket was signed; and the
  -- store reported it as stored.
  pub issued_lem :
      (req : Request) (ctx : Context) (w : World r) (b : Body)
      → (v1_auth_ticket jwt cfg jti now req ctx w).0 ≡ json 200 b
      → (c : String) × (ip : String) × (v : Verdict) × (ticket : String) × (id : String)
        × (ctx.client_id ≡ some c)
        × (ctx.client_ip ≡ some ip)
        × ((allow cfg.rate_limit now ip w).0 ≡ ok v)
        × (v.allowed ≡ true)
        × (generate_ticket jwt cfg.auth jti now c ip ≡ ok (ticket, id))
        × ((store c ip id cfg.auth.ticket_ttl (allow cfg.rate_limit now ip w).1).0 ≡ ok tt)
  unfolding v1_auth_ticket issue
  issued_lem req ctx w b e =
      let (ip, e_ip, e₁) = found_ip_lem ctx.client_id ctx.client_ip w b e in
      let (answer, w') = allow cfg.rate_limit now ip w in
      let (c, v, e_c, e_v, allowed, e₂) = limited_lem ctx.client_id ip answer w' b e₁ in
      let (ticket, id, e_t, e_s) =
        generated_lem c ip (generate_ticket jwt cfg.auth jti now c ip) w' b e₂ in
      (c, ip, v, ticket, id, e_c, e_ip, e_v, allowed, e_t, e_s)
