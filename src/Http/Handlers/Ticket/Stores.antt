-- ===== src/Http/Handlers/Ticket/Stores.antt =====
-- ticket.go: what a ticket that is handed out leaves in Redis.
use scorpion.Prelude.{
  ℕ, String, ◌≡◌, refl, sym, ap, ◌∙◌, true, Bool-cases, inl, inr, some, ◌==◌, Result, ok, err,
}
use scorpion.Redis.{Redis, text, expiry}
use scorpion.World.{World, count_metric}
use scorpion.Metrics.{tickets_issued_total}
use scorpion.Config.{Config}
use scorpion.Auth.{Jwt, generate_ticket}
use scorpion.RateLimit.{Verdict, allow}
use scorpion.Repository.Keys.{ticket_key}
use scorpion.Repository.Tickets.{store}
use scorpion.Repository.Tickets.Use.{store_won}
use scorpion.Http.{Request, Context, Response, Body, json, ticket_response, status}
use scorpion.Http.Handlers.Ticket.{stored, generated, issue, limited, found_ip, v1_auth_ticket}
use scorpion.Http.Handlers.Ticket.Issues.{not_500, not_429, issued_lem}

module _ (r : Redis) (jwt : Jwt) (cfg : Config) (jti : String) (now : ℕ) (c ip : String) where
  -- The answer, and the world after a ticket was stored.
  abbrev pub handed_out : String → String → World r → Response × World r
  handed_out ticket id w = (
    json 200 (ticket_response ticket cfg.auth.ticket_ttl),
    count_metric tickets_issued_total (store c ip id cfg.auth.ticket_ttl w).1,
  )

  stored_eq :
      (ticket : String) (x : Result (Unit {0}) × World r) (b : Body)
      → (stored jwt cfg jti now ticket x).0 ≡ json 200 b
      → stored jwt cfg jti now ticket x ≡ (
        json 200 (ticket_response ticket cfg.auth.ticket_ttl),
        count_metric tickets_issued_total x.1,
      )
  unfolding stored
  stored_eq ticket (ok _, w) b e = refl
  stored_eq ticket (err why, w) b e = absurd (not_500 (ap status e))

  generated_eq :
      (m : Result (String × String)) (w : World r) (b : Body)
      → (generated jwt cfg jti now c ip m w).0 ≡ json 200 b
      → (ticket : String) × (id : String) × (m ≡ ok (ticket, id))
        × (generated jwt cfg jti now c ip m w ≡ handed_out ticket id w)
  unfolding generated
  generated_eq (err why) w b e = absurd (not_500 (ap status e))
  generated_eq (ok (ticket, id)) w b e =
      (ticket, id, refl, stored_eq ticket (store c ip id cfg.auth.ticket_ttl w) b e)

  limited_eq :
      (answer : Result Verdict) (w : World r) (b : Body)
      → (limited jwt cfg jti now (some c) ip (answer, w)).0 ≡ json 200 b
      → (ticket : String) × (id : String) × (generate_ticket jwt cfg.auth jti now c ip
          ≡ ok (ticket, id))
        × (limited jwt cfg jti now (some c) ip (answer, w) ≡ handed_out ticket id w)
  unfolding limited issue
  limited_eq (err why) w b e = absurd (not_429 (ap status e))
  limited_eq (ok v) w b e = elim (Bool-cases v.allowed) [
    | inl allowed ↦
        rw allowed (generated_eq (generate_ticket jwt cfg.auth jti now c ip) w b (rw allowed at e))
    | inr refused ↦ absurd (not_429 (ap status (rw refused at e)))
  ]

  -- A ticket that is handed out was generated for the client and the address, and its id was stored.
  pub v1_auth_ticket_eq :
      (req : Request) (w : World r) (b : Body)
      → let answer =
          v1_auth_ticket jwt cfg jti now req
            (record { client_id = some c; client_ip = some ip })
            w in
        answer.0 ≡ json 200 b
        → (ticket : String) × (id : String) × (generate_ticket jwt cfg.auth jti now c ip
            ≡ ok (ticket, id))
          × (answer ≡ handed_out ticket id (allow cfg.rate_limit now ip w).1)
  unfolding v1_auth_ticket found_ip
  v1_auth_ticket_eq req w b e = elim (Bool-cases (ip == "")) [
    | inl empty ↦ absurd (not_500 (ap status (rw empty at e)))
    | inr known ↦
        let (answer, w') = allow cfg.rate_limit now ip w in
        rw known (limited_eq answer w' b (rw known at e))
  ]

module _ (r : Redis) (jwt : Jwt) (cfg : Config) (jti : String) (now : ℕ) where
  -- The limiter answered, and allowed the request; the body is the ticket that was signed for the
  -- client at its address; and Redis holds the ticket's id with its time to live.
  abbrev pub Issued : Request → Context → World r → Type 0
  Issued req ctx w =
      let after = v1_auth_ticket jwt cfg jti now req ctx w in
      (client_id : String) × (client_ip : String) × (v : Verdict) × (ticket : String)
      × (id : String) × (ctx.client_id ≡ some client_id)
      × (ctx.client_ip ≡ some client_ip)
      × ((allow cfg.rate_limit now client_ip w).0 ≡ ok v)
      × (v.allowed ≡ true)
      × (generate_ticket jwt cfg.auth jti now client_id client_ip ≡ ok (ticket, id))
      × (after.0 ≡ json 200 (ticket_response ticket cfg.auth.ticket_ttl))
      × (r.at after.1.db (ticket_key client_id client_ip)
          ≡ some (record { value = text id; ttl = expiry cfg.auth.ticket_ttl }))

  same_ticket : (a b : String × String) (m : Result (String × String)) → m ≡ ok a → m ≡ ok b → a ≡ b
  same_ticket a b m e f = cc

  -- A ticket is handed out only if the limiter answered and allowed the request: then the body holds
  -- the ticket that was signed for the client at its address, and Redis holds the id of that ticket for
  -- the client and the address, with the ticket's time to live. The handler fails closed.
  pub ticket-Issued :
      (req : Request) (ctx : Context) (w : World r) (b : Body)
      → (v1_auth_ticket jwt cfg jti now req ctx w).0 ≡ json 200 b
      → Issued req ctx w
  unfolding v1_auth_ticket
  ticket-Issued req ctx w b e =
      let (c, ip, v, ticket, id, e_c, e_ip, e_v, allowed, e_t, e_s) =
        issued_lem r jwt cfg jti now req ctx w b e in
      let here =
        ap (λ o. found_ip jwt cfg jti now o ctx.client_ip w) e_c
        ∙ ap (λ o. found_ip jwt cfg jti now (some c) o w) e_ip in
      let (ticket', id', e_t', answer) =
        v1_auth_ticket_eq r jwt cfg jti now c ip req w b (sym (ap (λ z. z.0) here) ∙ e) in
      let same = same_ticket (ticket', id') (ticket, id) _ e_t' e_t in
      let after =
        here
        ∙ answer
        ∙ ap
            (λ (z : String × String).
              handed_out r jwt cfg jti now c ip z.0 z.1 (allow cfg.rate_limit now ip w).1)
            same in
      (
        c,
        ip,
        v,
        ticket,
        id,
        e_c,
        e_ip,
        e_v,
        allowed,
        e_t,
        ap (λ z. z.0) after,
        ap (λ z. r.at z.1.db (ticket_key c ip)) after
            ∙ store_won r c ip id cfg.auth.ticket_ttl (allow cfg.rate_limit now ip w).1 e_s,
      )
