-- ===== src/Http/Server/Exchange.antt =====
-- From a bearer token to a stream: POST /v1/auth/ticket, then GET /v1/stream/events.
use Prim.Native.String.{len, slice}
use scorpion.Prelude.{
  ℕ, zero, suc, ◌+◌, ◌<◌, String, ◌≡◌, ◌≢◌, refl, sym, ap, ◌∙◌, subst, inl, inr, false, true, ltb,
  lt→ltb, none, some, ◌==◌, eq_iff, arith, List, [], Result, ok, Bool,
}
use scorpion.Redis.{Redis, text, expiry, IsText, IsCounter, text_at, is_text, aged}
use scorpion.World.{World, Answers, later}
use scorpion.Config.{Config}
use scorpion.Json.{Json}
use scorpion.Auth.{Jwt, validate_real_token, generate_ticket}
use scorpion.Auth.Tickets.{ticket_claims, ticket_life}
use scorpion.RateLimit.{allow}
use scorpion.RateLimit.Window.{counter_at, allow-counts, allow-outcomes}
use scorpion.Repository.Keys.{ticket_key, conn_key}
use scorpion.Repository.Keys.Distinct.{ticket_key-ne-conn_key, rate_limit_key-ne-conn_key}
use scorpion.Repository.Tickets.{store}
use scorpion.Repository.Tickets.Use.{
  ticket, HoldsTicket, store-quiet, store_lem, wait, aged_ticket, aged_ticket-IsText,
}
use scorpion.Repository.Connections.Exclusive.{connection}
use scorpion.Stream.Session.{Session}
use scorpion.Stream.Loop.{Signal}
use scorpion.Http.{Request, Response, json, ticket_response, streamed, status}
use scorpion.Http.Middleware.{Strategy, ip_middleware}
use scorpion.Http.Middleware.Passes.{token_middleware-passes}
use scorpion.Http.Handlers.Ticket.{v1_auth_ticket}
use scorpion.Http.Handlers.Ticket.Stores.{handed_out, v1_auth_ticket_eq}
use scorpion.Http.Handlers.Ticket.Issues.{not_500}
use scorpion.Http.Handlers.Stream.Opens.{stream_opens}
use scorpion.Http.Server.{post_ticket, get_stream}
use scorpion.Http.Server.Polling.{fresh_context}

not_401 : ◌≢◌ {A = ℕ} 401 200
not_401 e = omega arith

-- A stored ticket is still there before its time is over.
kept_ticket :
    (jti : String) (n t : ℕ)
    → n < t
    → let left = aged n (some (record { value = text jti; ttl = expiry t })) in
      IsText left × (is_text (text_at left) jti ≡ true)
kept_ticket jti n zero e = absurd (omega arith)
kept_ticket jti n (suc t) e =
    let early : ltb n (suc t) ≡ true = lt→ltb n (suc t) e in
    (aged_ticket-IsText jti n t, aged_ticket jti jti n t ∙ rw (early, (eq_iff jti jti).1 refl) refl)

-- What Redis holds for a client at an address some seconds after a ticket was handed out.
module _ (r : Redis) (c ip jti : String) (cfg : Config) (now n : ℕ) (w : World r)
    (q : w.outcomes ≡ []) (h : IsCounter (counter_at r w ip)) where
  abbrev counted_world : World r
  counted_world = (allow cfg.rate_limit now ip w).1

  abbrev stored_world : (t : ℕ) → World r
  stored_world t = (store c ip jti t counted_world).1

  counted_quiet : counted_world.outcomes ≡ []
  counted_quiet =
      let a : Answers w = rw q tt in allow-outcomes r cfg.rate_limit ip now w a ∙ ap later q

  stored_quiet : (t : ℕ) → (stored_world t).outcomes ≡ []
  stored_quiet t = store-quiet r c ip jti t counted_world counted_quiet

  stored_entry :
      (t : ℕ)
      → r.at (r.elapse n (stored_world t).db) (ticket_key c ip)
        ≡ aged n (some (record { value = text jti; ttl = expiry t }))
  stored_entry t =
      let a : Answers counted_world = rw counted_quiet tt in
      let (_, there, _) = store_lem r c ip jti t counted_world a in
      r.at-elapse n (stored_world t).db (ticket_key c ip) ∙ ap (aged n) there

  stored_free :
      (t : ℕ)
      → r.at w.db (conn_key c ip) ≡ none
      → r.at (r.elapse n (stored_world t).db) (conn_key c ip) ≡ none
  stored_free t free =
      let a : Answers w = rw q tt in
      let a' : Answers counted_world = rw counted_quiet tt in
      let (_, _, counts) = allow-counts r cfg.rate_limit ip now w a h in
      let (_, _, stores) = store_lem r c ip jti t counted_world a' in
      let before : r.at counted_world.db (conn_key c ip) ≡ none =
        counts (conn_key c ip) ∙ rw (rate_limit_key-ne-conn_key ip c ip) free in
      let after : r.at (stored_world t).db (conn_key c ip) ≡ none =
        stores (conn_key c ip) ∙ rw (ticket_key-ne-conn_key c ip c ip) before in
      r.at-elapse n (stored_world t).db (conn_key c ip) ∙ ap (aged n) after

module _ (r : Redis) (jwt : Jwt) (codec : Json) (strategy : Strategy) (cfg : Config) where
  abbrev pub subject : (now : ℕ) → Request → Result String
  subject now req =
      validate_real_token jwt cfg.auth now (slice req.authorization 7 (len req.authorization))

  -- The ticket was generated for the client at the address of the request, and its id was stored.
  abbrev HandsOut : (jti s c : String) (now : ℕ) → Request → World r → Response × World r → Type 0
  HandsOut jti s c now req w answer =
      let ip = strategy req.header req.remote_addr in
      (id : String) × (ip ≢ "")
      × (generate_ticket jwt cfg.auth jti now c ip ≡ ok (s, id))
      × (answer ≡ handed_out r jwt cfg jti now c ip s id (allow cfg.rate_limit now ip w).1)

  same_ticket :
      (a b : String) (t t' : ℕ)
      → json 200 (ticket_response a t) ≡ json 200 (ticket_response b t')
      → a ≡ b
  same_ticket a b t t' e = cc

  post_ticket_lem :
      (jti s c : String) (now t : ℕ) (req : Request) (w : World r)
      → (post_ticket jwt codec strategy cfg now jti req fresh_context w).0
        ≡ json 200 (ticket_response s t)
      → subject now req ≡ ok c
      → HandsOut jti s c now req w (post_ticket jwt codec strategy cfg now jti req fresh_context w)
  unfolding post_ticket
  post_ticket_lem jti s c now t req w e who =
      let ip = strategy req.header req.remote_addr in
      let handler = v1_auth_ticket jwt cfg jti now in
      elim (token_middleware-passes jwt cfg.auth strategy now handler req w fresh_context) [
        | inl (inl no_token) ↦ absurd (not_401 (ap status (sym (ap (λ z. z.0) no_token) ∙ e)))
        | inl (inr nowhere) ↦ absurd (not_500 (ap status (sym (ap (λ z. z.0) nowhere) ∙ e)))
        | inr (c', valid, _, _, somewhere, ran) ↦
            let same : c' ≡ c = cc (valid, who) in
            let (ticket, id, made, left) =
              v1_auth_ticket_eq r jwt cfg jti now c' ip req w (ticket_response s t)
                (sym (ap (λ z. z.0) ran) ∙ e) in
            let named : ticket ≡ s =
              same_ticket ticket s cfg.auth.ticket_ttl t (sym (ap (λ z. z.0) (ran ∙ left)) ∙ e) in
            subst
              (λ z.
                HandsOut jti s z now req w
                  (post_ticket jwt codec strategy cfg now jti req fresh_context w))
              same (id, somewhere, rw named at made, rw named at (ran ∙ left))
      ]

  -- What Redis must hold for a stream to open.
  record Ready (c ip jti : String) (w : World r) : Type 0 where
    quiet : w.outcomes ≡ []
    holds : HoldsTicket r w.db c ip
    held : is_text (ticket r w.db c ip) jti ≡ true
    free : connection r w c ip ≡ none

  waited-Ready :
      (jti s c ip : String) (now n : ℕ) (w : World r)
      → w.outcomes ≡ []
      → IsCounter (counter_at r w ip)
      → connection r w c ip ≡ none
      → n < cfg.auth.ticket_ttl
      → Ready c ip jti
          (wait n (handed_out r jwt cfg jti now c ip s jti (allow cfg.rate_limit now ip w).1).1)
  waited-Ready jti s c ip now n w q h free early =
      let t = cfg.auth.ticket_ttl in
      let entry = stored_entry r c ip jti cfg now n w q h t in
      let (holds, held) = kept_ticket jti n t early in
      record {
        quiet = stored_quiet r c ip jti cfg now n w q h t;
        holds = rw entry holds;
        held = rw entry held;
        free = stored_free r c ip jti cfg now n w q h t free;
      }

  -- A client that was handed a ticket for its bearer token opens a stream with it, some seconds later,
  -- before the ticket's time to live is over: the answer to GET /v1/stream/events is a stream. Redis
  -- answers throughout and keeps a number under the address's rate limit; the strategy finds the same
  -- address for both requests; no stream is registered for the client at that address when the ticket
  -- is asked for; nothing else changes Redis in between; the ticket is not empty, and the connection can
  -- be flushed.
  pub ticket_exchange :
      (jti s c : String) (now n t : ℕ) (req req' : Request) (w : World r) (x : Session r)
      (instance_id : String) (tracks : Bool) (clock : ℕ) (time : String) (signals : List Signal)
      → let issued = post_ticket jwt codec strategy cfg now jti req fresh_context w in
        let ip = strategy req.header req.remote_addr in
        issued.0 ≡ json 200 (ticket_response s t)
        → subject now req ≡ ok c
        → n < cfg.auth.ticket_ttl
        → w.outcomes ≡ []
        → IsCounter (counter_at r w ip)
        → connection r w c ip ≡ none
        → x.world ≡ wait n issued.1
        → req'.query_ticket ≡ s
        → s ≢ ""
        → strategy req'.header req'.remote_addr ≡ ip
        → (get_stream jwt codec strategy cfg
            (now + n)
            instance_id
            tracks
            true
            clock
            time
            signals
            req'
            fresh_context
            x).0
          ≡ streamed
  unfolding get_stream ip_middleware
  ticket_exchange jti s c now n t req req' w x instance_id tracks clock time signals e who early q h
        free later_on given named there =
      let (id, somewhere, made, left) = post_ticket_lem jti s c now t req w e who in
      let ip = strategy req.header req.remote_addr in
      let (same, life) = ticket_life jwt cfg.auth jti s id c ip now (now + n) made in
      let world : x.world
          ≡ wait n (handed_out r jwt cfg jti now c ip s jti (allow cfg.rate_limit now ip w).1).1 =
        later_on ∙ ap (λ z. wait n z.1) (rw same at left) in
      let ready : Ready c ip jti x.world =
        subst (λ z. Ready c ip jti z) (sym world)
          (waited-Ready jti s c ip now n w q h free early) in
      let known : (ip == "") ≡ false = ground (arith, eq_iff ip "") in
      elim life [
        | inl (late, _) ↦ absurd (omega (arith, late, early))
        | inr (_, valid) ↦
            rw (there, known)
              (stream_opens r jwt codec cfg instance_id tracks clock time (now + n) signals req'
                (record { client_id = none; client_ip = some ip }) x
                (ticket_claims jwt cfg.auth jti now c ip) (rw given named) (rw given valid)
                somewhere refl ready.quiet ready.holds ready.held ready.free)
      ]
