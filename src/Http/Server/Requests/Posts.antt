-- ===== src/Http/Server/Requests/Posts.antt =====
-- ticket.go, event.go: the commands that the handlers behind a bearer token send.
use scorpion.Prelude.{
  ℕ, String, ◌≡◌, sym, subst, refl, inl, inr, Bool-cases, Option, none, some, ◌==◌, eq_iff, Result,
  ok, err,
}
use scorpion.Redis.{Redis}
use scorpion.World.{World}
use scorpion.Config.{Config}
use scorpion.Domain.{EventRequest, EventPayload}
use scorpion.Json.{Json}
use scorpion.Auth.{Jwt, generate_ticket}
use scorpion.Auth.Tickets.{ticket_life}
use scorpion.RateLimit.{Verdict, allow}
use scorpion.Repository.Commands.{Command, set_ticket, count_request}
use scorpion.Repository.Commands.Sent.{commands, perform, limits, stores, inserts}
use scorpion.Repository.Commands.Reached.{AllAllowed, Reached, perform-Reached}
use scorpion.Http.{Request, Context}
use scorpion.Http.Handlers.Ticket.{
  verdict_of, stored, generated, issue, limited, found_ip, v1_auth_ticket,
}
use scorpion.Http.Handlers.Event.{most_bytes, pushed, encoded, bound, v1_insert_event}
use scorpion.Http.Handlers.Poll.{caller_id}

module _ (r : Redis) (Allowed : Command → Type 0) (d : r.Db) where
  abbrev Came : World r → Type 0
  Came w = Reached r Allowed d w.db

  module _ (jwt : Jwt) (cfg : Config) (jti : String) (now : ℕ) where
    stored-Came :
        (ticket : String) (x : Result (Unit {0}) × World r)
        → Came x.1
        → Came (stored jwt cfg jti now ticket x).1
    unfolding stored
    stored-Came ticket (err e, w) h = h
    stored-Came ticket (ok _, w) h = h

    generated-Came :
        (c ip : String) (m : Result (String × String)) (w : World r)
        → ((ticket id : String)
            → m ≡ ok (ticket, id)
            → Allowed (set_ticket c ip id cfg.auth.ticket_ttl))
        → Came w
        → Came (generated jwt cfg jti now c ip m w).1
    unfolding generated perform commands
    generated-Came c ip (err e) w a h = h
    generated-Came c ip (ok (ticket, id)) w a h =
        stored-Came ticket _ (
          perform-Reached r Allowed (stores c ip id cfg.auth.ticket_ttl) w (a ticket id refl, tt) h)

    limited-Came :
        (c ip : String) (answer : Result Verdict) (w : World r)
        → Allowed (set_ticket c ip jti cfg.auth.ticket_ttl)
        → Came w
        → Came (limited jwt cfg jti now (some c) ip (answer, w)).1
    unfolding limited issue
    limited-Came c ip answer w a h = elim (Bool-cases (verdict_of answer).allowed) [
      | inl yes_now ↦ rw yes_now (
          generated-Came c ip (generate_ticket jwt cfg.auth jti now c ip) w
            (λ ticket id e.
              subst (λ z. Allowed (set_ticket c ip z cfg.auth.ticket_ttl))
                (sym (ticket_life jwt cfg.auth jti ticket id c ip now now e).0) a)
            h)
      | inr refused ↦ rw refused h
    ]

    -- The limiter counts the address, and one ticket is stored for the client at it.
    pub v1_auth_ticket-Came :
        (req : Request) (c ip : String) (w : World r)
        → Allowed (count_request ip)
        → Allowed (set_ticket c ip jti cfg.auth.ticket_ttl)
        → Came w
        → Came
            (v1_auth_ticket jwt cfg jti now req
              (record { client_id = some c; client_ip = some ip })
              w).1
    unfolding v1_auth_ticket found_ip perform commands
    v1_auth_ticket-Came req c ip w a b h = elim (Bool-cases (ip == "")) [
      | inl empty ↦ rw empty h
      | inr known ↦
          let (answer, w') = allow cfg.rate_limit now ip w in
          rw known (
            limited-Came c ip answer w' b
              (perform-Reached r Allowed (limits cfg.rate_limit now ip) w (a, tt) h))
    ]

  module _ (codec : Json) (cfg : Config) (uuid : String) where
    pushed-Came :
        (payload : EventPayload) (x : Result (Unit {0}) × World r)
        → Came x.1
        → Came (pushed codec cfg uuid payload x).1
    unfolding pushed
    pushed-Came payload (err e, w) h = h
    pushed-Came payload (ok _, w) h = h

    module _ (c : String) where
      abbrev Pushes : Type 0
      Pushes =
          (raw : String) → AllAllowed Allowed (commands (inserts cfg.sse.max_queue_depth c raw))

      encoded-Came :
          (payload : EventPayload) (o : Option String) (w : World r)
          → Pushes
          → Came w
          → Came (encoded codec cfg uuid c payload o w).1
      unfolding encoded perform
      encoded-Came payload none w a h = h
      encoded-Came payload (some raw) w a h =
          pushed-Came payload _
            (perform-Reached r Allowed (inserts cfg.sse.max_queue_depth c raw) w (a raw) h)

      bound-Came :
          (o : Option EventRequest) (w : World r)
          → Pushes
          → Came w
          → Came (bound codec cfg uuid c o w).1
      unfolding bound
      bound-Came none w a h = h
      bound-Came (some e) w a h = elim (Bool-cases (e.type == "")) [
        | inl untyped ↦ rw untyped h
        | inr given ↦ rw given (encoded-Came _ _ w a h)
      ]

    -- One event is pushed onto the caller's own queue, which is the path's.
    pub v1_insert_event-Came :
        (req : Request) (ctx : Context) (w : World r)
        → (caller_id ctx ≡ req.param_client_id
            → (raw : String)
            → AllAllowed Allowed
                (commands (inserts cfg.sse.max_queue_depth req.param_client_id raw)))
        → Came w
        → Came (v1_insert_event codec cfg uuid req ctx w).1
    unfolding v1_insert_event
    v1_insert_event-Came req ctx w a h = elim (Bool-cases (req.param_client_id == "")) [
      | inl empty ↦ rw empty h
      | inr named ↦ elim (Bool-cases (caller_id ctx == req.param_client_id)) [
        | inl own ↦
            rw (named, own)
              (bound-Came req.param_client_id
                (codec.bind_event (most_bytes cfg.sse.max_event_bytes) req.content_type req.body) w
                (a ((eq_iff (caller_id ctx) req.param_client_id).0 own)) h)
        | inr other ↦ rw (named, other) h
      ]
    ]
