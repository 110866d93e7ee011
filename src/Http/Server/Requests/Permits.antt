-- ===== src/Http/Server/Requests/Permits.antt =====
-- server.go: which commands a request may send to Redis.
use Prim.Native.String.{len, slice}
use scorpion.Prelude.{ℕ, String, ◌≡◌, ◌⊎◌, Option, none, some, Result, ok, err}
use scorpion.World.Confined.{StreamCommand}
use scorpion.Config.{Config}
use scorpion.Domain.{AckRequest}
use scorpion.Json.{Json}
use scorpion.Auth.{Jwt, TicketClaims, validate_ticket, validate_real_token}
use scorpion.Repository.Commands.{
  Command, set_ticket, use_ticket, rpush_event, ltrim_events, set_acked, del_in_flight,
  count_request,
}
use scorpion.Http.{Request}
use scorpion.Http.Middleware.{Strategy}
use scorpion.Http.Server.Requests.{
  Route, get_healthz_route, post_ticket_route, post_event_route, post_ack_route, get_events_route,
  get_stream_route,
}

-- The acknowledgement in a body names this event of this client.
abbrev pub Names : Option AckRequest → String → String → Type 0
Names none c e = ⊥
Names (some a) c e = (a.client_id ≡ c) × (a.event_id ≡ e)

abbrev Uses : TicketClaims → Command → Type 0
Uses claims (use_ticket c ip j) = (c ≡ claims.subject) × (ip ≡ claims.ip) × (j ≡ claims.id)
Uses claims _ = ⊥

-- The commands of the stream that a ticket opens: the use of the ticket, and those on the connection,
-- the queue and the in-flight events of the ticket's client, at its address.
abbrev pub TicketCommand : TicketClaims → Command → Type 0
TicketCommand claims cmd = Uses claims cmd ⊎ StreamCommand claims.subject claims.ip cmd

abbrev pub Validated : Result TicketClaims → Command → Type 0
Validated (err _) cmd = ⊥
Validated (ok claims) cmd = TicketCommand claims cmd

module _ (jwt : Jwt) (codec : Json) (strategy : Strategy) (cfg : Config) (now : ℕ)
    (req : Request) where
  -- The request bears a token of this client.
  abbrev pub IsOf : String → Type 0
  IsOf c =
      validate_real_token jwt cfg.auth now (slice req.authorization 7 (len req.authorization))
      ≡ ok c

  abbrev address : String
  address = strategy req.header req.remote_addr

  abbrev IssuesTicket : String → Command → Type 0
  IssuesTicket jti (count_request ip) = ip ≡ address
  IssuesTicket jti (set_ticket c ip j ttl) =
      IsOf c × (ip ≡ address) × (j ≡ jti) × (ttl ≡ cfg.auth.ticket_ttl)
  IssuesTicket jti _ = ⊥

  abbrev InsertsEvent : Command → Type 0
  InsertsEvent (rpush_event c _) = IsOf c × (c ≡ req.param_client_id)
  InsertsEvent (ltrim_events c _ _) = IsOf c × (c ≡ req.param_client_id)
  InsertsEvent _ = ⊥

  abbrev Acknowledges : String → Command → Type 0
  Acknowledges marked_at (set_acked c e at) =
      IsOf c × Names (codec.decode_ack req.body) c e × (at ≡ marked_at)
  Acknowledges marked_at (del_in_flight c e) = IsOf c × Names (codec.decode_ack req.body) c e
  Acknowledges marked_at _ = ⊥

  -- What a request on a route may send: nothing, or commands on what belongs to its credential.
  abbrev pub Permits : Route → Command → Type 0
  Permits get_healthz_route cmd = ⊥
  Permits (post_ticket_route jti) cmd = IssuesTicket jti cmd
  Permits (post_event_route _) cmd = InsertsEvent cmd
  Permits (post_ack_route _ _ marked_at) cmd = Acknowledges marked_at cmd
  Permits get_events_route cmd = ⊥
  Permits (get_stream_route _ _ _ _ _) cmd =
      Validated (validate_ticket jwt cfg.auth now req.query_ticket) cmd
