-- ===== src/Http/Handlers/Stream/Opens.antt =====
-- stream.go: a valid ticket opens a stream.
use scorpion.Prelude.{
  ℕ, String, ◌≡◌, ◌≢◌, refl, ap, ◌∙◌, Bool, true, false, none, some, List, [], ◌==◌, eq_iff, arith,
  Result, ok,
}
use scorpion.Redis.{Redis, is_text}
use scorpion.World.{World, Answers}
use scorpion.Config.{Config}
use scorpion.Json.{Json}
use scorpion.Auth.{Jwt, TicketClaims, validate_ticket}
use scorpion.Repository.Keys.{conn_key}
use scorpion.Repository.Keys.Distinct.{ticket_key-ne-conn_key}
use scorpion.Repository.Tickets.{validate_and_consume}
use scorpion.Repository.Tickets.Use.{ticket, HoldsTicket, validate-consumes, validate-quiet}
use scorpion.Repository.Connections
use scorpion.Repository.Connections.Exclusive.{connection, register-exclusive}
use scorpion.Stream.Session.{Session}
use scorpion.Stream.Loop.{Signal}
use scorpion.Http.{Request, Context, streamed}
use scorpion.Http.Handlers.Stream.{registered, consumed, validated, v1_sse_stream_events}

module _ (r : Redis) (jwt : Jwt) (codec : Json) (cfg : Config) (instance_id : String)
    (tracks : Bool) (clock : ℕ) (time : String) (now : ℕ) (signals : List Signal) where
  -- What Redis answers to a ticket that it holds, for a client that has no stream.
  pub admission_lem :
      (c ip jti : String) (w : World r)
      → w.outcomes ≡ []
      → HoldsTicket r w.db c ip
      → is_text (ticket r w.db c ip) jti ≡ true
      → connection r w c ip ≡ none
      → let after = validate_and_consume c ip jti w in
        (after.0 ≡ ok true)
        × ((Connections.register instance_id c ip cfg.sse.conn_ttl after.1).0 ≡ ok true)
  admission_lem c ip jti w q h held free =
      let a : Answers w = rw q tt in
      let after = validate_and_consume c ip jti w in
      let (answer, _, others) = validate-consumes r c ip jti w a h in
      let still_free : connection r after.1 c ip ≡ none =
        others (conn_key c ip) ∙ rw (ticket_key-ne-conn_key c ip c ip) free in
      let (entered, _, _, _) =
        register-exclusive r c ip instance_id cfg.sse.conn_ttl after.1
          (validate-quiet r c ip jti w q) in
      (answer ∙ rw held refl, entered ∙ rw still_free refl)

  consumed_lem :
      (c ip : String) (answer : Result Bool × World r) (x : Session r)
      → answer.0 ≡ ok true
      → (Connections.register instance_id c ip cfg.sse.conn_ttl answer.1).0 ≡ ok true
      → (consumed jwt codec cfg instance_id tracks true clock time now signals c ip answer x).0
        ≡ streamed
  unfolding consumed registered
  consumed_lem c ip (answer, w) x e e' =
      let w' = (Connections.register instance_id c ip cfg.sse.conn_ttl w).1 in
      ap
        (λ z.
          (consumed jwt codec cfg instance_id tracks true clock time now signals c ip (z, w) x).0)
        e
      ∙ ap
          (λ z.
            (registered jwt codec cfg instance_id tracks true clock time now signals c ip (z, w')
              x).0)
          e'

  -- A ticket that validates opens a stream while Redis answers, where the request comes from the
  -- address that it was made for, Redis holds the ticket's id, as a text, for the client at that
  -- address, no stream is registered for them, and the connection can be flushed. Neither the
  -- ticket nor the address is empty.
  pub stream_opens :
      (req : Request) (ctx : Context) (x : Session r) (claims : TicketClaims)
      → req.query_ticket ≢ ""
      → validate_ticket jwt cfg.auth now req.query_ticket ≡ ok claims
      → claims.ip ≢ ""
      → ctx.client_ip ≡ some claims.ip
      → x.world.outcomes ≡ []
      → HoldsTicket r x.world.db claims.subject claims.ip
      → is_text (ticket r x.world.db claims.subject claims.ip) claims.id ≡ true
      → connection r x.world claims.subject claims.ip ≡ none
      → (v1_sse_stream_events jwt codec cfg instance_id tracks true clock time now signals req ctx
          x).0
        ≡ streamed
  unfolding v1_sse_stream_events validated
  stream_opens req ctx x claims given valid known here q h held free =
      let given' : (req.query_ticket == "") ≡ false = ground (arith, eq_iff req.query_ticket "") in
      let known' : (claims.ip == "") ≡ false = ground (arith, eq_iff claims.ip "") in
      let same : (claims.ip == claims.ip) ≡ true = (eq_iff claims.ip claims.ip).1 refl in
      let (used, entered) =
        admission_lem claims.subject claims.ip claims.id x.world q h held free in
      rw (given', valid, here, known', same)
        (consumed_lem claims.subject claims.ip
          (validate_and_consume claims.subject claims.ip claims.id x.world) x used entered)
