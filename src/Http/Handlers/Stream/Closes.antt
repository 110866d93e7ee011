-- ===== src/Http/Handlers/Stream/Closes.antt =====
-- stream.go: a stream from its ticket to its end, while Redis answers.
use scorpion.Prelude.{
  ℕ, suc, String, ◌≡◌, ◌≢◌, ap, ◌∙◌, Bool, true, none, some, List, [], Result, ok,
}
use scorpion.Redis.{Redis, is_text}
use scorpion.World.{World, count_metric}
use scorpion.Metrics.{active_connections_inc, connections_total}
use scorpion.Config.{Config}
use scorpion.Json.{Json}
use scorpion.Auth.{Jwt, TicketClaims, validate_ticket}
use scorpion.Repository.Keys.{ticket_key}
use scorpion.Repository.Tickets.{validate_and_consume}
use scorpion.Repository.Tickets.Use.{ticket, HoldsTicket, validate-quiet}
use scorpion.Repository.Connections
use scorpion.Repository.Connections.Exclusive.{connection, delete_lem}
use scorpion.Repository.Events.Queue.{HoldsQueue}
use scorpion.Stream.Session.{Session}
use scorpion.Stream.Loop.{Signal, run_loop}
use scorpion.Stream.Loop.Confined.{run_loop-Within}
use scorpion.Http.{Request, Context, streamed}
use scorpion.Http.Handlers.Stream.{opened, registered, consumed, v1_sse_stream_events}
use scorpion.Http.Handlers.Stream.Opens.{admission_lem, stream_opens}
use scorpion.Http.Handlers.Stream.Keeps.{register-Within}
use scorpion.Http.Handlers.Stream.Lifecycle.{handler_eq, stream-ticket_gone}

module _ (r : Redis) (jwt : Jwt) (codec : Json) (cfg : Config) (instance_id : String)
    (tracks : Bool) (clock : ℕ) (time : String) (now : ℕ) (signals : List Signal) where
  consumed-opened :
      (c ip : String) (answer : Result Bool) (w : World r) (x : Session r)
      → answer ≡ ok true
      → (Connections.register instance_id c ip cfg.sse.conn_ttl w).0 ≡ ok true
      → consumed jwt codec cfg instance_id tracks true clock time now signals c ip (answer, w) x
        ≡ opened jwt codec cfg instance_id tracks true clock time now signals c ip
            (record x { world = (Connections.register instance_id c ip cfg.sse.conn_ttl w).1 })
  unfolding consumed registered
  consumed-opened c ip answer w x e e' =
      let w' = (Connections.register instance_id c ip cfg.sse.conn_ttl w).1 in
      ap (λ z. consumed jwt codec cfg instance_id tracks true clock time now signals c ip (z, w) x)
        e
      ∙ ap
          (λ z.
            registered jwt codec cfg instance_id tracks true clock time now signals c ip (z, w') x)
          e'

  -- The deferred `Delete`.
  opened-connection :
      (c ip : String) (x : Session r)
      → x.world.outcomes ≡ []
      → connection r
          (opened jwt codec cfg instance_id tracks true clock time now signals c ip x).1.world
          c
          ip
        ≡ none
  unfolding opened
  opened-connection c ip x q =
      let w = count_metric active_connections_inc (count_metric (connections_total "ok") x.world) in
      let x' : Session r = record x { world = w; flushed = suc x.flushed } in
      let y = (run_loop codec cfg.sse c ip tracks clock time signals x').1 in
      let within = run_loop-Within r codec cfg.sse c ip tracks clock time signals x' in
      (delete_lem r c ip y.world (within.quiet q)).1

  -- A ticket that validates opens a stream, and when the stream has ended, after whatever it took from
  -- its `select` and whichever writes failed, neither the ticket nor the connection is left in Redis.
  -- Redis answers throughout; the request comes from the address that the ticket was made for; Redis
  -- holds the ticket's id, as a text, for the client at that address; no stream is registered for
  -- them; the client's queue is a list; the connection can be flushed; neither the ticket nor the
  -- address is empty.
  pub stream_lifecycle :
      (req : Request) (ctx : Context) (x : Session r) (claims : TicketClaims)
      → req.query_ticket ≢ ""
      → validate_ticket jwt cfg.auth now req.query_ticket ≡ ok claims
      → claims.ip ≢ ""
      → ctx.client_ip ≡ some claims.ip
      → x.world.outcomes ≡ []
      → HoldsTicket r x.world.db claims.subject claims.ip
      → is_text (ticket r x.world.db claims.subject claims.ip) claims.id ≡ true
      → connection r x.world claims.subject claims.ip ≡ none
      → HoldsQueue r x.world claims.subject
      → let after =
          v1_sse_stream_events jwt codec cfg instance_id tracks true clock time now signals req ctx
            x in
        (after.0 ≡ streamed)
        × (connection r after.1.world claims.subject claims.ip ≡ none)
        × (r.at after.1.world.db (ticket_key claims.subject claims.ip) ≡ none)
  stream_lifecycle req ctx x claims given valid known here q h held free queue =
      let c = claims.subject in
      let ip = claims.ip in
      let done =
        stream_opens r jwt codec cfg instance_id tracks clock time now signals req ctx x claims
          given valid known here q h held free in
      let (used, entered) =
        admission_lem r jwt codec cfg instance_id tracks clock time now signals c ip claims.id
          x.world q h held free in
      let (answer, w) = validate_and_consume c ip claims.id x.world in
      let quiet =
        (register-Within r c ip instance_id cfg.sse.conn_ttl w).quiet
          (validate-quiet r c ip claims.id x.world q) in
      let run =
        handler_eq r jwt codec cfg instance_id tracks true clock time now signals req ctx x claims
          done valid
        ∙ consumed-opened c ip answer w x used entered in
      (
        done,
        ap (λ z. connection r z.1.world c ip) run ∙ opened-connection c ip _ quiet,
        stream-ticket_gone r jwt codec cfg instance_id tracks true clock time now signals req ctx x
            claims done valid h queue,
      )
