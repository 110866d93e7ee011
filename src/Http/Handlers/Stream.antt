-- ===== src/Http/Handlers/Stream.antt =====
-- stream.go: `V1SSEStreamEvents`. The state is the session, whose world the guards change before the
-- loop runs; `signals` is what the loop's `select` will take.
pub mod Admits
pub mod Opens
pub mod Keeps
pub mod Lifecycle
pub mod Closes
use scorpion.Prelude.{
  ℕ, suc, String, Bool, true, false, Option, none, some, List, ◌==◌, not, Result, ok, err,
  if◌then◌else◌,
}
use scorpion.Redis.{Redis}
use scorpion.World.{World, count_metric}
use scorpion.Metrics.{
  active_connections_inc, active_connections_dec, connections_total, auth_ip_mismatch_total,
  duplicate_connections_total,
}
use scorpion.Config.{Config}
use scorpion.Json.{Json}
use scorpion.Auth.{Jwt, TicketClaims, validate_ticket}
use scorpion.Repository.Tickets.{validate_and_consume}
use scorpion.Repository.Connections
use scorpion.Stream.Session.{Session}
use scorpion.Stream.Loop.{Signal, run_loop}
use scorpion.Http.{Request, Context, Response, json, streamed, panicked, failure}
use scorpion.Http.Middleware.{Handler, no_ip}

abbrev access_denied : Response
access_denied = json 403 (failure "access_denied" "Ticket is invalid, expired, or IP mismatch.")

module _ {r : Redis} where
  abbrev in_world : Session r → World r → Session r
  in_world x w = record x { world = w }

  abbrev reject : World r → World r
  reject w = count_metric (connections_total "rejected") w

module _ {r : Redis} (jwt : Jwt) (codec : Json) (cfg : Config) (instance_id : String)
    (tracks : Bool) (flushes : Bool) (clock : ℕ) (time : String) (now : ℕ)
    (signals : List Signal) where
  -- The stream itself, and the two deferred calls, the last one first.
  unfoldable pub opened : String → String → Session r → Response × Session r
  opened client_id ip x =
      let w = count_metric active_connections_inc (count_metric (connections_total "ok") x.world) in
      let x' = record x { world = w; flushed = suc x.flushed } in
      let y = (run_loop codec cfg.sse client_id ip tracks clock time signals x').1 in
      (
        streamed,
        in_world y
            (count_metric active_connections_dec (Connections.delete client_id ip y.world).1),
      )

  unfoldable pub registered :
      String → String → Result Bool × World r → Session r → Response × Session r
  unfolding opened
  registered client_id ip (err _, w) x =
      (json 500 (failure "internal_error" "Failed to register connection."), in_world x w)
  registered client_id ip (ok false, w) x = (
    json 429
        (failure "duplicate_connection" "An active stream already exists for this user and IP."),
    in_world x (reject (count_metric duplicate_connections_total w)),
  )
  registered client_id ip (ok true, w) x = opened client_id ip (in_world x w)

  unfoldable pub consumed :
      String → String → Result Bool × World r → Session r → Response × Session r
  unfolding registered
  consumed client_id ip (err _, w) x =
      (json 500 (failure "internal_error" "Ticket validation failed."), in_world x w)
  consumed client_id ip (ok false, w) x = (access_denied, in_world x (reject w))
  consumed client_id ip (ok true, w) x =
      registered client_id ip (Connections.register instance_id client_id ip cfg.sse.conn_ttl w) x

  unfoldable pub validated : Result TicketClaims → Option String → Session r → Response × Session r
  unfolding consumed
  validated (err _) request_ip x = (access_denied, in_world x (reject x.world))
  validated (ok claims) none x = (panicked, x)
  validated (ok claims) (some request_ip) x =
      if request_ip == ""
      then (no_ip, x)
      else if not (request_ip == claims.ip)
      then (access_denied, in_world x (reject (count_metric auth_ip_mismatch_total x.world)))
      else consumed claims.subject request_ip
          (validate_and_consume claims.subject request_ip claims.id x.world) x

  unfoldable pub v1_sse_stream_events : Handler (Session r)
  unfolding validated
  v1_sse_stream_events req ctx x =
      if not flushes
      then (json 500 (failure "internal_error" "Streaming not supported."), x)
      else if req.query_ticket == ""
      then (access_denied, x)
      else validated (validate_ticket jwt cfg.auth now req.query_ticket) ctx.client_ip x
