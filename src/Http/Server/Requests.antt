-- ===== src/Http/Server/Requests.antt =====
-- server.go, `NewServer`: the server as one function of the requests. Matching a path to its route is
-- echo's; a request comes with the route that it matches, and with what its handler takes from the
-- clock, the uuid library and the connection.
pub mod Guarded
pub mod Posts
pub mod Marks
pub mod Permits
pub mod Sends
pub mod History
pub mod Draws
pub mod Redeems
use scorpion.Prelude.{ℕ, String, Bool, Option, List, []}
use scorpion.Prelude.Int.{ℤ}
use scorpion.Redis.{Redis}
use scorpion.World.{World}
use scorpion.Config.{Config}
use scorpion.Json.{Json}
use scorpion.Auth.{Jwt}
use scorpion.Ack.{Publisher}
use scorpion.Stream.Breaker.{new_circuit_breaker}
use scorpion.Stream.Session.{Session}
use scorpion.Stream.Loop.{Signal}
use scorpion.Http.{Request, Response}
use scorpion.Http.Middleware.{Strategy}
use scorpion.Http.Handlers.Health.{healthz}
use scorpion.Http.Server.{post_ticket, post_event, post_ack, get_events, get_stream}
use scorpion.Http.Server.Polling.{fresh_context}

pub data Route : Type 0 where
  get_healthz_route : Route
  post_ticket_route : (jti : String) → Route
  post_event_route : (uuid : String) → Route
  post_ack_route : (ack_id server_now marked_at : String) → Route
  get_events_route : Route
  get_stream_route :
      (flushes : Bool) (clock : ℕ) (time : String) (writes : List Bool) (signals : List Signal)
      → Route

-- The connection of a new stream, on which so far nothing is written.
abbrev pub new_session : {r : Redis} → World r → List Bool → Session r
new_session w writes = record {
  world = w;
  breaker = new_circuit_breaker 5 10_000_000_000;
  writes = writes;
  written = [];
  flushed = 0;
}

-- The state that all requests share.
abbrev pub Shared : Redis → Publisher → Type 0
Shared r p = World r × p.State

-- a handler that does not publish
abbrev beside {ℓ} : {W S : Type ℓ} → S → Response × W → Response × (W × S)
beside s (answer, w) = (answer, (w, s))

module _ {r : Redis} (jwt : Jwt) (codec : Json) (strategy : Strategy) (cfg : Config)
    (atoi : String → Option ℤ) (p : Publisher) (instance_id : String) (tracks : Bool) where
  unfoldable pub respond : ℕ → Route → Request → Shared r p → Response × Shared r p
  respond now get_healthz_route req (w, s) = beside s (healthz w)
  respond now (post_ticket_route jti) req (w, s) =
      beside s (post_ticket jwt codec strategy cfg now jti req fresh_context w)
  respond now (post_event_route uuid) req (w, s) =
      beside s (post_event jwt codec strategy cfg now uuid req fresh_context w)
  respond now (post_ack_route ack_id server_now marked_at) req (w, s) =
      post_ack jwt codec strategy cfg now p ack_id server_now marked_at req fresh_context (w, s)
  respond now get_events_route req (w, s) =
      beside s (get_events jwt codec strategy cfg now atoi req fresh_context w)
  respond now (get_stream_route flushes clock time writes signals) req (w, s) =
      let (answer, x) =
        get_stream jwt codec strategy cfg now instance_id tracks flushes clock time signals req
          fresh_context (new_session w writes) in
      (answer, (x.world, s))
