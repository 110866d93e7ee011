-- ===== src/Http/Server.antt =====
-- internal/http/server.go: the routes of `NewServer`, each handler behind its middleware.
pub mod Polling
pub mod Exchange
pub mod Life
pub mod Build
pub mod Delivery
pub mod Requests
use scorpion.Prelude.{ℕ, String, Bool, Option, List}
use scorpion.Prelude.Int.{ℤ}
use scorpion.Redis.{Redis}
use scorpion.World.{World}
use scorpion.Config.{Config}
use scorpion.Json.{Json}
use scorpion.Auth.{Jwt}
use scorpion.Ack.{Publisher}
use scorpion.Stream.Session.{Session}
use scorpion.Stream.Loop.{Signal}
use scorpion.Http.{Request, Context, Response}
use scorpion.Http.Middleware.{Strategy, Handler, ip_middleware, token_middleware}
use scorpion.Http.Handlers.Ticket.{v1_auth_ticket}
use scorpion.Http.Handlers.Stream.{v1_sse_stream_events}
use scorpion.Http.Handlers.Poll.{v1_poll}
use scorpion.Http.Handlers.Event.{v1_insert_event}
use scorpion.Http.Handlers.Ack.{v1_ack_event, State}

module _ {r : Redis} (jwt : Jwt) (codec : Json) (strategy : Strategy) (cfg : Config) (now : ℕ) where
  -- POST /v1/auth/ticket
  unfoldable pub post_ticket : String → Handler (World r)
  post_ticket jti = token_middleware jwt cfg.auth strategy now (v1_auth_ticket jwt cfg jti now)

  -- POST /v1/events/:client_id
  unfoldable pub post_event : String → Handler (World r)
  post_event uuid = token_middleware jwt cfg.auth strategy now (v1_insert_event codec cfg uuid)

  -- POST /v1/ack
  unfoldable pub post_ack :
      (p : Publisher) (ack_id server_now marked_at : String) → Handler (World r × p.State)
  post_ack p ack_id server_now marked_at =
      token_middleware jwt cfg.auth strategy now (v1_ack_event p codec ack_id server_now marked_at)

  -- GET /v1/events/:client_id
  unfoldable pub get_events : (String → Option ℤ) → Handler (World r)
  get_events atoi = ip_middleware strategy (v1_poll codec atoi cfg)

  -- GET /v1/stream/events
  unfoldable pub get_stream :
      (instance_id : String) (tracks flushes : Bool) (clock : ℕ) (time : String)
      → List Signal
      → Handler (Session r)
  get_stream instance_id tracks flushes clock time signals =
      ip_middleware strategy
        (v1_sse_stream_events jwt codec cfg instance_id tracks flushes clock time now signals)
