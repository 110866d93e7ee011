-- ===== src/Http/Server/Polling.antt =====
-- server.go, `GET /v1/events/:client_id`: polling behind `IPMiddleware`, which sets no client id.
use scorpion.Prelude.{
  ℕ, String, ◌≡◌, refl, inl, inr, Bool-cases, Option, none, ◌==◌, eq_iff, arith, false,
  if◌then◌else◌,
}
use scorpion.Prelude.Int.{ℤ}
use scorpion.Redis.{Redis}
use scorpion.World.{World}
use scorpion.Config.{Config}
use scorpion.Json.{Json}
use scorpion.Auth.{Jwt}
use scorpion.Http.{Request, Context, json, failure}
use scorpion.Http.Middleware.{Strategy, ip_middleware, no_ip}
use scorpion.Http.Handlers.Poll.{v1_poll, missing_client_id}
use scorpion.Http.Server.{get_events}

-- what echo's context holds before any middleware
abbrev pub fresh_context : Context
fresh_context = record { client_id = none; client_ip = none }

not_empty : (s : String) → (s == "") ≡ false → ("" == s) ≡ false
not_empty s h = ground (arith, eq_iff s "", eq_iff "" s)

-- Whatever the request, its bearer token included, polling for events is refused: 500 without an
-- address, 400 without a client id in the path, and 403 otherwise. Nothing is read or changed.
pub get_events_refused :
    (r : Redis) (jwt : Jwt) (codec : Json) (strategy : Strategy) (cfg : Config) (now : ℕ)
    (atoi : String → Option ℤ) (req : Request) (w : World r)
    → get_events jwt codec strategy cfg now atoi req fresh_context w ≡ (
        if strategy req.header req.remote_addr == ""
        then (no_ip, w)
        else if req.param_client_id == ""
        then (missing_client_id, w)
        else (json 403 (failure "forbidden" "You may only poll your own event queue."), w))
unfolding get_events ip_middleware v1_poll
get_events_refused r jwt codec strategy cfg now atoi req w =
    elim (Bool-cases (strategy req.header req.remote_addr == "")) [
      | inl nowhere ↦ rw nowhere refl
      | inr somewhere ↦ elim (Bool-cases (req.param_client_id == "")) [
        | inl empty ↦ rw (somewhere, empty) refl
        | inr named ↦ rw (somewhere, named, not_empty req.param_client_id named) refl
      ]
    ]
