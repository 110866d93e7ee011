-- ===== src/Http/Middleware.antt =====
-- internal/http/middleware: `IPMiddleware` and `TokenMiddleware`. The strategy that finds a client's
-- address is a parameter; it reads the headers and the remote address.
pub mod Passes
use Prim.Native.String.{len, slice}
use scorpion.Prelude.{ℕ, String, some, List, ◌==◌, ◌||◌, not, ltb, Result, ok, err, if◌then◌else◌}
use scorpion.Config.{Auth}
use scorpion.Auth.{Jwt, validate_real_token}
use scorpion.Http.{Request, Context, Response, json, failure}

abbrev pub Strategy : Type 0
Strategy = List (String × String) → String → String

abbrev pub no_ip : Response
no_ip = json 500 (failure "internal_error" "Failed to determine client IP.")

abbrev pub invalid_token : Response
invalid_token = json 401 (failure "invalid_token" "The provided token is invalid or expired.")

-- A handler, with the state that it changes.
abbrev pub Handler {ℓ} : Type ℓ → Type ℓ
Handler S = Request → Context → S → Response × S

module _ {ℓ} {S : Type ℓ} where
  unfoldable pub ip_middleware : Strategy → Handler S → Handler S
  ip_middleware strategy next req ctx s =
      let client_ip = strategy req.header req.remote_addr in
      if client_ip == "" then (no_ip, s) else next req (record ctx { client_ip = some client_ip }) s

  unfoldable pub authorized :
      Strategy → Handler S → Request → Context → S → Result String → Response × S
  authorized strategy next req ctx s (err _) = (invalid_token, s)
  authorized strategy next req ctx s (ok client_id) =
      let client_ip = strategy req.header req.remote_addr in
      if client_ip == ""
      then (no_ip, s)
      else next req (record { client_id = some client_id; client_ip = some client_ip }) s

  unfoldable pub token_middleware : Jwt → Auth → Strategy → ℕ → Handler S → Handler S
  unfolding authorized
  token_middleware jwt cfg strategy now next req ctx s =
      let header = req.authorization in
      if ltb (len header) 8 || not (slice header 0 7 == "Bearer ")
      then (invalid_token, s)
      else authorized strategy next req ctx s
          (validate_real_token jwt cfg now (slice header 7 (len header)))
