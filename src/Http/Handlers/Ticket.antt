-- ===== src/Http/Handlers/Ticket.antt =====
-- ticket.go: `V1AuthTicket`. The headers that report the limit are not part of the response here.
pub mod Issues
pub mod Stores
use scorpion.Prelude.{
  ℕ, String, Bool, true, false, Option, none, some, ◌==◌, Result, ok, err, if◌then◌else◌,
}
use scorpion.Redis.{Redis}
use scorpion.World.{World, count_metric}
use scorpion.Metrics.{rate_limit_exceeded_total, tickets_rejected_total, tickets_issued_total}
use scorpion.Config.{Config}
use scorpion.Auth.{Jwt, generate_ticket}
use scorpion.RateLimit.{Verdict, no_verdict, allow}
use scorpion.Repository.Tickets.{store}
use scorpion.Http.{Request, Context, Response, json, panicked, failure, ticket_response}
use scorpion.Http.Middleware.{Handler, no_ip}

-- A limiter error leaves the zero verdict, which refuses.
abbrev pub verdict_of : Result Verdict → Verdict
verdict_of (err _) = no_verdict
verdict_of (ok v) = v

module _ {r : Redis} (jwt : Jwt) (cfg : Config) (jti : String) (now : ℕ) where
  unfoldable pub stored : String → Result (Unit {0}) × World r → Response × World r
  stored ticket (err _, w) = (json 500 (failure "internal_error" "Failed to store ticket."), w)
  stored ticket (ok _, w) =
      (json 200 (ticket_response ticket cfg.auth.ticket_ttl), count_metric tickets_issued_total w)

  unfoldable pub generated :
      String → String → Result (String × String) → World r → Response × World r
  unfolding stored
  generated client_id client_ip (err _) w =
      (json 500 (failure "internal_error" "Failed to generate ticket."), w)
  generated client_id client_ip (ok (ticket, id)) w =
      stored ticket (store client_id client_ip id cfg.auth.ticket_ttl w)

  unfoldable pub issue : Option String → String → World r → Response × World r
  unfolding generated
  issue none client_ip w = (panicked, w)
  issue (some client_id) client_ip w =
      generated client_id client_ip (generate_ticket jwt cfg.auth jti now client_id client_ip) w

  unfoldable pub limited : Option String → String → Result Verdict × World r → Response × World r
  unfolding issue
  limited client_id client_ip (answer, w) =
      if (verdict_of answer).allowed then issue client_id client_ip w else (
        json 429 (failure "rate_limit_exceeded" "Too many ticket requests. Try again later."),
        count_metric (tickets_rejected_total "rate_limited")
            (count_metric rate_limit_exceeded_total w),
      )

  unfoldable pub found_ip : Option String → Option String → World r → Response × World r
  unfolding limited
  found_ip client_id none w = (panicked, w)
  found_ip client_id (some client_ip) w =
      if client_ip == ""
      then (no_ip, w)
      else limited client_id client_ip (allow cfg.rate_limit now client_ip w)

  unfoldable pub v1_auth_ticket : Handler (World r)
  unfolding found_ip
  v1_auth_ticket req ctx w = found_ip ctx.client_id ctx.client_ip w
