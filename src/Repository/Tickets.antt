-- ===== src/Repository/Tickets.antt =====
-- internal/repository/ticket.go: `ticketStore`, with scripts/atomic_ticket_validate.lua.
pub mod Use
use Prim.Native.String.{◌++◌}
use scorpion.Prelude.{
  ℕ, String, Bool, false, ◌&&◌, leb, Option, none, some, [], ◌∷◌, ◌==◌, Result, ok, err,
  if◌then◌else◌,
}
use scorpion.Prelude.Int.{ℤ, pos, negsuc}
use scorpion.Redis.{Redis}
use scorpion.World.{World, round_trip}
use scorpion.Repository.Keys.{ticket_key}

module _ {r : Redis} where
  -- SET of the ticket's id, with a time to live.
  unfoldable pub store : String → String → String → ℕ → World r → Result (Unit {0}) × World r
  store client_id ip jti ttl = round_trip (r.set (ticket_key client_id ip) jti ttl ∷ []) (λ _. tt)

-- The script runs on the server, with no other command in between: its reply, and the keyspace after it.
module _ (r : Redis) where
  unfoldable pub script_found : String → String → Option String → r.Db → ℤ × r.Db
  script_found key expected_jti none d = (pos 0, d)
  script_found key expected_jti (some stored_jti) d =
      if stored_jti == expected_jti then (pos 1, r.del key d) else (negsuc 0, d)

  unfoldable pub ticket_script : String → String → r.Db → ℤ × r.Db
  unfolding script_found
  ticket_script key expected_jti d = script_found key expected_jti (r.get key d) d

abbrev pub is_one : ℤ → Bool
is_one (pos n) = leb 1 n && leb n 1
is_one (negsuc n) = false

module _ {r : Redis} where
  abbrev pub validated : Result ℤ × World r → Result Bool × World r
  validated (err e, w) = (err ("ticket validate script error: " ++ e), w)
  validated (ok code, w) = (ok (is_one code), w)

  unfoldable pub validate_and_consume : String → String → String → World r → Result Bool × World r
  validate_and_consume client_id ip jti w =
      let key = ticket_key client_id ip in
      validated (
        round_trip ((λ d. (ticket_script r key jti d).1) ∷ []) (λ d. (ticket_script r key jti d).0)
          w)
