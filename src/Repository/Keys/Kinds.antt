-- ===== src/Repository/Keys/Kinds.antt =====
-- The keys of internal/repository that hold texts.
use scorpion.Prelude.{String}
use scorpion.World.Typed.{TextKey}
use scorpion.Repository.Keys.{ticket_key, conn_key, in_flight_key, acked_key}
use scorpion.Repository.Keys.Distinct.{
  ne_sym, events_key-ne-ticket_key, conn_key-ne-events_key, in_flight_key-ne-events_key,
  events_key-ne-acked_key, rate_limit_key-ne-ticket_key, rate_limit_key-ne-conn_key,
  rate_limit_key-ne-in_flight_key, rate_limit_key-ne-acked_key,
}

pub ticket_key-TextKey : (c ip : String) → TextKey (ticket_key c ip)
ticket_key-TextKey c ip =
    (λ c'. events_key-ne-ticket_key c' c ip, λ a. rate_limit_key-ne-ticket_key a c ip)

pub conn_key-TextKey : (c ip : String) → TextKey (conn_key c ip)
conn_key-TextKey c ip =
    (λ c'. ne_sym _ _ (conn_key-ne-events_key c ip c'), λ a. rate_limit_key-ne-conn_key a c ip)

pub in_flight_key-TextKey : (c e : String) → TextKey (in_flight_key c e)
in_flight_key-TextKey c e = (
  λ c'. ne_sym _ _ (in_flight_key-ne-events_key c e c'),
  λ a. rate_limit_key-ne-in_flight_key a c e,
)

pub acked_key-TextKey : (c e : String) → TextKey (acked_key c e)
acked_key-TextKey c e =
    (λ c'. events_key-ne-acked_key c' c e, λ a. rate_limit_key-ne-acked_key a c e)
