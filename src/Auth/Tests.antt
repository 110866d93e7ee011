-- ===== src/Auth/Tests.antt =====
-- The life of a ticket, with the one that the fixture knows.
use scorpion.Prelude.{◌≤◌, ◌<◌, String, ◌≡◌, ◌⊎◌, refl, ok, err}
use scorpion.Auth.{generate_ticket, validate_ticket}
use scorpion.Auth.Tickets.{ticket_claims, ticket_life}
use scorpion.Auth.Fixture.{settings, one_ticket}

generate_ticket_now :
    generate_ticket one_ticket settings "t1" 100 "alice" "10.0.0.1" ≡ ok ("signed", "t1")
unfolding generate_ticket
generate_ticket_now = refl

ticket_life_example :
    (◌≡◌ {A = String} "t1" "t1")
    × ((130 ≤ 120) × ((e : String) × (validate_ticket one_ticket settings 120 "signed" ≡ err e))
        ⊎ (120 < 130)
          × (validate_ticket one_ticket settings 120 "signed"
              ≡ ok (ticket_claims one_ticket settings "t1" 100 "alice" "10.0.0.1")))
ticket_life_example =
    ticket_life one_ticket settings "t1" "signed" "t1" "alice" "10.0.0.1" 100 120
      generate_ticket_now
