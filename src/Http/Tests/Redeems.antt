-- ===== src/Http/Tests/Redeems.antt =====
-- A ticket that is presented twice, to two instances.
use scorpion.Prelude.{◌+◌, ◌≤◌, true, none, List, [], ◌∷◌}
use scorpion.Redis.Memory.{memory}
use scorpion.World.Typed.{Typed}
use scorpion.Auth.Fixture.{one_ticket}
use scorpion.Ack.{log_publisher}
use scorpion.Stream.Loop.{ctx_done}
use scorpion.Http.{Request}
use scorpion.Http.Fixture.{config, codec, request, empty, remote}
use scorpion.Http.Server.Requests.{Route, post_ticket_route, get_stream_route}
use scorpion.Http.Server.Requests.History.{Happening, asks, passes}
use scorpion.Http.Server.Requests.Redeems.{times_opened, times_drawn, opened-le-drawn}

abbrev from_alice : Request
from_alice = record (request "") { authorization = "Bearer alice's" }

abbrev short_stream : Route
short_stream = get_stream_route true 120 "t" (true ∷ []) (ctx_done 130 "t" ∷ [])

abbrev presented_twice : List Happening
presented_twice =
    asks "node1" 100 (post_ticket_route "t1") from_alice
    ∷ passes 20
    ∷ asks "node2" 120 short_stream (request "")
    ∷ asks "node1" 121 short_stream (request "")
    ∷ []

empty-Typed : Typed memory empty.db
empty-Typed = record { lists = λ c. tt; counters = λ a. tt; texts = λ k t. tt }

opened-le-drawn_example :
    times_opened memory one_ticket codec remote config
      (λ _. none)
      log_publisher
      true
      "alice"
      "10.0.0.1"
      "t1"
      presented_twice
      (empty, tt)
    ≤ times_drawn "t1" presented_twice + 0
opened-le-drawn_example =
    opened-le-drawn memory one_ticket codec remote config (λ _. none) log_publisher true "alice"
      "10.0.0.1" "t1" presented_twice empty tt empty-Typed
