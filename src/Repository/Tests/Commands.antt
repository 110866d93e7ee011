-- ===== src/Repository/Tests/Commands.antt =====
-- Commands of several requests on a concrete keyspace.
use scorpion.Prelude.{◌+◌, ◌≤◌, ◌≡◌, refl, List, [], ◌∷◌}
use scorpion.Redis.Memory.{memory, nothing}
use scorpion.World.Typed.{Typed}
use scorpion.Repository.Commands.{Command, set_ticket, use_ticket, passes, set_nx_conn}
use scorpion.World.{World, answered, broken, calm, round_trip}
use scorpion.Repository.Keys.{conn_key}
use scorpion.Repository.Connections as Connections
use scorpion.Repository.Connections.{owner_script, refresh, delete, delete_with_value}
use scorpion.Repository.Commands.Sent.{registers, refreshes, deletes, deletes_with_value, perform}
use scorpion.Repository.Commands.Connections.{standing}
use scorpion.Repository.Commands.Registrations.{
  Event, lost, does, pause, after, after_all, placed, won, over, times,
}
use scorpion.Repository.Commands.Balance.{admitted-balance}
use scorpion.Repository.Commands.Tickets.{times_accepted, times_stored, accepted-le-stored}

nothing-Typed : Typed memory nothing
nothing-Typed = record { lists = λ c. tt; counters = λ a. tt; texts = λ k t. tt }

-- Two requests with one ticket, whose commands come in turns.
abbrev in_turns : List Command
in_turns =
    set_ticket "alice" "10.0.0.1" "t1" 30
    ∷ passes 20
    ∷ use_ticket "alice" "10.0.0.1" "t1"
    ∷ use_ticket "alice" "10.0.0.1" "t1"
    ∷ set_nx_conn "node1" "alice" "10.0.0.1" 60
    ∷ []

accepted-le-stored_example :
    times_accepted memory "alice" "10.0.0.1" "t1" in_turns nothing
    ≤ times_stored memory "alice" "10.0.0.1" "t1" in_turns + 0
accepted-le-stored_example =
    accepted-le-stored memory "alice" "10.0.0.1" "t1" in_turns nothing nothing-Typed

-- Two instances: the first registration runs out, and its owner asks for the second one to end; the
-- last registration is sent, but its answer is lost.
abbrev two_instances : List Event
two_instances =
    does (registers "node1" "alice" "10.0.0.1" 60)
    ∷ does (registers "node2" "alice" "10.0.0.1" 60)
    ∷ does (refreshes "alice" "10.0.0.1" 60)
    ∷ pause 60
    ∷ does (registers "node2" "alice" "10.0.0.1" 60)
    ∷ does (deletes_with_value "node1" "alice" "10.0.0.1")
    ∷ does (deletes "alice" "10.0.0.1")
    ∷ does (registers "node1" "alice" "10.0.0.1" 60)
    ∷ []

abbrev breaks : World memory
breaks = record (calm memory nothing) {
  outcomes = answered ∷ answered ∷ answered ∷ answered ∷ answered ∷ answered ∷ broken 1 "EOF" ∷ [];
}

admitted-balance_example :
    let before = standing memory "node1" "alice" "10.0.0.1" in
    let placed_here = placed memory "node1" "alice" "10.0.0.1" in
    (times memory placed_here two_instances breaks + before nothing
      ≡ times memory (over memory "node1" "alice" "10.0.0.1") two_instances breaks
        + before (after_all memory two_instances breaks).db)
    × (times memory (won memory "node1" "alice" "10.0.0.1") two_instances breaks
        ≤ times memory placed_here two_instances breaks)
    × (times memory placed_here two_instances breaks
        ≤ times memory (won memory "node1" "alice" "10.0.0.1") two_instances breaks
          + times memory (lost memory) two_instances breaks)
admitted-balance_example =
    admitted-balance memory "node1" "alice" "10.0.0.1" two_instances breaks nothing-Typed

placed_twice : times memory (placed memory "node1" "alice" "10.0.0.1") two_instances breaks ≡ 2
unfolding times placed after perform Connections.register refresh delete delete_with_value
    owner_script conn_key round_trip
placed_twice = refl

won_once : times memory (won memory "node1" "alice" "10.0.0.1") two_instances breaks ≡ 1
unfolding times won after perform Connections.register refresh delete delete_with_value owner_script
    conn_key round_trip
won_once = refl
