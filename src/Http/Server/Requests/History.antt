-- ===== src/Http/Server/Requests/History.antt =====
-- server.go: sequences of requests to all instances, and the time that passes between them.
use scorpion.Prelude.{ℕ, String, ◌≡◌, Bool, Option, none, List, [], ◌∷◌}
use scorpion.Prelude.Int.{ℤ}
use scorpion.Redis.{Redis, IsText, IsCounter}
use scorpion.World.{World}
use scorpion.World.Typed.{Typed}
use scorpion.World.Aged.{elapse-Typed}
use scorpion.Config.{Config}
use scorpion.Json.{Json}
use scorpion.Auth.{Jwt}
use scorpion.Ack.{Publisher}
use scorpion.RateLimit.Window.{counter_at}
use scorpion.Repository.Keys.{ticket_key, conn_key}
use scorpion.Repository.Keys.Kinds.{ticket_key-TextKey, conn_key-TextKey}
use scorpion.Repository.Tickets.Use.{HoldsTicket, wait}
use scorpion.Repository.Events.Queue.{HoldsQueue}
use scorpion.Repository.Connections.Exclusive.{connection}
use scorpion.Repository.Commands.Reached.{Reached-Typed}
use scorpion.Http.{Request}
use scorpion.Http.Middleware.{Strategy}
use scorpion.Http.Server.Requests.{Route, Shared, respond}
use scorpion.Http.Server.Requests.Sends.{respond_sent}

-- A request to an instance, at a time, and seconds that pass.
pub data Happening : Type 0 where
  asks : (instance_id : String) (now : ℕ) → Route → Request → Happening
  passes : ℕ → Happening

module _ (r : Redis) (jwt : Jwt) (codec : Json) (strategy : Strategy) (cfg : Config)
    (atoi : String → Option ℤ) (p : Publisher) (tracks : Bool) where
  unfoldable pub history : List Happening → Shared r p → Shared r p
  history [] x = x
  history (asks instance_id now route req ∷ rest) x =
      history rest (respond jwt codec strategy cfg atoi p instance_id tracks now route req x).1
  history (passes n ∷ rest) (w, s) = history rest (wait n w, s)

  history-Typed :
      (events : List Happening) (w : World r) (s : p.State)
      → Typed r w.db
      → Typed r (history events (w, s)).0.db
  unfolding history
  history-Typed [] w s t = t
  history-Typed (asks instance_id now route req ∷ rest) w s t =
      let (w', s') =
        (respond jwt codec strategy cfg atoi p instance_id tracks now route req (w, s)).1 in
      history-Typed rest w' s' (
        Reached-Typed r _
          (respond_sent r jwt codec strategy cfg atoi p instance_id tracks now req route w s) t)
  history-Typed (passes n ∷ rest) w s t = history-Typed rest (wait n w) s (elapse-Typed r n w.db t)

  -- Whatever requests come to whatever instances, one after the other in any order, with any time
  -- between them, and however often the connection to Redis breaks in the middle of one, from a Redis
  -- without keys each key of the program holds what the code takes it for: the queues are lists, the
  -- counters of the rate limit are numbers, and the tickets and the connections are texts.
  pub history_kinds :
      (events : List Happening) (w : World r) (s : p.State) (c ip : String)
      → ((k : String) → r.at w.db k ≡ none)
      → let after = (history events (w, s)).0 in
        HoldsQueue r after c
        × HoldsTicket r after.db c ip
        × IsText (connection r after c ip)
        × IsCounter (counter_at r after ip)
  history_kinds events w s c ip empty =
      let none_yet : Typed r w.db = record {
        lists = λ c'. rw (empty _) tt;
        counters = λ a. rw (empty _) tt;
        texts = λ k tk. rw (empty _) tt;
      } in
      let t = history-Typed events w s none_yet in
      (
        t.lists c,
        t.texts (ticket_key c ip) (ticket_key-TextKey c ip),
        t.texts (conn_key c ip) (conn_key-TextKey c ip),
        t.counters ip,
      )
