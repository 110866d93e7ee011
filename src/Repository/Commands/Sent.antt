-- ===== src/Repository/Commands/Sent.antt =====
-- internal/repository and internal/ratelimit: which commands each operation of the stores sends, in its
-- order. `CleanupInstance`, which runs at the shutdown, is left out.
use scorpion.Prelude.{
  ℕ, zero, suc, String, ◌≡◌, refl, sym, ap, ◌∙◌, Bool, List, [], ◌∷◌, take, Result, ok, err,
}
use scorpion.Prelude.Int.{ℤ, pos, negsuc, ◌-ℤ◌}
use scorpion.Redis.{Redis}
use scorpion.World.{World, Outcome, answered, broken, run_all, round_trip}
use scorpion.World.Trips.{ran, round_trip-db}
use scorpion.Config.{RateLimit}
use scorpion.Repository.Events.{push, drain, drained}
use scorpion.Repository.Tickets.{store, validate_and_consume, validated}
use scorpion.Repository.Connections as Connections
use scorpion.Repository.Connections.{
  owner_script, refresh, delete, delete_with_value, registered, deleted,
}
use scorpion.Repository.InFlight as InFlight
use scorpion.Repository.InFlight.{validate, mark_acked, marked}
use scorpion.Repository.InFlight.Acks.{validate-db}
use scorpion.RateLimit.{allow, judged}
use scorpion.Repository.Commands.{
  Command, set_ticket, use_ticket, set_nx_conn, expire_conn, del_conn, del_own_conn, rpush_event,
  ltrim_events, set_in_flight, set_acked, del_in_flight, count_request, reads, exec, exec_all,
}

pub data Operation : Type 0 where
  inserts : (max_queue_depth : ℤ) (client_id event_json : String) → Operation
  drains : (client_id : String) (batch_size : ℤ) → Operation
  stores : (client_id ip jti : String) (ttl : ℕ) → Operation
  consumes : (client_id ip jti : String) → Operation
  registers : (instance_id client_id ip : String) (ttl : ℕ) → Operation
  refreshes : (client_id ip : String) (ttl : ℕ) → Operation
  deletes : (client_id ip : String) → Operation
  deletes_with_value : (instance_id client_id ip : String) → Operation
  delivers : (client_id event_id at : String) → Operation
  validates : (client_id event_id : String) → Operation
  marks : (client_id event_id at : String) → Operation
  limits : RateLimit → (now : ℕ) (ip : String) → Operation

unfoldable pub commands : Operation → List Command
commands (inserts m c e) = rpush_event c e ∷ ltrim_events c (pos 0 -ℤ m) (negsuc 0) ∷ []
commands (drains c b) = reads ∷ ltrim_events c b (negsuc 0) ∷ reads ∷ []
commands (stores c ip jti ttl) = set_ticket c ip jti ttl ∷ []
commands (consumes c ip jti) = use_ticket c ip jti ∷ []
commands (registers i c ip ttl) = set_nx_conn i c ip ttl ∷ []
commands (refreshes c ip ttl) = expire_conn c ip ttl ∷ []
commands (deletes c ip) = del_conn c ip ∷ []
commands (deletes_with_value i c ip) = del_own_conn i c ip ∷ []
commands (delivers c e at) = set_in_flight c e at ∷ []
commands (validates c e) = []
commands (marks c e at) = set_acked c e at ∷ del_in_flight c e ∷ []
commands (limits cfg now ip) = count_request ip ∷ []

module _ {r : Redis} where
  unfoldable pub perform : Operation → World r → World r
  perform (inserts m c e) w = (push m c e w).1
  perform (drains c b) w = (drain c b w).1
  perform (stores c ip jti ttl) w = (store c ip jti ttl w).1
  perform (consumes c ip jti) w = (validate_and_consume c ip jti w).1
  perform (registers i c ip ttl) w = (Connections.register i c ip ttl w).1
  perform (refreshes c ip ttl) w = (refresh c ip ttl w).1
  perform (deletes c ip) w = (delete c ip w).1
  perform (deletes_with_value i c ip) w = (delete_with_value i c ip w).1
  perform (delivers c e at) w = (InFlight.register c e at w).1
  perform (validates c e) w = (validate c e w).1
  perform (marks c e at) w = (mark_acked c e at w).1
  perform (limits cfg now ip) w = (allow cfg now ip w).1

module _ (r : Redis) where
  execs : List Command → List (r.Db → r.Db)
  execs [] = []
  execs (cmd ∷ cmds) = exec r cmd ∷ execs cmds

  execs-take : (n : ℕ) (cmds : List Command) → take n (execs cmds) ≡ execs (take n cmds)
  unfolding execs
  execs-take zero cmds = refl
  execs-take (suc n) [] = refl
  execs-take (suc n) (cmd ∷ cmds) = ap (◌∷◌ (exec r cmd)) (execs-take n cmds)

  execs-ran : (os : List Outcome) (cmds : List Command) → ran os (execs cmds) ≡ execs (ran os cmds)
  execs-ran [] cmds = refl
  execs-ran (answered ∷ _) cmds = refl
  execs-ran (broken n _ ∷ _) cmds = execs-take n cmds

  run_all-execs : (cmds : List Command) (d : r.Db) → run_all (execs cmds) d ≡ exec_all r cmds d
  unfolding execs exec_all
  run_all-execs [] d = refl
  run_all-execs (cmd ∷ cmds) d = run_all-execs cmds (exec r cmd d)

  -- One round trip that sends these commands.
  trip {ℓ} :
      {A : Type ℓ} (cmds : List Command) (answer : r.Db → A) (w : World r)
      → (round_trip (execs cmds) answer w).1.db ≡ exec_all r (ran w.outcomes cmds) w.db
  trip cmds answer w =
      round_trip-db (execs cmds) answer w
      ∙ ap (λ fs. run_all fs w.db) (execs-ran w.outcomes cmds)
      ∙ run_all-execs (ran w.outcomes cmds) w.db

  none_sent : (os : List Outcome) (d : r.Db) → exec_all r (ran os []) d ≡ d
  unfolding exec_all
  none_sent [] d = refl
  none_sent (answered ∷ _) d = refl
  none_sent (broken zero _ ∷ _) d = refl
  none_sent (broken (suc n) _ ∷ _) d = refl

  drained-db : (x : Result (List String × ℕ) × World r) → (drained x).1.db ≡ x.1.db
  drained-db (ok b, w) = refl
  drained-db (err e, w) = refl

  validated-db : (x : Result ℤ × World r) → (validated x).1.db ≡ x.1.db
  validated-db (ok b, w) = refl
  validated-db (err e, w) = refl

  registered-db : (x : Result Bool × World r) → (registered x).1.db ≡ x.1.db
  registered-db (ok b, w) = refl
  registered-db (err e, w) = refl

  deleted-db : (x : Result (Unit {0}) × World r) → (deleted x).1.db ≡ x.1.db
  deleted-db (ok b, w) = refl
  deleted-db (err e, w) = refl

  marked-db : (x : Result (Unit {0}) × World r) → (marked x).1.db ≡ x.1.db
  unfolding marked
  marked-db (ok b, w) = refl
  marked-db (err e, w) = refl

  judged-db :
      (cfg : RateLimit) (now : ℕ) (x : Result ℕ × World r) → (judged cfg now x).1.db ≡ x.1.db
  judged-db cfg now (ok b, w) = refl
  judged-db cfg now (err e, w) = refl

  -- Whatever becomes of the connection, an operation leaves the keyspace that the commands leave which the
  -- server ran: all that it sends, or those before the break.
  pub perform_sent :
      (op : Operation) (w : World r)
      → (perform op w).db ≡ exec_all r (ran w.outcomes (commands op)) w.db
  unfolding perform commands execs exec push drain store validate_and_consume Connections.register
      refresh delete delete_with_value InFlight.register mark_acked allow
  perform_sent (inserts m c e) w = trip (commands (inserts m c e)) _ w
  perform_sent (drains c b) w = drained-db _ ∙ trip (commands (drains c b)) _ w
  perform_sent (stores c ip jti ttl) w = trip (commands (stores c ip jti ttl)) _ w
  perform_sent (consumes c ip jti) w = validated-db _ ∙ trip (commands (consumes c ip jti)) _ w
  perform_sent (registers i c ip ttl) w =
      registered-db _ ∙ trip (commands (registers i c ip ttl)) _ w
  perform_sent (refreshes c ip ttl) w = trip (commands (refreshes c ip ttl)) _ w
  perform_sent (deletes c ip) w = trip (commands (deletes c ip)) _ w
  perform_sent (deletes_with_value i c ip) w =
      deleted-db _ ∙ trip (commands (deletes_with_value i c ip)) _ w
  perform_sent (delivers c e at) w = trip (commands (delivers c e at)) _ w
  perform_sent (validates c e) w = validate-db r c e w ∙ sym (none_sent w.outcomes w.db)
  perform_sent (marks c e at) w = marked-db _ ∙ trip (commands (marks c e at)) _ w
  perform_sent (limits cfg now ip) w = judged-db cfg now _ ∙ trip (commands (limits cfg now ip)) _ w
