-- ===== src/Http/Handlers/Stream/Keeps.antt =====
-- stream.go: registering and deleting the connection, and the keys that these leave.
use scorpion.Prelude.{ℕ, String, refl, Bool, Result, ok, err}
use scorpion.Redis.{Redis}
use scorpion.Redis.Keyspace.{at-del_ne}
use scorpion.World.{World}
use scorpion.World.Confined.{StreamCommand, Foreign, Confined, Within, round_trip-Within}
use scorpion.Repository.Keys.{conn_key, events_key, ticket_key}
use scorpion.Repository.Keys.Distinct.{
  conn_key-ne-events_key, events_key-ne-ticket_key, conn_key-ne-ticket_key,
  in_flight_key-ne-ticket_key,
}
use scorpion.Repository.Commands.{set_nx_conn, del_conn, exec}
use scorpion.Repository.Commands.Reached.{Reached-one}
use scorpion.Repository.Commands.Writes.{set_nx_ne}
use scorpion.Repository.Connections

module _ (r : Redis) (c ip : String) where
  set_nx-Confined :
      (v : String) (t : ℕ) (d : r.Db) → Confined r c ip d (r.set_nx (conn_key c ip) v t d)
  unfolding exec
  set_nx-Confined v t d = record {
    queue = λ h. rw (set_nx_ne r (events_key c) _ v t d (conn_key-ne-events_key c ip c)) h;
    sent = Reached-one r (StreamCommand c ip) (set_nx_conn v c ip t) d (refl, refl);
    foreign = λ h j f. set_nx_ne r j _ v t d f.1;
  }

  del-Confined : (d : r.Db) → Confined r c ip d (r.del (conn_key c ip) d)
  unfolding exec
  del-Confined d = record {
    queue =
        λ h. rw (at-del_ne r (conn_key c ip) d (events_key c) (conn_key-ne-events_key c ip c)) h;
    sent = Reached-one r (StreamCommand c ip) (del_conn c ip) d (refl, refl);
    foreign = λ h j f. at-del_ne r (conn_key c ip) d j f.1;
  }

  registered-Within :
      (w : World r) (x : Result Bool × World r)
      → Within r c ip w x.1
      → Within r c ip w (Connections.registered x).1
  registered-Within w (ok b, w') h = h
  registered-Within w (err e, w') h = h

  pub register-Within :
      (instance_id : String) (t : ℕ) (w : World r)
      → Within r c ip w (Connections.register instance_id c ip t w).1
  unfolding Connections.register
  register-Within instance_id t w =
      registered-Within w _ (round_trip-Within r c ip _ _ w (set_nx-Confined instance_id t, tt))

  pub delete-Within : (w : World r) → Within r c ip w (Connections.delete c ip w).1
  unfolding Connections.delete
  delete-Within w = round_trip-Within r c ip _ _ w (del-Confined, tt)

  -- The key of a ticket is none that a stream changes.
  pub ticket-Foreign : Foreign c ip (ticket_key c ip)
  ticket-Foreign = (
    events_key-ne-ticket_key c c ip,
    conn_key-ne-ticket_key c ip c ip,
    λ e. in_flight_key-ne-ticket_key c e c ip,
  )
