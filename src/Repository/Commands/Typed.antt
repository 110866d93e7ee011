-- ===== src/Repository/Commands/Typed.antt =====
-- Every command keeps the kinds of the keys.
use scorpion.Prelude.{ℕ, String, Option, none, some, ◌==◌, leb, ◌&&◌, Bool-cases, inl, inr}
use scorpion.Redis.{Redis, is_text, is_some}
use scorpion.World.Typed.{
  Typed, TextKey, set-Typed, del-Typed, expire-Typed, rpush-Typed, ltrim-Typed, incr-Typed,
  expire_counter-Typed,
}
use scorpion.World.Aged.{elapse-Typed}
use scorpion.Repository.Keys.{conn_key, rate_limit_key}
use scorpion.Repository.Keys.Kinds.{
  ticket_key-TextKey, conn_key-TextKey, in_flight_key-TextKey, acked_key-TextKey,
}
use scorpion.Repository.Tickets.{script_found, ticket_script}
use scorpion.Repository.Connections.{owner_script}
use scorpion.RateLimit.{window_seconds, limit_script}
use scorpion.Repository.Commands.{
  Command, set_ticket, use_ticket, set_nx_conn, expire_conn, del_conn, del_own_conn, rpush_event,
  ltrim_events, set_in_flight, set_acked, del_in_flight, count_request, passes, reads, exec,
}

module _ (r : Redis) where
  found-Typed :
      (k jti : String) (o : Option String) (d : r.Db)
      → TextKey k
      → Typed r d
      → Typed r (script_found r k jti o d).1
  unfolding script_found
  found-Typed k jti none d tk t = t
  found-Typed k jti (some v) d tk t = elim (Bool-cases (v == jti)) [
    | inl same ↦ rw same (del-Typed r k d tk t)
    | inr differ ↦ rw differ t
  ]

  script-Typed :
      (k jti : String) → TextKey k → (d : r.Db) → Typed r d → Typed r (ticket_script r k jti d).1
  unfolding ticket_script
  script-Typed k jti tk d t = found-Typed k jti (r.get k d) d tk t

  limit-Typed :
      (a : String) (n : ℕ) (d : r.Db)
      → Typed r d
      → Typed r (limit_script r (rate_limit_key a) n d).1
  unfolding limit_script
  limit-Typed a n d t =
      let k = rate_limit_key a in
      let count = r.get_count k (r.incr k d) in
      elim (Bool-cases (leb 1 count && leb count 1)) [
        | inl first ↦ rw first (expire_counter-Typed r a n (r.incr k d) (incr-Typed r a d t))
        | inr later ↦ rw later (incr-Typed r a d t)
      ]

  set_nx-Typed :
      (c ip v : String) (t : ℕ) (d : r.Db) → Typed r d → Typed r (r.set_nx (conn_key c ip) v t d)
  set_nx-Typed c ip v t d h = elim (Bool-cases (is_some (r.at d (conn_key c ip)))) [
    | inl there ↦ rw (r.at-set_nx, there) h
    | inr free ↦ rw (r.at-set_nx, free) (set-Typed r _ v t d (conn_key-TextKey c ip) h)
  ]

  owner-Typed :
      (c ip i : String) (d : r.Db) → Typed r d → Typed r (owner_script r (conn_key c ip) i d)
  unfolding owner_script
  owner-Typed c ip i d h = elim (Bool-cases (is_text (r.get (conn_key c ip) d) i)) [
    | inl own ↦ rw own (del-Typed r _ d (conn_key-TextKey c ip) h)
    | inr other ↦ rw other h
  ]

  pub exec-Typed : (cmd : Command) (d : r.Db) → Typed r d → Typed r (exec r cmd d)
  unfolding exec
  exec-Typed (set_ticket c ip j t) d h = set-Typed r _ j t d (ticket_key-TextKey c ip) h
  exec-Typed (use_ticket c ip j) d h = script-Typed _ j (ticket_key-TextKey c ip) d h
  exec-Typed (set_nx_conn i c ip t) d h = set_nx-Typed c ip i t d h
  exec-Typed (expire_conn c ip t) d h = expire-Typed r _ t d (conn_key-TextKey c ip) h
  exec-Typed (del_conn c ip) d h = del-Typed r _ d (conn_key-TextKey c ip) h
  exec-Typed (del_own_conn i c ip) d h = owner-Typed c ip i d h
  exec-Typed (rpush_event c e) d h = rpush-Typed r c e d h
  exec-Typed (ltrim_events c a b) d h = ltrim-Typed r c a b d h
  exec-Typed (set_in_flight c e at) d h = set-Typed r _ at _ d (in_flight_key-TextKey c e) h
  exec-Typed (set_acked c e at) d h = set-Typed r _ at _ d (acked_key-TextKey c e) h
  exec-Typed (del_in_flight c e) d h = del-Typed r _ d (in_flight_key-TextKey c e) h
  exec-Typed (count_request ip) d h = limit-Typed ip window_seconds d h
  exec-Typed (passes n) d h = elapse-Typed r n d h
  exec-Typed reads d h = h
