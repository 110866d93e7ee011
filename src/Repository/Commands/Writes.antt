-- ===== src/Repository/Commands/Writes.antt =====
-- A command writes no key but its own.
use scorpion.Prelude.{ℕ, String, ◌≡◌, refl, ◌∙◌, ◌==◌, false, Bool-cases, inl, inr, ◌&&◌, leb}
use scorpion.Redis.{Redis, is_text, is_some}
use scorpion.Redis.Keyspace.{
  at-set_ne, at-del_ne, at-expire_ne, at-incr_ne, at-rpush_ne, at-ltrim_ne,
}
use scorpion.World.Typed.{Typed}
use scorpion.Repository.Keys.{
  ticket_key, conn_key, events_key, in_flight_key, acked_key, rate_limit_key,
}
use scorpion.Repository.Tickets.{ticket_script}
use scorpion.Repository.Tickets.Use.{script_found_lem}
use scorpion.Repository.Connections.{owner_script}
use scorpion.RateLimit.{limit_script, window_seconds}
use scorpion.Repository.Commands.{
  Command, set_ticket, use_ticket, set_nx_conn, expire_conn, del_conn, del_own_conn, rpush_event,
  ltrim_events, set_in_flight, set_acked, del_in_flight, count_request, passes, reads, exec,
}

-- The command has another key than this one, and no time passes.
abbrev pub Spares : Command → String → Type 0
Spares (set_ticket c ip _ _) j = (ticket_key c ip == j) ≡ false
Spares (use_ticket c ip _) j = (ticket_key c ip == j) ≡ false
Spares (set_nx_conn _ c ip _) j = (conn_key c ip == j) ≡ false
Spares (expire_conn c ip _) j = (conn_key c ip == j) ≡ false
Spares (del_conn c ip) j = (conn_key c ip == j) ≡ false
Spares (del_own_conn _ c ip) j = (conn_key c ip == j) ≡ false
Spares (rpush_event c _) j = (events_key c == j) ≡ false
Spares (ltrim_events c _ _) j = (events_key c == j) ≡ false
Spares (set_in_flight c e _) j = (in_flight_key c e == j) ≡ false
Spares (set_acked c e _) j = (acked_key c e == j) ≡ false
Spares (del_in_flight c e) j = (in_flight_key c e == j) ≡ false
Spares (count_request ip) j = (rate_limit_key ip == j) ≡ false
Spares (passes _) j = ⊥
Spares reads j = Unit

module _ (r : Redis) (j : String) where
  script_ne :
      (k jti : String) (d : r.Db) → (k == j) ≡ false → r.at (ticket_script r k jti d).1 j ≡ r.at d j
  unfolding ticket_script
  script_ne k jti d e =
      let (_, _, others) = script_found_lem r k jti (r.get k d) d in rw e at (others j)

  pub set_nx_ne :
      (k v : String) (t : ℕ) (d : r.Db) → (k == j) ≡ false → r.at (r.set_nx k v t d) j ≡ r.at d j
  set_nx_ne k v t d e = elim (Bool-cases (is_some (r.at d k))) [
    | inl there ↦ rw (r.at-set_nx, there) refl
    | inr free ↦ rw (r.at-set_nx, free) (at-set_ne r k v t d j e)
  ]

  owner_ne : (k i : String) (d : r.Db) → (k == j) ≡ false → r.at (owner_script r k i d) j ≡ r.at d j
  unfolding owner_script
  owner_ne k i d e = elim (Bool-cases (is_text (r.get k d) i)) [
    | inl own ↦ rw own (at-del_ne r k d j e)
    | inr other ↦ rw other refl
  ]

  limit_ne :
      (a : String) (n : ℕ) (d : r.Db)
      → Typed r d
      → (rate_limit_key a == j) ≡ false
      → r.at (limit_script r (rate_limit_key a) n d).1 j ≡ r.at d j
  unfolding limit_script
  limit_ne a n d h e =
      let k = rate_limit_key a in
      let count = r.get_count k (r.incr k d) in
      elim (Bool-cases (leb 1 count && leb count 1)) [
        | inl first ↦
            rw first (at-expire_ne r k n (r.incr k d) j e ∙ at-incr_ne r k d j (h.counters a) e)
        | inr later ↦ rw later (at-incr_ne r k d j (h.counters a) e)
      ]

  pub exec-at_ne :
      (cmd : Command) (d : r.Db) → Typed r d → Spares cmd j → r.at (exec r cmd d) j ≡ r.at d j
  unfolding exec
  exec-at_ne (set_ticket c ip v t) d h e = at-set_ne r _ v t d j e
  exec-at_ne (use_ticket c ip v) d h e = script_ne _ v d e
  exec-at_ne (set_nx_conn i c ip t) d h e = set_nx_ne _ i t d e
  exec-at_ne (expire_conn c ip t) d h e = at-expire_ne r _ t d j e
  exec-at_ne (del_conn c ip) d h e = at-del_ne r _ d j e
  exec-at_ne (del_own_conn i c ip) d h e = owner_ne _ i d e
  exec-at_ne (rpush_event c v) d h e = at-rpush_ne r _ v d j (h.lists c) e
  exec-at_ne (ltrim_events c a b) d h e = at-ltrim_ne r _ a b d j (h.lists c) e
  exec-at_ne (set_in_flight c v at) d h e = at-set_ne r _ at _ d j e
  exec-at_ne (set_acked c v at) d h e = at-set_ne r _ at _ d j e
  exec-at_ne (del_in_flight c v) d h e = at-del_ne r _ d j e
  exec-at_ne (count_request a) d h e = limit_ne a window_seconds d h e
  exec-at_ne (passes n) d h e = absurd e
  exec-at_ne reads d h e = refl
