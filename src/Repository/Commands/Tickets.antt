-- ===== src/Repository/Commands/Tickets.antt =====
-- ticket.go under any interleaving: how often a ticket is accepted.
use scorpion.Prelude.{
  ℕ, ◌+◌, ◌≤◌, String, ◌≡◌, refl, subst, ◌==◌, eq_iff, eq_refl, Bool, true, false, Bool-cases, inl,
  inr, one_if, ◌&&◌, Option, none, some, List, [], ◌∷◌, arith,
}
use scorpion.Redis.{Redis, Entry, text_at, is_text, aged}
use scorpion.Redis.Keyspace.{at-set_ne}
use scorpion.World.Typed.{Typed}
use scorpion.World.Aged.{aged_cases}
use scorpion.Repository.Keys.{ticket_key}
use scorpion.Repository.Keys.Kinds.{ticket_key-TextKey}
use scorpion.Repository.Keys.Distinct.{
  conn_key-ne-ticket_key, events_key-ne-ticket_key, in_flight_key-ne-ticket_key,
  acked_key-ne-ticket_key, rate_limit_key-ne-ticket_key,
}
use scorpion.Repository.Tickets.{ticket_script, is_one}
use scorpion.Repository.Tickets.Use.{script_found_lem}
use scorpion.Repository.Commands.Typed.{exec-Typed}
use scorpion.Repository.Commands.Writes.{Spares, exec-at_ne}
use scorpion.Repository.Commands.{
  Command, set_ticket, use_ticket, set_nx_conn, expire_conn, del_conn, del_own_conn, rpush_event,
  ltrim_events, set_in_flight, set_acked, del_in_flight, count_request, passes, reads, exec,
}

pub and_false : (b : Bool) → (b && false) ≡ false
and_false true = refl
and_false false = refl

module _ (r : Redis) (c ip jti : String) where
  abbrev k : String
  k = ticket_key c ip

  -- Whether the ticket with this id waits, is stored by a command, or is accepted by one.
  abbrev pub waiting : r.Db → ℕ
  waiting d = one_if (is_text (text_at (r.at d (ticket_key c ip))) jti)

  unfoldable pub stored : Command → ℕ
  stored (set_ticket c' ip' j _) = one_if (ticket_key c' ip' == ticket_key c ip && j == jti)
  stored _ = 0

  unfoldable pub accepted : Command → r.Db → ℕ
  accepted (use_ticket c' ip' j) d = one_if (
      (ticket_key c' ip' == ticket_key c ip && j == jti)
      && is_one (ticket_script r (ticket_key c' ip') j d).0)
  accepted _ d = 0

  unfoldable pub times_stored : List Command → ℕ
  times_stored [] = 0
  times_stored (cmd ∷ cmds) = stored cmd + times_stored cmds

  unfoldable pub times_accepted : List Command → r.Db → ℕ
  times_accepted [] d = 0
  times_accepted (cmd ∷ cmds) d = accepted cmd d + times_accepted cmds (exec r cmd d)

  -- One command pays for what it accepts with the ticket that waits.
  abbrev Pays : Command → r.Db → Type 0
  Pays cmd d = accepted cmd d + waiting (exec r cmd d) ≤ stored cmd + waiting d

  untouched : (d d' : r.Db) → r.at d' k ≡ r.at d k → 0 + waiting d' ≤ 0 + waiting d
  untouched d d' e = rw e (omega arith)

  spared :
      (cmd : Command) (d : r.Db)
      → Typed r d
      → Spares cmd k
      → 0 + waiting (exec r cmd d) ≤ 0 + waiting d
  spared cmd d h e = untouched d _ (exec-at_ne r k cmd d h e)

  set_lem :
      (c' ip' j : String) (t : ℕ) (d : r.Db)
      → 0 + waiting (r.set (ticket_key c' ip') j t d)
        ≤ one_if (ticket_key c' ip' == k && j == jti) + waiting d
  set_lem c' ip' j t d = elim (Bool-cases (ticket_key c' ip' == k)) [
    | inl same ↦ rw (r.at-set, same) (omega arith)
    | inr other ↦ rw (at-set_ne r (ticket_key c' ip') j t d k other, other) (omega arith)
  ]

  own_use :
      (j : String) (d : r.Db)
      → Typed r d
      → one_if ((j == jti) && is_one (ticket_script r k j d).0) + waiting (ticket_script r k j d).1
        ≤ 0 + waiting d
  unfolding ticket_script
  own_use j d h =
      let o = text_at (r.at d k) in
      let (reply, left, _) = script_found_lem r k j o d in
      rw (r.get_lem k d (h.texts k (ticket_key-TextKey c ip)), reply, left)
        (elim (Bool-cases (is_text o j)) [
          | inl right ↦ rw right (elim (Bool-cases (j == jti)) [
            | inl mine ↦
                let taken : is_text o jti ≡ true =
                  subst (λ z. is_text o z ≡ true) ((eq_iff j jti).0 mine) right in
                rw (mine, taken) (omega arith)
            | inr other ↦ rw other (omega arith)
          ])
          | inr wrong ↦ rw (wrong, and_false) (omega arith)
        ])

  use_lem :
      (c' ip' j : String) (d : r.Db)
      → Typed r d
      → one_if (
            (ticket_key c' ip' == k && j == jti)
            && is_one (ticket_script r (ticket_key c' ip') j d).0)
          + waiting (ticket_script r (ticket_key c' ip') j d).1
        ≤ 0 + waiting d
  unfolding ticket_script
  use_lem c' ip' j d h =
      let key = ticket_key c' ip' in
      elim (Bool-cases (key == k)) [
        | inl same ↦ rw ((eq_iff key k).0 same, eq_refl) (own_use j d h)
        | inr other ↦
            let (_, _, others) = script_found_lem r key j (r.get key d) d in
            rw other (untouched d _ (rw other at (others k)))
      ]

  aged_lem :
      (n : ℕ) (o : Option Entry)
      → 0 + one_if (is_text (text_at (aged n o)) jti) ≤ 0 + one_if (is_text (text_at o) jti)
  aged_lem n none = omega arith
  aged_lem n (some e) =
      aged_cases
        (λ o. 0 + one_if (is_text (text_at o) jti) ≤ 0 + one_if (is_text (text_at (some e)) jti)) n
        e (omega arith) (omega arith) (λ t. omega arith)

  pub exec-Pays : (cmd : Command) (d : r.Db) → Typed r d → Pays cmd d
  unfolding exec accepted stored
  exec-Pays (set_ticket c' ip' j t) d h = set_lem c' ip' j t d
  exec-Pays (use_ticket c' ip' j) d h = use_lem c' ip' j d h
  exec-Pays (set_nx_conn i c' ip' t) d h =
      spared (set_nx_conn i c' ip' t) d h (conn_key-ne-ticket_key c' ip' c ip)
  exec-Pays (expire_conn c' ip' t) d h =
      spared (expire_conn c' ip' t) d h (conn_key-ne-ticket_key c' ip' c ip)
  exec-Pays (del_conn c' ip') d h =
      spared (del_conn c' ip') d h (conn_key-ne-ticket_key c' ip' c ip)
  exec-Pays (del_own_conn i c' ip') d h =
      spared (del_own_conn i c' ip') d h (conn_key-ne-ticket_key c' ip' c ip)
  exec-Pays (rpush_event c' e) d h =
      spared (rpush_event c' e) d h (events_key-ne-ticket_key c' c ip)
  exec-Pays (ltrim_events c' a b) d h =
      spared (ltrim_events c' a b) d h (events_key-ne-ticket_key c' c ip)
  exec-Pays (set_in_flight c' e at) d h =
      spared (set_in_flight c' e at) d h (in_flight_key-ne-ticket_key c' e c ip)
  exec-Pays (set_acked c' e at) d h =
      spared (set_acked c' e at) d h (acked_key-ne-ticket_key c' e c ip)
  exec-Pays (del_in_flight c' e) d h =
      spared (del_in_flight c' e) d h (in_flight_key-ne-ticket_key c' e c ip)
  exec-Pays (count_request a) d h =
      spared (count_request a) d h (rate_limit_key-ne-ticket_key a c ip)
  exec-Pays (passes n) d h = rw (r.at-elapse) (aged_lem n (r.at d k))
  exec-Pays reads d h = omega arith

  -- However requests interleave, down to single commands, wherever connections break, and
  -- whatever time passes: a ticket id is accepted for a client and an address no more often than it
  -- was stored for them, counting the ticket that waits at the start. The keys hold the kinds of values
  -- that the program gives them.
  pub accepted-le-stored :
      (cmds : List Command) (d : r.Db)
      → Typed r d
      → times_accepted cmds d ≤ times_stored cmds + waiting d
  unfolding times_accepted times_stored
  accepted-le-stored [] d h = omega arith
  accepted-le-stored (cmd ∷ cmds) d h =
      omega
        (arith, exec-Pays cmd d h, accepted-le-stored cmds (exec r cmd d) (exec-Typed r cmd d h))
