-- ===== src/Repository/Commands/Connections.antt =====
-- connection.go: what each command does to the registration of an instance for a client and an address.
use scorpion.Prelude.{
  ℕ, zero, suc, ◌+◌, ◌-◌, String, ◌≡◌, refl, ap, ◌==◌, eq_iff, eq_refl, Bool, true, false,
  Bool-cases, inl, inr, one_if, ◌&&◌, not, ltb, if◌then◌else◌, Option, none, some, arith,
}
use scorpion.Redis.{Redis, Entry, text_at, is_text, is_some, aged, with_ttl}
use scorpion.Redis.Keyspace.{at-set_self, at-del_self, at-expire_self}
use scorpion.World.Typed.{Typed}
use scorpion.Repository.Keys.{conn_key}
use scorpion.Repository.Keys.Kinds.{conn_key-TextKey}
use scorpion.Repository.Keys.Distinct.{
  ne_sym, ticket_key-ne-conn_key, rate_limit_key-ne-conn_key, conn_key-ne-events_key,
  conn_key-ne-in_flight_key, conn_key-ne-acked_key,
}
use scorpion.Repository.Connections.{owner_script}
use scorpion.Repository.Commands.Writes.{Spares, exec-at_ne}
use scorpion.Repository.Commands.{
  Command, set_ticket, use_ticket, set_nx_conn, expire_conn, del_conn, del_own_conn, rpush_event,
  ltrim_events, set_in_flight, set_acked, del_in_flight, count_request, passes, reads, exec,
}

-- Whether a key runs out within some seconds.
abbrev pub runs_out : ℕ → Option Entry → Bool
runs_out n none = false
runs_out n (some e) = elim e.ttl [ none ↦ false | some t ↦ not (ltb n t) ]

module _ (r : Redis) (i c ip : String) where
  abbrev k : String
  k = conn_key c ip

  -- Whether a key holds the instance.
  abbrev pub held : Option Entry → Bool
  held o = is_text (text_at o) i

  -- Whether EXPIRE takes the instance's registration away: with no time to live.
  abbrev pub cut_off : ℕ → Option Entry → Bool
  cut_off zero o = held o
  cut_off (suc n) o = false

  -- Whether the instance is registered, a command registers it, or a command ends its registration.
  abbrev pub standing : r.Db → ℕ
  standing d = one_if (held (r.at d (conn_key c ip)))

  unfoldable pub admitted : Command → r.Db → ℕ
  admitted (set_nx_conn j c' ip' _) d =
      one_if
        (conn_key c' ip' == conn_key c ip && (not (is_some (r.at d (conn_key c ip))) && j == i))
  admitted _ d = 0

  unfoldable pub ended : Command → r.Db → ℕ
  ended (expire_conn c' ip' t) d =
      one_if (conn_key c' ip' == conn_key c ip && cut_off t (r.at d (conn_key c ip)))
  ended (del_conn c' ip') d =
      one_if (conn_key c' ip' == conn_key c ip && held (r.at d (conn_key c ip)))
  ended (del_own_conn j c' ip') d =
      one_if (conn_key c' ip' == conn_key c ip && (j == i && held (r.at d (conn_key c ip))))
  ended (passes n) d = one_if (runs_out n (r.at d (conn_key c ip)) && held (r.at d (conn_key c ip)))
  ended _ d = 0

  abbrev Balances : Command → r.Db → Type 0
  Balances cmd d = admitted cmd d + standing d ≡ ended cmd d + standing (exec r cmd d)

  untouched : (d d' : r.Db) → r.at d' k ≡ r.at d k → 0 + standing d ≡ 0 + standing d'
  untouched d d' e = rw e refl

  spared :
      (cmd : Command) (d : r.Db)
      → Typed r d
      → Spares cmd k
      → 0 + standing d ≡ 0 + standing (exec r cmd d)
  spared cmd d h e = untouched d _ (exec-at_ne r k cmd d h e)

  -- A command on a key, by what it does on the key of this registration.
  keyed :
      (key : String) (f : String → r.Db → r.Db) (e : Bool) (d : r.Db)
      → ((key == k) ≡ false → r.at (f key d) k ≡ r.at d k)
      → 0 + standing d ≡ one_if e + standing (f k d)
      → 0 + standing d ≡ one_if (key == k && e) + standing (f key d)
  keyed key f e d spares own = elim (Bool-cases (key == k)) [
    | inl same ↦ rw ((eq_iff key k).0 same, eq_refl) own
    | inr other ↦ rw other (untouched d _ (spares other))
  ]

  not_held : (o : Option Entry) → is_some o ≡ false → held o ≡ false
  not_held none e = refl
  not_held (some _) e = cc

  own_set_nx :
      (j : String) (t : ℕ) (d : r.Db)
      → one_if (not (is_some (r.at d k)) && j == i) + standing d ≡ 0 + standing (r.set_nx k j t d)
  own_set_nx j t d = rw (r.at-set_nx) (elim (Bool-cases (is_some (r.at d k))) [
    | inl taken ↦ rw taken refl
    | inr free ↦ rw (free, at-set_self r k j t d, not_held (r.at d k) free) (omega arith)
  ])

  set_nx_lem :
      (j c' ip' : String) (t : ℕ) (d : r.Db)
      → Typed r d
      → let key = conn_key c' ip' in
        one_if (key == k && (not (is_some (r.at d k)) && j == i)) + standing d
        ≡ 0 + standing (r.set_nx key j t d)
  unfolding exec
  set_nx_lem j c' ip' t d h =
      let key = conn_key c' ip' in
      elim (Bool-cases (key == k)) [
        | inl same ↦ rw ((eq_iff key k).0 same, eq_refl) (own_set_nx j t d)
        | inr other ↦ rw other (untouched d _ (exec-at_ne r k (set_nx_conn j c' ip' t) d h other))
      ]

  expired_lem :
      (t : ℕ) (o : Option Entry)
      → 0 + one_if (held o) ≡ one_if (cut_off t o) + one_if (held (with_ttl t o))
  expired_lem zero none = refl
  expired_lem zero (some e) = omega arith
  expired_lem (suc n) none = refl
  expired_lem (suc n) (some e) = refl

  own_del : (d : r.Db) → 0 + standing d ≡ one_if (held (r.at d k)) + standing (r.del k d)
  own_del d = rw (at-del_self r k d) (omega arith)

  -- A text is one instance at most.
  one_owner : (o : Option String) (j : String) → is_text o j ≡ true → is_text o i ≡ (j == i)
  one_owner none j e = cc
  one_owner (some v) j e = ap (λ z. z == i) ((eq_iff v j).0 e)

  foreign_lem :
      (o : Option String) (j : String) → is_text o j ≡ false → (j == i && is_text o i) ≡ false
  foreign_lem o j e = elim (Bool-cases (j == i)) [
    | inl same ↦ rw same (rw ((eq_iff j i).0 same) at e)
    | inr differ ↦ rw differ refl
  ]

  twice : (b : Bool) → (b && b) ≡ b
  twice true = refl
  twice false = refl

  own_del_own :
      (j : String) (d : r.Db)
      → Typed r d
      → 0 + standing d ≡ one_if (j == i && held (r.at d k)) + standing (owner_script r k j d)
  unfolding owner_script
  own_del_own j d h =
      let o = text_at (r.at d k) in
      rw (r.get_lem k d (h.texts k (conn_key-TextKey c ip))) (elim (Bool-cases (is_text o j)) [
        | inl own ↦ rw (own, at-del_self r k d, one_owner o j own, twice (j == i)) (omega arith)
        | inr foreign ↦ rw (foreign, foreign_lem o j foreign) refl
      ])

  aged_lem :
      (n : ℕ) (o : Option Entry)
      → 0 + one_if (held o) ≡ one_if (runs_out n o && held o) + one_if (held (aged n o))
  aged_lem n none = refl
  aged_lem n (some e) = go e.ttl
    where
      go :
          (t : Option ℕ)
          → 0 + one_if (held (some e))
            ≡ one_if (elim t [ none ↦ false | some s ↦ not (ltb n s) ] && held (some e))
              + one_if (
                  held (elim t [
                    | none ↦ some e
                    | some s ↦ if ltb n s then some (record e { ttl = some (s - n) }) else none
                  ]))
      go none = refl
      go (some s) = elim (Bool-cases (ltb n s)) [
        | inl early ↦ rw early refl
        | inr late ↦ rw late (omega arith)
      ]

  -- The registrations of an instance are balanced by what ends them.
  pub exec-Balances : (cmd : Command) (d : r.Db) → Typed r d → Balances cmd d
  unfolding exec admitted ended
  exec-Balances (set_ticket c' ip' j t) d h =
      spared (set_ticket c' ip' j t) d h (ticket_key-ne-conn_key c' ip' c ip)
  exec-Balances (use_ticket c' ip' j) d h =
      spared (use_ticket c' ip' j) d h (ticket_key-ne-conn_key c' ip' c ip)
  exec-Balances (set_nx_conn j c' ip' t) d h = set_nx_lem j c' ip' t d h
  exec-Balances (expire_conn c' ip' t) d h =
      keyed _ (λ key. r.expire key t) _ d (exec-at_ne r k (expire_conn c' ip' t) d h)
        (rw (at-expire_self r k t d) (expired_lem t (r.at d k)))
  exec-Balances (del_conn c' ip') d h =
      keyed _ r.del _ d (exec-at_ne r k (del_conn c' ip') d h) (own_del d)
  exec-Balances (del_own_conn j c' ip') d h =
      keyed _ (λ key. owner_script r key j) _ d (exec-at_ne r k (del_own_conn j c' ip') d h)
        (own_del_own j d h)
  exec-Balances (rpush_event c' e) d h =
      spared (rpush_event c' e) d h (ne_sym _ _ (conn_key-ne-events_key c ip c'))
  exec-Balances (ltrim_events c' a b) d h =
      spared (ltrim_events c' a b) d h (ne_sym _ _ (conn_key-ne-events_key c ip c'))
  exec-Balances (set_in_flight c' e at) d h =
      spared (set_in_flight c' e at) d h (ne_sym _ _ (conn_key-ne-in_flight_key c ip c' e))
  exec-Balances (set_acked c' e at) d h =
      spared (set_acked c' e at) d h (ne_sym _ _ (conn_key-ne-acked_key c ip c' e))
  exec-Balances (del_in_flight c' e) d h =
      spared (del_in_flight c' e) d h (ne_sym _ _ (conn_key-ne-in_flight_key c ip c' e))
  exec-Balances (count_request a) d h =
      spared (count_request a) d h (rate_limit_key-ne-conn_key a c ip)
  exec-Balances (passes n) d h = rw (r.at-elapse) (aged_lem n (r.at d k))
  exec-Balances reads d h = refl
