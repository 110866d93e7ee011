-- ===== src/World/Confined.antt =====
-- What one stream may change, the keys of its client and address, and the commands that it sends.
use scorpion.Prelude.{
  ℕ, zero, suc, String, ◌≡◌, refl, ◌∙◌, ◌==◌, false, inl, inr, subst, List, [], ◌∷◌,
}
use scorpion.Redis.{Redis, IsList}
use scorpion.World.{World, run_all, run_some, round_trip}
use scorpion.World.Trips.{round_trip_cases, quiet_trip}
use scorpion.Repository.Keys.{conn_key, events_key, in_flight_key}
use scorpion.Repository.Commands.{
  Command, set_nx_conn, expire_conn, del_conn, ltrim_events, set_in_flight, reads,
}
use scorpion.Repository.Commands.Reached.{Reached, Reached-refl, Reached-trans}

-- A key that is neither the client's queue, nor its connection from the address, nor an event of the
-- client's in flight.
abbrev pub Foreign : String → String → String → Type 0
Foreign c ip j =
    ((events_key c == j) ≡ false)
    × ((conn_key c ip == j) ≡ false)
    × ((e : String) → (in_flight_key c e == j) ≡ false)

-- The commands that one stream sends.
abbrev pub StreamCommand : String → String → Command → Type 0
StreamCommand c ip (set_nx_conn _ c' ip' _) = (c' ≡ c) × (ip' ≡ ip)
StreamCommand c ip (expire_conn c' ip' _) = (c' ≡ c) × (ip' ≡ ip)
StreamCommand c ip (del_conn c' ip') = (c' ≡ c) × (ip' ≡ ip)
StreamCommand c ip (ltrim_events c' _ _) = c' ≡ c
StreamCommand c ip (set_in_flight c' _ _) = c' ≡ c
StreamCommand c ip reads = Unit
StreamCommand c ip _ = ⊥

module _ (r : Redis) (c ip : String) where
  -- A step of the keyspace that leaves every foreign key as it is, and the queue a list, and is made of
  -- the stream's commands.
  pub record Confined (d d' : r.Db) : Type 0 where
    pub queue : IsList (r.at d (events_key c)) → IsList (r.at d' (events_key c))
    pub sent : Reached r (StreamCommand c ip) d d'
    pub foreign :
        IsList (r.at d (events_key c)) → (j : String) → Foreign c ip j → r.at d' j ≡ r.at d j

  pub Confined-refl : (d : r.Db) → Confined d d
  Confined-refl d = record {
    queue = λ h. h;
    sent = Reached-refl r (StreamCommand c ip) d;
    foreign = λ h j f. refl;
  }

  Confined-trans : {d d' d'' : r.Db} → Confined d d' → Confined d' d'' → Confined d d''
  Confined-trans p q = record {
    queue = λ h. q.queue (p.queue h);
    sent = Reached-trans r (StreamCommand c ip) p.sent q.sent;
    foreign = λ h j f. q.foreign (p.queue h) j f ∙ p.foreign h j f;
  }

  abbrev AllConfined : List (r.Db → r.Db) → Type 0
  AllConfined [] = Unit
  AllConfined (f ∷ fs) = ((d : r.Db) → Confined d (f d)) × AllConfined fs

  run_all-Confined :
      (cs : List (r.Db → r.Db)) (d : r.Db) → AllConfined cs → Confined d (run_all cs d)
  run_all-Confined [] d h = Confined-refl d
  run_all-Confined (f ∷ cs) d h = Confined-trans (h.0 d) (run_all-Confined cs (f d) h.1)

  run_some-Confined :
      (n : ℕ) (cs : List (r.Db → r.Db)) (d : r.Db) → AllConfined cs → Confined d (run_some n cs d)
  run_some-Confined zero cs d h = Confined-refl d
  run_some-Confined (suc n) [] d h = Confined-refl d
  run_some-Confined (suc n) (f ∷ cs) d h = Confined-trans (h.0 d) (run_some-Confined n cs (f d) h.1)

  -- The same between two worlds; an unbroken network stays unbroken.
  pub record Within (w w' : World r) : Type 0 where
    pub keys : Confined w.db w'.db
    pub quiet : w.outcomes ≡ [] → w'.outcomes ≡ []

  pub Within-refl : (w : World r) → Within w w
  Within-refl w = record { keys = Confined-refl w.db; quiet = λ q. q }

  pub Within-at : {u w w' : World r} → u ≡ w → Within u w' → Within w w'
  Within-at {u} {w} {w'} e h = subst (λ z. Within z w') e h

  pub Within-trans : {w w' w'' : World r} → Within w w' → Within w' w'' → Within w w''
  Within-trans p q = record {
    keys = Confined-trans p.keys q.keys;
    quiet = λ e. q.quiet (p.quiet e);
  }

  -- A request of confined commands, whether it is answered or breaks.
  pub round_trip-Within {ℓ} :
      {A : Type ℓ} (cs : List (r.Db → r.Db)) (answer : r.Db → A) (w : World r)
      → AllConfined cs
      → Within w (round_trip cs answer w).1
  round_trip-Within cs answer w h = elim (round_trip_cases cs answer w) [
    | inl e ↦ record {
      keys = rw e (run_all-Confined cs w.db h);
      quiet = λ q. rw (quiet_trip cs answer w q) q;
    }
    | inr (why, n, e) ↦ record {
      keys = rw e (run_some-Confined n cs w.db h);
      quiet = λ q. rw (quiet_trip cs answer w q) q;
    }
  ]
