-- ===== src/Repository/Events/Race.antt =====
-- events.go, `Drain`, by two streams of one client at once. `Pipeline` sends its commands together
-- but not as a transaction, so Redis may run commands of another client between them.
use scorpion.Prelude.{
  ℕ, zero, suc, String, ◌≡◌, refl, ap, ◌∙◌, Bool, true, false, List, [], ◌∷◌, take, drop, ok,
}
use scorpion.Prelude.Int.{ℤ, pos, negsuc, ◌-ℤ◌}
use scorpion.Redis.{Redis, IsList, items}
use scorpion.Redis.Ranges.{range_upto, pred_suc}
use scorpion.World.{World}
use scorpion.World.Trips.{quiet_trip}
use scorpion.Repository.Keys.{events_key}
use scorpion.Repository.Events.{drain}
use scorpion.Repository.Events.Queue.{cut_lem, cut-IsList}

-- A drain under way: how many of its commands have run, and the batch that LRANGE answered.
pub record Progress : Type 0 where
  pub ran : ℕ
  pub batch : List String

module _ (r : Redis) (key : String) (batch_size : ℤ) where
  -- The next command of the pipeline: LRANGE, LTRIM, LLEN.
  next_command : ℕ → Progress → r.Db → Progress × r.Db
  next_command zero p d =
      (record { ran = 1; batch = r.lrange key (pos 0) (batch_size -ℤ pos 1) d }, d)
  next_command (suc zero) p d = (record p { ran = 2 }, r.ltrim key batch_size (negsuc 0) d)
  next_command (suc (suc n)) p d = (record p { ran = 3 }, d)

  -- Two drains on one keyspace.
  pub record Racing : Type 0 where
    pub first : Progress
    pub second : Progress
    pub db : r.Db

  -- `true` lets the first drain run its next command, `false` the second.
  step : Bool → Racing → Racing
  unfolding next_command
  step true s = let (p, d) = next_command s.first.ran s.first s.db in record s { first = p; db = d }
  step false s =
      let (p, d) = next_command s.second.ran s.second s.db in record s { second = p; db = d }

  unfoldable pub schedule : List Bool → Racing → Racing
  unfolding step
  schedule [] s = s
  schedule (who ∷ rest) s = schedule rest (step who s)

  abbrev pub start : r.Db → Racing
  start d = record {
    first = record { ran = 0; batch = [] };
    second = record { ran = 0; batch = [] };
    db = d;
  }

abbrev pub one_after_the_other : List Bool
one_after_the_other = true ∷ true ∷ true ∷ false ∷ false ∷ false ∷ []

abbrev pub in_turns : List Bool
in_turns = true ∷ false ∷ true ∷ false ∷ true ∷ false ∷ []

module _ (r : Redis) (k : String) (b : ℕ) (d : r.Db) (h : IsList (r.at d k)) where
  abbrev q : List String
  q = items (r.at d k)

  abbrev trimmed : r.Db
  trimmed = r.ltrim k (pos (suc b)) (negsuc 0) d

  read_lem : r.lrange k (pos 0) (pos (suc b) -ℤ pos 1) d ≡ take (suc b) q
  read_lem = rw (pred_suc, r.lrange_lem k (pos 0) (pos b) d h, range_upto) refl

-- Two drains of one queue, a list, with a positive batch size, that run one after the other share
-- it out: the second gets the batch behind the first one's. If their commands run in turns, both
-- get the same batch, and the batch behind it leaves the queue without reaching either: the queue
-- ends the same.
pub drain_race :
    (r : Redis) (k : String) (b : ℕ) (d : r.Db)
    → IsList (r.at d k)
    → let n = suc b in
      let queued = items (r.at d k) in
      let good = schedule r k (pos n) one_after_the_other (start r k (pos n) d) in
      let bad = schedule r k (pos n) in_turns (start r k (pos n) d) in
      (good.first.batch ≡ take n queued)
      × (good.second.batch ≡ take n (drop n queued))
      × (bad.first.batch ≡ take n queued)
      × (bad.second.batch ≡ take n queued)
      × (items (r.at bad.db k) ≡ drop n (drop n queued))
unfolding schedule
drain_race r k b d h =
    let first = read_lem r k b d h in
    let cut = cut_lem r k b d h in
    let h' = cut-IsList r k b d h in
    (
      first,
      read_lem r k b (trimmed r k b d h) h' ∙ ap (take (suc b)) cut,
      first,
      first,
      cut_lem r k b (trimmed r k b d h) h' ∙ ap (drop (suc b)) cut,
    )

-- A drain that nothing interrupts is the pipeline of `Drain`: it reads the same batch and leaves
-- the same keyspace.
pub alone-drain :
    (r : Redis) (c : String) (batch_size : ℤ) (w : World r)
    → w.outcomes ≡ []
    → let k = events_key c in
      let s = schedule r k batch_size (true ∷ true ∷ true ∷ []) (start r k batch_size w.db) in
      ((drain c batch_size w).1.db ≡ s.db)
      × ((drain c batch_size w).0 ≡ ok (s.first.batch, r.llen k s.db))
unfolding schedule drain
alone-drain r c batch_size w q = rw (quiet_trip _ _ w q) (refl, refl)
