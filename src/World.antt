-- ===== src/World.antt =====
-- The state that a request changes: Redis behind a network that may break, and the metrics.
-- A request to Redis (a command, a pipeline or a script) is one round trip. It is answered, or it
-- breaks after the server has run some of its commands, and the caller sees an error.
pub mod Trips
pub mod Typed
pub mod Aged
pub mod Confined
use scorpion.Prelude.{ℕ, zero, suc, String, List, [], ◌∷◌, Result, ok, err}
use scorpion.Redis.{Redis}
use scorpion.Metrics.{Metric}

pub data Outcome : Type 0 where
  answered : Outcome
  broken : ℕ → String → Outcome

module _ (r : Redis) where
  -- `outcomes` says how the next round trips go; those after the last one are answered. The latest
  -- metric stands first.
  pub record World : Type 0 where
    pub db : r.Db
    pub outcomes : List Outcome
    pub metrics : List Metric

module _ {ℓ} {D : Type ℓ} where
  abbrev pub run_all : List (D → D) → D → D
  run_all [] d = d
  run_all (c ∷ cs) d = run_all cs (c d)

  -- what the server ran before the connection broke
  abbrev pub run_some : ℕ → List (D → D) → D → D
  run_some zero cs d = d
  run_some (suc n) [] d = d
  run_some (suc n) (c ∷ cs) d = run_some n cs (c d)

-- The next round trip is answered.
abbrev pub AnswersFirst : List Outcome → Type 0
AnswersFirst [] = Unit
AnswersFirst (answered ∷ _) = Unit
AnswersFirst (broken _ _ ∷ _) = ⊥

-- The outcomes that are left after one round trip.
abbrev pub later : List Outcome → List Outcome
later [] = []
later (_ ∷ os) = os

module _ {r : Redis} where
  abbrev pub done : List (r.Db → r.Db) → World r → World r
  done cs w = record w { db = run_all cs w.db; outcomes = later w.outcomes }

  abbrev pub broke : ℕ → List (r.Db → r.Db) → World r → World r
  broke n cs w = record w { db = run_some n cs w.db; outcomes = later w.outcomes }

  pub deliver {ℓ} :
      {A : Type ℓ} → List (r.Db → r.Db) → (r.Db → A) → World r → List Outcome → Result A × World r
  deliver cs answer w [] = (ok (answer w.db), done cs w)
  deliver cs answer w (answered ∷ _) = (ok (answer w.db), done cs w)
  deliver cs answer w (broken n e ∷ _) = (err e, broke n cs w)

  -- The commands of the request, and its answer as a function of the keyspace that it finds.
  unfoldable pub round_trip {ℓ} :
      {A : Type ℓ} → List (r.Db → r.Db) → (r.Db → A) → World r → Result A × World r
  unfolding deliver
  round_trip cs answer w = deliver cs answer w w.outcomes

  abbrev pub count_metric : Metric → World r → World r
  count_metric m w = record w { metrics = m ∷ w.metrics }

  abbrev pub Answers : World r → Type 0
  Answers w = AnswersFirst w.outcomes

abbrev pub calm : (r : Redis) → r.Db → World r
calm r d = record { db = d; outcomes = []; metrics = [] }
