-- ===== src/World/Trips.antt =====
-- What a round trip to Redis returns.
use scorpion.Prelude.{
  ℕ, zero, suc, String, ◌≡◌, refl, sym, ap, ◌∙◌, ◌⊎◌, inl, inr, List, [], ◌∷◌, take, Result, ok,
  err,
}
use scorpion.Redis.{Redis}
use scorpion.World.{
  Outcome, answered, broken, World, AnswersFirst, done, broke, deliver, round_trip, Answers, later,
  run_all, run_some,
}

module _ {ℓ} {r : Redis} {A : Type ℓ} (cs : List (r.Db → r.Db)) (answer : r.Db → A)
    (w : World r) where
  abbrev IsAnswer : Result A × World r → Type ℓ
  IsAnswer p = p ≡ (ok (answer w.db), done cs w)

  abbrev Breaks : Result A × World r → Type ℓ
  Breaks p = (e : String) × (n : ℕ) × (p ≡ (err e, broke n cs w))

  deliver_cases :
      (os : List Outcome) → IsAnswer (deliver cs answer w os) ⊎ Breaks (deliver cs answer w os)
  unfolding deliver
  deliver_cases [] = inl refl
  deliver_cases (answered ∷ _) = inl refl
  deliver_cases (broken n e ∷ _) = inr (e, n, refl)

  pub round_trip_cases : IsAnswer (round_trip cs answer w) ⊎ Breaks (round_trip cs answer w)
  unfolding round_trip
  round_trip_cases = deliver_cases w.outcomes

  deliver_ok : (os : List Outcome) → AnswersFirst os → IsAnswer (deliver cs answer w os)
  unfolding deliver
  deliver_ok [] h = refl
  deliver_ok (answered ∷ _) h = refl
  deliver_ok (broken n e ∷ _) h = absurd h

  pub round_trip_ok : Answers w → IsAnswer (round_trip cs answer w)
  unfolding round_trip
  round_trip_ok h = deliver_ok w.outcomes h

  deliver_answers : (os : List Outcome) → AnswersFirst os ⊎ Breaks (deliver cs answer w os)
  unfolding deliver
  deliver_answers [] = inl tt
  deliver_answers (answered ∷ _) = inl tt
  deliver_answers (broken n e ∷ _) = inr (e, n, refl)

  pub reply_cases : Answers w ⊎ Breaks (round_trip cs answer w)
  unfolding round_trip
  reply_cases = deliver_answers w.outcomes

  -- With no failure ahead the outcomes stay as they are.
  pub quiet_trip :
      w.outcomes ≡ []
      → round_trip cs answer w ≡ (ok (answer w.db), record w { db = run_all cs w.db })
  quiet_trip q =
      let same : later w.outcomes ≡ w.outcomes = ap later q ∙ sym q in
      let a : Answers w = rw q tt in
      round_trip_ok a
      ∙ (λ i. (ok (answer w.db), record w { db = run_all cs w.db; outcomes = same i }))

nothing_ran {ℓ} : {D : Type ℓ} (n : ℕ) (d : D) → run_some n [] d ≡ d
nothing_ran zero d = refl
nothing_ran (suc n) d = refl

-- A request without a command changes no key, also if it breaks.
pub read_only {ℓ} :
    {r : Redis} {A : Type ℓ} (answer : r.Db → A) (w : World r)
    → (round_trip [] answer w).1.db ≡ w.db
read_only answer w = elim (round_trip_cases [] answer w) [
  | inl e ↦ rw e refl
  | inr (why, n, e) ↦ rw e (nothing_ran n w.db)
]

-- The commands that the server ran, by the outcome of the round trip.
abbrev pub ran {ℓ} : {A : Type ℓ} → List Outcome → List A → List A
ran [] cs = cs
ran (answered ∷ _) cs = cs
ran (broken n _ ∷ _) cs = take n cs

run_some-take {ℓ} :
    {D : Type ℓ} (n : ℕ) (cs : List (D → D)) (d : D) → run_some n cs d ≡ run_all (take n cs) d
run_some-take zero cs d = refl
run_some-take (suc n) [] d = refl
run_some-take (suc n) (c ∷ cs) d = run_some-take n cs (c d)

module _ {ℓ} {r : Redis} {A : Type ℓ} (cs : List (r.Db → r.Db)) (answer : r.Db → A)
    (w : World r) where
  deliver-db : (os : List Outcome) → (deliver cs answer w os).1.db ≡ run_all (ran os cs) w.db
  unfolding deliver
  deliver-db [] = refl
  deliver-db (answered ∷ _) = refl
  deliver-db (broken n e ∷ _) = run_some-take n cs w.db

  pub round_trip-db : (round_trip cs answer w).1.db ≡ run_all (ran w.outcomes cs) w.db
  unfolding round_trip
  round_trip-db = deliver-db w.outcomes
