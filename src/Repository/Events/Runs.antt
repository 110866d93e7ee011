-- ===== src/Repository/Events/Runs.antt =====
-- events.go under any number of requests for any number of clients, against an abstract queue for each.
use text.Mathlib.TextLemmas.{append_cancel_left}
use scorpion.Prelude.{
  ℕ, suc, ◌-◌, String, ◌≡◌, refl, sym, ap, ◌∙◌, false, Bool-cases, inl, inr, ◌==◌, eq_iff, subst,
  List, [], ◌∷◌, ◌++◌, length, take, drop, Result, ok, if◌then◌else◌,
}
use scorpion.Prelude.Int.{pos}
use scorpion.Redis.{Redis}
use scorpion.Redis.Keyspace.{ChangesOnly}
use scorpion.World.{World, Answers}
use scorpion.Repository.Keys.{events_key}
use scorpion.Repository.Events.{push, drain}
use scorpion.Repository.Events.Queue.{
  queue, HoldsQueue, keep_last, push-keep_last, drain-take, push-quiet, drain-quiet,
}

-- One request: an event for a client, or a batch, of one more than the number, for a client.
pub data Op : Type 0 where
  sends : String → String → Op
  takes : String → ℕ → Op

pub data Answer : Type 0 where
  sent : String → Result (Unit {0}) → Answer
  taken : String → Result (List String × ℕ) → Answer

abbrev pub Queues : Type 0
Queues = String → List String

-- The queues with one of them replaced.
abbrev pub change {ℓ} : {A : Type ℓ} → (String → A) → String → A → String → A
change s c x j = if c == j then x else s j

-- The abstract queues keep the last events, up to the depth limit.
unfoldable pub served : ℕ → List Op → Queues → List Answer × Queues
served m [] s = ([], s)
served m (sends c e ∷ ops) s =
    let (rest, s') = served m ops (change s c (keep_last (suc m) (s c ++ e ∷ []))) in
    (sent c (ok tt) ∷ rest, s')
served m (takes c b ∷ ops) s =
    let (rest, s') = served m ops (change s c (drop (suc b) (s c))) in
    (taken c (ok (take (suc b) (s c), length (s c) - suc b)) ∷ rest, s')

pub other_client : (c j : String) → (c == j) ≡ false → (events_key c == events_key j) ≡ false
unfolding events_key
other_client c j h = elim (Bool-cases (events_key c == events_key j)) [
  | inr differ ↦ differ
  | inl same ↦ cc (h, (eq_iff c j).1 (append_cancel_left _ _ _ ((eq_iff _ _).0 same)))
]

module _ (r : Redis) where
  -- The same requests to the store.
  unfoldable pub run : ℕ → List Op → World r → List Answer × World r
  run m [] w = ([], w)
  run m (sends c e ∷ ops) w =
      let (answer, w') = push (pos (suc m)) c e w in
      let (rest, w'') = run m ops w' in (sent c answer ∷ rest, w'')
  run m (takes c b ∷ ops) w =
      let (answer, w') = drain c (pos (suc b)) w in
      let (rest, w'') = run m ops w' in (taken c answer ∷ rest, w'')

  -- The keys of Redis hold the queues.
  abbrev pub Holds : Queues → World r → Type 0
  Holds s w = (c : String) → (queue r w c ≡ s c) × HoldsQueue r w c

  change-Holds :
      (s : Queues) (c : String) (xs : List String) (w w' : World r)
      → Holds s w
      → queue r w' c ≡ xs
      → HoldsQueue r w' c
      → ChangesOnly r (events_key c) w.db w'.db
      → Holds (change s c xs) w'
  change-Holds s c xs w w' h there list others j = elim (Bool-cases (c == j)) [
    | inl same ↦
        let e : c ≡ j = (eq_iff c j).0 same in
        rw same (ap (queue r w') (sym e) ∙ there, subst (λ z. HoldsQueue r w' z) e list)
    | inr differ ↦
        let kept : r.at w'.db (events_key j) ≡ r.at w.db (events_key j) =
          others (events_key j) ∙ rw (other_client c j differ) refl in
        rw (differ, kept) (h j)
  ]

  -- Whatever requests follow each other, for whatever clients, with batch sizes that are positive, the store answers what a bounded queue
  -- for each client answers, and its keys hold these queues at the end, while Redis answers and the
  -- depth limit is positive: a client's events come out in their order, a request for one client
  -- leaves the queues of the others, and a full queue loses its oldest event. At the start the keys
  -- hold the queues, as lists.
  pub run-served :
      (m : ℕ) (ops : List Op) (s : Queues) (w : World r)
      → w.outcomes ≡ []
      → Holds s w
      → ((run m ops w).0 ≡ (served m ops s).0) × Holds (served m ops s).1 (run m ops w).1
  unfolding run served
  run-served m [] s w q h = (refl, h)
  run-served m (sends c e ∷ ops) s w q h =
      let a : Answers w = rw q tt in
      let (reply, there, list, others) = push-keep_last r m c e w a (h c).1 in
      let w' = (push (pos (suc m)) c e w).1 in
      let xs = keep_last (suc m) (s c ++ e ∷ []) in
      let (rest, holds) = run-served m ops (change s c xs) w' (push-quiet r m c e w q) (
        change-Holds s c xs w w' h (there ∙ ap (λ z. keep_last (suc m) (z ++ e ∷ [])) (h c).0) list
          others) in
      (ap (λ z. sent c z ∷ (run m ops w').0) reply ∙ ap (λ z. sent c (ok tt) ∷ z) rest, holds)
  run-served m (takes c b ∷ ops) s w q h =
      let a : Answers w = rw q tt in
      let (reply, there, list, others) = drain-take r b c w a (h c).1 in
      let w' = (drain c (pos (suc b)) w).1 in
      let xs = drop (suc b) (s c) in
      let (rest, holds) =
        run-served m ops (change s c xs) w' (drain-quiet r b c w q)
          (change-Holds s c xs w w' h (there ∙ ap (drop (suc b)) (h c).0) list others) in
      (
        ap (λ z. taken c z ∷ (run m ops w').0)
              (reply ∙ ap (λ z. ok (take (suc b) z, length z - suc b)) (h c).0)
            ∙ ap (λ z. taken c (ok (take (suc b) (s c), length (s c) - suc b)) ∷ z) rest,
        holds,
      )
