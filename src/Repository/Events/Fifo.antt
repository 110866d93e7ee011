-- ===== src/Repository/Events/Fifo.antt =====
-- events.go: each client's events come out once, in their order.
use mathlib.Core.List.{append_assoc, append-nil}
use scorpion.Prelude.{
  ℕ, suc, ◌-◌, String, ◌≡◌, refl, sym, ap, ◌∙◌, Bool, true, false, Bool-cases, inl, inr, ◌==◌,
  arith, List, [], ◌∷◌, ◌++◌, length, take, drop, ltb, ◌&&◌, ok, err, if◌then◌else◌, length-append,
  length-drop, take-append-drop, eq_iff,
}
use scorpion.Redis.{Redis}
use scorpion.World.{World}
use scorpion.Repository.Events.Queue.{queue, HoldsQueue, keep_last}
use scorpion.Repository.Events.Runs.{
  Op, sends, takes, Answer, sent, taken, Queues, change, served, run, run-served,
}

-- The events that were sent for a client.
unfoldable pub offered : String → List Op → List String
offered c [] = []
offered c (sends d e ∷ ops) = let rest = offered c ops in if d == c then e ∷ rest else rest
offered c (takes d b ∷ ops) = offered c ops

-- The events of the batches that were answered to a client's requests.
unfoldable pub received : String → List Answer → List String
received c [] = []
received c (sent d answer ∷ answers) = received c answers
received c (taken d (err why) ∷ answers) = received c answers
received c (taken d (ok (batch, left)) ∷ answers) =
    let rest = received c answers in if d == c then batch ++ rest else rest

-- The client's queue, which has so many events, is never full when an event is sent.
unfoldable pub fits : ℕ → String → ℕ → List Op → Bool
fits m c n [] = true
fits m c n (sends d e ∷ ops) =
    let same = fits m c n ops in
    let more = fits m c (suc n) ops in if d == c then ltb n (suc m) && more else same
fits m c n (takes d b ∷ ops) =
    let same = fits m c n ops in
    let less = fits m c (n - suc b) ops in if d == c then less else same

keep_all {ℓ} :
    {A : Type ℓ} (m : ℕ) (xs : List A) (e : A)
    → ltb (length xs) (suc m) ≡ true
    → keep_last (suc m) (xs ++ e ∷ []) ≡ xs ++ e ∷ []
keep_all m xs e h =
    let none_over : length (xs ++ e ∷ []) - suc m ≡ 0 =
      rw (length-append xs (e ∷ [])) (ground arith) in
    ap (λ n. drop n (xs ++ e ∷ [])) none_over

both_true : (a b : Bool) → (a && b) ≡ true → (a ≡ true) × (b ≡ true)
both_true true b h = (refl, h)
both_true false b h = cc

module _ (m : ℕ) (c : String) where
  -- What the abstract queues gave to the client, and what they still hold for it.
  abbrev Gives : List Op → Queues → Type 0
  Gives ops s = received c (served m ops s).0 ++ (served m ops s).1 c ≡ s c ++ offered c ops

  abbrev Fits : List Op → Queues → Type 0
  Fits ops s = fits m c (length (s c)) ops ≡ true

  sends_other :
      (d e : String) (ops : List Op) (s : Queues)
      → (d == c) ≡ false
      → (Fits ops (change s d (keep_last (suc m) (s d ++ e ∷ [])))
          → Gives ops (change s d (keep_last (suc m) (s d ++ e ∷ []))))
      → Fits (sends d e ∷ ops) s
      → Gives (sends d e ∷ ops) s
  unfolding served received offered fits
  sends_other d e ops s differ ih f = rw differ (rw differ at ih (rw differ at f))

  sends_same :
      (d e : String) (ops : List Op) (s : Queues)
      → (d == c) ≡ true
      → (Fits ops (change s d (keep_last (suc m) (s d ++ e ∷ [])))
          → Gives ops (change s d (keep_last (suc m) (s d ++ e ∷ []))))
      → Fits (sends d e ∷ ops) s
      → Gives (sends d e ∷ ops) s
  unfolding served received offered fits
  sends_same d e ops s same ih f =
      let (room, fit) = both_true (ltb (length (s c)) (suc m)) _ (rw same at f) in
      let s' = change s d (keep_last (suc m) (s d ++ e ∷ [])) in
      let there : s' c ≡ s c ++ e ∷ [] = rw same (
        ap (λ z. keep_last (suc m) (s z ++ e ∷ [])) ((eq_iff d c).0 same)
        ∙ keep_all m (s c) e room) in
      let one_more : length (s' c) ≡ suc (length (s c)) =
        ap length there ∙ length-append (s c) (e ∷ []) ∙ omega arith in
      let given = ih (ap (λ n. fits m c n ops) one_more ∙ fit) in
      rw same
        (given ∙ ap (λ z. z ++ offered c ops) there ∙ append_assoc (s c) (e ∷ []) (offered c ops))

  takes_other :
      (d : String) (b : ℕ) (ops : List Op) (s : Queues)
      → (d == c) ≡ false
      → (Fits ops (change s d (drop (suc b) (s d))) → Gives ops (change s d (drop (suc b) (s d))))
      → Fits (takes d b ∷ ops) s
      → Gives (takes d b ∷ ops) s
  unfolding served received offered fits
  takes_other d b ops s differ ih f = rw differ (rw differ at ih (rw differ at f))

  takes_same :
      (d : String) (b : ℕ) (ops : List Op) (s : Queues)
      → (d == c) ≡ true
      → (Fits ops (change s d (drop (suc b) (s d))) → Gives ops (change s d (drop (suc b) (s d))))
      → Fits (takes d b ∷ ops) s
      → Gives (takes d b ∷ ops) s
  unfolding served received offered fits
  takes_same d b ops s same ih f =
      let s' = change s d (drop (suc b) (s d)) in
      let e : d ≡ c = (eq_iff d c).0 same in
      let there : s' c ≡ drop (suc b) (s c) = rw same (ap (λ z. drop (suc b) (s z)) e) in
      let fewer : length (s' c) ≡ length (s c) - suc b =
        ap length there ∙ length-drop (suc b) (s c) in
      let given = ih (ap (λ n. fits m c n ops) fewer ∙ rw same at f) in
      let (answers, end) = served m ops s' in
      rw same (
        append_assoc (take (suc b) (s d)) (received c answers) (end c)
        ∙ ap (λ z. take (suc b) (s d) ++ z) (given ∙ ap (λ z. z ++ offered c ops) there)
        ∙ ap (λ z. take (suc b) (s z) ++ (drop (suc b) (s c) ++ offered c ops)) e
        ∙ sym (append_assoc (take (suc b) (s c)) (drop (suc b) (s c)) (offered c ops))
        ∙ ap (λ z. z ++ offered c ops) (take-append-drop (suc b) (s c)))

  served_fifo : (ops : List Op) (s : Queues) → Fits ops s → Gives ops s
  unfolding received offered served
  served_fifo [] s f = sym (append-nil (s c))
  served_fifo (sends d e ∷ ops) s f =
      let ih = served_fifo ops (change s d (keep_last (suc m) (s d ++ e ∷ []))) in
      elim (Bool-cases (d == c)) [
        | inl same ↦ sends_same d e ops s same ih f
        | inr differ ↦ sends_other d e ops s differ ih f
      ]
  served_fifo (takes d b ∷ ops) s f =
      let ih = served_fifo ops (change s d (drop (suc b) (s d))) in
      elim (Bool-cases (d == c)) [
        | inl same ↦ takes_same d b ops s same ih f
        | inr differ ↦ takes_other d b ops s differ ih f
      ]

-- Every event that is sent for a client is received once, in the order of sending, or still waits:
-- what the client's requests received, followed by its queue at the end, is its queue at the start,
-- followed by the events that were sent for it, whatever requests of other clients stand between.
-- Redis answers, every batch size is positive, the client's queue is below the depth limit whenever an event is sent for it, and
-- the queues are lists at the start.
pub run_fifo :
    (r : Redis) (m : ℕ) (c : String) (ops : List Op) (w : World r)
    → w.outcomes ≡ []
    → ((j : String) → HoldsQueue r w j)
    → fits m c (length (queue r w c)) ops ≡ true
    → let (answers, w') = run r m ops w in
      received c answers ++ queue r w' c ≡ queue r w c ++ offered c ops
run_fifo r m c ops w q lists f =
    let (same, holds) = run-served r m ops (queue r w) w q (λ j. (refl, lists j)) in
    ap (λ z. received c z ++ queue r (run r m ops w).1 c) same
    ∙ ap (λ z. received c (served m ops (queue r w)).0 ++ z) (holds c).0
    ∙ served_fifo m c ops (queue r w) f
