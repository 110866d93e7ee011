-- ===== src/Repository/Commands/Registrations.antt =====
-- connection.go: what is counted of the operations of the stores, as requests call them one after another:
-- the registrations of an instance, and what ends them.
use scorpion.Prelude.{
  ℕ, zero, suc, ◌+◌, String, ◌==◌, Bool, true, false, one_if, ◌&&◌, not, List, [], ◌∷◌, Result, ok,
  err, if◌then◌else◌,
}
use scorpion.Redis.{Redis, is_some}
use scorpion.World.{World, Outcome, answered, broken}
use scorpion.Repository.Keys.{conn_key}
use scorpion.Repository.Connections as Connections
use scorpion.Repository.Connections.{registered}
use scorpion.Repository.Tickets.Use.{wait}
use scorpion.Repository.Commands.Sent.{
  Operation, registers, refreshes, deletes, deletes_with_value, perform,
}
use scorpion.Repository.Commands.Connections.{held, cut_off, runs_out}

-- An operation of some request, on some instance, or seconds that pass.
pub data Event : Type 0 where
  does : Operation → Event
  pause : ℕ → Event

-- Whether the first command of the next request reaches Redis.
abbrev pub reaches : List Outcome → Bool
reaches [] = true
reaches (answered ∷ _) = true
reaches (broken zero _ ∷ _) = false
reaches (broken (suc n) _ ∷ _) = true

-- Whether the next request breaks.
abbrev pub breaks : List Outcome → Bool
breaks [] = false
breaks (answered ∷ _) = false
breaks (broken _ _ ∷ _) = true

abbrev says_yes : Result Bool → Bool
says_yes (ok b) = b
says_yes (err _) = false

module _ (r : Redis) where
  unfoldable pub after : Event → World r → World r
  after (does op) w = perform op w
  after (pause n) w = wait n w

  unfoldable pub after_all : List Event → World r → World r
  after_all [] w = w
  after_all (e ∷ es) w = after_all es (after e w)

  -- What is counted of each event, at the world that it finds.
  unfoldable pub times : (Event → World r → ℕ) → List Event → World r → ℕ
  times f [] w = 0
  times f (e ∷ es) w = f e w + times f es (after e w)

  -- Whether a registration, of whatever instance, breaks.
  unfoldable pub lost : Event → World r → ℕ
  lost (does (registers _ _ _ _)) w = one_if (breaks w.outcomes)
  lost _ w = 0

module _ (r : Redis) (i c ip : String) where
  -- Whether a registration of the instance reaches Redis while no stream is registered, whether the
  -- instance is told that it has registered, and whether what happens ends its registration.
  unfoldable pub placed : Event → World r → ℕ
  placed (does (registers j c' ip' _)) w =
      let here = conn_key c' ip' == conn_key c ip in
      let free = not (is_some (r.at w.db (conn_key c ip))) in
      if reaches w.outcomes then one_if (here && (free && j == i)) else 0
  placed _ w = 0

  unfoldable pub won : Event → World r → ℕ
  won (does (registers j c' ip' t)) w =
      let here = conn_key c' ip' == conn_key c ip in
      one_if (here && (says_yes (Connections.register j c' ip' t w).0 && j == i))
  won _ w = 0

  unfoldable pub over : Event → World r → ℕ
  over (does (refreshes c' ip' t)) w =
      let here = conn_key c' ip' == conn_key c ip in
      if reaches w.outcomes
      then one_if (here && cut_off r i c ip t (r.at w.db (conn_key c ip)))
      else 0
  over (does (deletes c' ip')) w =
      let here = conn_key c' ip' == conn_key c ip in
      if reaches w.outcomes then one_if (here && held r i c ip (r.at w.db (conn_key c ip))) else 0
  over (does (deletes_with_value j c' ip')) w =
      let here = conn_key c' ip' == conn_key c ip in
      if reaches w.outcomes
      then one_if (here && (j == i && held r i c ip (r.at w.db (conn_key c ip))))
      else 0
  over (pause n) w =
      one_if (runs_out n (r.at w.db (conn_key c ip)) && held r i c ip (r.at w.db (conn_key c ip)))
  over _ w = 0
