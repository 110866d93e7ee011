-- ===== src/Stream/Loop/Ends.antt =====
-- loop.go: the loop ends when the request or the application does.
use scorpion.Prelude.{
  ℕ, String, ◌≡◌, refl, Bool, true, false, Bool-cases, inl, inr, List, [], ◌∷◌, ◌++◌,
}
use scorpion.Redis.{Redis}
use scorpion.Config.{Sse}
use scorpion.Json.{Json}
use scorpion.Stream.Session.{Session}
use scorpion.Stream.Loop.{
  Signal, app_done, ctx_done, heartbeat_tick, poll_tick, turn, turns, run_loop,
}

-- The request is over, or the application.
abbrev is_end : Signal → Bool
is_end (app_done _ _) = true
is_end (ctx_done _ _) = true
is_end (heartbeat_tick _ _) = false
is_end (poll_tick _ _) = false

module _ (r : Redis) (json : Json) (cfg : Sse) (c ip : String) (tracks : Bool) where
  last_turn :
      (s : Signal) (x : Session r) → is_end s ≡ true → (turn json cfg c ip tracks s x).0 ≡ false
  unfolding turn
  last_turn (app_done _ _) x e = refl
  last_turn (ctx_done _ _) x e = refl
  last_turn (heartbeat_tick _ _) x e = cc
  last_turn (poll_tick _ _) x e = cc

  turns_end :
      (before : List Signal) (s : Signal) (behind : List Signal) (x : Session r)
      → is_end s ≡ true
      → let done = turns json cfg c ip tracks (before ++ s ∷ behind) x in
        (done.0 ≡ false) × (done ≡ turns json cfg c ip tracks (before ++ s ∷ []) x)
  unfolding turns
  turns_end [] s behind x e = rw (last_turn s x e) (refl, refl)
  turns_end (t ∷ before) s behind x e =
      let (again, x') = turn json cfg c ip tracks t x in
      elim (Bool-cases again) [
        | inl on ↦ rw on (turns_end before s behind x' e)
        | inr off ↦ rw off (refl, refl)
      ]

  -- A stream ends when its request ends or the application does: whatever ticks came before, of the
  -- polls and of the heartbeats, the loop returns with the drain of that turn at the latest, and takes
  -- nothing that comes behind.
  pub run_loop_ends :
      (clock : ℕ) (now : String) (before : List Signal) (s : Signal) (behind : List Signal)
      (x : Session r)
      → is_end s ≡ true
      → let done = run_loop json cfg c ip tracks clock now (before ++ s ∷ behind) x in
        (done.0 ≡ false) × (done ≡ run_loop json cfg c ip tracks clock now (before ++ s ∷ []) x)
  unfolding run_loop
  run_loop_ends clock now before s behind x e = turns_end before s behind _ e
