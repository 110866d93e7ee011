-- ===== src/Stream/Drain/Reaches.antt =====
-- loop.go, `drainAndFlush`: a single waiting event reaches the client.
use mathlib.Core.List.{append-nil}
use scorpion.Prelude.{
  ℕ, zero, suc, String, ◌≡◌, refl, sym, ap, subst, ◌∙◌, true, some, List, [], ◌∷◌, ◌++◌, take, drop,
}
use scorpion.Prelude.Int.{pos}
use scorpion.Redis.{Redis}
use scorpion.Config.{Sse}
use scorpion.Domain.{EventPayload}
use scorpion.Json.{Json}
use scorpion.Repository.Keys.{in_flight_key}
use scorpion.Repository.Events.Queue.{queue, HoldsQueue}
use scorpion.Stream.Session.{Session, write}
use scorpion.Stream.Drain.{frame_of, registered, deliver, drain_and_flush}
use scorpion.Stream.Drain.Frames.{frames}
use scorpion.Stream.Drain.Batch.{write_next_ok}
use scorpion.Stream.Drain.Order.{IsClear, with_batch, drain_step, drain_complete}
use scorpion.Stream.Drain.Known.{Fresh, Lasts, drain-Lasts, register-Lasts}
use scorpion.Stream.Drain.Tracks.{drain_and_flush-Tracks}

drop_nil : (n : ℕ) → ◌≡◌ {A = List String} (drop n []) []
drop_nil zero = refl
drop_nil (suc n) = refl

take_nil : (n : ℕ) → ◌≡◌ {A = List String} (take n []) []
take_nil zero = refl
take_nil (suc n) = refl

module _ (r : Redis) (json : Json) (cfg : Sse) (c now : String) where
  deliver_one :
      (raw : String) (d : EventPayload) (y : Session r)
      → json.unmarshal_event raw ≡ some d
      → y.writes ≡ []
      → y.world.outcomes ≡ []
      → HoldsQueue r y.world c
      → Fresh r (deliver json c now true (raw ∷ []) y).world.db (in_flight_key c d.id)
  unfolding deliver registered write
  deliver_one raw d y decoded passes q h =
      rw (decoded, write_next_ok r json c now true (frame_of d) y.writes y passes)
        (register-Lasts r c d.id now y.world q h).1

  -- A drain of a queue with one event writes its frame and leaves it in flight.
  pub drain_reaches :
      (clock b : ℕ) (raw : String) (d : EventPayload) (x : Session r)
      → cfg.batch_size ≡ pos (suc b)
      → IsClear r c x
      → x.writes ≡ []
      → queue r x.world c ≡ raw ∷ []
      → json.unmarshal_event raw ≡ some d
      → let after = drain_and_flush json cfg c true clock now x in
        (after.written ≡ x.written ++ frame_of d ∷ [])
        × Fresh r after.world.db (in_flight_key c d.id)
        × Lasts r c x.world after.world
  drain_reaches clock b raw d x size clear passes waits decoded =
      let after = drain_and_flush json cfg c true clock now x in
      let (kept, left, _, _) = drain_complete r json cfg c true clock now b x size clear passes in
      let gone : queue r after.world c ≡ [] = left ∙ ap (drop (suc b)) waits ∙ drop_nil b in
      let one : frames json (raw ∷ []) ≡ frame_of d ∷ [] = rw decoded refl in
      let batch : take (suc b) (queue r x.world c) ≡ raw ∷ [] =
        ap (take (suc b)) waits ∙ ap (◌∷◌ raw) (take_nil b) in
      let l = drain-Lasts r c (pos (suc b)) x.world clear.answers clear.list in
      (
        sym (append-nil after.written)
            ∙ ap (λ z. after.written ++ frames json z) (sym gone)
            ∙ kept
            ∙ ap (λ z. x.written ++ frames json z) waits
            ∙ ap (λ z. x.written ++ z) one,
        subst (λ (z : Session r). Fresh r z.world.db (in_flight_key c d.id))
            (sym (
              drain_step r json cfg c true clock now b x size clear
              ∙ ap (λ z. deliver json c now true z (with_batch r json cfg c true clock now b x))
                  batch))
            (deliver_one raw d (with_batch r json cfg c true clock now b x) decoded passes l.quiet
              l.list),
        (drain_and_flush-Tracks r c json cfg clock now x clear.answers clear.list).lasts,
      )
