-- ===== src/Repository/Events/Queue.antt =====
-- events.go against an abstract bounded queue: a list, oldest event first.
use scorpion.Prelude.{
  ℕ, suc, ◌-◌, String, ◌≡◌, refl, ◌∙◌, List, [], ◌∷◌, ◌++◌, length, take, drop, ok, length-drop,
}
use scorpion.Prelude.Int.{pos, negsuc}
use scorpion.Redis.{Redis, IsList, items}
use scorpion.Redis.Keyspace.{
  ChangesOnly, ChangesOnly-of_ne, at-rpush_self, at-ltrim_self, at-rpush_ne, at-ltrim_ne,
}
use scorpion.Redis.Ranges.{
  range_tail, range_from, range_upto, items-listed, listed-IsList, neg_suc, pred_suc,
}
use scorpion.World.{World, Answers}
use scorpion.World.Trips.{round_trip_ok, quiet_trip}
use scorpion.Repository.Keys.{events_key}
use scorpion.Repository.Events.{push, drain}

-- The abstract queue of a client.
abbrev pub queue : (r : Redis) → World r → String → List String
queue r w client_id = items (r.at w.db (events_key client_id))

abbrev pub HoldsQueue : (r : Redis) → World r → String → Type 0
HoldsQueue r w client_id = IsList (r.at w.db (events_key client_id))

abbrev pub keep_last {ℓ} : {A : Type ℓ} → ℕ → List A → List A
keep_last n xs = drop (length xs - n) xs

module _ (r : Redis) (k : String) where
  trim_lem :
      (m : ℕ) (v : String) (d : r.Db)
      → IsList (r.at d k)
      → items (r.at (r.ltrim k (negsuc m) (negsuc 0) (r.rpush k v d)) k)
        ≡ keep_last (suc m) (items (r.at d k) ++ v ∷ [])
  trim_lem m v d h =
      let pushed = at-rpush_self r k v d h in
      let list_there : IsList (r.at (r.rpush k v d) k) = rw pushed (listed-IsList _ _) in
      rw
        (
          at-ltrim_self r k (negsuc m) (negsuc 0) (r.rpush k v d) list_there,
          items-listed,
          range_tail,
          pushed,
          items-listed,
        )
        refl

  pub cut_lem :
      (b : ℕ) (d : r.Db)
      → IsList (r.at d k)
      → items (r.at (r.ltrim k (pos (suc b)) (negsuc 0) d) k) ≡ drop (suc b) (items (r.at d k))
  cut_lem b d h = rw (at-ltrim_self r k (pos (suc b)) (negsuc 0) d h, items-listed, range_from) refl

  pub cut-IsList :
      (b : ℕ) (d : r.Db)
      → IsList (r.at d k)
      → IsList (r.at (r.ltrim k (pos (suc b)) (negsuc 0) d) k)
  cut-IsList b d h = rw (at-ltrim_self r k (pos (suc b)) (negsuc 0) d h) (listed-IsList _ _)

module _ (r : Redis) where
  -- While Redis answers and the client's key holds a list or nothing, pushing an event with a
  -- positive depth limit succeeds: the client's queue becomes its last entries, up to the limit,
  -- of the old queue with the event at its end; it is still a list, and no other key changes.
  pub push-keep_last :
      (m : ℕ) (c e : String) (w : World r)
      → Answers w
      → HoldsQueue r w c
      → let after = push (pos (suc m)) c e w in
        (after.0 ≡ ok tt)
        × (queue r after.1 c ≡ keep_last (suc m) (queue r w c ++ e ∷ []))
        × HoldsQueue r after.1 c
        × ChangesOnly r (events_key c) w.db after.1.db
  unfolding push
  push-keep_last m c e w a h =
      let k = events_key c in
      let there : IsList (r.at (r.rpush k e w.db) k) =
        rw (at-rpush_self r k e w.db h) (listed-IsList _ _) in
      rw (round_trip_ok _ _ w a, neg_suc)
        (
          refl,
          trim_lem r k m e w.db h,
          rw (at-ltrim_self r k (negsuc m) (negsuc 0) (r.rpush k e w.db) there) (listed-IsList _ _),
          ChangesOnly-of_ne r k _ _ λ j other.
              at-ltrim_ne r k (negsuc m) (negsuc 0) (r.rpush k e w.db) j there other
              ∙ at-rpush_ne r k e w.db j h other,
        )

  -- While Redis answers and the client's key holds a list or nothing, draining with a positive
  -- batch size returns the oldest events up to that size with the number of events left, leaves
  -- exactly the rest in the queue, and changes no other key.
  pub drain-take :
      (b : ℕ) (c : String) (w : World r)
      → Answers w
      → HoldsQueue r w c
      → let after = drain c (pos (suc b)) w in
        (after.0 ≡ ok (take (suc b) (queue r w c), length (queue r w c) - suc b))
        × (queue r after.1 c ≡ drop (suc b) (queue r w c))
        × HoldsQueue r after.1 c
        × ChangesOnly r (events_key c) w.db after.1.db
  unfolding drain
  drain-take b c w a h =
      let k = events_key c in
      rw (round_trip_ok _ _ w a, pred_suc)
        (
          rw
              (
                r.lrange_lem k (pos 0) (pos b) w.db h,
                range_upto,
                r.llen_lem k (r.ltrim k (pos (suc b)) (negsuc 0) w.db) (cut-IsList r k b w.db h),
                cut_lem r k b w.db h,
                length-drop,
              )
              refl,
          cut_lem r k b w.db h,
          cut-IsList r k b w.db h,
          ChangesOnly-of_ne r k _ _
              λ j other. at-ltrim_ne r k (pos (suc b)) (negsuc 0) w.db j h other,
        )

module _ (r : Redis) where
  pub push-quiet :
      (m : ℕ) (c e : String) (w : World r)
      → w.outcomes ≡ []
      → (push (pos (suc m)) c e w).1.outcomes ≡ []
  unfolding push
  push-quiet m c e w q = rw (quiet_trip _ _ w q) q

  pub drain-quiet :
      (b : ℕ) (c : String) (w : World r)
      → w.outcomes ≡ []
      → (drain c (pos (suc b)) w).1.outcomes ≡ []
  unfolding drain
  drain-quiet b c w q = rw (quiet_trip _ _ w q) q
