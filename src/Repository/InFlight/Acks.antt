-- ===== src/Repository/InFlight/Acks.antt =====
-- inflight.go: what the two registries say of an event, and how delivery and acknowledgement change
-- it.
use Prim.Native.String.{◌++◌}
use scorpion.Prelude.{
  String, ◌≡◌, refl, ◌∙◌, Bool, Bool-cases, inl, inr, ◌||◌, true, false, [], arith, Result, ok, err,
}
use scorpion.Redis.{Redis, is_some}
use scorpion.Redis.Keyspace.{at-set_self, at-set_ne, at-del_self, at-del_ne}
use scorpion.World.{World, round_trip}
use scorpion.World.Trips.{quiet_trip, read_only}
use scorpion.Repository.Keys.{in_flight_key, acked_key}
use scorpion.Repository.Keys.Distinct.{
  in_flight_key-ne-acked_key, in_flight_key_shared, acked_key_shared,
}
use scorpion.Repository.InFlight.{
  register, validate, mark_acked, in_flight_ttl, acked_ttl, acked_checked, in_flight_checked,
}

-- The two registries, as a caller sees them.
abbrev pub in_flight : (r : Redis) → World r → String → String → Bool
in_flight r w c e = is_some (r.at w.db (in_flight_key c e))

abbrev pub acked : (r : Redis) → World r → String → String → Bool
acked r w c e = is_some (r.at w.db (acked_key c e))

pub or_true : (b : Bool) → (b || true) ≡ true
or_true b = ground arith

module _ (r : Redis) (c e : String) where
  -- While Redis answers, `Validate` finds an event that is in flight or acknowledged, says whether
  -- it is acknowledged, and changes nothing in Redis.
  pub validate-registries :
      (w : World r)
      → w.outcomes ≡ []
      → ((validate c e w).0 ≡ ok (acked r w c e || in_flight r w c e, acked r w c e))
        × ((validate c e w).1 ≡ w)
  unfolding validate
  validate-registries w q =
      rw (quiet_trip [] (r.exists (acked_key c e)) w q, r.exists_lem)
        (elim (Bool-cases (acked r w c e)) [
          | inl known ↦ rw known (refl, refl)
          | inr fresh ↦
              rw fresh (
                rw (quiet_trip [] (r.exists (in_flight_key c e)) w q)
                  (rw r.exists_lem (refl, refl)))
        ])

  in_flight_checked-db : (x : Result Bool × World r) → (in_flight_checked x).1.db ≡ x.1.db
  unfolding in_flight_checked
  in_flight_checked-db (ok found, w) = refl
  in_flight_checked-db (err why, w) = refl

  acked_checked-db :
      (key : String) (x : Result Bool × World r) → (acked_checked key x).1.db ≡ x.1.db
  unfolding acked_checked
  acked_checked-db key (err why, w) = refl
  acked_checked-db key (ok true, w) = refl
  acked_checked-db key (ok false, w) =
      in_flight_checked-db (round_trip [] (r.exists key) w) ∙ read_only (r.exists key) w

  -- `Validate` changes no key, also if the connection breaks.
  pub validate-db : (w : World r) → (validate c e w).1.db ≡ w.db
  unfolding validate
  validate-db w =
      acked_checked-db (in_flight_key c e) (round_trip [] (r.exists (acked_key c e)) w)
      ∙ read_only (r.exists (acked_key c e)) w

  register_lem :
      (at : String) (w : World r)
      → w.outcomes ≡ []
      → let after = (register c e at w).1 in
        (after.outcomes ≡ []) × (in_flight r after c e ≡ true) × (acked r after c e ≡ acked r w c e)
  unfolding register
  register_lem at w q =
      let k = in_flight_key c e in
      rw (quiet_trip _ _ w q) (
        q,
        rw (at-set_self r k at in_flight_ttl w.db) refl,
        rw
            (at-set_ne r k at in_flight_ttl w.db (acked_key c e)
              (in_flight_key-ne-acked_key c e c e))
            refl,
      )

  pub mark_acked_lem :
      (now : String) (w : World r)
      → w.outcomes ≡ []
      → let after = (mark_acked c e now w).1 in
        (after.outcomes ≡ []) × (in_flight r after c e ≡ false) × (acked r after c e ≡ true)
  unfolding mark_acked
  mark_acked_lem now w q =
      let k = acked_key c e in
      let j = in_flight_key c e in
      let marked_db = r.set k now acked_ttl w.db in
      rw (quiet_trip _ _ w q) (
        q,
        rw (at-del_self r j marked_db) refl,
        rw
            (
              at-del_ne r j marked_db k (in_flight_key-ne-acked_key c e c e),
              at-set_self r k now acked_ttl w.db,
            )
            refl,
      )

  -- The life of an event: once delivered it is found, unless it is acknowledged already; once marked
  -- it is found as acknowledged, also after it is delivered again. Redis answers throughout, and no
  -- time passes.
  event_life :
      (delivered now again : String) (w : World r)
      → w.outcomes ≡ []
      → let w₁ = (register c e delivered w).1 in
        let w₂ = (mark_acked c e now w₁).1 in
        let w₃ = (register c e again w₂).1 in
        ((validate c e w₁).0 ≡ ok (true, acked r w c e))
        × ((validate c e w₂).0 ≡ ok (true, true))
        × ((validate c e w₃).0 ≡ ok (true, true))
  event_life delivered now again w q =
      let w₁ = (register c e delivered w).1 in
      let w₂ = (mark_acked c e now w₁).1 in
      let w₃ = (register c e again w₂).1 in
      let (q₁, there, kept) = register_lem delivered w q in
      let (q₂, gone, marked_now) = mark_acked_lem now w₁ q₁ in
      let (q₃, there_again, still) = register_lem again w₂ q₂ in
      (
        (validate-registries w₁ q₁).0 ∙ rw (there, kept, or_true) refl,
        (validate-registries w₂ q₂).0 ∙ rw marked_now refl,
        (validate-registries w₃ q₃).0 ∙ rw (still, marked_now) refl,
      )

  -- `MarkAcked` reports success for every event while Redis answers, also for one that was never in
  -- flight or is acknowledged already, and the event counts as acknowledged afterwards.
  pub mark_acked_always :
      (now : String) (w : World r)
      → w.outcomes ≡ []
      → ((mark_acked c e now w).0 ≡ ok true) × (acked r (mark_acked c e now w).1 c e ≡ true)
  unfolding mark_acked
  mark_acked_always now w q = ((rw (quiet_trip _ _ w q) refl), (mark_acked_lem now w q).2)

-- A client `c` and a client `c:m` share their registries: what `c` asks about the event `m:e`, and what
-- it records of it, is answered and changes Redis as if `c:m` did so for its event `e`, whatever
-- Redis holds and wherever its connection breaks.
pub registries_shared :
    (r : Redis) (c m e now : String) (w : World r)
    → (validate c (m ++ ":" ++ e) w ≡ validate (c ++ ":" ++ m) e w)
      × (mark_acked c (m ++ ":" ++ e) now w ≡ mark_acked (c ++ ":" ++ m) e now w)
unfolding validate mark_acked
registries_shared r c m e now w = (
  rw (in_flight_key_shared c m e, acked_key_shared c m e) refl,
  rw (in_flight_key_shared c m e, acked_key_shared c m e) refl,
)
