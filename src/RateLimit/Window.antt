-- ===== src/RateLimit/Window.antt =====
-- limiter.go and its script: a fixed window that the first request opens.
use Prim.Native.Nat.{◌^◌}
use scorpion.Prelude.{
  ℕ, suc, ◌+◌, ◌<◌, String, ◌≡◌, refl, ap, ◌∙◌, Bool-cases, inl, length, List, [], ◌∷◌, inr, ◌&&◌,
  false, Option, none, some, ◌==◌, arith, leb, ok, if◌then◌else◌,
}
use scorpion.Redis.{Redis, Entry, counter, IsCounter, count, ttl_of}
use scorpion.Redis.Keyspace.{
  ChangesOnly, ChangesOnly-of_ne, at-incr_self, at-incr_ne, at-expire_self, at-expire_ne,
}
use scorpion.World.{World, Answers, later}
use scorpion.World.Trips.{round_trip_ok}
use scorpion.Config.{RateLimit}
use scorpion.Repository.Keys.{rate_limit_key}
use scorpion.RateLimit.Overflow.{wide, same_limit, leb_pos}
use scorpion.RateLimit.{Verdict, limit_script, verdict, allow, window_seconds}

-- The counter after one more request: the first one starts the window, and no later one extends it.
abbrev pub counted : Option Entry → Option Entry
counted e = some (record {
  value = counter (suc (count e));
  ttl = if leb (count e) 0 then some window_seconds else ttl_of e;
})

is_first : (n : ℕ) → (leb 1 (suc n) && leb (suc n) 1) ≡ leb n 0
is_first n = ground arith

module _ (r : Redis) (k : String) (d : r.Db) (h : IsCounter (r.at d k)) where
  abbrev n : ℕ
  n = count (r.at d k)

  reply_lem : r.get_count k (r.incr k d) ≡ suc n
  reply_lem =
      let there = at-incr_self r k d h in r.get_count_lem k (r.incr k d) (rw there tt) ∙ rw there

  limit_script_lem :
      let reply = limit_script r k window_seconds d in
      (reply.0 ≡ suc n) × (r.at reply.1 k ≡ counted (r.at d k)) × ChangesOnly r k d reply.1
  unfolding limit_script
  limit_script_lem =
      let there = at-incr_self r k d h in
      let other = λ (j : String) (e : (k == j) ≡ false). at-incr_ne r k d j h e in
      elim (Bool-cases (leb n 0)) [
        | inl first ↦
            let expired = at-expire_self r k window_seconds (r.incr k d) in
            rw (reply_lem, is_first n, first)
              (
                refl,
                expired ∙ rw there,
                ChangesOnly-of_ne r k _ _
                    λ j e. at-expire_ne r k window_seconds (r.incr k d) j e ∙ other j e,
              )
        | inr later ↦
            rw (reply_lem, is_first n, later) (refl, there, ChangesOnly-of_ne r k _ _ other)
      ]

pub positive : (n : ℕ) → leb (suc n) 0 ≡ false
positive n = ground arith

-- The counter of an address.
abbrev pub counter_at : (r : Redis) → World r → String → Option Entry
counter_at r w ip = r.at w.db (rate_limit_key ip)

module _ (r : Redis) (cfg : RateLimit) (ip : String) where
  -- While Redis answers and the key holds a number or nothing, a call counts one request: it
  -- reports the count, with the limit of requests per minute and burst together as the test; the
  -- first request of a window gives the counter its time to live, a later one keeps the time that
  -- is left, and no other key changes.
  pub allow-counts :
      (now : ℕ) (w : World r)
      → Answers w
      → IsCounter (counter_at r w ip)
      → let after = allow cfg now ip w in
        (after.0 ≡ ok (verdict cfg now (suc (count (counter_at r w ip)))))
        × (counter_at r after.1 ip ≡ counted (counter_at r w ip))
        × ChangesOnly r (rate_limit_key ip) w.db after.1.db
  unfolding allow
  allow-counts now w a h =
      let (reply, there, others) = limit_script_lem r (rate_limit_key ip) w.db h in
      rw (round_trip_ok _ _ w a, reply) (refl, there, others)

  -- The world after so many calls, at the times of the list.
  pub calls : List ℕ → World r → World r
  calls [] w = w
  calls (now ∷ times) w = calls times (allow cfg now ip w).1

  pub allow-outcomes :
      (now : ℕ) (w : World r) → Answers w → (allow cfg now ip w).1.outcomes ≡ later w.outcomes
  unfolding allow
  allow-outcomes now w a = rw (round_trip_ok _ _ w a)

  -- what the calls leave in the counter
  calls-IsCounter :
      (times : List ℕ) (w : World r)
      → w.outcomes ≡ []
      → IsCounter (counter_at r w ip)
      → (calls times w).outcomes ≡ []
        × (IsCounter (counter_at r (calls times w) ip))
        × (count (counter_at r (calls times w) ip) ≡ count (counter_at r w ip) + length times)
        × (leb (count (counter_at r w ip)) 0 ≡ false
            → ttl_of (counter_at r (calls times w) ip) ≡ ttl_of (counter_at r w ip))
  unfolding calls
  calls-IsCounter [] w e h = (e, h, omega arith, λ _. refl)
  calls-IsCounter (now ∷ times) w e h =
      let a : Answers w = rw e tt in
      let w' = (allow cfg now ip w).1 in
      let (_, there, _) = allow-counts now w a h in
      let e' : w'.outcomes ≡ [] = allow-outcomes now w a ∙ ap later e in
      let h' : IsCounter (counter_at r w' ip) = rw there tt in
      let (quiet, kept, total, window) = calls-IsCounter times w' e' h' in
      let one_more : count (counter_at r w' ip) ≡ suc (count (counter_at r w ip)) = rw there in
      (
        quiet,
        kept,
        omega (arith, total, one_more),
        λ busy.
            let same_ttl : ttl_of (counter_at r w' ip) ≡ ttl_of (counter_at r w ip) =
              rw (there, busy) in
            window (rw there (positive _)) ∙ same_ttl,
      )

-- An address that has no counter yet may make as many requests as the requests per minute and the
-- burst together, and no more: while Redis answers and the counter does not expire, the request
-- after `times` earlier ones is answered, and allowed exactly if their number and itself are
-- within that sum. The sum fits in 64 bits.
pub allow-limit :
    (r : Redis) (a b : ℕ) (ip : String) (times : List ℕ) (now : ℕ) (w : World r)
    → a + b < 2 ^ 63
    → w.outcomes ≡ []
    → counter_at r w ip ≡ none
    → (v : Verdict) × ((allow (wide a b) now ip (calls r (wide a b) ip times w)).0 ≡ ok v)
      × (v.allowed ≡ leb (suc (length times)) (a + b))
unfolding verdict
allow-limit r a b ip times now w small e fresh =
    let cfg = wide a b in
    let w' = calls r cfg ip times w in
    let (quiet, kept, total, _) = calls-IsCounter r cfg ip times w e (rw fresh tt) in
    let answers : Answers w' = rw quiet tt in
    let n : count (counter_at r w' ip) ≡ length times = total ∙ rw fresh (omega arith) in
    (
      _,
      (allow-counts r cfg ip now w' answers kept).0,
      rw (n, same_limit a b small) (leb_pos (suc (length times)) (a + b)),
    )
