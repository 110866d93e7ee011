-- ===== src/RateLimit/Windows.antt =====
-- limiter.go and its script against an abstract limiter: a window for each address.
use text.Mathlib.TextLemmas.{append_cancel_left}
use Prim.Native.Nat.{◌^◌}
use scorpion.Prelude.{
  ℕ, suc, ◌+◌, ◌-◌, ◌<◌, arith, map, leb, leb→le, Bool, err, String, ◌≡◌, refl, sym, ap, ◌∙◌, false,
  Bool-cases, inl, inr, Option, none, some, ◌==◌, eq_iff, List, [], ◌∷◌, ltb, Result, ok,
  if◌then◌else◌,
}
use scorpion.Redis.{Redis, Entry, counter, IsCounter, count, aged}
use scorpion.World.{World, Answers, later}
use scorpion.Config.{RateLimit}
use scorpion.Repository.Keys.{rate_limit_key}
use scorpion.Repository.Tickets.Use.{wait}
use scorpion.RateLimit.{Verdict, verdict, allow}
use scorpion.RateLimit.Overflow.{wide, same_limit, same_left, leb_pos, left_pos}
use scorpion.Prelude.Int.{ℤ, pos}
use scorpion.RateLimit.Window.{positive, counted, counter_at, allow-counts, allow-outcomes}

-- The requests of an open window after its first one, and the seconds until it closes.
pub record Window : Type 0 where
  pub more : ℕ
  pub left : ℕ

abbrev pub Windows : Type 0
Windows = String → Option Window

-- A request opens a window or is one more of the open one; time closes windows.
abbrev enter : Option Window → Window
enter none = record { more = 0; left = 60 }
enter (some w) = record w { more = suc w.more }

abbrev shrink : ℕ → Option Window → Option Window
shrink n none = none
shrink n (some w) = if ltb n w.left then some (record w { left = w.left - n }) else none

pub data Step : Type 0 where
  request : String → Step
  pause : ℕ → Step

-- What a client learns of an answer. The requests that remain are told where one was allowed.
pub record Reply : Type 0 where
  pub allowed : Bool
  pub number : ℕ
  pub limit : ℤ
  pub remaining : ℤ
  pub reset_at : ℕ

abbrev pub reply_of : Result Verdict → Result Reply
reply_of (err e) = err e
reply_of (ok v) = ok (record {
  allowed = v.allowed;
  number = v.count;
  limit = v.limit;
  remaining = if v.allowed then v.remaining else pos 0;
  reset_at = v.reset_at;
})

-- What the abstract limiter answers to a schedule: so many requests per minute and so many more as
-- a burst pass in a window of sixty seconds.
unfoldable pub limiter : (rpm burst now : ℕ) → List Step → Windows → List (Result Reply)
limiter rpm burst now [] s = []
limiter rpm burst now (request ip ∷ steps) s =
    let w = enter (s ip) in
    let number = suc w.more in
    let reply : Reply = record {
      allowed = leb number (rpm + burst);
      number = number;
      limit = pos rpm;
      remaining = pos (rpm + burst - number);
      reset_at = now + 60;
    } in
    ok reply ∷ limiter rpm burst now steps (λ j. if ip == j then some w else s j)
limiter rpm burst now (pause n ∷ steps) s = limiter rpm burst (now + n) steps (λ j. shrink n (s j))

module _ (r : Redis) (cfg : RateLimit) where
  -- What `Allow` answers to it.
  unfoldable pub answers : ℕ → List Step → World r → List (Result Verdict)
  answers now [] w = []
  answers now (request ip ∷ steps) w =
      let (answer, w') = allow cfg now ip w in answer ∷ answers now steps w'
  answers now (pause n ∷ steps) w = answers (now + n) steps (wait n w)

  -- The counter that stands for a window.
  abbrev entry_of : Option Window → Option Entry
  entry_of none = none
  entry_of (some w) = some (record { value = counter (suc w.more); ttl = some w.left })

  abbrev Stands : Windows → World r → Type 0
  Stands s w = (ip : String) → counter_at r w ip ≡ entry_of (s ip)

  entry_of-IsCounter : (o : Option Window) → IsCounter (entry_of o)
  entry_of-IsCounter none = tt
  entry_of-IsCounter (some w) = tt

  counted-entry_of : (o : Option Window) → counted (entry_of o) ≡ entry_of (some (enter o))
  counted-entry_of none = refl
  counted-entry_of (some w) = rw (positive w.more) refl

  count-entry_of : (o : Option Window) → suc (count (entry_of o)) ≡ suc (enter o).more
  count-entry_of none = refl
  count-entry_of (some w) = refl

  aged-entry_of : (n : ℕ) (o : Option Window) → aged n (entry_of o) ≡ entry_of (shrink n o)
  aged-entry_of n none = refl
  aged-entry_of n (some w) = elim (Bool-cases (ltb n w.left)) [
    | inl e ↦ rw e refl
    | inr e ↦ rw e refl
  ]

  other_address :
      (ip j : String) → (ip == j) ≡ false → (rate_limit_key ip == rate_limit_key j) ≡ false
  unfolding rate_limit_key
  other_address ip j h = elim (Bool-cases (rate_limit_key ip == rate_limit_key j)) [
    | inr differ ↦ differ
    | inl same ↦ cc (h, (eq_iff ip j).1 (append_cancel_left _ _ _ ((eq_iff _ _).0 same)))
  ]

  pause-Stands :
      (n : ℕ) (s : Windows) (w : World r) → Stands s w → Stands (λ j. shrink n (s j)) (wait n w)
  pause-Stands n s w h j =
      r.at-elapse n w.db (rate_limit_key j) ∙ ap (aged n) (h j) ∙ aged-entry_of n (s j)

  module _ (now : ℕ) (ip : String) (s : Windows) (w : World r) (q : w.outcomes ≡ [])
      (h : Stands s w) where
    request_lem :
        ((allow cfg now ip w).0 ≡ ok (verdict cfg now (suc (enter (s ip)).more)))
        × ((allow cfg now ip w).1.outcomes ≡ [])
        × Stands (λ j. if ip == j then some (enter (s ip)) else s j) (allow cfg now ip w).1
    request_lem =
        let a : Answers w = rw q tt in
        let number : IsCounter (counter_at r w ip) = rw (h ip) (entry_of-IsCounter (s ip)) in
        let (reply, there, others) = allow-counts r cfg ip now w a number in
        let entry : counter_at r (allow cfg now ip w).1 ip ≡ entry_of (some (enter (s ip))) =
          there ∙ ap counted (h ip) ∙ counted-entry_of (s ip) in
        (
          reply
              ∙ ap (λ e. ok (verdict cfg now (suc (count e)))) (h ip)
              ∙ ap (λ k. ok (verdict cfg now k)) (count-entry_of (s ip)),
          allow-outcomes r cfg ip now w a ∙ ap later q,
          λ j. elim (Bool-cases (ip == j)) [
            | inl same ↦ rw same (
                ap (λ z. counter_at r (allow cfg now ip w).1 z) (sym ((eq_iff ip j).0 same))
                ∙ entry)
            | inr differ ↦
                rw differ (others (rate_limit_key j) ∙ rw (other_address ip j differ) (h j))
          ],
        )

verdict-reply :
    (a b now n : ℕ)
    → a + b < 2 ^ 63
    → reply_of (ok (verdict (wide a b) now n))
      ≡ ok (record {
        allowed = leb n (a + b);
        number = n;
        limit = pos a;
        remaining = pos (a + b - n);
        reset_at = now + 60;
      })
unfolding verdict
verdict-reply a b now n small = elim (Bool-cases (leb n (a + b))) [
  | inl within ↦
      let few : n < 2 ^ 63 = omega (arith, leb→le n (a + b) within) in
      rw
        (
          same_limit a b small,
          leb_pos n (a + b),
          within,
          same_left (a + b) n small few,
          left_pos (a + b) n within,
        )
        refl
  | inr over ↦
      let none_left : a + b - n ≡ 0 = ground arith in
      rw (same_limit a b small, leb_pos n (a + b), over, none_left) refl
]

module _ (r : Redis) (a b : ℕ) (small : a + b < 2 ^ 63) where
  -- Whatever the schedule of requests from many addresses and of seconds that pass, `Allow` answers
  -- what the abstract limiter answers, which keeps one window for each address: a request counts
  -- against the window of its own address only, the first request of a window opens it for sixty
  -- seconds, no later one extends it, and a request is allowed exactly if its number in the window is
  -- within the requests per minute and the burst together. That sum fits in 64 bits; Redis answers
  -- throughout, and at the start its counters stand for the windows.
  pub allow-windows :
      (steps : List Step) (now : ℕ) (s : Windows) (w : World r)
      → w.outcomes ≡ []
      → Stands r (wide a b) s w
      → map reply_of (answers r (wide a b) now steps w) ≡ limiter a b now steps s
  unfolding answers limiter
  allow-windows [] now s w q h = refl
  allow-windows (request ip ∷ steps) now s w q h =
      let cfg = wide a b in
      let (reply, quiet, stands) = request_lem r cfg now ip s w q h in
      let number = suc (enter (s ip)).more in
      let rest =
        allow-windows steps now (λ j. if ip == j then some (enter (s ip)) else s j)
          (allow cfg now ip w).1 quiet stands in
      let seen = ap reply_of reply ∙ verdict-reply a b now number small in λ i. seen i ∷ rest i
  allow-windows (pause n ∷ steps) now s w q h =
      allow-windows steps (now + n) (λ j. shrink n (s j)) (wait n w) q
        (pause-Stands r (wide a b) n s w h)
