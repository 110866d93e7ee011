-- ===== src/Scripts/PushEvents/Counts.antt =====
-- push_events.go: what the script logs, and which pushes it counts.
use native.Mathlib.Nat.{zero-add, add-zero}
use scorpion.Prelude.{
  subst, none, ℕ, zero, suc, ◌+◌, String, ◌≡◌, refl, ap, ◌∙◌, List, [], ◌∷◌, ltb, Bool-cases, inl,
  inr, Result, ok, err, arith, if◌then◌else◌,
}
use scorpion.Prelude.Int.{pos_part}
use scorpion.Scripts.Token.{MapClaims, day, mint_token}
use scorpion.Scripts.PushEvents.{
  Flags, Outside, Line, request_error, response, Run, Payload, draw, endpoint, fake_payloads,
  request_of, sent, built, encoded, marshalled, push_one, pushes, minted, push_events,
}

-- The lines of answers below 300.
abbrev pub goods : List Line → ℕ
goods [] = 0
goods (request_error _ _ ∷ ls) = goods ls
goods (response _ _ status _ ∷ ls) = if ltb status 300 then suc (goods ls) else goods ls

abbrev pub numbers : List Line → List ℕ
numbers [] = []
numbers (request_error i _ ∷ ls) = i ∷ numbers ls
numbers (response i _ _ _ ∷ ls) = i ∷ numbers ls

-- n, …, 2, 1
abbrev pub down_from : ℕ → List ℕ
down_from zero = []
down_from (suc n) = suc n ∷ down_from n

module _ (o : Outside) where
  -- After `n` rounds: a line for each, and the count of the good ones.
  pub record Tallies (n : ℕ) (x : Run o) : Type 0 where
    pub counted : x.success_count ≡ goods x.lines
    each : numbers x.lines ≡ down_from n

  abbrev TalliesIf : ℕ → Result (Run o) → Type 0
  TalliesIf n (ok x) = Tallies n x
  TalliesIf n (err e) = Unit

  module _ (flags : Flags) (token : String) (pick now : ℕ → ℕ) where
    sent-Tallies :
        (n : ℕ) (body : String) (answer : Result ℕ × o.Server) (x : Run o)
        → Tallies n x
        → Tallies (suc n) (sent o flags token pick now (suc n) body answer x)
    unfolding sent
    sent-Tallies n body (err e, s) x t = record {
      counted = t.counted;
      each = ap (◌∷◌ (suc n)) t.each;
    }
    sent-Tallies n body (ok status, s) x t =
        elim (Bool-cases (ltb (suc n) (pos_part flags.count))) [
          | inl more ↦ rw more (record { counted = both; each = ap (◌∷◌ (suc n)) t.each })
          | inr last ↦ rw last (record { counted = both; each = ap (◌∷◌ (suc n)) t.each })
        ]
      where
        both :
            (if ltb status 300 then suc x.success_count else x.success_count)
            ≡ (if ltb status 300 then suc (goods x.lines) else goods x.lines)
        both = rw t.counted refl

    built-Tallies :
        (n : ℕ) (data_bytes body : String) (made : Result (Unit {0})) (x : Run o)
        → Tallies n x
        → TalliesIf (suc n) (built o flags token pick now (suc n) data_bytes body made x)
    unfolding built
    built-Tallies n data_bytes body (err e) x t = tt
    built-Tallies n data_bytes body (ok _) x t =
        sent-Tallies n data_bytes
          (o.send flags.insecure (request_of o flags token pick now body) x.server) x t

    encoded-Tallies :
        (n : ℕ) (data_bytes : String) (body : Result String) (x : Run o)
        → Tallies n x
        → TalliesIf (suc n) (encoded o flags token pick now (suc n) data_bytes body x)
    unfolding encoded
    encoded-Tallies n data_bytes (err e) x t = tt
    encoded-Tallies n data_bytes (ok body) x t = built-Tallies n data_bytes body _ x t

    marshalled-Tallies :
        (n : ℕ) (data_bytes : Result String) (x : Run o)
        → Tallies n x
        → TalliesIf (suc n) (marshalled o flags token pick now (suc n) data_bytes x)
    unfolding marshalled
    marshalled-Tallies n (err e) x t = tt
    marshalled-Tallies n (ok data_bytes) x t = encoded-Tallies n data_bytes _ x t

    push_one-Tallies :
        (n : ℕ) (x : Run o)
        → Tallies n x
        → TalliesIf (suc n) (push_one o flags token pick now (suc n) x)
    unfolding push_one
    push_one-Tallies n x t =
        let pool = (draw (pick (suc n)) (suc n) (now (suc n)) x.pool).1 in
        marshalled-Tallies n _ (record x { pool = pool })
          (record { counted = t.counted; each = t.each })

    pushes-Tallies :
        (left n : ℕ) (x : Result (Run o))
        → TalliesIf n x
        → TalliesIf (left + n) (pushes o flags token pick now left (suc n) x)
    unfolding pushes
    pushes-Tallies zero n x t = rw zero-add t
    pushes-Tallies (suc left) n (err e) t = tt
    pushes-Tallies (suc left) n (ok x) t =
        let e : suc left + n ≡ left + suc n = omega arith in
        rw e (pushes-Tallies left (suc n) _ (push_one-Tallies n x t))

  abbrev begin : o.Server → Run o
  begin s = record { server = s; pool = fake_payloads; success_count = 0; slept = 0; lines = [] }

  minted-Tallies :
      (flags : Flags) (pick now : ℕ → ℕ) (s : o.Server) (token : Result String)
      → TalliesIf (pos_part flags.count) (minted o flags pick now s token)
  unfolding minted
  minted-Tallies flags pick now s (err e) = tt
  minted-Tallies flags pick now s (ok token) = rw (add-zero (pos_part flags.count)) at (
      pushes-Tallies flags token pick now (pos_part flags.count) 0 (ok (begin s))
        (record { counted = refl; each = refl }))

  tallies : (n : ℕ) (out : Result (Run o)) (x : Run o) → out ≡ ok x → TalliesIf n out → Tallies n x
  tallies n (ok y) x e t = subst (TalliesIf n) e t
  tallies n (err why) x e t = cc

module _ (o : Outside)
    (signs : (c : MapClaims) (key : String) → (t : String) × (o.sign c key ≡ ok t))
    (encodes : (p : Payload) → (d : String) × (o.marshal_data p ≡ ok d))
    (wraps : (type body : String) → (b : String) × (o.marshal_request type body ≡ ok b))
    (builds : (url body : String) → o.new_request url body ≡ ok tt) where
  push_one_ok :
      (flags : Flags) (token : String) (pick now : ℕ → ℕ) (i : ℕ) (x : Run o)
      → (y : Run o) × (push_one o flags token pick now i x ≡ ok y)
  unfolding push_one marshalled encoded built
  push_one_ok flags token pick now i x =
      let (d, e) = encodes (draw (pick i) i (now i) x.pool).0 in
      let (b, e') = wraps flags.type d in
      rw (e, e', builds (endpoint o flags token pick now) b) (_, refl)

  pushes_ok :
      (flags : Flags) (token : String) (pick now : ℕ → ℕ) (left i : ℕ) (x : Run o)
      → (y : Run o) × (pushes o flags token pick now left i (ok x) ≡ ok y)
  unfolding pushes
  pushes_ok flags token pick now zero i x = (x, refl)
  pushes_ok flags token pick now (suc left) i x =
      let (y, e) = push_one_ok flags token pick now i x in
      let (z, e') = pushes_ok flags token pick now left (suc i) y in
      (z, ap (pushes o flags token pick now left (suc i)) e ∙ e')

  -- The script ends, whatever the server answers and whichever calls fail: it has logged a line for each
  -- push, from the first to as many as its flag says, and the number of successes that it reports is that
  -- of the answers with a status below 300. Signing, the encoder and the making of requests do not fail.
  pub push_events_counts :
      (flags : Flags) (started : ℕ) (pick now : ℕ → ℕ) (s : o.Server)
      → (x : Run o) × (push_events o flags started pick now s ≡ ok x)
        × (x.success_count ≡ goods x.lines)
        × (numbers x.lines ≡ down_from (pos_part flags.count))
  unfolding push_events mint_token minted
  push_events_counts flags started pick now s =
      let claims : MapClaims = record {
        sub = flags.client;
        user_id = none;
        exp = started + day;
        iat = started;
      } in
      let (token, e) = signs claims flags.secret in
      let (x, e') = pushes_ok flags token pick now (pos_part flags.count) 1 (begin o s) in
      let all : push_events o flags started pick now s ≡ ok x = rw e e' in
      let t = tallies o _ _ x e' (minted-Tallies o flags pick now s (ok token)) in
      (x, all, t.counted, t.each)
