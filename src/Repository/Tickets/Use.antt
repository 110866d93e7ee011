-- ===== src/Repository/Tickets/Use.antt =====
-- ticket.go and its script: when a ticket is accepted, and for how long.
use scorpion.Prelude.{
  ℕ, suc, String, ◌≡◌, refl, ap, ◌∙◌, Bool-cases, inl, inr, ◌&&◌, Bool, true, false, Option, none,
  some, ◌==◌, arith, ltb, ok, if◌then◌else◌, [], ◌∷◌,
}
use scorpion.Redis.{Redis, text, expiry, IsText, text_at, is_text, aged}
use scorpion.Redis.Keyspace.{
  ChangesOnly, ChangesOnly-of_ne, at-set_self, at-set_ne, at-del_self, at-del_ne,
}
use scorpion.World.{World, Answers}
use scorpion.World.Trips.{round_trip_ok, quiet_trip, reply_cases}
use scorpion.Repository.Keys.{ticket_key}
use scorpion.Repository.Tickets.{store, script_found, ticket_script, is_one, validate_and_consume}

module _ (r : Redis) (k jti : String) where
  pub script_found_lem :
      (o : Option String) (d : r.Db)
      → let reply = script_found r k jti o d in
        (is_one reply.0 ≡ is_text o jti)
        × (r.at reply.1 k ≡ (if is_text o jti then none else r.at d k))
        × ChangesOnly r k d reply.1
  unfolding script_found
  script_found_lem none d = (refl, refl, ChangesOnly-of_ne r k _ _ (λ j _. refl))
  script_found_lem (some v) d = elim (Bool-cases (v == jti)) [
    | inl same ↦ rw same (refl, at-del_self r k d, ChangesOnly-of_ne r k _ _ (at-del_ne r k d))
    | inr differ ↦ rw differ (refl, refl, ChangesOnly-of_ne r k _ _ (λ j _. refl))
  ]

-- The ticket that is stored for a client at an address.
abbrev pub ticket : (r : Redis) → r.Db → String → String → Option String
ticket r d client_id ip = text_at (r.at d (ticket_key client_id ip))

abbrev pub HoldsTicket : (r : Redis) → r.Db → String → String → Type 0
HoldsTicket r d client_id ip = IsText (r.at d (ticket_key client_id ip))

module _ (r : Redis) (c ip jti : String) where
  -- While Redis answers and the ticket's key holds a text or nothing, a validation accepts exactly
  -- the stored ticket id, deletes the ticket if it accepts and leaves it if it rejects, and
  -- changes no other key.
  pub validate-consumes :
      (w : World r)
      → Answers w
      → HoldsTicket r w.db c ip
      → let after = validate_and_consume c ip jti w in
        (after.0 ≡ ok (is_text (ticket r w.db c ip) jti))
        × (r.at after.1.db (ticket_key c ip)
            ≡ (if is_text (ticket r w.db c ip) jti then none else r.at w.db (ticket_key c ip)))
        × ChangesOnly r (ticket_key c ip) w.db after.1.db
  unfolding validate_and_consume ticket_script
  validate-consumes w a h =
      let k = ticket_key c ip in
      let (reply, left, others) = script_found_lem r k jti (text_at (r.at w.db k)) w.db in
      rw (round_trip_ok _ _ w a, r.get_lem k w.db h, reply) (refl, left, others)

  -- An answer, whichever, is one of Redis.
  validate-Answers :
      (w : World r) (b : Bool) → (validate_and_consume c ip jti w).0 ≡ ok b → Answers w
  unfolding validate_and_consume
  validate-Answers w b e =
      elim (reply_cases ((λ d. (ticket_script r (ticket_key c ip) jti d).1) ∷ [])
        (λ d. (ticket_script r (ticket_key c ip) jti d).0) w) [
          | inl a ↦ a
          | inr (why, n, broke_off) ↦ cc (rw broke_off at e)
        ]

  -- What an accepted ticket leaves, whatever comes of later requests.
  pub accepted_lem :
      (w : World r)
      → HoldsTicket r w.db c ip
      → (validate_and_consume c ip jti w).0 ≡ ok true
      → (is_text (ticket r w.db c ip) jti ≡ true)
        × (r.at (validate_and_consume c ip jti w).1.db (ticket_key c ip) ≡ none)
        × ChangesOnly r (ticket_key c ip) w.db (validate_and_consume c ip jti w).1.db
  accepted_lem w h e =
      let (answer, left, others) = validate-consumes w (validate-Answers w true e) h in
      let accepted : is_text (ticket r w.db c ip) jti ≡ true = cc (e, answer) in
      (accepted, rw accepted at left, others)

  pub validate-quiet :
      (w : World r) → w.outcomes ≡ [] → (validate_and_consume c ip jti w).1.outcomes ≡ []
  unfolding validate_and_consume
  validate-quiet w q = rw (quiet_trip _ _ w q) q

  pub store-quiet :
      (ttl : ℕ) (w : World r) → w.outcomes ≡ [] → (store c ip jti ttl w).1.outcomes ≡ []
  unfolding store
  store-quiet ttl w q = rw (quiet_trip _ _ w q) q

  pub store_lem :
      (ttl : ℕ) (w : World r)
      → Answers w
      → let after = store c ip jti ttl w in
        (after.0 ≡ ok tt)
        × (r.at after.1.db (ticket_key c ip) ≡ some (record { value = text jti; ttl = expiry ttl }))
        × ChangesOnly r (ticket_key c ip) w.db after.1.db
  unfolding store
  store_lem ttl w a =
      let k = ticket_key c ip in
      rw (round_trip_ok _ _ w a)
        (refl, at-set_self r k jti ttl w.db, ChangesOnly-of_ne r k _ _ (at-set_ne r k jti ttl w.db))

  -- A ticket that was stored, whatever comes of later requests.
  pub store_won :
      (ttl : ℕ) (w : World r)
      → (store c ip jti ttl w).0 ≡ ok tt
      → r.at (store c ip jti ttl w).1.db (ticket_key c ip)
        ≡ some (record { value = text jti; ttl = expiry ttl })
  unfolding store
  store_won ttl w e =
      let k = ticket_key c ip in
      elim (reply_cases (r.set k jti ttl ∷ []) (λ _. tt {0}) w) [
        | inl a ↦ rw (round_trip_ok _ _ w a) (at-set_self r k jti ttl w.db)
        | inr (why, n, broke_off) ↦ cc (rw broke_off at e)
      ]

-- Time passes between two requests.
abbrev pub wait : {r : Redis} → ℕ → World r → World r
wait {r} n w = record w { db = r.elapse n w.db }

-- what is left of a stored ticket
pub aged_ticket :
    (jti j : String) (n t : ℕ)
    → is_text (text_at (aged n (some (record { value = text jti; ttl = expiry (suc t) })))) j
      ≡ (ltb n (suc t) && jti == j)
aged_ticket jti j n t = ground arith

pub aged_ticket-IsText :
    (jti : String) (n t : ℕ)
    → IsText (aged n (some (record { value = text jti; ttl = expiry (suc t) })))
aged_ticket-IsText jti n t = elim (Bool-cases (ltb n (suc t))) [ inl e ↦ rw e tt | inr e ↦ rw e tt ]

module _ (r : Redis) (c ip jti : String) where
  -- A ticket that a validation accepted is used up: while Redis answers and the key held a text,
  -- the next validation of the same client and address is refused, whatever ticket id it presents.
  pub ticket_once :
      (w : World r) (jti' : String)
      → Answers w
      → HoldsTicket r w.db c ip
      → (validate_and_consume c ip jti w).0 ≡ ok true
      → Answers (validate_and_consume c ip jti w).1
      → (validate_and_consume c ip jti' (validate_and_consume c ip jti w).1).0 ≡ ok false
  ticket_once w jti' a h yes_now a' =
      let k = ticket_key c ip in
      let after = (validate_and_consume c ip jti w).1 in
      let (reply, left, _) = validate-consumes r c ip jti w a h in
      let accepted : is_text (ticket r w.db c ip) jti ≡ true = cc in
      let gone : r.at after.db k ≡ none = rw accepted at left in
      let there : HoldsTicket r after.db c ip = rw gone tt in
      let (again, _, _) = validate-consumes r c ip jti' after a' there in again ∙ rw gone

  -- A ticket stored with a positive time to live and presented some seconds later is accepted if
  -- its time has not run out and the presented id is the stored one, and is refused otherwise,
  -- while Redis answers.
  pub ticket_expiry :
      (w : World r) (t n : ℕ) (presented : String)
      → Answers w
      → Answers (store c ip jti (suc t) w).1
      → (validate_and_consume c ip presented (wait n (store c ip jti (suc t) w).1)).0
        ≡ ok (ltb n (suc t) && jti == presented)
  ticket_expiry w t n presented a a' =
      let k = ticket_key c ip in
      let stored = (store_lem r c ip jti (suc t) w a).1 in
      let now : World r = wait n (store c ip jti (suc t) w).1 in
      let entry : r.at now.db k ≡ aged n (some (record { value = text jti; ttl = some (suc t) })) =
        r.at-elapse n (store c ip jti (suc t) w).1.db k ∙ ap (aged n) stored in
      let there : HoldsTicket r now.db c ip = rw entry (aged_ticket-IsText jti n t) in
      let reply = (validate-consumes r c ip presented now a' there).0 in
      reply ∙ rw entry (ap ok (aged_ticket jti presented n t))
