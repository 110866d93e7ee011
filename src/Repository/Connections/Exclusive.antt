-- ===== src/Repository/Connections/Exclusive.antt =====
-- connection.go: one stream for a client and an address, and who may end it.
use scorpion.Prelude.{
  ℕ, String, ◌≡◌, refl, ap, ◌∙◌, Bool-cases, inl, inr, not, true, false, Option, none, some, [],
  ◌∷◌, ok, if◌then◌else◌,
}
use scorpion.Redis.{Redis, Entry, text, expiry, is_some, is_text, text_at, IsText}
use scorpion.Redis.Keyspace.{
  ChangesOnly, ChangesOnly-of_ne, at-set_self, at-set_ne, at-del_self, at-del_ne,
}
use scorpion.World.{World}
use scorpion.World.Trips.{quiet_trip, reply_cases, round_trip_ok}
use scorpion.Repository.Keys.{conn_key}
use scorpion.Repository.Connections.{register, delete, delete_with_value, owner_script}

-- The stream that is registered for a client at an address, with its instance.
abbrev pub connection : (r : Redis) → World r → String → String → Option Entry
connection r w c ip = r.at w.db (conn_key c ip)

pub kept : (o : Option Entry) (e : Entry) → is_some (if is_some o then o else some e) ≡ true
kept none e = refl
kept (some _) e = refl

module _ (r : Redis) (c ip : String) where
  -- While Redis answers, a registration succeeds exactly where no stream is registered for the client
  -- at the address, records the instance with the time to live then, leaves a registered stream as
  -- it is, and changes no other key.
  pub register-exclusive :
      (instance_id : String) (ttl : ℕ) (w : World r)
      → w.outcomes ≡ []
      → let after = register instance_id c ip ttl w in
        (after.0 ≡ ok (not (is_some (connection r w c ip))))
        × (connection r after.1 c ip ≡ (
            if is_some (connection r w c ip)
            then connection r w c ip
            else some (record { value = text instance_id; ttl = expiry ttl })))
        × ChangesOnly r (conn_key c ip) w.db after.1.db
        × (after.1.outcomes ≡ [])
  unfolding register
  register-exclusive instance_id ttl w q =
      let k = conn_key c ip in
      rw (quiet_trip _ _ w q, r.set_nx_reply_lem, r.at-set_nx)
        (elim (Bool-cases (is_some (r.at w.db k))) [
          | inl taken ↦ rw taken (refl, refl, ChangesOnly-of_ne r k _ _ (λ j _. refl), q)
          | inr free ↦ rw free (
            refl,
            at-set_self r k instance_id ttl w.db,
            ChangesOnly-of_ne r k _ _ (at-set_ne r k instance_id ttl w.db),
            q,
          )
        ])

  nothing_there : (o : Option Entry) → true ≡ not (is_some o) → o ≡ none
  nothing_there none e = refl
  nothing_there (some _) e = cc

  -- A registration that succeeds, whatever comes of later requests: no stream was registered, and the
  -- instance is now, with the time to live.
  pub register_won :
      (instance_id : String) (ttl : ℕ) (w : World r)
      → (register instance_id c ip ttl w).0 ≡ ok true
      → let after = register instance_id c ip ttl w in
        (connection r w c ip ≡ none)
        × (connection r after.1 c ip ≡ some (record { value = text instance_id; ttl = expiry ttl }))
  unfolding register
  register_won instance_id ttl w e =
      let k = conn_key c ip in
      elim (reply_cases (r.set_nx k instance_id ttl ∷ []) (r.set_nx_reply k) w) [
        | inr (why, n, broke_off) ↦ cc (rw broke_off at e)
        | inl a ↦
            let won : true ≡ not (is_some (r.at w.db k)) =
              cc (rw (round_trip_ok _ _ w a, r.set_nx_reply_lem) at e) in
            let free = nothing_there (r.at w.db k) won in
            (
              free,
              rw (round_trip_ok _ _ w a, r.at-set_nx, free) (at-set_self r k instance_id ttl w.db),
            )
      ]

  pub delete_lem :
      (w : World r)
      → w.outcomes ≡ []
      → let after = delete c ip w in
        (after.0 ≡ ok tt) × (connection r after.1 c ip ≡ none) × (after.1.outcomes ≡ [])
  unfolding delete
  delete_lem w q = rw (quiet_trip _ _ w q) (refl, at-del_self r (conn_key c ip) w.db, q)

  -- A registered stream keeps every other registration of its client and address out, from whatever
  -- instance, until it is deleted; then one succeeds again. `Delete` does not ask who the owner is:
  -- any instance ends any stream. Redis answers, and no time to live runs out.
  register-delete_cycle :
      (a b d : String) (ttl : ℕ) (w : World r)
      → w.outcomes ≡ []
      → let w₁ = (register a c ip ttl w).1 in
        let w₂ = (register b c ip ttl w₁).1 in
        let w₃ = (delete c ip w₂).1 in
        ((register b c ip ttl w₁).0 ≡ ok false) × ((register d c ip ttl w₃).0 ≡ ok true)
  register-delete_cycle a b d ttl w q =
      let w₁ = (register a c ip ttl w).1 in
      let w₂ = (register b c ip ttl w₁).1 in
      let w₃ = (delete c ip w₂).1 in
      let (_, there, _, q₁) = register-exclusive a ttl w q in
      let (second, _, _, q₂) = register-exclusive b ttl w₁ q₁ in
      let (_, gone, q₃) = delete_lem w₂ q₂ in
      let taken : is_some (connection r w₁ c ip) ≡ true =
        ap is_some there ∙ kept (connection r w c ip) _ in
      (second ∙ rw taken refl, (register-exclusive d ttl w₃ q₃).0 ∙ rw gone refl)

  -- `DeleteWithValue` deletes the stream exactly if it belongs to the instance that asks, while
  -- Redis answers and the key holds a text or nothing, and changes no other key.
  pub delete_with_value-owner :
      (instance_id : String) (w : World r)
      → w.outcomes ≡ []
      → IsText (connection r w c ip)
      → let after = delete_with_value instance_id c ip w in
        (after.0 ≡ ok tt)
        × (connection r after.1 c ip ≡ (
            if is_text (text_at (connection r w c ip)) instance_id
            then none
            else connection r w c ip))
        × ChangesOnly r (conn_key c ip) w.db after.1.db
  unfolding delete_with_value owner_script
  delete_with_value-owner instance_id w q h =
      let k = conn_key c ip in
      rw (quiet_trip _ _ w q) (
        rw (r.get_lem k w.db h) (elim (Bool-cases (is_text (text_at (r.at w.db k)) instance_id)) [
          | inl mine ↦
              rw mine (refl, at-del_self r k w.db, ChangesOnly-of_ne r k _ _ (at-del_ne r k w.db))
          | inr other ↦ rw other (refl, refl, ChangesOnly-of_ne r k _ _ (λ j _. refl))
        ]))
