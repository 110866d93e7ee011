-- ===== src/Repository/Connections/Streams/Single.antt =====
-- connection.go: at most one open stream for a client and an address.
use scorpion.Prelude.{
  ℕ, suc, String, ◌≡◌, refl, sym, ap, ◌∙◌, true, false, Bool-cases, inl, inr, ◌==◌, subst, eq_iff,
  Option, none, some, List, [], ◌∷◌, ◌++◌, ok,
}
use scorpion.Redis.{Redis, Entry, is_some, with_ttl}
use scorpion.Redis.Keyspace.{
  ChangesOnly, ChangesOnly-of_ne, at-expire_self, at-expire_ne, at-del_ne,
}
use scorpion.World.{World}
use scorpion.World.Trips.{quiet_trip}
use scorpion.Repository.Keys.{conn_key}
use scorpion.Repository.Connections.{register, refresh, delete}
use scorpion.Repository.Connections.Exclusive.{kept, connection, register-exclusive, delete_lem}
use scorpion.Repository.Connections.Streams.{
  key_of, All, All-middle, Apart, Apart-middle, was_free, State, Step, admit, refuse, poll, finish,
  other, Reach, here, next,
}

module _ (r : Redis) where
  abbrev Held : r.Db → List (String × String) → Type 0
  Held d = All (λ x. is_some (r.at d (key_of x)) ≡ true)

  -- What holds in every state: the keys of the open streams are different, and registered.
  pub record Inv (s : State r) : Type 0 where
    pub quiet : s.world.outcomes ≡ []
    pub apart : Apart s.streams
    pub held : Held s.world.db s.streams

  free_apart :
      (k : String) (d : r.Db) (xs : List (String × String))
      → is_some (r.at d k) ≡ false
      → Held d xs
      → All (λ y. (k == key_of y) ≡ false) xs
  free_apart k d [] free h = tt
  free_apart k d (x ∷ xs) free (there, rest) = (
    elim (Bool-cases (k == key_of x)) [
      | inr differ ↦ differ
      | inl same ↦ cc (free, there, (eq_iff k (key_of x)).0 same)
    ],
    free_apart k d xs free rest,
  )

  -- A step that leaves registered keys registered.
  kept_all :
      (d d' : r.Db) (xs : List (String × String))
      → ((x : String × String)
          → is_some (r.at d (key_of x)) ≡ true
          → is_some (r.at d' (key_of x)) ≡ true)
      → Held d xs
      → Held d' xs
  kept_all d d' [] keep h = tt
  kept_all d d' (x ∷ xs) keep h = (keep x h.0, kept_all d d' xs keep h.1)

  -- A step that leaves the other keys.
  kept_elsewhere :
      (k : String) (d d' : r.Db) (xs : List (String × String))
      → ((j : String) → (k == j) ≡ false → r.at d' j ≡ r.at d j)
      → All (λ y. (k == key_of y) ≡ false) xs
      → Held d xs
      → Held d' xs
  kept_elsewhere k d d' [] same apart h = tt
  kept_elsewhere k d d' (x ∷ xs) same (differ, apart) (there, rest) =
      (ap is_some (same (key_of x) differ) ∙ there, kept_elsewhere k d d' xs same apart rest)

  still_there :
      (k j : String) (d d' : r.Db)
      → ChangesOnly r k d d'
      → (is_some (r.at d k) ≡ true → is_some (r.at d' k) ≡ true)
      → is_some (r.at d j) ≡ true
      → is_some (r.at d' j) ≡ true
  still_there k j d d' others keep h = elim (Bool-cases (k == j)) [
    | inl same ↦
        let e : k ≡ j = (eq_iff k j).0 same in
        subst (λ z. is_some (r.at d' z) ≡ true) e
          (keep (subst (λ z. is_some (r.at d z) ≡ true) (sym e) h))
    | inr differ ↦ ap is_some (others j ∙ rw differ refl) ∙ h
  ]

  register-Held :
      (s : State r) (instance_id c ip : String) (ttl : ℕ)
      → Inv s
      → let w = (register instance_id c ip ttl s.world).1 in
        (w.outcomes ≡ []) × Held w.db s.streams × (is_some (connection r w c ip) ≡ true)
  register-Held s instance_id c ip ttl inv =
      let w = (register instance_id c ip ttl s.world).1 in
      let (_, there, others, quiet) = register-exclusive r c ip instance_id ttl s.world inv.quiet in
      let now : is_some (connection r w c ip) ≡ true =
        ap is_some there ∙ kept (connection r s.world c ip) _ in
      (
        quiet,
        kept_all s.world.db w.db s.streams
            (λ x h. still_there (conn_key c ip) (key_of x) s.world.db w.db others (λ _. now) h)
            inv.held,
        now,
      )

  admit-Inv :
      (s : State r) (instance_id c ip : String) (ttl : ℕ)
      → (register instance_id c ip ttl s.world).0 ≡ ok true
      → Inv s
      → Inv (record {
        world = (register instance_id c ip ttl s.world).1;
        streams = (c, ip) ∷ s.streams;
      })
  admit-Inv s instance_id c ip ttl e inv =
      let (quiet, held, now) = register-Held s instance_id c ip ttl inv in
      let answer = (register-exclusive r c ip instance_id ttl s.world inv.quiet).0 in
      let free : is_some (connection r s.world c ip) ≡ false = was_free _ (sym answer ∙ e) in
      record {
        quiet = quiet;
        apart = (free_apart (conn_key c ip) s.world.db s.streams free inv.held, inv.apart);
        held = (now, held);
      }

  with_ttl-is_some : (t : ℕ) (o : Option Entry) → is_some (with_ttl (suc t) o) ≡ is_some o
  with_ttl-is_some t none = refl
  with_ttl-is_some t (some e) = refl

  poll-Inv :
      (s : State r) (c ip : String) (ttl : ℕ)
      → Inv s
      → Inv (record s { world = (refresh c ip (suc ttl) s.world).1 })
  unfolding refresh
  poll-Inv s c ip ttl inv =
      let k = conn_key c ip in
      let d = s.world.db in
      let d' = r.expire k (suc ttl) d in
      let keep = λ (x : String × String) (h : is_some (r.at d (key_of x)) ≡ true).
        still_there k (key_of x) d d' (ChangesOnly-of_ne r k d d' (at-expire_ne r k (suc ttl) d))
          (λ z. ap is_some (at-expire_self r k (suc ttl) d) ∙ with_ttl-is_some ttl (r.at d k) ∙ z)
          h in
      record {
        quiet = rw (quiet_trip _ _ s.world inv.quiet) inv.quiet;
        apart = inv.apart;
        held = rw (quiet_trip _ _ s.world inv.quiet) (kept_all d d' s.streams keep inv.held);
      }

  delete-ne :
      (c ip : String) (w : World r)
      → w.outcomes ≡ []
      → (j : String) → (conn_key c ip == j) ≡ false
      → r.at (delete c ip w).1.db j ≡ r.at w.db j
  unfolding delete
  delete-ne c ip w q j e = rw (quiet_trip _ _ w q) (at-del_ne r (conn_key c ip) w.db j e)

  finish-Inv :
      (s : State r) (c ip : String) (before behind : List (String × String))
      → s.streams ≡ before ++ (c, ip) ∷ behind
      → Inv s
      → Inv (record { world = (delete c ip s.world).1; streams = before ++ behind })
  finish-Inv s c ip before behind e inv =
      let (apart, others) = Apart-middle (c, ip) before behind (subst Apart e inv.apart) in
      let held =
        (All-middle (λ x. is_some (r.at s.world.db (key_of x)) ≡ true) (c, ip) before behind
          (subst (Held s.world.db) e inv.held)).0 in
      record {
        quiet = (delete_lem r c ip s.world inv.quiet).2;
        apart = apart;
        held =
            kept_elsewhere (conn_key c ip) s.world.db (delete c ip s.world).1.db (before ++ behind)
              (delete-ne c ip s.world inv.quiet) others held;
      }

  step-Inv : {s t : State r} → Step r s t → Inv s → Inv t
  step-Inv (admit s instance_id c ip ttl e) inv = admit-Inv s instance_id c ip ttl e inv
  step-Inv (refuse s instance_id c ip ttl e) inv =
      let (quiet, held, _) = register-Held s instance_id c ip ttl inv in
      record { quiet = quiet; apart = inv.apart; held = held }
  step-Inv (poll s c ip ttl) inv = poll-Inv s c ip ttl inv
  step-Inv (finish s c ip before behind e) inv = finish-Inv s c ip before behind e inv
  step-Inv (other s w quiet same) inv = record {
    quiet = quiet;
    apart = inv.apart;
    held = kept_all s.world.db w.db s.streams (λ x h. ap is_some (same x.0 x.1) ∙ h) inv.held;
  }

  reach-Inv : {s t : State r} → Reach r s t → Inv s → Inv t
  reach-Inv here inv = inv
  reach-Inv (next before step) inv = step-Inv step (reach-Inv before inv)

  -- Another registration of the stream's client and address is refused.
  abbrev pub KeepsOut : World r → String × String → Type 0
  KeepsOut w (c, ip) =
      (instance_id : String) (ttl : ℕ) → (register instance_id c ip ttl w).0 ≡ ok false

  refused_each :
      (w : World r) (xs : List (String × String))
      → w.outcomes ≡ []
      → Held w.db xs
      → All (KeepsOut w) xs
  refused_each w [] q h = tt
  refused_each w ((c, ip) ∷ xs) q (there, rest) = (
    λ instance_id ttl. (register-exclusive r c ip instance_id ttl w q).0 ∙ rw there refl,
    refused_each w xs q rest,
  )

  -- However streams of all instances begin, poll and end, no two that are open at once have the same
  -- client and address, nor the same connection key, and each open one is registered in Redis, so that
  -- the next registration of its client and address is refused. It starts without streams; Redis
  -- answers, and no time to live runs out.
  pub one_stream :
      (w : World r) (t : State r)
      → w.outcomes ≡ []
      → Reach r (record { world = w; streams = [] }) t
      → Apart t.streams × All (KeepsOut t.world) t.streams
  one_stream w t q run =
      let inv = reach-Inv run (record { quiet = q; apart = tt; held = tt }) in
      (inv.apart, refused_each t.world t.streams inv.quiet inv.held)
