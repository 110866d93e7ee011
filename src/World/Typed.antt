-- ===== src/World/Typed.antt =====
-- What kind of value each key of the program holds, and the commands that keep it.
use scorpion.Prelude.{
  ℕ, zero, suc, String, ◌≡◌, subst, Bool-cases, inl, inr, ◌==◌, eq_iff, false, Option, none, some,
}
use scorpion.Prelude.Int.{ℤ}
use scorpion.Redis.{Redis, Entry, IsList, IsText, IsCounter, with_ttl}
use scorpion.Redis.Keyspace.{
  at-set_self, at-set_ne, at-del_self, at-del_ne, at-expire_self, at-expire_ne, at-incr_self,
  at-incr_ne, at-rpush_self, at-rpush_ne, at-ltrim_self, at-ltrim_ne,
}
use scorpion.Redis.Ranges.{listed-IsList}
use scorpion.Repository.Keys.{events_key, rate_limit_key}
use scorpion.Repository.Keys.Distinct.{ne_sym, rate_limit_key-ne-events_key}

-- A key that is neither a queue nor a counter of the rate limit.
abbrev pub TextKey : String → Type 0
TextKey k =
    ((c : String) → (events_key c == k) ≡ false) × ((a : String) → (rate_limit_key a == k) ≡ false)

module _ (r : Redis) where
  -- The queues are lists, the counters of the rate limit are counters, and all else is text.
  pub record Typed (d : r.Db) : Type 0 where
    pub lists : (c : String) → IsList (r.at d (events_key c))
    pub counters : (a : String) → IsCounter (r.at d (rate_limit_key a))
    pub texts : (k : String) → TextKey k → IsText (r.at d k)

  -- The other keys are as before.
  abbrev Others : String → r.Db → r.Db → Type 0
  Others k d d' = (j : String) → (k == j) ≡ false → r.at d' j ≡ r.at d j

  text_change-Typed :
      (k : String) (d d' : r.Db)
      → TextKey k
      → Others k d d'
      → IsText (r.at d' k)
      → Typed d
      → Typed d'
  text_change-Typed k d d' (not_list, not_counter) others now t = record {
    lists = λ c. rw (others (events_key c) (ne_sym _ _ (not_list c))) (t.lists c);
    counters = λ a. rw (others (rate_limit_key a) (ne_sym _ _ (not_counter a))) (t.counters a);
    texts = λ j tj. elim (Bool-cases (k == j)) [
      | inl same ↦ subst (λ z. IsText (r.at d' z)) ((eq_iff k j).0 same) now
      | inr differ ↦ rw (others j differ) (t.texts j tj)
    ];
  }

  list_change-Typed :
      (c : String) (d d' : r.Db)
      → Others (events_key c) d d'
      → IsList (r.at d' (events_key c))
      → Typed d
      → Typed d'
  list_change-Typed c d d' others now t = record {
    lists = λ c'. elim (Bool-cases (events_key c == events_key c')) [
      | inl same ↦ subst (λ z. IsList (r.at d' z)) ((eq_iff _ _).0 same) now
      | inr differ ↦ rw (others (events_key c') differ) (t.lists c')
    ];
    counters = λ a.
        rw (others (rate_limit_key a) (ne_sym _ _ (rate_limit_key-ne-events_key a c)))
          (t.counters a);
    texts = λ j tj. rw (others j (tj.0 c)) (t.texts j tj);
  }

  counter_change-Typed :
      (a : String) (d d' : r.Db)
      → Others (rate_limit_key a) d d'
      → IsCounter (r.at d' (rate_limit_key a))
      → Typed d
      → Typed d'
  counter_change-Typed a d d' others now t = record {
    lists = λ c. rw (others (events_key c) (rate_limit_key-ne-events_key a c)) (t.lists c);
    counters = λ a'. elim (Bool-cases (rate_limit_key a == rate_limit_key a')) [
      | inl same ↦ subst (λ z. IsCounter (r.at d' z)) ((eq_iff _ _).0 same) now
      | inr differ ↦ rw (others (rate_limit_key a') differ) (t.counters a')
    ];
    texts = λ j tj. rw (others j (tj.1 a)) (t.texts j tj);
  }

  IsText-ttl : (n : ℕ) (e : Option Entry) → IsText e → IsText (with_ttl n e)
  IsText-ttl n none h = tt
  IsText-ttl zero (some e) h = tt
  IsText-ttl (suc n) (some e) h = h

  IsCounter-ttl : (n : ℕ) (e : Option Entry) → IsCounter e → IsCounter (with_ttl n e)
  IsCounter-ttl n none h = tt
  IsCounter-ttl zero (some e) h = tt
  IsCounter-ttl (suc n) (some e) h = h

  pub set-Typed : (k v : String) (t : ℕ) (d : r.Db) → TextKey k → Typed d → Typed (r.set k v t d)
  set-Typed k v t d tk =
      text_change-Typed k d (r.set k v t d) tk (at-set_ne r k v t d) (rw (at-set_self r k v t d) tt)

  pub del-Typed : (k : String) (d : r.Db) → TextKey k → Typed d → Typed (r.del k d)
  del-Typed k d tk =
      text_change-Typed k d (r.del k d) tk (at-del_ne r k d) (rw (at-del_self r k d) tt)

  pub expire-Typed : (k : String) (t : ℕ) (d : r.Db) → TextKey k → Typed d → Typed (r.expire k t d)
  expire-Typed k t d tk h =
      text_change-Typed k d (r.expire k t d) tk (at-expire_ne r k t d)
        (rw (at-expire_self r k t d) (IsText-ttl t (r.at d k) (h.texts k tk))) h

  pub expire_counter-Typed :
      (a : String) (t : ℕ) (d : r.Db) → Typed d → Typed (r.expire (rate_limit_key a) t d)
  expire_counter-Typed a t d h =
      let k = rate_limit_key a in
      counter_change-Typed a d (r.expire k t d) (at-expire_ne r k t d)
        (rw (at-expire_self r k t d) (IsCounter-ttl t (r.at d k) (h.counters a))) h

  pub incr-Typed : (a : String) (d : r.Db) → Typed d → Typed (r.incr (rate_limit_key a) d)
  incr-Typed a d h =
      let k = rate_limit_key a in
      counter_change-Typed a d (r.incr k d) (λ j e. at-incr_ne r k d j (h.counters a) e)
        (rw (at-incr_self r k d (h.counters a)) tt) h

  pub rpush-Typed : (c v : String) (d : r.Db) → Typed d → Typed (r.rpush (events_key c) v d)
  rpush-Typed c v d h =
      let k = events_key c in
      list_change-Typed c d (r.rpush k v d) (λ j e. at-rpush_ne r k v d j (h.lists c) e)
        (rw (at-rpush_self r k v d (h.lists c)) (listed-IsList _ _)) h

  pub ltrim-Typed :
      (c : String) (a b : ℤ) (d : r.Db) → Typed d → Typed (r.ltrim (events_key c) a b d)
  ltrim-Typed c a b d h =
      let k = events_key c in
      list_change-Typed c d (r.ltrim k a b d) (λ j e. at-ltrim_ne r k a b d j (h.lists c) e)
        (rw (at-ltrim_self r k a b d (h.lists c)) (listed-IsList _ _)) h
