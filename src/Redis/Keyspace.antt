-- ===== src/Redis/Keyspace.antt =====
-- Each write at its own key, and at another one.
use scorpion.Prelude.{
  ℕ, suc, String, ◌≡◌, Bool-cases, inl, inr, sym, ap, eq_iff, if◌then◌else◌, false, none, some, [],
  ◌∷◌, ◌++◌, ◌==◌, eq_refl,
}
use scorpion.Prelude.Int.{ℤ}
use scorpion.Redis.{
  Redis, text, counter, IsCounter, IsList, ttl_of, items, count, expiry, with_ttl, listed, range,
}

-- A step from the one keyspace to the other touches no key but `k`.
abbrev pub ChangesOnly : (r : Redis) → String → r.Db → r.Db → Type 0
ChangesOnly r k d d' = (j : String) → r.at d' j ≡ (if k == j then r.at d' k else r.at d j)

pub ChangesOnly-of_ne :
    (r : Redis) (k : String) (d d' : r.Db)
    → ((j : String) → (k == j) ≡ false → r.at d' j ≡ r.at d j)
    → ChangesOnly r k d d'
ChangesOnly-of_ne r k d d' h j = elim (Bool-cases (k == j)) [
  | inl e ↦ rw e (ap (r.at d') (sym ((eq_iff k j).0 e)))
  | inr e ↦ rw e (h j e)
]

module _ (r : Redis) where
  pub at-set_self :
      (k v : String) (t : ℕ) (d : r.Db)
      → r.at (r.set k v t d) k ≡ some (record { value = text v; ttl = expiry t })
  at-set_self k v t d = rw eq_refl at (r.at-set k v t d k)

  pub at-set_ne :
      (k v : String) (t : ℕ) (d : r.Db) (j : String)
      → (k == j) ≡ false
      → r.at (r.set k v t d) j ≡ r.at d j
  at-set_ne k v t d j e = rw e at (r.at-set k v t d j)

  pub at-del_self : (k : String) (d : r.Db) → r.at (r.del k d) k ≡ none
  at-del_self k d = rw eq_refl at (r.at-del k d k)

  pub at-del_ne :
      (k : String) (d : r.Db) (j : String) → (k == j) ≡ false → r.at (r.del k d) j ≡ r.at d j
  at-del_ne k d j e = rw e at (r.at-del k d j)

  pub at-expire_self :
      (k : String) (t : ℕ) (d : r.Db) → r.at (r.expire k t d) k ≡ with_ttl t (r.at d k)
  at-expire_self k t d = rw eq_refl at (r.at-expire k t d k)

  pub at-expire_ne :
      (k : String) (t : ℕ) (d : r.Db) (j : String)
      → (k == j) ≡ false
      → r.at (r.expire k t d) j ≡ r.at d j
  at-expire_ne k t d j e = rw e at (r.at-expire k t d j)

  pub at-incr_self :
      (k : String) (d : r.Db)
      → IsCounter (r.at d k)
      → r.at (r.incr k d) k
        ≡ some (record { value = counter (suc (count (r.at d k))); ttl = ttl_of (r.at d k) })
  at-incr_self k d h = rw eq_refl at (r.at-incr k d k h)

  pub at-incr_ne :
      (k : String) (d : r.Db) (j : String)
      → IsCounter (r.at d k)
      → (k == j) ≡ false
      → r.at (r.incr k d) j ≡ r.at d j
  at-incr_ne k d j h e = rw e at (r.at-incr k d j h)

  pub at-rpush_self :
      (k v : String) (d : r.Db)
      → IsList (r.at d k)
      → r.at (r.rpush k v d) k ≡ listed (ttl_of (r.at d k)) (items (r.at d k) ++ v ∷ [])
  at-rpush_self k v d h = rw eq_refl at (r.at-rpush k v d k h)

  pub at-rpush_ne :
      (k v : String) (d : r.Db) (j : String)
      → IsList (r.at d k)
      → (k == j) ≡ false
      → r.at (r.rpush k v d) j ≡ r.at d j
  at-rpush_ne k v d j h e = rw e at (r.at-rpush k v d j h)

  pub at-ltrim_self :
      (k : String) (a b : ℤ) (d : r.Db)
      → IsList (r.at d k)
      → r.at (r.ltrim k a b d) k ≡ listed (ttl_of (r.at d k)) (range a b (items (r.at d k)))
  at-ltrim_self k a b d h = rw eq_refl at (r.at-ltrim k a b d k h)

  pub at-ltrim_ne :
      (k : String) (a b : ℤ) (d : r.Db) (j : String)
      → IsList (r.at d k)
      → (k == j) ≡ false
      → r.at (r.ltrim k a b d) j ≡ r.at d j
  at-ltrim_ne k a b d j h e = rw e at (r.at-ltrim k a b d j h)
