-- ===== src/Redis/Memory.antt =====
-- A keyspace held in memory, which has every documented effect: the parameter can be met.
use scorpion.Prelude.{
  ℕ, suc, ◌++◌, String, refl, not, Option, none, some, [], ◌∷◌, length, ◌==◌, if◌then◌else◌,
}
use scorpion.Redis.{
  Redis, Entry, text, counter, ttl_of, items, text_at, count, expiry, with_ttl, listed, aged, range,
  is_some,
}

abbrev pub update : (String → Option Entry) → String → Option Entry → String → Option Entry
update d k e j = if k == j then e else d j

abbrev pub put : String → String → ℕ → (String → Option Entry) → String → Option Entry
put k v t d = update d k (some (record { value = text v; ttl = expiry t }))

abbrev pub memory : Redis
memory = record {
  Db = String → Option Entry;
  at = λ d. d;
  set = put;
  set_nx = λ k v t d. if is_some (d k) then d else put k v t d;
  del = λ k d. update d k none;
  expire = λ k t d. update d k (with_ttl t (d k));
  incr =
      λ k d. update d k (some (record { value = counter (suc (count (d k))); ttl = ttl_of (d k) }));
  rpush = λ k v d. update d k (listed (ttl_of (d k)) (items (d k) ++ v ∷ []));
  ltrim = λ k a b d. update d k (listed (ttl_of (d k)) (range a b (items (d k))));
  get = λ k d. text_at (d k);
  get_count = λ k d. count (d k);
  exists = λ k d. is_some (d k);
  set_nx_reply = λ k d. not (is_some (d k));
  lrange = λ k a b d. range a b (items (d k));
  llen = λ k d. length (items (d k));
  elapse = λ n d j. aged n (d j);
  at-set = λ k v t d j. refl;
  at-set_nx = λ k v t d. refl;
  at-del = λ k d j. refl;
  at-expire = λ k t d j. refl;
  at-incr = λ k d j h. refl;
  at-rpush = λ k v d j h. refl;
  at-ltrim = λ k a b d j h. refl;
  get_lem = λ k d h. refl;
  get_count_lem = λ k d h. refl;
  set_nx_reply_lem = λ k d. refl;
  exists_lem = λ k d. refl;
  lrange_lem = λ k a b d h. refl;
  llen_lem = λ k d h. refl;
  at-elapse = λ n d j. refl;
}

abbrev pub nothing : String → Option Entry
nothing _ = none
