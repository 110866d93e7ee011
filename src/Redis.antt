-- ===== src/Redis.antt =====
-- Redis, which is not part of this repository, as a parameter: the commands that
-- internal/repository and internal/ratelimit send through go-redis, with the documented effect of
-- each on the keyspace. Times to live are whole seconds.
pub mod Memory
pub mod Keyspace
pub mod Ranges
use scorpion.Prelude.{
  ℕ, zero, suc, ◌-◌, String, ◌≡◌, Bool, true, false, not, Option, none, some, List, [], ◌∷◌, ◌++◌,
  ltb, length, take, drop, ◌==◌, if◌then◌else◌,
}
use scorpion.Prelude.Int.{ℤ, pos, negsuc}

-- What a key holds. A text that Redis reads as a number for INCR is a `counter`.
pub data Value : Type 0 where
  text : String → Value
  counter : ℕ → Value
  list : List String → Value

pub record Entry : Type 0 where
  pub value : Value
  pub ttl : Option ℕ

abbrev value_of : Option Entry → Option Value
value_of none = none
value_of (some e) = some e.value

abbrev pub ttl_of : Option Entry → Option ℕ
ttl_of none = none
ttl_of (some e) = e.ttl

-- The list that a key stands for; a missing key is the empty list.
abbrev value_items : Option Value → List String
value_items (some (list xs)) = xs
value_items _ = []

abbrev pub items : Option Entry → List String
items e = value_items (value_of e)

abbrev value_text : Option Value → Option String
value_text (some (text s)) = some s
value_text _ = none

abbrev pub text_at : Option Entry → Option String
text_at e = value_text (value_of e)

abbrev value_count : Option Value → ℕ
value_count (some (counter n)) = n
value_count _ = 0

abbrev pub count : Option Entry → ℕ
count e = value_count (value_of e)

-- A command meets a key of its own type, or a missing one.
abbrev ListValue : Option Value → Type 0
ListValue none = Unit
ListValue (some (list _)) = Unit
ListValue (some _) = ⊥

abbrev TextValue : Option Value → Type 0
TextValue none = Unit
TextValue (some (text _)) = Unit
TextValue (some _) = ⊥

abbrev CounterValue : Option Value → Type 0
CounterValue none = Unit
CounterValue (some (counter _)) = Unit
CounterValue (some _) = ⊥

abbrev pub IsList : Option Entry → Type 0
IsList e = ListValue (value_of e)

abbrev pub IsText : Option Entry → Type 0
IsText e = TextValue (value_of e)

abbrev pub IsCounter : Option Entry → Type 0
IsCounter e = CounterValue (value_of e)

-- SET with no expiry leaves the key for ever.
abbrev pub expiry : ℕ → Option ℕ
expiry zero = none
expiry (suc n) = some (suc n)

-- EXPIRE with zero deletes the key.
abbrev pub with_ttl : ℕ → Option Entry → Option Entry
with_ttl _ none = none
with_ttl zero (some e) = none
with_ttl (suc n) (some e) = some (record e { ttl = some (suc n) })

-- A list key without elements does not exist.
abbrev pub listed : Option ℕ → List String → Option Entry
listed t [] = none
listed t (x ∷ xs) = some (record { value = list (x ∷ xs); ttl = t })

-- What is left of a time to live after some seconds: `none` when the key is gone.
abbrev pub aged : ℕ → Option Entry → Option Entry
aged n none = none
aged n (some e) = elim e.ttl [
  | none ↦ some e
  | some t ↦ if ltb n t then some (record e { ttl = some (t - n) }) else none
]

-- The first index and the index after the last of the range of LRANGE and LTRIM; a negative index
-- counts from the end.
abbrev pub first : ℤ → ℕ → ℕ
first (pos a) n = a
first (negsuc a) n = n - suc a

abbrev past : ℤ → ℕ → ℕ
past (pos b) n = suc b
past (negsuc b) n = n - b

abbrev pub range : ℤ → ℤ → List String → List String
range a b xs = take (past b (length xs) - first a (length xs)) (drop (first a (length xs)) xs)

abbrev pub is_some : Option Entry → Bool
is_some none = false
is_some (some _) = true

-- The comparison of what GET answers with a text; a missing key equals none.
abbrev pub is_text : Option String → String → Bool
is_text none s = false
is_text (some v) s = v == s

pub record Redis : Type 1 where
  pub Db : Type 0
  pub at : Db → String → Option Entry
  -- commands that write
  pub set : String → String → ℕ → Db → Db
  pub set_nx : String → String → ℕ → Db → Db
  pub del : String → Db → Db
  pub expire : String → ℕ → Db → Db
  pub incr : String → Db → Db
  pub rpush : String → String → Db → Db
  pub ltrim : String → ℤ → ℤ → Db → Db
  -- commands that read; `get_count` is the reply of the INCR that was just run,
  -- `set_nx_reply` whether SET NX answers OK on the keyspace that it finds
  pub get : String → Db → Option String
  pub get_count : String → Db → ℕ
  pub exists : String → Db → Bool
  pub set_nx_reply : String → Db → Bool
  pub lrange : String → ℤ → ℤ → Db → List String
  pub llen : String → Db → ℕ
  -- the server's clock moves on
  pub elapse : ℕ → Db → Db
  -- what the commands are documented to do
  pub at-set :
      (k v : String) (t : ℕ) (d : Db) (j : String)
      → at (set k v t d) j
        ≡ (if k == j then some (record { value = text v; ttl = expiry t }) else at d j)
  pub at-set_nx :
      (k v : String) (t : ℕ) (d : Db)
      → set_nx k v t d ≡ (if is_some (at d k) then d else set k v t d)
  pub at-del :
      (k : String) (d : Db) (j : String) → at (del k d) j ≡ (if k == j then none else at d j)
  pub at-expire :
      (k : String) (t : ℕ) (d : Db) (j : String)
      → at (expire k t d) j ≡ (if k == j then with_ttl t (at d k) else at d j)
  pub at-incr :
      (k : String) (d : Db) (j : String)
      → IsCounter (at d k)
      → at (incr k d) j ≡ (
          if k == j
          then some (record { value = counter (suc (count (at d k))); ttl = ttl_of (at d k) })
          else at d j)
  pub at-rpush :
      (k v : String) (d : Db) (j : String)
      → IsList (at d k)
      → at (rpush k v d) j
        ≡ (if k == j then listed (ttl_of (at d k)) (items (at d k) ++ v ∷ []) else at d j)
  pub at-ltrim :
      (k : String) (a b : ℤ) (d : Db) (j : String)
      → IsList (at d k)
      → at (ltrim k a b d) j
        ≡ (if k == j then listed (ttl_of (at d k)) (range a b (items (at d k))) else at d j)
  pub get_lem : (k : String) (d : Db) → IsText (at d k) → get k d ≡ text_at (at d k)
  pub get_count_lem : (k : String) (d : Db) → IsCounter (at d k) → get_count k d ≡ count (at d k)
  pub set_nx_reply_lem : (k : String) (d : Db) → set_nx_reply k d ≡ not (is_some (at d k))
  pub exists_lem : (k : String) (d : Db) → exists k d ≡ is_some (at d k)
  pub lrange_lem :
      (k : String) (a b : ℤ) (d : Db)
      → IsList (at d k)
      → lrange k a b d ≡ range a b (items (at d k))
  pub llen_lem : (k : String) (d : Db) → IsList (at d k) → llen k d ≡ length (items (at d k))
  pub at-elapse : (n : ℕ) (d : Db) (j : String) → at (elapse n d) j ≡ aged n (at d j)
