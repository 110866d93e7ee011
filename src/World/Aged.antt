-- ===== src/World/Aged.antt =====
-- What the passing of time leaves of a keyspace.
use scorpion.Prelude.{ℕ, Bool-cases, inl, inr, ltb, ◌-◌, if◌then◌else◌, Option, none, some}
use scorpion.Redis.{Redis, Entry, IsList, IsText, IsCounter, aged}
use scorpion.World.Typed.{Typed}

-- What is there is of the same kind, or gone.
pub aged_cases {ℓ} :
    (P : Option Entry → Type ℓ) (n : ℕ) (e : Entry)
    → P none
    → P (some e)
    → ((t : Option ℕ) → P (some (record e { ttl = t })))
    → P (aged n (some e))
aged_cases P n e gone same older = go e.ttl
  where
    go :
        (t : Option ℕ)
        → P (elim t [
          | none ↦ some e
          | some s ↦ if ltb n s then some (record e { ttl = some (s - n) }) else none
        ])
    go none = same
    go (some s) = elim (Bool-cases (ltb n s)) [
      | inl early ↦ rw early (older (some (s - n)))
      | inr late ↦ rw late gone
    ]

aged-IsList : (n : ℕ) (e : Option Entry) → IsList e → IsList (aged n e)
aged-IsList n none h = tt
aged-IsList n (some e) h = aged_cases IsList n e tt h (λ t. h)

aged-IsText : (n : ℕ) (e : Option Entry) → IsText e → IsText (aged n e)
aged-IsText n none h = tt
aged-IsText n (some e) h = aged_cases IsText n e tt h (λ t. h)

aged-IsCounter : (n : ℕ) (e : Option Entry) → IsCounter e → IsCounter (aged n e)
aged-IsCounter n none h = tt
aged-IsCounter n (some e) h = aged_cases IsCounter n e tt h (λ t. h)

pub elapse-Typed : (r : Redis) (n : ℕ) (d : r.Db) → Typed r d → Typed r (r.elapse n d)
elapse-Typed r n d t = record {
  lists = λ c. rw (r.at-elapse) (aged-IsList n _ (t.lists c));
  counters = λ a. rw (r.at-elapse) (aged-IsCounter n _ (t.counters a));
  texts = λ k tk. rw (r.at-elapse) (aged-IsText n _ (t.texts k tk));
}
