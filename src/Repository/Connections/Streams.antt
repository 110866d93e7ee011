-- ===== src/Repository/Connections/Streams.antt =====
-- connection.go as the streams of all instances use it: a stream registers, refreshes its connection
-- while it polls, and deletes it when it ends.
pub mod Single
use scorpion.Prelude.{
  ℕ, suc, String, ◌≡◌, refl, sym, ap, ◌∙◌, Bool, true, false, Bool-cases, inl, inr, ◌==◌, subst,
  eq_iff, Result, List, [], ◌∷◌, ◌++◌, ok, not, if◌then◌else◌,
}
use scorpion.Redis.{Redis, is_some}
use scorpion.Redis.Keyspace.{ChangesOnly}
use scorpion.World.{World}
use scorpion.Repository.Keys.{conn_key}
use scorpion.Repository.Keys.Distinct.{ne_sym}
use scorpion.Repository.Connections.{register, refresh, delete}
use scorpion.Repository.Connections.Exclusive.{kept, connection, register-exclusive}

-- The connection key of a stream, which is given by its client and address.
abbrev pub key_of : String × String → String
key_of (c, ip) = conn_key c ip

abbrev pub All {ℓ κ} : {A : Type ℓ} → (A → Type κ) → List A → Type κ
All P [] = Unit
All P (x ∷ xs) = P x × All P xs

pub All-middle {ℓ κ} :
    {A : Type ℓ} (P : A → Type κ) (x : A) (before behind : List A)
    → All P (before ++ x ∷ behind)
    → All P (before ++ behind) × P x
All-middle P x [] behind (this, rest) = (rest, this)
All-middle P x (y ∷ before) behind (other, all) =
    let (rest, this) = All-middle P x before behind all in ((other, rest), this)

-- No two of the streams have the same key.
abbrev pub Apart : List (String × String) → Type 0
Apart [] = Unit
Apart (x ∷ xs) = All (λ y. (key_of x == key_of y) ≡ false) xs × Apart xs

pub was_free : (b : Bool) → ◌≡◌ {A = Result Bool} (ok (not b)) (ok true) → b ≡ false
was_free true e = cc
was_free false e = refl

-- One stream of the list ends.
pub Apart-middle :
    (x : String × String) (before behind : List (String × String))
    → Apart (before ++ x ∷ behind)
    → Apart (before ++ behind) × All (λ y. (key_of x == key_of y) ≡ false) (before ++ behind)
Apart-middle x [] behind (others, apart) = (apart, others)
Apart-middle x (y ∷ before) behind (others, apart) =
    let (rest, from) = Apart-middle x before behind apart in
    let (less, this) = All-middle (λ z. (key_of y == key_of z) ≡ false) x before behind others in
    ((less, rest), (ne_sym (key_of y) (key_of x) this, from))

module _ (r : Redis) where
  pub record State : Type 0 where
    pub world : World r
    pub streams : List (String × String)

  -- What can happen, to any stream of any instance, while Redis answers and no time to live runs out.
  pub data Step : State → State → Type 0 where
    admit :
        (s : State) (instance_id c ip : String) (ttl : ℕ)
        → (register instance_id c ip ttl s.world).0 ≡ ok true
        → Step s (record {
          world = (register instance_id c ip ttl s.world).1;
          streams = (c, ip) ∷ s.streams;
        })
    refuse :
        (s : State) (instance_id c ip : String) (ttl : ℕ)
        → (register instance_id c ip ttl s.world).0 ≡ ok false
        → Step s (record s { world = (register instance_id c ip ttl s.world).1 })
    poll :
        (s : State) (c ip : String) (ttl : ℕ)
        → Step s (record s { world = (refresh c ip (suc ttl) s.world).1 })
    finish :
        (s : State) (c ip : String) (before behind : List (String × String))
        → s.streams ≡ before ++ (c, ip) ∷ behind
        → Step s (record { world = (delete c ip s.world).1; streams = before ++ behind })
    -- any other request, to other keys
    other :
        (s : State) (w : World r)
        → w.outcomes ≡ []
        → ((c ip : String) → connection r w c ip ≡ connection r s.world c ip)
        → Step s (record s { world = w })

  pub data Reach (s : State) : State → Type 0 where
    here : Reach s s
    next : {t u : State} → Reach s t → Step t u → Reach s u
