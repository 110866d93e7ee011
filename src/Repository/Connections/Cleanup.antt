-- ===== src/Repository/Connections/Cleanup.antt =====
-- connection.go, `CleanupInstance`: what a shutdown removes.
use scorpion.Prelude.{
  String, ◌≡◌, refl, ◌∙◌, Bool, Bool-cases, inl, inr, ◌||◌, ◌&&◌, true, false, Option, none, some,
  List, [], ◌∷◌, ◌++◌, ◌==◌, eq_iff, arith, ok, if◌then◌else◌,
}
use scorpion.Redis.{Redis, Entry, is_text, text_at, IsText}
use scorpion.Redis.Keyspace.{at-del_self, at-del_ne}
use scorpion.World.{World}
use scorpion.World.Trips.{quiet_trip}
use scorpion.Repository.Connections.{
  cleanup_found, cleanup_key, cleanup_keys, cleanup_instance, Scan, finished, scan_error, page,
}

-- Every key that the scan returned before it ended.
abbrev scanned : Scan → List String
scanned finished = []
scanned scan_error = []
scanned (page keys rest) = keys ++ scanned rest

abbrev contains : List String → String → Bool
contains [] j = false
contains (k ∷ ks) j = k == j || contains ks j

abbrev AllText : (r : Redis) → r.Db → List String → Type 0
AllText r d [] = Unit
AllText r d (k ∷ ks) = IsText (r.at d k) × AllText r d ks

-- What is left at a key of a keyspace.
abbrev pub left : String → Bool → Option Entry → Option Entry
left owner seen e = if seen && is_text (text_at e) owner then none else e

left-left :
    (owner : String) (a b : Bool) (e : Option Entry)
    → left owner a (left owner b e) ≡ left owner (b || a) e
left-left owner a false e = refl
left-left owner a true e = elim (Bool-cases (is_text (text_at e) owner)) [
  | inl mine ↦ rw mine (gone a)
  | inr other ↦ rw other (same other a)
]
  where
    gone : (a : Bool) → ◌≡◌ {A = Option Entry} (if a && false then none else none) none
    gone true = refl
    gone false = refl

    same :
        is_text (text_at e) owner ≡ false
        → (a : Bool) → (if a && is_text (text_at e) owner then none else e) ≡ e
    same h true = rw h refl
    same h false = refl

left-IsText : (owner : String) (b : Bool) (e : Option Entry) → IsText e → IsText (left owner b e)
left-IsText owner b e h = elim (Bool-cases (b && is_text (text_at e) owner)) [
  | inl gone ↦ rw gone tt
  | inr kept ↦ rw kept h
]

contains-append :
    (ks js : List String) (j : String) → contains (ks ++ js) j ≡ (contains ks j || contains js j)
contains-append [] js j = refl
contains-append (k ∷ ks) js j =
    rw (contains-append ks js j) (or_assoc (k == j) (contains ks j) (contains js j))
  where
    or_assoc : (a b c : Bool) → (a || (b || c)) ≡ ((a || b) || c)
    or_assoc a b c = ground arith

module _ (r : Redis) (owner : String) where
  AllText-left :
      (d d' : r.Db) (seen : String → Bool) (ks : List String)
      → ((j : String) → r.at d' j ≡ left owner (seen j) (r.at d j))
      → AllText r d ks
      → AllText r d' ks
  AllText-left d d' seen [] step h = tt
  AllText-left d d' seen (k ∷ ks) step h =
      (rw (step k) (left-IsText owner (seen k) (r.at d k) h.0), AllText-left d d' seen ks step h.1)

  found_lem :
      (k j : String) (o : Option String) (w : World r)
      → w.outcomes ≡ []
      → text_at (r.at w.db k) ≡ o
      → let after = cleanup_found owner k (ok o) w in
        (r.at after.db j ≡ left owner (k == j) (r.at w.db j)) × (after.outcomes ≡ [])
  unfolding cleanup_found
  found_lem k j none w q e = elim (Bool-cases (k == j)) [
    | inl same ↦ (rw (same, ← (eq_iff k j).0 same, e) refl, q)
    | inr differ ↦ (rw differ refl, q)
  ]
  found_lem k j (some v) w q e = elim (Bool-cases (v == owner)) [
    | inl mine ↦ rw mine (
        rw (quiet_trip _ _ w q) (elim (Bool-cases (k == j)) [
          | inl same ↦ (rw (same, ← (eq_iff k j).0 same, e, mine) (at-del_self r k w.db), q)
          | inr differ ↦ (rw differ (at-del_ne r k w.db j differ), q)
        ]))
    | inr other ↦ rw other (elim (Bool-cases (k == j)) [
      | inl same ↦ (rw (same, ← (eq_iff k j).0 same, e, other) refl, q)
      | inr differ ↦ (rw differ refl, q)
    ])
  ]

  key_lem :
      (k j : String) (w : World r)
      → w.outcomes ≡ []
      → IsText (r.at w.db k)
      → let after = cleanup_key owner k w in
        (r.at after.db j ≡ left owner (k == j) (r.at w.db j)) × (after.outcomes ≡ [])
  unfolding cleanup_key
  key_lem k j w q h =
      rw (quiet_trip [] (r.get k) w q)
        (rw (r.get_lem k w.db h) (found_lem k j (text_at (r.at w.db k)) w q refl))

  keys_lem :
      (ks : List String) (j : String) (w : World r)
      → w.outcomes ≡ []
      → AllText r w.db ks
      → let after = cleanup_keys owner ks w in
        (r.at after.db j ≡ left owner (contains ks j) (r.at w.db j)) × (after.outcomes ≡ [])
  unfolding cleanup_keys
  keys_lem [] j w q h = (refl, q)
  keys_lem (k ∷ ks) j w q h =
      let w' = cleanup_key owner k w in
      let step = λ (i : String). (key_lem k i w q h.0).0 in
      let (rest, q') =
        keys_lem ks j w' (key_lem k j w q h.0).1
          (AllText-left w.db w'.db (λ i. k == i) ks step h.1) in
      (rest ∙ rw (step j) (left-left owner (contains ks j) (k == j) (r.at w.db j)), q')

AllText-append :
    (r : Redis) (d : r.Db) (ks js : List String)
    → AllText r d (ks ++ js)
    → AllText r d ks × AllText r d js
AllText-append r d [] js h = (tt, h)
AllText-append r d (k ∷ ks) js h = let (a, b) = AllText-append r d ks js h.1 in ((h.0, a), b)

-- While Redis answers and the keys that the scan returns hold texts, the cleanup of an instance
-- deletes exactly those of the scanned keys whose value is the instance's id, and leaves every other
-- key as it is; a scan that fails cleans up what it returned before.
pub cleanup-owned :
    (r : Redis) (owner : String) (scan : Scan) (j : String) (w : World r)
    → w.outcomes ≡ []
    → AllText r w.db (scanned scan)
    → r.at (cleanup_instance owner scan w).db j ≡ (
        if contains (scanned scan) j && is_text (text_at (r.at w.db j)) owner
        then none
        else r.at w.db j)
unfolding cleanup_instance
cleanup-owned r owner finished j w q h = refl
cleanup-owned r owner scan_error j w q h = refl
cleanup-owned r owner (page ks rest) j w q h =
    let w' = cleanup_keys owner ks w in
    let (here, there) = AllText-append r w.db ks (scanned rest) h in
    let step = λ (i : String). (keys_lem r owner ks i w q here).0 in
    cleanup-owned r owner rest j w' (keys_lem r owner ks j w q here).1
      (AllText-left r owner w.db w'.db (contains ks) (scanned rest) step there)
    ∙ rw (step j, contains-append)
        (left-left owner (contains (scanned rest) j) (contains ks j) (r.at w.db j))
