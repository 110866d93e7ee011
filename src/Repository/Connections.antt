-- ===== src/Repository/Connections.antt =====
-- internal/repository/connection.go: `connectionStore`, with scripts/delete_if_owner.lua. The
-- instance's id, a field of the store, is an argument.
pub mod Exclusive
pub mod Streams
pub mod Cleanup
use Prim.Native.String.{◌++◌}
use scorpion.Prelude.{
  ℕ, String, Bool, Option, none, some, List, [], ◌∷◌, ◌==◌, Result, ok, err, if◌then◌else◌,
}
use scorpion.Redis.{Redis, is_text}
use scorpion.World.{World, round_trip}
use scorpion.Repository.Keys.{conn_key}

module _ {r : Redis} where
  abbrev pub registered : Result Bool × World r → Result Bool × World r
  registered (err e, w) = (err ("failed to register connection: " ++ e), w)
  registered (ok b, w) = (ok b, w)

  -- SET NX; a nil reply (the key exists) is no error, and the answer is whether Redis said OK.
  unfoldable pub register : String → String → String → ℕ → World r → Result Bool × World r
  register instance_id client_id ip ttl w =
      let key = conn_key client_id ip in
      registered (round_trip (r.set_nx key instance_id ttl ∷ []) (r.set_nx_reply key) w)

  unfoldable pub refresh : String → String → ℕ → World r → Result (Unit {0}) × World r
  refresh client_id ip ttl = round_trip (r.expire (conn_key client_id ip) ttl ∷ []) (λ _. tt)

  unfoldable pub delete : String → String → World r → Result (Unit {0}) × World r
  delete client_id ip = round_trip (r.del (conn_key client_id ip) ∷ []) (λ _. tt)

module _ (r : Redis) where
  unfoldable pub owner_script : String → String → r.Db → r.Db
  owner_script key owner d = if is_text (r.get key d) owner then r.del key d else d

module _ {r : Redis} where
  abbrev pub deleted : Result (Unit {0}) × World r → Result (Unit {0}) × World r
  deleted (err e, w) = (err ("delete_if_owner script error: " ++ e), w)
  deleted (ok _, w) = (ok tt, w)

  -- The script's number is dropped.
  unfoldable pub delete_with_value :
      String → String → String → World r → Result (Unit {0}) × World r
  delete_with_value instance_id client_id ip w =
      deleted (round_trip (owner_script r (conn_key client_id ip) instance_id ∷ []) (λ _. tt) w)

  -- The body of the loop over one page of keys: GET, compare, DEL. An error goes on to the next key.
  cleanup_found : String → String → Result (Option String) → World r → World r
  cleanup_found instance_id key (err e) w = w
  cleanup_found instance_id key (ok none) w = w
  cleanup_found instance_id key (ok (some val)) w =
      if val == instance_id then (round_trip (r.del key ∷ []) (λ _. tt {0}) w).1 else w

  cleanup_key : String → String → World r → World r
  unfolding cleanup_found
  cleanup_key instance_id key w =
      let (val, w') = round_trip [] (r.get key) w in cleanup_found instance_id key val w'

  cleanup_keys : String → List String → World r → World r
  unfolding cleanup_key
  cleanup_keys instance_id [] w = w
  cleanup_keys instance_id (key ∷ keys) w =
      cleanup_keys instance_id keys (cleanup_key instance_id key w)

-- The pages that SCAN returns until its cursor is zero again; a failed call ends the loop.
pub data Scan : Type 0 where
  finished scan_error : Scan
  page : List String → Scan → Scan

module _ {r : Redis} where
  unfoldable pub cleanup_instance : String → Scan → World r → World r
  unfolding cleanup_keys
  cleanup_instance instance_id finished w = w
  cleanup_instance instance_id scan_error w = w
  cleanup_instance instance_id (page keys rest) w =
      cleanup_instance instance_id rest (cleanup_keys instance_id keys w)
