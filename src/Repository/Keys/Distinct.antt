-- ===== src/Repository/Keys/Distinct.antt =====
-- When two keys of internal/repository are the same key.
use Prim.Native.String as S
use Prim.Native.String.{String, ◌++◌}
use text.Mathlib.TextLemmas.{append_inj, append_assoc}
use scorpion.Prelude.{◌≡◌, refl, sym, ◌∙◌, eq_iff, ◌==◌, false, Bool-cases, inl, inr}
use scorpion.Repository.Keys.{
  conn_key, events_key, in_flight_key, acked_key, ticket_key, rate_limit_key,
}

pub ne_sym : (s t : String) → (s == t) ≡ false → (t == s) ≡ false
ne_sym s t h = elim (Bool-cases (t == s)) [
  | inr differ ↦ differ
  | inl same ↦ cc (h, (eq_iff s t).1 (sym ((eq_iff t s).0 same)))
]

-- Two texts with different beginnings of the same length.
pub heads_differ :
    (a b x y s t : String)
    → S.count a ≡ S.count b
    → (a == b) ≡ false
    → s ≡ a ++ x
    → t ≡ b ++ y
    → (s == t) ≡ false
heads_differ a b x y s t n d p q = elim (Bool-cases (s == t)) [
  | inr differ ↦ differ
  | inl same ↦
      let both : a ++ x ≡ b ++ y = sym p ∙ (eq_iff s t).0 same ∙ q in
      cc (d, (eq_iff a b).1 (append_inj both n).0)
]

-- The two keys that `MarkAcked` writes are different keys, for whatever client and event.
pub in_flight_key-ne-acked_key :
    (c e c' e' : String) → (in_flight_key c e == acked_key c' e') ≡ false
unfolding in_flight_key acked_key
in_flight_key-ne-acked_key c e c' e' =
    heads_differ "scorpion:i" "scorpion:a" ("nflight:" ++ c ++ ":" ++ e)
      ("cked:" ++ c' ++ ":" ++ e') _ _ refl refl
      (append_assoc "scorpion:i" "nflight:" (c ++ ":" ++ e))
      (append_assoc "scorpion:a" "cked:" (c' ++ ":" ++ e'))

-- Delivering an event and refreshing a connection write other keys than a queue's.
pub in_flight_key-ne-events_key : (c e c' : String) → (in_flight_key c e == events_key c') ≡ false
unfolding in_flight_key events_key
in_flight_key-ne-events_key c e c' =
    heads_differ "scorpion:i" "scorpion:e" ("nflight:" ++ c ++ ":" ++ e) ("vents:" ++ c') _ _ refl
      refl (append_assoc "scorpion:i" "nflight:" (c ++ ":" ++ e))
      (append_assoc "scorpion:e" "vents:" c')

pub conn_key-ne-events_key : (c ip c' : String) → (conn_key c ip == events_key c') ≡ false
unfolding conn_key events_key
conn_key-ne-events_key c ip c' =
    heads_differ "scorpion:c" "scorpion:e" ("onn:" ++ c ++ ":" ++ ip) ("vents:" ++ c') _ _ refl refl
      (append_assoc "scorpion:c" "onn:" (c ++ ":" ++ ip)) (append_assoc "scorpion:e" "vents:" c')

-- Consuming a ticket leaves the connections.
pub ticket_key-ne-conn_key : (c ip c' ip' : String) → (ticket_key c ip == conn_key c' ip') ≡ false
unfolding ticket_key conn_key
ticket_key-ne-conn_key c ip c' ip' =
    heads_differ "scorpion:t" "scorpion:c" ("icket:" ++ c ++ ":" ++ ip) ("onn:" ++ c' ++ ":" ++ ip')
      _ _ refl refl (append_assoc "scorpion:t" "icket:" (c ++ ":" ++ ip))
      (append_assoc "scorpion:c" "onn:" (c' ++ ":" ++ ip'))

pub rate_limit_key-ne-conn_key : (a c ip : String) → (rate_limit_key a == conn_key c ip) ≡ false
unfolding rate_limit_key conn_key
rate_limit_key-ne-conn_key a c ip =
    heads_differ "scorpion:r" "scorpion:c" ("atelimit:" ++ a) ("onn:" ++ c ++ ":" ++ ip) _ _ refl
      refl (append_assoc "scorpion:r" "atelimit:" a)
      (append_assoc "scorpion:c" "onn:" (c ++ ":" ++ ip))

pub rate_limit_key-ne-events_key : (a c : String) → (rate_limit_key a == events_key c) ≡ false
unfolding rate_limit_key events_key
rate_limit_key-ne-events_key a c =
    heads_differ "scorpion:r" "scorpion:e" ("atelimit:" ++ a) ("vents:" ++ c) _ _ refl refl
      (append_assoc "scorpion:r" "atelimit:" a) (append_assoc "scorpion:e" "vents:" c)

pub rate_limit_key-ne-ticket_key : (a c ip : String) → (rate_limit_key a == ticket_key c ip) ≡ false
unfolding rate_limit_key ticket_key
rate_limit_key-ne-ticket_key a c ip =
    heads_differ "scorpion:r" "scorpion:t" ("atelimit:" ++ a) ("icket:" ++ c ++ ":" ++ ip) _ _ refl
      refl (append_assoc "scorpion:r" "atelimit:" a)
      (append_assoc "scorpion:t" "icket:" (c ++ ":" ++ ip))

pub rate_limit_key-ne-in_flight_key :
    (a c e : String) → (rate_limit_key a == in_flight_key c e) ≡ false
unfolding rate_limit_key in_flight_key
rate_limit_key-ne-in_flight_key a c e =
    heads_differ "scorpion:r" "scorpion:i" ("atelimit:" ++ a) ("nflight:" ++ c ++ ":" ++ e) _ _ refl
      refl (append_assoc "scorpion:r" "atelimit:" a)
      (append_assoc "scorpion:i" "nflight:" (c ++ ":" ++ e))

pub rate_limit_key-ne-acked_key : (a c e : String) → (rate_limit_key a == acked_key c e) ≡ false
unfolding rate_limit_key acked_key
rate_limit_key-ne-acked_key a c e =
    heads_differ "scorpion:r" "scorpion:a" ("atelimit:" ++ a) ("cked:" ++ c ++ ":" ++ e) _ _ refl
      refl (append_assoc "scorpion:r" "atelimit:" a)
      (append_assoc "scorpion:a" "cked:" (c ++ ":" ++ e))

pub events_key-ne-acked_key : (c' c e : String) → (events_key c' == acked_key c e) ≡ false
unfolding events_key acked_key
events_key-ne-acked_key c' c e =
    heads_differ "scorpion:e" "scorpion:a" ("vents:" ++ c') ("cked:" ++ c ++ ":" ++ e) _ _ refl refl
      (append_assoc "scorpion:e" "vents:" c') (append_assoc "scorpion:a" "cked:" (c ++ ":" ++ e))

pub conn_key-ne-ticket_key : (c ip c' ip' : String) → (conn_key c ip == ticket_key c' ip') ≡ false
conn_key-ne-ticket_key c ip c' ip' = ne_sym _ _ (ticket_key-ne-conn_key c' ip' c ip)

pub events_key-ne-ticket_key : (c c' ip' : String) → (events_key c == ticket_key c' ip') ≡ false
unfolding events_key ticket_key
events_key-ne-ticket_key c c' ip' =
    heads_differ "scorpion:e" "scorpion:t" ("vents:" ++ c) ("icket:" ++ c' ++ ":" ++ ip') _ _ refl
      refl (append_assoc "scorpion:e" "vents:" c)
      (append_assoc "scorpion:t" "icket:" (c' ++ ":" ++ ip'))

pub conn_key-ne-in_flight_key : (c ip c' e : String) → (conn_key c ip == in_flight_key c' e) ≡ false
unfolding conn_key in_flight_key
conn_key-ne-in_flight_key c ip c' e =
    heads_differ "scorpion:c" "scorpion:i" ("onn:" ++ c ++ ":" ++ ip) ("nflight:" ++ c' ++ ":" ++ e)
      _ _ refl refl (append_assoc "scorpion:c" "onn:" (c ++ ":" ++ ip))
      (append_assoc "scorpion:i" "nflight:" (c' ++ ":" ++ e))

pub conn_key-ne-acked_key : (c ip c' e : String) → (conn_key c ip == acked_key c' e) ≡ false
unfolding conn_key acked_key
conn_key-ne-acked_key c ip c' e =
    heads_differ "scorpion:c" "scorpion:a" ("onn:" ++ c ++ ":" ++ ip) ("cked:" ++ c' ++ ":" ++ e) _
      _ refl refl (append_assoc "scorpion:c" "onn:" (c ++ ":" ++ ip))
      (append_assoc "scorpion:a" "cked:" (c' ++ ":" ++ e))

pub ticket_key-ne-events_key : (c ip c' : String) → (ticket_key c ip == events_key c') ≡ false
ticket_key-ne-events_key c ip c' = ne_sym _ _ (events_key-ne-ticket_key c' c ip)

pub in_flight_key-ne-ticket_key :
    (c e c' ip' : String) → (in_flight_key c e == ticket_key c' ip') ≡ false
unfolding in_flight_key ticket_key
in_flight_key-ne-ticket_key c e c' ip' =
    heads_differ "scorpion:i" "scorpion:t" ("nflight:" ++ c ++ ":" ++ e)
      ("icket:" ++ c' ++ ":" ++ ip') _ _ refl refl
      (append_assoc "scorpion:i" "nflight:" (c ++ ":" ++ e))
      (append_assoc "scorpion:t" "icket:" (c' ++ ":" ++ ip'))

pub acked_key-ne-ticket_key : (c e c' ip' : String) → (acked_key c e == ticket_key c' ip') ≡ false
unfolding acked_key ticket_key
acked_key-ne-ticket_key c e c' ip' =
    heads_differ "scorpion:a" "scorpion:t" ("cked:" ++ c ++ ":" ++ e) ("icket:" ++ c' ++ ":" ++ ip')
      _ _ refl refl (append_assoc "scorpion:a" "cked:" (c ++ ":" ++ e))
      (append_assoc "scorpion:t" "icket:" (c' ++ ":" ++ ip'))

pub in_flight_key_shared :
    (c m e : String) → in_flight_key c (m ++ ":" ++ e) ≡ in_flight_key (c ++ ":" ++ m) e
unfolding in_flight_key
in_flight_key_shared c m e = simp append_assoc

pub acked_key_shared : (c m e : String) → acked_key c (m ++ ":" ++ e) ≡ acked_key (c ++ ":" ++ m) e
unfolding acked_key
acked_key_shared c m e = simp append_assoc
