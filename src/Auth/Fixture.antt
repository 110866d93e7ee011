-- ===== src/Auth/Fixture.antt =====
-- A signature scheme that knows one ticket: the parameter `Jwt` can be met.
use scorpion.Prelude.{
  ℕ, ◌≤◌, ◌<◌, String, ◌≡◌, refl, Bool, true, false, ◌==◌, ◌&&◌, ◌||◌, leb, ltb, arith, eq_iff,
  Result, ok, err, if◌then◌else◌, Bool-cases, inl, inr, lt→ltb,
}
use scorpion.Config.{Auth}
use scorpion.Auth.{
  Jwt, TicketClaims, TicketToken, SigningMethod, hmac, other, KeyFunction, MapToken,
}

abbrev pub settings : Auth
settings = record { token_secret = "app"; ticket_secret = "secret"; ticket_ttl = 30 }

abbrev pub alice : TicketClaims
alice = record { ip = "10.0.0.1"; subject = "alice"; issued_at = 100; expires_at = 130; id = "t1" }

abbrev is_alice : TicketClaims → Bool
is_alice c =
    c.ip == "10.0.0.1"
    && c.subject == "alice"
    && c.id == "t1"
    && (leb c.issued_at 100 && leb 100 c.issued_at)
    && (leb c.expires_at 130 && leb 130 c.expires_at)

is_alice-eq : (c : TicketClaims) → is_alice c ≡ true → c ≡ alice
is_alice-eq c h = ground (arith, eq_iff c.ip "10.0.0.1", eq_iff c.subject "alice", eq_iff c.id "t1")

abbrev sign : TicketClaims → String → Result String
sign c key = if is_alice c && key == "secret" then ok "signed" else err "not known"

abbrev method_of : String → SigningMethod
method_of s = if s == "none" then other "none" else hmac

abbrev with_key : Result String → ℕ → String → Result TicketToken
with_key (err e) now s = err e
with_key (ok key) now s =
    if key == "secret" && s == "signed" && ltb now 130
    then ok (record { claims = alice; valid = true })
    else err "refused"

abbrev app_key : Result String → String → Result MapToken
app_key (err e) s = err e
app_key (ok key) s =
    if key == "app" && (s == "bob's" || s == "alice's")
    then ok (record { get_subject = ok (if s == "bob's" then "bob" else "alice"); valid = true })
    else err "refused"

sign-eq-ok :
    (c : TicketClaims) (key s : String)
    → sign c key ≡ ok s
    → (c ≡ alice) × (key ≡ "secret") × (s ≡ "signed")
sign-eq-ok c key s h = elim (Bool-cases (is_alice c)) [
  | inl a ↦ elim (Bool-cases (key == "secret")) [
    | inl b ↦ (is_alice-eq c a, (eq_iff key "secret").0 b, cc (rw (a, b) at h))
    | inr b ↦ cc (rw (a, b) at h)
  ]
  | inr a ↦ cc (rw a at h)
]

pub parse-sign_lem :
    (c : TicketClaims) (key s : String) (f : KeyFunction) (now : ℕ)
    → sign c key ≡ ok s
    → f hmac ≡ ok key
    → now < c.expires_at
    → with_key (f (method_of s)) now s ≡ ok (record { claims = c; valid = true })
parse-sign_lem c key s f now made k early =
    let (a, b, t) = sign-eq-ok c key s made in
    let early' : now < 130 = rw a at early in
    let test : ltb now 130 ≡ true = lt→ltb now 130 early' in rw (t, k, b, test, a) refl

with_key_late :
    (k : Result String) (now : ℕ)
    → ltb now 130 ≡ false
    → (e : String) × (with_key k now "signed" ≡ err e)
with_key_late (err e) now late = (e, refl)
with_key_late (ok key) now late = elim (Bool-cases (key == "secret")) [
  | inl same ↦ ("refused", rw (same, late) refl)
  | inr differ ↦ ("refused", rw differ refl)
]

pub parse_expired_lem :
    (c : TicketClaims) (key s : String) (f : KeyFunction) (now : ℕ)
    → sign c key ≡ ok s
    → c.expires_at ≤ now
    → (e : String) × (with_key (f (method_of s)) now s ≡ err e)
parse_expired_lem c key s f now made late =
    let (a, b, t) = sign-eq-ok c key s made in
    let late' : 130 ≤ now = rw a at late in rw t (with_key_late (f hmac) now (ground arith))

-- Three tokens are known: alice's ticket, and those of the application for bob and for alice.
abbrev pub one_ticket : Jwt
one_ticket = record {
  method_of = method_of;
  sign = sign;
  parse_with_claims = λ f now s. with_key (f (method_of s)) now s;
  parse = λ f now s. app_key (f (method_of s)) s;
  parse-sign = parse-sign_lem;
  parse_expired = parse_expired_lem;
  parse_with_claims_key = λ f now s e h. (e, rw h refl);
  parse_key = λ f now s e h. (e, rw h refl);
}
