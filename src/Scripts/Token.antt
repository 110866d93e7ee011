-- ===== src/Scripts/Token.antt =====
-- scripts/token.go and `mintToken` of scripts/push_events.go. Signing is that of the golang-jwt library, a
-- parameter; times are whole seconds.
use Prim.Native.String.{◌++◌}
use scorpion.Prelude.{ℕ, ◌+◌, ◌*◌, String, Option, none, some, Result, ok, err}

-- The claims of a bearer token; `user_id` only where the script sets one.
pub record MapClaims : Type 0 where
  pub sub : String
  pub user_id : Option ℕ
  pub exp : ℕ
  pub iat : ℕ

-- `SignedString` with HS256 and the secret.
abbrev pub Sign : Type 0
Sign = MapClaims → String → Result String

-- 24 hours
abbrev pub day : ℕ
day = 24 * 3600

-- How a script ends: a panic, a fatal error, or what it printed.
pub data Ends : Type 0 where
  panics fatal : String → Ends
  prints : String → Ends

printed : Result String → Ends
printed (err e) = panics e
printed (ok s) = prints s

-- `main` of token.go
unfoldable pub main : Sign → (now : ℕ) → Ends
unfolding printed
main sign now =
    let claims : MapClaims = record {
      sub = "12345";
      user_id = some 12345;
      exp = now + day;
      iat = now;
    } in
    printed (sign claims "change-me-real-token-secret")

signing : Result String → Result String
signing (err e) = err ("failed to sign token: " ++ e)
signing (ok s) = ok s

-- An error is the message of `log.Fatalf`.
unfoldable pub mint_token : Sign → (client_id secret : String) (now : ℕ) → Result String
unfolding signing
mint_token sign client_id secret now =
    signing (sign (record { sub = client_id; user_id = none; exp = now + day; iat = now }) secret)
