-- ===== src/Http/Middleware/Passes.antt =====
-- middleware.go: what a handler behind `TokenMiddleware` may rely on.
use Prim.Native.String.{len, slice}
use scorpion.Prelude.{
  ℕ, String, ◌≡◌, ◌≢◌, refl, sym, ◌⊎◌, inl, inr, Bool-cases, some, ◌==◌, ltb, eq_iff, Result, ok,
  err,
}
use scorpion.Config.{Auth}
use scorpion.Auth.{Jwt, validate_real_token}
use scorpion.Auth.Tickets.{real_token-subject}
use scorpion.Http.{Request, Context, Response}
use scorpion.Http.Middleware.{Strategy, Handler, no_ip, invalid_token, authorized, token_middleware}

module _ {ℓ} {S : Type ℓ} (jwt : Jwt) (cfg : Auth) (strategy : Strategy) (now : ℕ)
    (next : Handler S) (req : Request) (s : S) where
  -- The handler ran, for the subject of a token that validates, and with an address.
  abbrev pub Passed : Response × S → Type ℓ
  Passed answer =
      (client_id : String) × (validate_real_token jwt cfg now
          (slice req.authorization 7 (len req.authorization))
        ≡ ok client_id)
      × (slice req.authorization 0 7 ≡ "Bearer ")
      × (client_id ≢ "")
      × (strategy req.header req.remote_addr ≢ "")
      × (answer
          ≡ next req
              (record {
                client_id = some client_id;
                client_ip = some (strategy req.header req.remote_addr);
              })
              s)

  -- The request is refused, and nothing is changed.
  abbrev pub Refused : Response × S → Type ℓ
  Refused answer = (answer ≡ (invalid_token, s)) ⊎ (answer ≡ (no_ip, s))

  authorized_cases :
      (ctx : Context) (token : Result String)
      → token ≡ validate_real_token jwt cfg now (slice req.authorization 7 (len req.authorization))
      → slice req.authorization 0 7 ≡ "Bearer "
      → Refused (authorized strategy next req ctx s token)
        ⊎ Passed (authorized strategy next req ctx s token)
  unfolding authorized
  authorized_cases ctx (err why) t b = inl (inl refl)
  authorized_cases ctx (ok client_id) t b =
      let ip = strategy req.header req.remote_addr in
      elim (Bool-cases (ip == "")) [
        | inl nowhere ↦ rw nowhere (inl (inr refl))
        | inr somewhere ↦ rw somewhere (
            inr (
              client_id,
              sym t,
              b,
              real_token-subject jwt cfg now (slice req.authorization 7 (len req.authorization))
                  client_id (sym t),
              (λ e. cc (somewhere, (eq_iff ip "").1 e)),
              refl,
            ))
      ]

  -- A handler behind the middleware runs only for a request whose bearer token validates, with the
  -- token's subject as the client id and an address, neither of them empty, whatever the context held
  -- before; every other request is refused with 401 or 500, and changes nothing.
  pub token_middleware-passes :
      (ctx : Context)
      → Refused (token_middleware jwt cfg strategy now next req ctx s)
        ⊎ Passed (token_middleware jwt cfg strategy now next req ctx s)
  unfolding token_middleware
  token_middleware-passes ctx =
      let token =
        validate_real_token jwt cfg now (slice req.authorization 7 (len req.authorization)) in
      elim (Bool-cases (ltb (len req.authorization) 8)) [
        | inl short ↦ rw short (inl (inl refl))
        | inr long ↦ elim (Bool-cases (slice req.authorization 0 7 == "Bearer ")) [
          | inr other ↦ rw (long, other) (inl (inl refl))
          | inl bearer ↦
              rw (long, bearer)
                (authorized_cases ctx token refl
                  ((eq_iff (slice req.authorization 0 7) "Bearer ").0 bearer))
        ]
      ]
