-- ===== src/Http/Server/Requests/Draws.antt =====
-- server.go: which requests add a ticket that waits in Redis.
use scorpion.Prelude.{
  ℕ, ◌+◌, ◌≤◌, String, ◌≡◌, refl, subst, inl, inr, Bool, false, Bool-cases, one_if, Option, List,
  [], ◌∷◌, ◌==◌, Result, ok, err, arith,
}
use scorpion.Prelude.Int.{ℤ}
use scorpion.Redis.{Redis, text_at, is_text}
use scorpion.World.{World}
use scorpion.World.Typed.{Typed}
use scorpion.Config.{Config}
use scorpion.Json.{Json}
use scorpion.Auth.{Jwt, TicketClaims, validate_ticket}
use scorpion.Ack.{Publisher}
use scorpion.Repository.Keys.{ticket_key}
use scorpion.Repository.Commands
use scorpion.Repository.Commands.{Command, set_ticket, exec, exec_all}
use scorpion.Repository.Commands.Typed.{exec-Typed}
use scorpion.Repository.Commands.Tickets.{waiting, stored, accepted, exec-Pays, and_false}
use scorpion.Repository.Commands.Reached.{AllAllowed, Reached}
use scorpion.Http.{Request}
use scorpion.Http.Middleware.{Strategy}
use scorpion.Http.Server.Requests.{
  Route, get_healthz_route, post_ticket_route, post_event_route, post_ack_route, get_events_route,
  get_stream_route, respond,
}
use scorpion.Http.Server.Requests.Permits.{Validated, Permits}
use scorpion.Http.Server.Requests.Sends.{respond_sent}

module _ (r : Redis) (c ip jti : String) where
  -- Commands that store no such ticket add none that waits.
  abbrev Barren : (Command → Type 0) → Type 0
  Barren Allowed = (cmd : Command) → Allowed cmd → stored r c ip jti cmd ≡ 0

  none_added :
      (Allowed : Command → Type 0) (cmds : List Command) (d : r.Db)
      → Barren Allowed
      → AllAllowed Allowed cmds
      → Typed r d
      → waiting r c ip jti (exec_all r cmds d) ≤ waiting r c ip jti d
  unfolding exec_all
  none_added Allowed [] d b h t = omega arith
  none_added Allowed (cmd ∷ cmds) d b h t = omega (
    arith,
    b cmd h.0,
    exec-Pays r c ip jti cmd d t,
    none_added Allowed cmds (exec r cmd d) b h.1 (exec-Typed r cmd d t),
  )

  none_added-Reached :
      (Allowed : Command → Type 0) (d d' : r.Db)
      → Barren Allowed
      → Reached r Allowed d d'
      → Typed r d
      → waiting r c ip jti d' ≤ waiting r c ip jti d
  none_added-Reached Allowed d d' b h t = rw h.result (none_added Allowed h.cmds d b h.allowed t)

  -- Tickets with other ids do not matter.
  other_ids :
      (cmd : Command)
      → ((c' ip' j : String) (t : ℕ) → cmd ≡ set_ticket c' ip' j t → (j == jti) ≡ false)
      → stored r c ip jti cmd ≡ 0
  unfolding stored
  other_ids (set_ticket c' ip' j t) h = rw (h c' ip' j t refl, and_false) refl
  other_ids cmd h = refl

  pub waited :
      (n : ℕ) (d : r.Db) → Typed r d → waiting r c ip jti (r.elapse n d) ≤ waiting r c ip jti d
  unfolding exec stored accepted
  waited n d t = omega (arith, exec-Pays r c ip jti (Commands.passes n) d t)

  waiting_one : (d : r.Db) → waiting r c ip jti d ≤ 1
  waiting_one d = elim (Bool-cases (is_text (text_at (r.at d (ticket_key c ip))) jti)) [
    | inl there ↦ rw there (omega arith)
    | inr gone ↦ rw gone (omega arith)
  ]

-- Whether a request on the route draws this id for a ticket.
abbrev pub draws : String → Route → Bool
draws jti (post_ticket_route j) = j == jti
draws jti _ = false

no_ticket_stored :
    (m : Result TicketClaims) (c ip j : String) (t : ℕ) → Validated m (set_ticket c ip j t) → ⊥
no_ticket_stored (err _) c ip j t h = h
no_ticket_stored (ok claims) c ip j t (inl h) = h
no_ticket_stored (ok claims) c ip j t (inr h) = h

module _ (r : Redis) (jwt : Jwt) (codec : Json) (strategy : Strategy) (cfg : Config)
    (atoi : String → Option ℤ) (p : Publisher) (tracks : Bool) (c ip jti : String) where
  permitted_ids :
      (now : ℕ) (req : Request) (route : Route) (c' ip' j : String) (t : ℕ)
      → draws jti route ≡ false
      → Permits jwt codec strategy cfg now req route (set_ticket c' ip' j t)
      → (j == jti) ≡ false
  permitted_ids now req get_healthz_route c' ip' j t other h = absurd h
  permitted_ids now req (post_ticket_route j') c' ip' j t other (_, _, same, _) = rw same other
  permitted_ids now req (post_event_route _) c' ip' j t other h = absurd h
  permitted_ids now req (post_ack_route _ _ _) c' ip' j t other h = absurd h
  permitted_ids now req get_events_route c' ip' j t other h = absurd h
  permitted_ids now req (get_stream_route _ _ _ _ _) c' ip' j t other h =
      absurd (no_ticket_stored (validate_ticket jwt cfg.auth now req.query_ticket) c' ip' j t h)

  -- A request adds a ticket that waits only if it draws the ticket's id.
  pub respond_adds :
      (instance_id : String) (now : ℕ) (route : Route) (req : Request) (w : World r) (s : p.State)
      → Typed r w.db
      → waiting r c ip jti
          (respond jwt codec strategy cfg atoi p instance_id tracks now route req (w, s)).1.0.db
        ≤ one_if (draws jti route) + waiting r c ip jti w.db
  respond_adds instance_id now route req w s t = elim (Bool-cases (draws jti route)) [
    | inl drawn ↦ rw drawn (
        omega (
          arith,
          waiting_one r c ip jti
              (respond jwt codec strategy cfg atoi p instance_id tracks now route req
                (w, s)).1.0.db,
        ))
    | inr other ↦ rw other (
        omega (
          arith,
          none_added-Reached r c ip jti (Permits jwt codec strategy cfg now req route) w.db _
              (λ cmd h. other_ids r c ip jti cmd (λ c' ip' j t' e.
                permitted_ids now req route c' ip' j t' other
                  (subst (λ z. Permits jwt codec strategy cfg now req route z) e h)))
              (respond_sent r jwt codec strategy cfg atoi p instance_id tracks now req route w s) t,
        ))
  ]
