-- ===== src/Cmd/Start/Releases.antt =====
-- start.go: what the command leaves open, and what it takes to serve.
use scorpion.Prelude.{
  String, ◌≡◌, refl, ap, ◌∙◌, ◌⊎◌, inl, inr, Bool, true, false, if◌then◌else◌, Option, none, some,
  List, [], ◌∷◌, Result, ok, err,
}
use scorpion.Redis.{Redis}
use scorpion.World.{World}
use scorpion.Config.{Config, Nats}
use scorpion.Config.Load.{load}
use scorpion.Metrics.Register.{new_metrics}
use scorpion.Ack.{NatsPublisher, new_nats_publisher}
use scorpion.Http.Middleware.{Strategy}
use scorpion.Http.Server.Life.{shutdown}
use scorpion.App.Ip.{new_ip_strategy}
use scorpion.App.Clients.{Client, new_client, with_nats}
use scorpion.Cmd.Start.{
  Effect, redis_opened, redis_closed, nats_opened, nats_drained, Chosen, log_based, nats_based,
  Outside, Machine, did, with_publisher, with_connection, choose_publisher, close_publisher,
  running, with_client, with_strategy, with_metrics, with_config, run_start,
}

abbrev ending : Chosen → List Effect → List Effect
ending log_based es = es
ending (nats_based p) es = nats_drained ∷ es

-- The connections that were opened are closed, each once, the last one first.
abbrev pub Released : List Effect → Type 0
Released es =
    (es ≡ [])
    ⊎ (es ≡ redis_closed ∷ redis_opened ∷ [])
    ⊎ (es ≡ redis_closed ∷ nats_drained ∷ nats_opened ∷ redis_opened ∷ [])

module _ {r : Redis} (o : Outside r) where
  -- What the choice leaves, once the publisher is closed.
  abbrev Drained : List Effect → Chosen × Machine o → Type 0
  Drained es (chosen, m) =
      (ending chosen m.effects ≡ es) ⊎ (ending chosen m.effects ≡ nats_drained ∷ nats_opened ∷ es)

  close_publisher_lem :
      (chosen : Chosen) (m : Machine o)
      → (close_publisher o chosen m).effects ≡ ending chosen m.effects
  unfolding close_publisher
  close_publisher_lem log_based m = refl
  close_publisher_lem (nats_based p) m = refl

  with_publisher-Drained :
      (x : Result NatsPublisher × o.js.Js) (m : Machine o)
      → Drained m.effects (with_publisher o x (did o nats_opened m))
  unfolding with_publisher
  with_publisher-Drained (err e, s) m = inr refl
  with_publisher-Drained (ok p, s) m = inr refl

  with_connection-Drained :
      (cfg : Nats) (x : Result (Unit {0}) × o.js.Js) (m : Machine o)
      → Drained m.effects (with_connection o cfg x m)
  unfolding with_connection
  with_connection-Drained cfg (err e, s) m = inl refl
  with_connection-Drained cfg (ok _, s) m = with_publisher-Drained (new_nats_publisher o.js cfg s) m

  either-Drained :
      (b : Bool) (es : List Effect) (x y : Chosen × Machine o)
      → Drained es x
      → Drained es y
      → Drained es (if b then x else y)
  either-Drained true es x y h k = h
  either-Drained false es x y h k = k

  choose_publisher-Drained :
      (cfg : Nats) (m : Machine o) → Drained m.effects (choose_publisher o cfg m)
  unfolding choose_publisher
  choose_publisher-Drained cfg m =
      either-Drained cfg.enabled m.effects _ _
        (with_connection-Drained cfg (with_nats o.js o.connect cfg m.nats) m) (inl refl)

  running-effects :
      (cfg : Config) (strategy : Strategy) (chosen : Chosen) (m : Machine o)
      → (running o cfg strategy chosen m).1.effects ≡ redis_closed ∷ ending chosen m.effects
  unfolding running shutdown
  running-effects cfg strategy chosen m = ap (λ z. redis_closed ∷ z) (close_publisher_lem chosen _)

  with_client-Released :
      (cfg : Config) (strategy : Strategy) (x : Result Client × World r) (m : Machine o)
      → m.effects ≡ []
      → Released (with_client o cfg strategy x m).1.effects
  unfolding with_client
  with_client-Released cfg strategy (err e, w) m none_yet = inr (inl (rw none_yet refl))
  with_client-Released cfg strategy (ok client, w) m none_yet =
      let m₁ = did o redis_opened (record m { world = w }) in
      let (chosen, m') = choose_publisher o cfg.nats m₁ in
      let opened : m₁.effects ≡ redis_opened ∷ [] = ap (λ z. redis_opened ∷ z) none_yet in
      let done = running-effects cfg strategy chosen m' in
      elim (choose_publisher-Drained cfg.nats m₁) [
        | inl same ↦ inr (inl (done ∙ ap (λ z. redis_closed ∷ z) (same ∙ opened)))
        | inr more ↦ inr (
            inr (
              done
              ∙ ap (λ z. redis_closed ∷ z)
                  (more ∙ ap (λ z. nats_drained ∷ nats_opened ∷ z) opened)))
      ]

  with_strategy-Released :
      (cfg : Config) (x : Result Strategy) (m : Machine o)
      → m.effects ≡ []
      → Released (with_strategy o cfg x m).1.effects
  unfolding with_strategy
  with_strategy-Released cfg (err e) m none_yet = inl none_yet
  with_strategy-Released cfg (ok strategy) m none_yet =
      with_client-Released cfg strategy (new_client cfg.redis true m.world) m none_yet

  with_metrics-Released :
      (cfg : Config) (x : Option o.registerer.Registry) (m : Machine o)
      → m.effects ≡ []
      → Released (with_metrics o cfg x m).1.effects
  unfolding with_metrics
  with_metrics-Released cfg none m none_yet = inl none_yet
  with_metrics-Released cfg (some registry) m none_yet =
      with_strategy-Released cfg (new_ip_strategy o.ip_libs cfg.ip) _ none_yet

  with_config-Released :
      (c : Option Config) (e : Option String) (m : Machine o)
      → m.effects ≡ []
      → Released (with_config o c e m).1.effects
  unfolding with_config with_metrics
  with_config-Released c (some e) m none_yet = inl none_yet
  with_config-Released none none m none_yet = inl none_yet
  with_config-Released (some cfg) none m none_yet =
      with_metrics-Released cfg (new_metrics o.registerer m.registry) _ none_yet

  -- However the command ends, every connection to Redis and to NATS that it opened is closed again,
  -- once, and the last one first: after an error in the settings, a Redis that does not answer, a
  -- publisher that cannot be made, and a signal.
  pub start_releases :
      (config_path : String) (m : Machine o)
      → m.effects ≡ []
      → Released (run_start o config_path m).1.effects
  unfolding run_start
  start_releases config_path m none_yet =
      let (loaded, printed) = load o.config_libs config_path m.printed in
      with_config-Released loaded.config loaded.error (record m { printed = printed }) none_yet
