-- ===== src/Telemetry/Silent.antt =====
-- tracer.go, with logger.go: when spans are seen.
use scorpion.Prelude.{
  ℕ, ◌<◌, String, ◌≡◌, refl, ◌⊎◌, inl, inr, Bool-cases, false, Option, none, some, List, ◌==◌,
  arith,
}
use scorpion.Config.{Observability}
use scorpion.Log.{Slog, level_debug, severity, level_of, new_logger}
use scorpion.Telemetry.{Attr, Span, noop_span, log_span, start, end_span, set_error, init_tracer}

above_debug :
    (name : String) → (name == "debug") ≡ false → severity level_debug < severity (level_of name)
unfolding level_of
above_debug name e = elim (Bool-cases (name == "warn")) [
  | inl warns ↦ rw (e, warns) (omega arith)
  | inr other ↦ elim (Bool-cases (name == "error")) [
    | inl fails ↦ rw (e, other, fails) (omega arith)
    | inr info ↦ rw (e, other, info) (omega arith)
  ]
]

module _ (slog : Slog) (cfg : Observability) where
  quiet_span :
      (s : Span) (e : Option String) (now : ℕ) (out : slog.Out)
      → (cfg.log_level == "debug") ≡ false
      → (set_error slog (new_logger cfg) s e out ≡ out)
        × (end_span slog (new_logger cfg) s now out ≡ out)
  unfolding set_error end_span new_logger
  quiet_span noop_span e now out h = (refl, refl)
  quiet_span (log_span s) none now out h =
      (refl, slog.write_below _ _ _ _ out (above_debug cfg.log_level h))
  quiet_span (log_span s) (some e) now out h = (
    slog.write_below _ _ _ _ out (above_debug cfg.log_level h),
    slog.write_below _ _ _ _ out (above_debug cfg.log_level h),
  )

  -- Spans leave the log as it is, whatever their names, attributes, times and errors, unless tracing
  -- is enabled and the level of the log is "debug": with tracing enabled at the default level nothing
  -- is written.
  spans_silent :
      (cfg.tracing_enabled ≡ false) ⊎ ((cfg.log_level == "debug") ≡ false)
      → (now later : ℕ) (name : String) (attrs : List Attr) (e : Option String) (out : slog.Out)
      → let span = start (init_tracer cfg) now name attrs in
        (set_error slog (new_logger cfg) span e out ≡ out)
        × (end_span slog (new_logger cfg) span later out ≡ out)
  unfolding init_tracer start set_error end_span
  spans_silent (inl off) now later name attrs e out = rw off (refl, refl)
  spans_silent (inr high) now later name attrs e out =
      quiet_span (start (init_tracer cfg) now name attrs) e later out high
