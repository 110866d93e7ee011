-- ===== src/Telemetry.antt =====
-- internal/telemetry/tracer.go: spans that do nothing, and spans that are written to the log.
pub mod Silent
use scorpion.Prelude.{ℕ, ◌-◌, String, not, Option, none, some, List, [], ◌∷◌, map, if◌then◌else◌}
use scorpion.Config.{Observability}
use scorpion.Log.{Logger, Slog, Arg, word, number, level_debug}

pub record Attr : Type 0 where
  pub key : String
  pub value : String

pub record LogSpan : Type 0 where
  pub name : String
  pub start_time : ℕ
  pub attrs : List Attr

pub data Span : Type 0 where
  noop_span : Span
  log_span : LogSpan → Span

pub data Tracer : Type 0 where
  noop_tracer log_tracer : Tracer

-- Times are milliseconds.
unfoldable pub start : Tracer → (now : ℕ) → String → List Attr → Span
start noop_tracer now name attrs = noop_span
start log_tracer now name attrs = log_span (record { name = name; start_time = now; attrs = attrs })

module _ (slog : Slog) (log : Logger) where
  unfoldable pub end_span : Span → (now : ℕ) → slog.Out → slog.Out
  end_span noop_span now out = out
  end_span (log_span s) now out =
      slog.write log level_debug "span"
        (("span", word s.name)
          ∷ ("duration_ms", number (now - s.start_time))
          ∷ map (λ a. (a.key, word a.value)) s.attrs)
        out

  unfoldable pub set_error : Span → Option String → slog.Out → slog.Out
  set_error noop_span e out = out
  set_error (log_span s) none out = out
  set_error (log_span s) (some e) out =
      slog.write log level_debug "span error" (("span", word s.name) ∷ ("error", word e) ∷ []) out

-- The shutdown function that `InitTracer` returns does nothing.
unfoldable pub init_tracer : Observability → Tracer
init_tracer cfg = if not cfg.tracing_enabled then noop_tracer else log_tracer
