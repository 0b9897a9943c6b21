-- ===== src/Telemetry.antt =====
-- The telemetry's wiring: backend/app/observability/setup.py. A process is whether telemetry is installed,
-- whether its providers are set, and the events that took effect, newest first; OpenTelemetry and the
-- exporters are `attempt`, which decides from the events so far whether an event succeeds. An event that
-- raises is taken to have had no effect. Locks, imports, log lines and the thread of the flush are left
-- out.
pub mod Once
use claim_automation_cloud.Prelude.{
  ℕ, Bool, true, false, not, Option, none, some, List, [], ◌∷◌, any, if◌then◌else◌,
}
use claim_automation_cloud.Text.{Text, codes, nonempty, starts_with}
use claim_automation_cloud.Exec.{
  Error, value_error, Result, ok, err, Exec, pure, raise, ◌>>=◌, try_except,
}

-- The steps of `_install`, and the calls of the providers and the instrumentor.
pub data Event : Type 0 where
  -- Everything before the commit block, with the connection string if there is one.
  built : Option Text → Event
  httpx_instrumented tracing_implementation_set tracer_provider_set logger_provider_set
        handler_added :
      Event
  app_instrumented tracer_flushed logger_flushed : Event

abbrev pub Log : Type 0
Log = List Event

pub record Process : Type 0 where
  pub installed : Bool
  pub providers : Bool
  pub log : Log

abbrev pub fresh_process : Process
fresh_process = record { installed = false; providers = false; log = [] }

-- The prefixes of the loggers whose records are dropped.
abbrev pub drop_prefixes : List Text
drop_prefixes =
    codes "opentelemetry"
    ∷ codes "azure.monitor.opentelemetry"
    ∷ codes "azure.core.pipeline.policies"
    ∷ []

-- `_DropTelemetryInternals.filter`
unfoldable pub passes_filter : Text → Bool
passes_filter name = not (any (λ p. starts_with p name) drop_prefixes)

-- A call of `setup_telemetry`: which exporters are injected, and the environment's connection string.
pub record Call : Type 0 where
  pub span_exporter : Bool
  pub log_exporter : Bool
  pub connection_string : Option Text

abbrev same : Bool → Bool → Bool
same true b = b
same false b = not b

module _ (attempt : Log → Event → Result (Unit {0})) where
  abbrev pub recorded : Result (Unit {0}) → Event → Process → Result (Unit {0}) × Process
  recorded (ok u) e p =
      (ok tt, record { installed = p.installed; providers = p.providers; log = e ∷ p.log })
  recorded (err x) e p = (err x, p)

  unfoldable pub perform : Event → Exec Process (Unit {0})
  perform e p = recorded (attempt p.log e) e p

  unfoldable pub perform_all : List Event → Exec Process (Unit {0})
  unfolding perform
  perform_all [] = pure tt
  perform_all (e ∷ es) = perform e >>= λ _. perform_all es

  abbrev pub set_providers : Exec Process (Unit {0})
  set_providers p = (ok tt, record { installed = p.installed; providers = true; log = p.log })

  abbrev pub set_installed : Exec Process Bool
  set_installed p = (ok true, record { installed = true; providers = p.providers; log = p.log })

  -- The events of `_install` before the last one.
  abbrev pub wiring : Option Text → List Event
  wiring conn =
      built conn
      ∷ httpx_instrumented
      ∷ tracing_implementation_set
      ∷ tracer_provider_set
      ∷ logger_provider_set
      ∷ []

  -- `_install`
  unfoldable pub install : Option Text → Exec Process (Unit {0})
  unfolding perform_all
  install conn = perform_all (wiring conn) >>= λ _. perform handler_added >>= λ _. set_providers

  -- The `try` round `_install`.
  unfoldable pub install_or_not : Option Text → Exec Process Bool
  unfolding install
  install_or_not conn = try_except (install conn >>= λ _. set_installed) (λ e. pure false)

  abbrev pub from_environment : Option Text → Exec Process Bool
  from_environment none = pure false
  from_environment (some s) = if nonempty s then install_or_not (some s) else pure false

  abbrev pub if_absent : Call → Bool → Exec Process Bool
  if_absent call true = pure true
  if_absent call false =
      if same call.span_exporter call.log_exporter
      then if call.span_exporter
        then install_or_not none
        else from_environment call.connection_string
      else raise (value_error (codes "span_exporter and log_exporter must be injected together"))

  unfoldable pub setup_telemetry : Call → Exec Process Bool
  unfolding install_or_not
  setup_telemetry call p = if_absent call p.installed p

  -- `instrument_fastapi`
  unfoldable pub instrument_fastapi : Exec Process (Unit {0})
  instrument_fastapi p =
      if p.installed then try_except (perform app_instrumented) (λ e. pure tt) p else pure tt p

  -- `_flush_both`
  unfoldable pub flush_both : Exec Process (Unit {0})
  flush_both p =
      if p.providers
      then (try_except (perform tracer_flushed) (λ e. pure tt) >>= λ _.
            try_except (perform logger_flushed) (λ e. pure tt))
          p
      else pure tt p

  -- The process after calls of `setup_telemetry`, whatever each returns or raises.
  unfoldable pub after_setups : List Call → Process → Process
  unfolding setup_telemetry
  after_setups [] p = p
  after_setups (call ∷ calls) p = after_setups calls (setup_telemetry call p).1
