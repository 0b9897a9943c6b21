-- ===== src/Tests/Telemetries.antt =====
-- A process whose first installation fails at its fourth step.
use claim_automation_cloud.Prelude.{
  ◌≡◌, refl, Bool, true, false, none, some, [], ◌∷◌, ◌==◌, length, if◌then◌else◌,
}
use claim_automation_cloud.Text.{codes}
use claim_automation_cloud.Exec.{Result, ok, err, other_error, try_except, ◌>>=◌}
use claim_automation_cloud.Telemetry.{
  Event, Log, Call, fresh_process, perform, perform_all, install, install_or_not, setup_telemetry,
  after_setups,
}
use claim_automation_cloud.Telemetry.Once.{handlers, setup_telemetry-answer}

abbrev flaky : Log → Event → Result (Unit {0})
flaky log e = if length log == 3 then err (other_error (codes "exporter")) else ok tt

abbrev steady : Log → Event → Result (Unit {0})
steady log e = ok tt

abbrev deployed : Call
deployed = record {
  span_exporter = false;
  log_exporter = false;
  connection_string = some (codes "c");
}

abbrev mismatched : Call
mismatched = record { span_exporter = true; log_exporter = false; connection_string = none }

abbrev twice_live : Result Bool × Bool
twice_live =
    let (r, p) =
      setup_telemetry steady deployed
        (after_setups steady (mismatched ∷ deployed ∷ []) fresh_process) in
    (r, p.installed)

steady_twice : twice_live ≡ (ok true, true)
unfolding setup_telemetry after_setups install_or_not install perform_all perform try_except ◌>>=◌
steady_twice = refl

failed_then :
    setup_telemetry flaky deployed (after_setups flaky (mismatched ∷ []) fresh_process) ≡ (
      ok false,
      (setup_telemetry flaky deployed (after_setups flaky (mismatched ∷ []) fresh_process)).1,
    )
unfolding setup_telemetry after_setups install_or_not install perform_all perform try_except ◌>>=◌
failed_then = refl

setup_telemetry-answer_example :
    (false
      ≡ (setup_telemetry flaky deployed
          (after_setups flaky (mismatched ∷ []) fresh_process)).1.installed)
    × (handlers
          (setup_telemetry flaky deployed
            (after_setups flaky (mismatched ∷ []) fresh_process)).1.log
        ≡ (if false then 1 else 0))
setup_telemetry-answer_example = setup_telemetry-answer flaky (mismatched ∷ []) deployed failed_then
