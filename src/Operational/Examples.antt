-- ===== src/Operational/Examples.antt =====
-- Tests and examples of the operational lab.
use mathlib.Core.Option
use memory_latency_analyzer.Base.{◌*◌, ◌/◌, ◌≡◌, true, some, arith}
use memory_latency_analyzer.Base.Int.{pos}
use memory_latency_analyzer.Base.Text.{Bytes, codes, print_nat}
use memory_latency_analyzer.Operational.Scenarios.{Rate, LabResult, scenarios}
use memory_latency_analyzer.Operational.Run.{run}
use memory_latency_analyzer.Operational.Counts.{run_counts_exact}
use memory_latency_analyzer.Operational.Report.{expected_value, run_report_counts}
use memory_latency_analyzer.Json.Emitting.{read_json}
use memory_latency_analyzer.Json.Numbers.{is_number-print_nat}

-- A rate as whole percent.
abbrev percent : Rate → Bytes
percent r = print_nat (r.numerator / r.denominator)

abbrev three_runs : LabResult
three_runs = (run percent scenarios true true (pos 3) (codes "r.json")).0

run_counts_exact_example :
    (three_runs.events_generated ≡ 9 * 3)
    × (three_runs.detected_events ≡ three_runs.events_generated)
    × (three_runs.missed_events ≡ 0)
    × (three_runs.recovered_events ≡ three_runs.recovery_attempts)
    × (three_runs.recovery_attempts ≡ three_runs.detected_events)
    × (three_runs.false_positive_rate ≡ record { numerator = 100 * 3; denominator = 20 * 3 })
    × (three_runs.report_written ≡ true)
run_counts_exact_example =
    run_counts_exact percent true true 3 (codes "r.json") (omega arith) (omega arith) (omega arith)

run_report_counts_example :
    (Option.map read_json (run percent scenarios true true (pos 3) (codes "r.json")).1
      ≡ some (some (expected_value percent 3 three_runs)))
    × (three_runs.report_written ≡ true)
run_report_counts_example =
    run_report_counts percent true 3 (codes "r.json") (omega arith) (omega arith) (omega arith)
      (is_number-print_nat _, is_number-print_nat _, is_number-print_nat _)
