-- ===== src/Defensive/Examples.antt =====
-- Tests and examples of the defensive lab.
use mathlib.Core.Option
use memory_latency_analyzer.Base.{◌≡◌, true, some, arith}
use memory_latency_analyzer.Base.Int.{pos}
use memory_latency_analyzer.Base.Text.{codes, print_nat}
use memory_latency_analyzer.Statistics.Hundredths.{hundredths}
use memory_latency_analyzer.Spectre.Reader.{initial_array}
use memory_latency_analyzer.Spectre.Perfect.{perfect}
use memory_latency_analyzer.Json.Emitting.{read_json}
use memory_latency_analyzer.Json.Numbers.{is_number-print_nat}
use memory_latency_analyzer.Defensive.Lab.{run}
use memory_latency_analyzer.Defensive.Report.{result_value, run_report}

run_report_example :
    let (result, file, s') =
      run hundredths print_nat perfect initial_array true true (pos 2) (pos 7) (codes "r.json") 0 in
    (Option.map read_json file ≡ some (some (result_value hundredths print_nat result)))
    × (result.report_written ≡ true)
    × (result.simulated_alerts ≡ 3)
    × (result.simulated_confirmed_alerts ≡ 3)
    × (result.simulated_false_positives ≡ 0)
run_report_example =
    run_report hundredths print_nat perfect initial_array true 2 7 (codes "r.json") 0 (omega arith)
      (omega arith) (omega arith) (is_number-print_nat _) (is_number-print_nat _)
