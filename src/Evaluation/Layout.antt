-- ===== src/Evaluation/Layout.antt =====
-- `control_matrix` and `write_report` of MemoryLatencyAnalyzer_linux/src/evaluation_lab.cpp: what the stream gets. How it
-- prints a `double` is a parameter, and what the file answers.
use Prim.Native.String.{String}
use memory_latency_analyzer.Base.{
  Bool, false, Option, none, some, List, [], ◌∷◌, length, if◌then◌else◌,
}
use memory_latency_analyzer.Base.Int.{ℤ}
use memory_latency_analyzer.Base.Text.{Bytes, codes, print_nat, to_string}
use memory_latency_analyzer.Evaluation.Real.{Real}
use memory_latency_analyzer.Evaluation.Metrics.{TvlaResult}
use memory_latency_analyzer.Evaluation.Run.{Bench, LabResult}
use memory_latency_analyzer.Operational.Json.{json_escape, bool_word, members_from}
use memory_latency_analyzer.Report.Rows.{stream}

pub record PlatformSignature : Type 0 where
  pub vendor : Bytes
  pub brand : Bytes
  pub os_release : Bytes
  pub machine : Bytes
  pub physical_cores : ℤ
  pub logical_cpus : ℤ
  pub packages : ℤ
  pub smt_active : Bool

pub record ControlEvaluation : Type 0 where
  pub control : Bytes
  pub scenario : Bytes
  pub expected_action : Bytes
  pub evidence : Bytes
  pub executed : Bool

abbrev control_case : (control scenario expected_action evidence : String) → ControlEvaluation
control_case control scenario expected_action evidence = record {
  control = codes control;
  scenario = codes scenario;
  expected_action = codes expected_action;
  evidence = codes evidence;
  executed = false;
}

unfoldable pub control_matrix : List ControlEvaluation
control_matrix =
    control_case "EDR" "simulated suspicious execution" "alert and retain telemetry"
      "synthetic event only; no real process execution"
    ∷ control_case "DLP" "simulated sensitive-data export" "alert or block the transfer"
        "synthetic event only; no data leaves the process"
    ∷ control_case "Microsegmentation" "simulated unauthorized network egress" "deny the flow"
        "synthetic policy event only; no socket is opened"
    ∷ control_case "Least privilege" "simulated protected-resource access path" "deny access"
        "synthetic authorization event only"
    ∷ control_case "Network monitoring" "simulated command-channel pattern"
        "generate observable network telemetry" "synthetic event only; no command channel exists"
    ∷ control_case "Persistence monitoring" "simulated persistence attempt"
        "alert and retain an audit event"
        "synthetic event only; no persistence mechanism is created"
    ∷ control_case "Stealth/evasion monitoring" "simulated defense-evasion indicator"
        "raise a reviewable signal" "synthetic event only; no evasion logic is executed"
    ∷ control_case "Data-flow monitoring" "simulated sensitive-data path"
        "track source-to-sink movement" "synthetic event only; data remains local"
    ∷ []

-- What the stream gets for one control, up to its closing brace.
abbrev pub control_pieces : ControlEvaluation → List Bytes → List Bytes
control_pieces c rest =
    codes "    {\n"
    ∷ codes "      \"control\": \""
    ∷ json_escape c.control
    ∷ codes "\",\n"
    ∷ codes "      \"scenario\": \""
    ∷ json_escape c.scenario
    ∷ codes "\",\n"
    ∷ codes "      \"expected_action\": \""
    ∷ json_escape c.expected_action
    ∷ codes "\",\n"
    ∷ codes "      \"executed\": "
    ∷ bool_word c.executed
    ∷ codes ",\n"
    ∷ codes "      \"evidence\": \""
    ∷ json_escape c.evidence
    ∷ codes "\"\n"
    ∷ codes "    }"
    ∷ rest

module _ (r : Real) (b : Bench) (show : Real.D r → Bytes) where
  open r use {D}

  -- The medians behind the first one.
  unfoldable pub medians_from : List D → List Bytes → List Bytes
  medians_from [] rest = rest
  medians_from (m ∷ ms) rest = codes ", " ∷ show m ∷ medians_from ms rest

  abbrev pub median_pieces : List D → List Bytes → List Bytes
  median_pieces [] rest = rest
  median_pieces (m ∷ ms) rest = show m ∷ medians_from ms rest

  -- The lists at the end.
  abbrev pub list_pieces : List D → List ControlEvaluation → List Bytes
  list_pieces run_medians controls =
      codes "  \"run_medians\": ["
      ∷ median_pieces run_medians (
          codes "],\n"
          ∷ codes "  \"control_evaluation\": [\n"
          ∷ members_from control_pieces (length controls) 0 controls
              (codes "  ]\n" ∷ codes "}\n" ∷ []))

  abbrev pub platform_pieces : PlatformSignature → List Bytes → List Bytes
  platform_pieces platform rest =
      codes "  \"platform\": {\n"
      ∷ codes "    \"vendor\": \""
      ∷ json_escape platform.vendor
      ∷ codes "\",\n"
      ∷ codes "    \"brand\": \""
      ∷ json_escape platform.brand
      ∷ codes "\",\n"
      ∷ codes "    \"os_release\": \""
      ∷ json_escape platform.os_release
      ∷ codes "\",\n"
      ∷ codes "    \"machine\": \""
      ∷ json_escape platform.machine
      ∷ codes "\",\n"
      ∷ codes "    \"physical_cores\": "
      ∷ to_string platform.physical_cores
      ∷ codes ",\n"
      ∷ codes "    \"logical_cpus\": "
      ∷ to_string platform.logical_cpus
      ∷ codes ",\n"
      ∷ codes "    \"packages\": "
      ∷ to_string platform.packages
      ∷ codes ",\n"
      ∷ codes "    \"smt_active\": "
      ∷ bool_word platform.smt_active
      ∷ codes "\n"
      ∷ codes "  },\n"
      ∷ rest

  abbrev pub criteria_pieces : List Bytes → List Bytes
  criteria_pieces rest =
      codes "  \"acceptance_criteria\": {\n"
      ∷ codes "    \"repeatability_cv_percent_max\": 10.0,\n"
      ∷ codes "    \"classification_error_percent_max\": 5.0,\n"
      ∷ codes "    \"tvla_reference_threshold\": 4.5\n"
      ∷ codes "  },\n"
      ∷ rest

  -- The counts at the start, and the scores behind them.
  abbrev pub count_pieces : LabResult r b → (window : ℤ) → List Bytes → List Bytes
  count_pieces e window rest =
      codes "  \"lab\": \"evaluation_validation_lab\",\n"
      ∷ codes "  \"scope\": \"local_synthetic_reference_fixture\",\n"
      ∷ codes "  \"runs\": "
      ∷ to_string e.runs
      ∷ codes ",\n"
      ∷ codes "  \"trace_samples\": "
      ∷ to_string e.trace_samples
      ∷ codes ",\n"
      ∷ codes "  \"averaging_window\": "
      ∷ to_string window
      ∷ codes ",\n"
      ∷ codes "  \"simulated_capture_faults\": "
      ∷ print_nat e.simulated_capture_faults
      ∷ codes ",\n"
      ∷ codes "  \"recovered_captures\": "
      ∷ print_nat e.recovered_captures
      ∷ codes ",\n"
      ∷ codes "  \"recovery_rate_percent\": "
      ∷ show e.recovery_rate_percent
      ∷ codes ",\n"
      ∷ codes "  \"aligned_samples\": "
      ∷ print_nat e.aligned_samples
      ∷ codes ",\n"
      ∷ codes "  \"alignment_loss_percent\": "
      ∷ show e.alignment_loss_percent
      ∷ codes ",\n"
      ∷ codes "  \"fixed_input_count\": "
      ∷ print_nat e.fixed_metrics.input_count
      ∷ codes ",\n"
      ∷ codes "  \"fixed_kept_count\": "
      ∷ print_nat e.fixed_metrics.kept_count
      ∷ codes ",\n"
      ∷ codes "  \"fixed_rejected_count\": "
      ∷ print_nat e.fixed_metrics.rejected_count
      ∷ codes ",\n"
      ∷ codes "  \"random_input_count\": "
      ∷ print_nat e.random_metrics.input_count
      ∷ codes ",\n"
      ∷ codes "  \"random_kept_count\": "
      ∷ print_nat e.random_metrics.kept_count
      ∷ codes ",\n"
      ∷ codes "  \"random_rejected_count\": "
      ∷ print_nat e.random_metrics.rejected_count
      ∷ codes ",\n"
      ∷ rest

  abbrev pub score_pieces : LabResult r b → TvlaResult D → List Bytes → List Bytes
  score_pieces e tvla_clean rest =
      codes "  \"snr_linear\": "
      ∷ show e.snr_linear
      ∷ codes ",\n"
      ∷ codes "  \"snr_db\": "
      ∷ show e.snr_db
      ∷ codes ",\n"
      ∷ codes "  \"classification_error_percent\": "
      ∷ show e.classification_error_percent
      ∷ codes ",\n"
      ∷ codes "  \"repeatability_cv_percent\": "
      ∷ show e.repeatability_cv_percent
      ∷ codes ",\n"
      ∷ codes "  \"tvla_raw_t\": "
      ∷ show e.tvla.t_statistic
      ∷ codes ",\n"
      ∷ codes "  \"tvla_clean_t\": "
      ∷ show tvla_clean.t_statistic
      ∷ codes ",\n"
      ∷ codes "  \"tvla_threshold\": "
      ∷ show e.tvla.threshold
      ∷ codes ",\n"
      ∷ codes "  \"tvla_raw_threshold_exceeded\": "
      ∷ bool_word e.tvla.threshold_exceeded
      ∷ codes ",\n"
      ∷ codes "  \"tvla_clean_threshold_exceeded\": "
      ∷ bool_word tvla_clean.threshold_exceeded
      ∷ codes ",\n"
      ∷ codes "  \"repeatability_ok\": "
      ∷ bool_word e.repeatability_ok
      ∷ codes ",\n"
      ∷ codes "  \"leakage_detected\": "
      ∷ bool_word e.leakage_detected
      ∷ codes ",\n"
      ∷ rest

  unfoldable pub report_pieces :
      LabResult r b
      → (window : ℤ) → PlatformSignature
      → List ControlEvaluation
      → TvlaResult D
      → List D
      → List Bytes
  unfolding members_from medians_from
  report_pieces e window platform controls tvla_clean run_medians =
      codes "{\n"
      ∷ count_pieces e window (
          score_pieces e tvla_clean
            (criteria_pieces (platform_pieces platform (list_pieces run_medians controls))))

  -- `opens`: whether the file is opened, `writes`: whether the stream is good at the end.
  unfoldable pub write_report :
      (opens writes : Bool)
      → LabResult r b
      → (window : ℤ) → PlatformSignature
      → List ControlEvaluation
      → TvlaResult D
      → List D
      → Bool × Option Bytes
  unfolding stream report_pieces
  write_report opens writes e window platform controls tvla_clean run_medians =
      if opens
      then (writes, some (stream (report_pieces e window platform controls tvla_clean run_medians)))
      else (false, none)
