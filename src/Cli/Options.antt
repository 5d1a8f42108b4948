-- ===== src/Cli/Options.antt =====
-- The variables that `main` of MemoryLatencyAnalyzer_linux/src/main.cpp fills from the command line,
-- and the options it knows.
use Prim.Native.String.{String}
use text.Mathlib.Text.{◌==◌ as str_eq}
use memory_latency_analyzer.Base.{ℕ, ◌*◌, Bool, true, false, Option, none, some, if◌then◌else◌}
use memory_latency_analyzer.Base.Int.{ℤ, pos, negsuc}

pub record Options : Type 0 where
  pub rounds : ℤ
  pub iterations : ℤ
  pub warmup : ℤ
  pub shm_iterations : ℤ
  pub spectre_tries : ℤ
  pub spectre_lab_runs : ℤ
  pub phase5_runs : ℤ
  pub compute_seconds : ℤ
  pub evaluation_runs : ℤ
  pub trace_samples : ℤ
  pub trace_average : ℤ
  pub operational_runs : ℤ
  pub numa_node : ℤ
  pub buffer_size : ℕ
  pub bandwidth_size : ℕ
  pub run_bandwidth : Bool
  pub run_shared_memory : Bool
  pub run_spectre : Bool
  pub run_spectre_lab : Bool
  pub run_phase5_lab : Bool
  pub run_cpu_capability : Bool
  pub run_evaluation_lab : Bool
  pub run_operational_lab : Bool
  pub quiet : Bool
  pub verbose : Bool
  pub run_numa_matrix_mode : Bool
  pub csv_file : String
  pub evaluation_report : String
  pub operational_report : String

-- The values before the loop; the numbers of `Config` are those of config/settings.hpp.
abbrev pub defaults : Options
defaults = record {
  rounds = pos 5;
  iterations = pos 1000;
  warmup = pos 150;
  shm_iterations = pos 2000;
  spectre_tries = pos 999;
  spectre_lab_runs = pos 5;
  phase5_runs = pos 5;
  compute_seconds = pos 1;
  evaluation_runs = pos 3;
  trace_samples = pos 2048;
  trace_average = pos 4;
  operational_runs = pos 3;
  numa_node = negsuc 0;
  buffer_size = 0;
  bandwidth_size = 64 * 1024 * 1024;
  run_bandwidth = true;
  run_shared_memory = true;
  run_spectre = false;
  run_spectre_lab = false;
  run_phase5_lab = false;
  run_cpu_capability = false;
  run_evaluation_lab = false;
  run_operational_lab = false;
  quiet = false;
  verbose = false;
  run_numa_matrix_mode = false;
  csv_file = "";
  evaluation_report = "evaluation_lab_report.json";
  operational_report = "operational_lab_report.json";
}

-- The tests of the option loop, in the order of its branches.
pub data Flag : Type 0 where
  help spectre quiet_flag verbose_flag no_bandwidth no_shared_memory : Flag
  rounds_of iterations_of warmup_of shm_iterations_of numa_node_of numa_matrix : Flag
  buffer_mib bandwidth_mib spectre_lab lab_runs phase5_lab phase5_runs_of : Flag
  cpu_capability compute_seconds_of evaluation_lab evaluation_runs_of : Flag
  trace_samples_of trace_average_of evaluation_report_of operational_lab : Flag
  operational_runs_of operational_report_of spectre_tries_of csv : Flag

later_flag : String → Option Flag
later_flag arg =
    if str_eq arg "--buffer-mib"
    then some Flag.buffer_mib
    else if str_eq arg "--bandwidth-mib"
    then some Flag.bandwidth_mib
    else if str_eq arg "--spectre-lab"
    then some Flag.spectre_lab
    else if str_eq arg "--lab-runs"
    then some Flag.lab_runs
    else if str_eq arg "--phase5-lab"
    then some Flag.phase5_lab
    else if str_eq arg "--phase5-runs"
    then some Flag.phase5_runs_of
    else if str_eq arg "--cpu-capability"
    then some Flag.cpu_capability
    else if str_eq arg "--compute-seconds"
    then some Flag.compute_seconds_of
    else if str_eq arg "--evaluation-lab"
    then some Flag.evaluation_lab
    else if str_eq arg "--evaluation-runs"
    then some Flag.evaluation_runs_of
    else if str_eq arg "--trace-samples"
    then some Flag.trace_samples_of
    else if str_eq arg "--trace-average"
    then some Flag.trace_average_of
    else if str_eq arg "--evaluation-report"
    then some Flag.evaluation_report_of
    else if str_eq arg "--operational-lab"
    then some Flag.operational_lab
    else if str_eq arg "--operational-runs"
    then some Flag.operational_runs_of
    else if str_eq arg "--operational-report"
    then some Flag.operational_report_of
    else if str_eq arg "--spectre-tries"
    then some Flag.spectre_tries_of
    else if str_eq arg "--csv"
    then some Flag.csv
    else none

-- Which branch of the loop an argument takes; `none` is the last `else`.
unfoldable pub flag_of : String → Option Flag
unfolding later_flag
flag_of arg =
    if str_eq arg "--help"
    then some Flag.help
    else if str_eq arg "--spectre"
    then some Flag.spectre
    else if str_eq arg "--quiet"
    then some Flag.quiet_flag
    else if str_eq arg "--verbose"
    then some Flag.verbose_flag
    else if str_eq arg "--no-bandwidth"
    then some Flag.no_bandwidth
    else if str_eq arg "--no-shared-memory"
    then some Flag.no_shared_memory
    else if str_eq arg "--rounds"
    then some Flag.rounds_of
    else if str_eq arg "--iterations"
    then some Flag.iterations_of
    else if str_eq arg "--warmup"
    then some Flag.warmup_of
    else if str_eq arg "--shm-iterations"
    then some Flag.shm_iterations_of
    else if str_eq arg "--numa-node"
    then some Flag.numa_node_of
    else if str_eq arg "--numa-matrix"
    then some Flag.numa_matrix
    else later_flag arg
