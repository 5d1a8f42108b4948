-- ===== src/Cli/Plan.antt =====
-- What `main` of MemoryLatencyAnalyzer_linux/src/main.cpp does behind the option loop: the final checks
-- and the order in which it looks for a mode. `available` is `NumaSupport::available()`.
use Prim.Native.String.{String}
use memory_latency_analyzer.Base.{
  ℕ, ◌+◌, ◌-◌, ◌^◌, Bool, not, ◌&&◌, ◌||◌, List, Option, none, some, if◌then◌else◌,
}
use memory_latency_analyzer.Base.Int.{ℤ, pos, negsuc, leb_ℤ, ltb_ℤ}
use memory_latency_analyzer.Cli.Options.{Options, defaults}
use memory_latency_analyzer.Cli.Parse.{
  Outcome, accepted, help_shown, refused, unknown_option, exhausted, parse,
}

-- A mode with the arguments that `main` calls it with.
pub data Plan : Type 0 where
  numa_matrix : (buffer bandwidth : ℕ) → (iterations warmup rounds : ℤ) → Plan
  operational_lab : (runs : ℤ) → (report : String) → Plan
  evaluation_lab : (runs samples : ℤ) → (average : ℕ) → (report : String) → Plan
  cpu_capability : (seconds : ℤ) → Plan
  phase5_lab : (runs tries : ℤ) → Plan
  spectre_lab : (runs tries : ℤ) → Plan
  spectre_demo : (tries : ℤ) → Plan
  measure : Options → Plan

-- The texts that `main` prints when it stops before any mode.
pub data Message : Type 0 where
  usage : Message
  text : String → Message
  unknown : String → Message

pub data Launch : Type 0 where
  exit_with : ℕ → Message → Launch
  start : Plan → Launch

abbrev pub is_set : ℤ → Bool
is_set node = not (ltb_ℤ node (pos 0))

abbrev pub not_positive : ℤ → Bool
not_positive z = leb_ℤ z (pos 0)

-- The condition of "Invalid numeric configuration".
unfoldable pub has_invalid_numbers : Options → Bool
has_invalid_numbers o =
    not_positive o.rounds
    || not_positive o.iterations
    || ltb_ℤ o.warmup (pos 0)
    || (o.run_shared_memory && not_positive o.shm_iterations)
    || not_positive o.spectre_tries
    || (o.run_spectre_lab && not_positive o.spectre_lab_runs)
    || (o.run_phase5_lab && not_positive o.phase5_runs)
    || (o.run_cpu_capability && not_positive o.compute_seconds)
    || (o.run_evaluation_lab
        && (not_positive o.evaluation_runs
            || not_positive o.trace_samples
            || not_positive o.trace_average))
    || (o.run_operational_lab && not_positive o.operational_runs)

-- The two checks behind the loop; `some` is the message of a return with 2.
unfoldable pub check : Options → Option String
check o =
    if is_set o.numa_node && o.run_numa_matrix_mode
    then some "--numa-node and --numa-matrix are mutually exclusive"
    else if has_invalid_numbers o
    then some "Invalid numeric configuration"
    else none

-- `static_cast<std::size_t>` of an `int`.
unfoldable pub to_size : ℤ → ℕ
to_size (pos n) = n
to_size (negsuc n) = 2 ^ 64 - (n + 1)

-- The modes behind the NUMA branches.
unfoldable pub select_mode : Options → Plan
unfolding to_size
select_mode o =
    if o.run_operational_lab
    then operational_lab o.operational_runs o.operational_report
    else if o.run_evaluation_lab
    then evaluation_lab o.evaluation_runs o.trace_samples (to_size o.trace_average)
        o.evaluation_report
    else if o.run_cpu_capability
    then cpu_capability o.compute_seconds
    else if o.run_phase5_lab
    then phase5_lab o.phase5_runs o.spectre_tries
    else if o.run_spectre_lab
    then spectre_lab o.spectre_lab_runs o.spectre_tries
    else if o.run_spectre
    then spectre_demo o.spectre_tries
    else measure o

unfoldable pub dispatch : Bool → Options → Launch
unfolding select_mode
dispatch available o =
    if o.run_numa_matrix_mode
    then if not available
      then exit_with 0 (text "NUMA support unavailable; matrix benchmark skipped.")
      else start (numa_matrix o.buffer_size o.bandwidth_size o.iterations o.warmup o.rounds)
    else if is_set o.numa_node && not available
    then exit_with 0 (text "NUMA support unavailable; --numa-node benchmark skipped.")
    else start (select_mode o)

abbrev pub after_parse : Bool → Outcome → Launch
after_parse available (accepted o) = elim (check o) [
  | none ↦ dispatch available o
  | some message ↦ exit_with 2 (text message)
]
after_parse available help_shown = exit_with 0 usage
after_parse available (refused message) = exit_with 2 (text message)
after_parse available (unknown_option arg) = exit_with 2 (unknown arg)
after_parse available exhausted = exit_with 2 (text "")

-- `main` up to the start of a mode; `args` is `argv[1]` onwards.
unfoldable pub launch : Bool → List String → Launch
unfolding parse check has_invalid_numbers dispatch
launch available args = after_parse available (parse args defaults)
