-- ===== src/Cli/Parse.antt =====
-- The option loop of `main` in MemoryLatencyAnalyzer_linux/src/main.cpp. A round reads one argument,
-- and the value behind it where the option takes one.
use Prim.Native.String.{String}
use memory_latency_analyzer.Base.{
  ℕ, zero, suc, Bool, true, false, not, none, some, List, [], ◌∷◌, length, if◌then◌else◌,
}
use memory_latency_analyzer.Base.Int.{ℤ, pos, leb_ℤ, ltb_ℤ}
use memory_latency_analyzer.Cli.Numbers.{consume_int, consume_size_mib}
use memory_latency_analyzer.Cli.Options.{Options, Flag, flag_of}

-- What a round does: go on with the rest, print the help, or print a message and return 2.
pub data Round : Type 0 where
  next : List String → Options → Round
  print_help : Round
  refuse : String → Round
  unknown : String → Round

-- How the loop ends. `exhausted` is the end of the model's fuel, not of the program.
pub data Outcome : Type 0 where
  accepted : Options → Outcome
  help_shown : Outcome
  refused : String → Outcome
  unknown_option : String → Outcome
  exhausted : Outcome

-- `!consume_int(argc, argv, i, target) || !valid(target)`.
unfoldable pub take_int : List String → (ℤ → Bool) → (ℤ → Options) → String → Round
take_int args valid store message = elim (consume_int args) [
  | none ↦ refuse message
  | some (value, rest) ↦ if valid value then next rest (store value) else refuse message
]

unfoldable pub take_size : List String → (ℕ → Options) → String → Round
take_size args store message = elim (consume_size_mib args) [
  | none ↦ refuse message
  | some (size, rest) ↦ next rest (store size)
]

unfoldable pub take_text : List String → (String → Options) → String → Round
take_text [] store message = refuse message
take_text (arg ∷ rest) store message = next rest (store arg)

abbrev pub any_int : ℤ → Bool
any_int z = true

abbrev pub positive : ℤ → Bool
positive z = not (leb_ℤ z (pos 0))

abbrev pub not_negative : ℤ → Bool
not_negative z = not (ltb_ℤ z (pos 0))

-- The branch of an option, with the arguments behind it.
unfoldable pub handle : Flag → List String → Options → Round
unfolding take_int take_size take_text
handle Flag.help args o = print_help
handle Flag.spectre args o = next args (record o { run_spectre = true })
handle Flag.quiet_flag args o = next args (record o { quiet = true })
handle Flag.verbose_flag args o = next args (record o { verbose = true })
handle Flag.no_bandwidth args o = next args (record o { run_bandwidth = false })
handle Flag.no_shared_memory args o = next args (record o { run_shared_memory = false })
handle Flag.rounds_of args o =
    take_int args any_int (λ v. record o { rounds = v }) "Invalid --rounds value"
handle Flag.iterations_of args o =
    take_int args any_int (λ v. record o { iterations = v }) "Invalid --iterations value"
handle Flag.warmup_of args o =
    take_int args any_int (λ v. record o { warmup = v }) "Invalid --warmup value"
handle Flag.shm_iterations_of args o =
    take_int args any_int (λ v. record o { shm_iterations = v }) "Invalid --shm-iterations value"
handle Flag.numa_node_of args o =
    take_int args not_negative (λ v. record o { numa_node = v }) "Invalid --numa-node value"
handle Flag.numa_matrix args o = next args (record o { run_numa_matrix_mode = true })
handle Flag.buffer_mib args o =
    take_size args (λ v. record o { buffer_size = v }) "Invalid --buffer-mib value"
handle Flag.bandwidth_mib args o =
    take_size args (λ v. record o { bandwidth_size = v }) "Invalid --bandwidth-mib value"
handle Flag.spectre_lab args o = next args (record o { run_spectre_lab = true })
handle Flag.lab_runs args o =
    take_int args positive (λ v. record o { spectre_lab_runs = v }) "Invalid --lab-runs value"
handle Flag.phase5_lab args o = next args (record o { run_phase5_lab = true })
handle Flag.phase5_runs_of args o =
    take_int args positive (λ v. record o { phase5_runs = v }) "Invalid --phase5-runs value"
handle Flag.cpu_capability args o = next args (record o { run_cpu_capability = true })
handle Flag.compute_seconds_of args o =
    take_int args positive (λ v. record o { compute_seconds = v }) "Invalid --compute-seconds value"
handle Flag.evaluation_lab args o = next args (record o { run_evaluation_lab = true })
handle Flag.evaluation_runs_of args o =
    take_int args positive (λ v. record o { evaluation_runs = v }) "Invalid --evaluation-runs value"
handle Flag.trace_samples_of args o =
    take_int args positive (λ v. record o { trace_samples = v }) "Invalid --trace-samples value"
handle Flag.trace_average_of args o =
    take_int args positive (λ v. record o { trace_average = v }) "Invalid --trace-average value"
handle Flag.evaluation_report_of args o =
    take_text args (λ v. record o { evaluation_report = v }) "Missing --evaluation-report filename"
handle Flag.operational_lab args o = next args (record o { run_operational_lab = true })
handle Flag.operational_runs_of args o =
    take_int args positive (λ v. record o { operational_runs = v })
      "Invalid --operational-runs value"
handle Flag.operational_report_of args o =
    take_text args (λ v. record o { operational_report = v })
      "Missing --operational-report filename"
handle Flag.spectre_tries_of args o =
    take_int args positive (λ v. record o { spectre_tries = v }) "Invalid --spectre-tries value"
handle Flag.csv args o = take_text args (λ v. record o { csv_file = v }) "Missing --csv filename"

unfoldable pub round : String → List String → Options → Round
round arg args o = elim (flag_of arg) [ none ↦ unknown arg | some flag ↦ handle flag args o ]

-- The loop; each round drops at least one argument, so their number is fuel enough.
unfoldable pub parse_from : ℕ → List String → Options → Outcome
parse_from fuel [] o = accepted o
parse_from zero (arg ∷ args) o = exhausted
parse_from (suc fuel) (arg ∷ args) o = elim (round arg args o) [
  | next rest o' ↦ parse_from fuel rest o'
  | print_help ↦ help_shown
  | refuse message ↦ refused message
  | unknown name ↦ unknown_option name
]

-- `args` is `argv[1]` onwards.
unfoldable pub parse : List String → Options → Outcome
unfolding parse_from
parse args o = parse_from (length args) args o
