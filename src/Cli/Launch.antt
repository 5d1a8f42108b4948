-- ===== src/Cli/Launch.antt =====
-- What `main` of MemoryLatencyAnalyzer_linux/src/main.cpp hands to the modes that it starts.
use Prim.Native.String.{String}
use memory_latency_analyzer.Base.{
  ◌<◌, ◌^◌, ◌≡◌, refl, ◌⊎◌, Bool, true, false, none, List, ◌∷◌, ◌++◌, arith, inl, inr, Option-cases,
  Bool-cases, ◌∙◌,
}
use memory_latency_analyzer.Base.Int.{ℤ, pos, negsuc, ◌<ℤ◌, ◌≤ℤ◌}
use memory_latency_analyzer.Cli.Options.{Options, defaults, flag_of}
use memory_latency_analyzer.Cli.Parse.{
  Outcome, accepted, help_shown, refused, unknown_option, exhausted, parse, handle, round,
}
use memory_latency_analyzer.Cli.Plan.{
  Plan, numa_matrix, operational_lab, evaluation_lab, cpu_capability, phase5_lab, spectre_lab,
  spectre_demo, measure, exit_with, start, usage, is_set, check, to_size, select_mode, dispatch,
  launch, after_parse,
}
use memory_latency_analyzer.Cli.Bounds.{
  IsPositiveInt, IsParsed, parse-IsParsed, defaults-IsParsed, check_exact,
}
use memory_latency_analyzer.Cli.Compose.{parse-append}

-- The arguments that a mode can count on; `available` says whether there is NUMA support.
abbrev pub IsRunnable : Bool → Plan → Type 0
IsRunnable available (numa_matrix buffer bandwidth iterations warmup rounds) =
    (available ≡ true)
    × (buffer < 2 ^ 51)
    × (0 < bandwidth)
    × (bandwidth < 2 ^ 51)
    × (pos 0 <ℤ iterations)
    × (pos 0 ≤ℤ warmup)
    × (pos 0 <ℤ rounds)
IsRunnable available (operational_lab runs report) = IsPositiveInt runs
IsRunnable available (evaluation_lab runs samples average report) =
    IsPositiveInt runs × IsPositiveInt samples × (0 < average) × (average < 2 ^ 31)
IsRunnable available (cpu_capability seconds) = IsPositiveInt seconds
IsRunnable available (phase5_lab runs tries) = IsPositiveInt runs × IsPositiveInt tries
IsRunnable available (spectre_lab runs tries) = IsPositiveInt runs × IsPositiveInt tries
IsRunnable available (spectre_demo tries) = IsPositiveInt tries
IsRunnable available (measure o) =
    ((is_set o.numa_node ≡ false) ⊎ (available ≡ true))
    × (o.buffer_size < 2 ^ 51)
    × (0 < o.bandwidth_size)
    × (o.bandwidth_size < 2 ^ 51)
    × (pos 0 <ℤ o.iterations)
    × (pos 0 ≤ℤ o.warmup)
    × (pos 0 <ℤ o.rounds)
    × ((o.run_shared_memory ≡ false) ⊎ (pos 0 <ℤ o.shm_iterations))

to_size_pos : (z : ℤ) → IsPositiveInt z → (0 < to_size z) × (to_size z < 2 ^ 31)
unfolding to_size
to_size_pos (pos n) h = h
to_size_pos (negsuc n) h = absurd (omega arith)

select_mode-IsRunnable :
    (available : Bool) (o : Options)
    → IsParsed o
    → IsRunnable available (measure o)
    → IsRunnable available (select_mode o)
unfolding select_mode
select_mode-IsRunnable available o p m = elim (Bool-cases o.run_operational_lab) [
  | inl e1 ↦ rw (e1, select_mode) p.operational_pos
  | inr e1 ↦ elim (Bool-cases o.run_evaluation_lab) [
    | inl e2 ↦
        let (more, less) = to_size_pos o.trace_average p.average_pos in
        rw (e1, e2, select_mode) (p.evaluation_pos, p.samples_pos, more, less)
    | inr e2 ↦ elim (Bool-cases o.run_cpu_capability) [
      | inl e3 ↦ rw (e1, e2, e3, select_mode) p.seconds_pos
      | inr e3 ↦ elim (Bool-cases o.run_phase5_lab) [
        | inl e4 ↦ rw (e1, e2, e3, e4, select_mode) (p.phase5_pos, p.tries_pos)
        | inr e4 ↦ elim (Bool-cases o.run_spectre_lab) [
          | inl e5 ↦ rw (e1, e2, e3, e4, e5, select_mode) (p.lab_runs_pos, p.tries_pos)
          | inr e5 ↦ elim (Bool-cases o.run_spectre) [
            | inl e6 ↦ rw (e1, e2, e3, e4, e5, e6, select_mode) p.tries_pos
            | inr e6 ↦ rw (e1, e2, e3, e4, e5, e6, select_mode) m
          ]
        ]
      ]
    ]
  ]
]

dispatch-IsRunnable :
    (available : Bool) (o : Options) {plan : Plan}
    → IsParsed o
    → check o ≡ none
    → dispatch available o ≡ start plan
    → IsRunnable available plan
unfolding dispatch
dispatch-IsRunnable available o {plan} p c h =
    let (_, rounds, iterations, warmup, shm) = (check_exact o p).0 c in
    elim (Bool-cases o.run_numa_matrix_mode) [
      | inl matrix ↦ elim (Bool-cases available) [
        | inl there ↦
            let e : numa_matrix o.buffer_size o.bandwidth_size o.iterations o.warmup o.rounds
                ≡ plan =
              ground arith in
            rw (← e) (
              there, p.buffer_fits, p.bandwidth_fits.0, p.bandwidth_fits.1, iterations, warmup,
              rounds,
            )
        | inr missing ↦ absurd (ground arith)
      ]
      | inr single ↦
          let e : select_mode o ≡ plan = ground arith in
          let placed : (is_set o.numa_node ≡ false) ⊎ (available ≡ true) = ground arith in
          rw (← e) (
            select_mode-IsRunnable available o p (
              placed, p.buffer_fits, p.bandwidth_fits.0, p.bandwidth_fits.1, iterations, warmup,
              rounds, shm,
            ))
    ]

accepted_start :
    (available : Bool) (out : Outcome) {plan : Plan}
    → after_parse available out ≡ start plan
    → (o : Options) × (out ≡ accepted o) × (check o ≡ none) × (dispatch available o ≡ start plan)
accepted_start available (accepted o) h = elim (Option-cases (check o)) [
  | inl e ↦ (o, refl, e, ground arith)
  | inr (message, e) ↦ absurd (ground arith)
]
accepted_start available help_shown h = absurd (ground arith)
accepted_start available (refused message) h = absurd (ground arith)
accepted_start available (unknown_option arg) h = absurd (ground arith)
accepted_start available exhausted h = absurd (ground arith)

-- Whatever the command line is, a mode that `main` starts gets arguments in range: counts of runs, tries,
-- samples and seconds are positive `int`s, the block length of the evaluation lab is positive and not
-- changed by its cast, the measurements get positive rounds and iterations, a warmup of 0 or more and sizes
-- below 2^51 bytes, and NUMA placement is asked for only where NUMA support is there.
pub launch-IsRunnable :
    (available : Bool) (args : List String) {plan : Plan}
    → launch available args ≡ start plan
    → IsRunnable available plan
unfolding launch
launch-IsRunnable available args {plan} h =
    let (o, e, c, d) = accepted_start available (parse args defaults) h in
    dispatch-IsRunnable available o (parse-IsParsed args defaults defaults-IsParsed e) c d

help_first : (more : List String) (o : Options) → parse ("--help" ∷ more) o ≡ help_shown
unfolding parse round flag_of handle
help_first more o = refl

-- Behind any command line that the loop accepts, `--help` prints the usage and returns 0, whatever follows.
pub launch-help :
    (available : Bool) (args more : List String) {o : Options}
    → parse args defaults ≡ accepted o
    → launch available (args ++ "--help" ∷ more) ≡ exit_with 0 usage
launch-help available args more {o} h =
    let shown : parse (args ++ "--help" ∷ more) defaults ≡ help_shown =
      parse-append args ("--help" ∷ more) defaults h ∙ help_first more o in
    unfold launch in rw shown
