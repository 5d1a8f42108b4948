-- ===== src/Cli/Bounds.antt =====
-- What holds of the options once the loop of `main` (MemoryLatencyAnalyzer_linux/src/main.cpp) has accepted
-- a command line, and what is left for its final checks.
use Prim.Native.String.{String}
use mathlib.Core.Bool.{and-false, or-false}
use memory_latency_analyzer.Base.{
  ℕ, zero, suc, ◌^◌, ◌≤◌, ◌<◌, ◌≡◌, ◌≢◌, ◌↔◌, refl, ◌⊎◌, Bool, true, false, ◌&&◌, ◌||◌, none, List,
  [], ◌∷◌, length, arith, inl, inr, Option-cases,
}
use memory_latency_analyzer.Base.Int.{ℤ, pos, pos_part, neg_part, IsInt, ltb_ℤ, ◌≤ℤ◌, ◌<ℤ◌}
use memory_latency_analyzer.Cli.Options.{Options, Flag, defaults, flag_of}
use memory_latency_analyzer.Cli.Inputs.{take_int-next, take_size-next, take_text-next}
use memory_latency_analyzer.Cli.Parse.{
  Round, next, print_help, refuse, unknown, accepted, exhausted, take_int, take_size, take_text,
  any_int, positive, not_negative, handle, round, parse_from, parse,
}
use memory_latency_analyzer.Cli.Plan.{check, has_invalid_numbers, is_set, not_positive}

abbrev pub IsPositiveInt : ℤ → Type 0
IsPositiveInt z = (0 < pos_part z) × (pos_part z < 2 ^ 31)

-- What the loop makes sure of.
pub record IsParsed (o : Options) : Type 0 where
  pub rounds_fit : IsInt o.rounds
  pub iterations_fit : IsInt o.iterations
  pub warmup_fit : IsInt o.warmup
  pub shm_fit : IsInt o.shm_iterations
  pub tries_pos : IsPositiveInt o.spectre_tries
  pub lab_runs_pos : IsPositiveInt o.spectre_lab_runs
  pub phase5_pos : IsPositiveInt o.phase5_runs
  pub seconds_pos : IsPositiveInt o.compute_seconds
  pub evaluation_pos : IsPositiveInt o.evaluation_runs
  pub samples_pos : IsPositiveInt o.trace_samples
  pub average_pos : IsPositiveInt o.trace_average
  pub operational_pos : IsPositiveInt o.operational_runs
  pub node_fit : (pos_part o.numa_node < 2 ^ 31) × (neg_part o.numa_node ≤ 1)
  pub buffer_fits : o.buffer_size < 2 ^ 51
  pub bandwidth_fits : (0 < o.bandwidth_size) × (o.bandwidth_size < 2 ^ 51)

pub defaults-IsParsed : IsParsed defaults
defaults-IsParsed = omega arith

int_case :
    {Q : Type 0} (args : List String) (valid : ℤ → Bool) (store : ℤ → Options) (message : String)
    {rest : List String} {o : Options}
    → ((v : ℤ) → valid v ≡ true → IsInt v → Q → IsParsed (store v))
    → take_int args valid store message ≡ next rest o
    → (Q → IsParsed o) × (length rest ≤ length args)
int_case args valid store message keep h =
    let (v, good, fits, e, less) = take_int-next args valid store message h in
    (λ q. rw e (keep v good fits q), omega arith)

size_case :
    {Q : Type 0} (args : List String) (store : ℕ → Options) (message : String) {rest : List String}
    {o : Options}
    → ((v : ℕ) → 0 < v → v < 2 ^ 51 → Q → IsParsed (store v))
    → take_size args store message ≡ next rest o
    → (Q → IsParsed o) × (length rest ≤ length args)
size_case args store message keep h =
    let (v, more, small, e, less) = take_size-next args store message h in
    (λ q. rw e (keep v more small q), omega arith)

text_case :
    {Q : Type 0} (args : List String) (store : String → Options) (message : String)
    {rest : List String} {o : Options}
    → ((v : String) → Q → IsParsed (store v))
    → take_text args store message ≡ next rest o
    → (Q → IsParsed o) × (length rest ≤ length args)
text_case args store message keep h =
    let (v, e, less) = take_text-next args store message h in (λ q. rw e (keep v q), omega arith)

plain_case :
    {Q : Type 0} (args : List String) {o' : Options} {rest : List String} {o : Options}
    → (Q → IsParsed o')
    → next args o' ≡ next rest o
    → (Q → IsParsed o) × (length rest ≤ length args)
plain_case args {o'} {rest} {o} p h =
    let same : (args ≡ rest) × (o' ≡ o) = ground arith in
    (λ q. rw (← same.1) (p q), rw (← same.0) (omega arith))

handle-IsParsed :
    (flag : Flag) (args : List String) (o : Options) {rest : List String} {o' : Options}
    → handle flag args o ≡ next rest o'
    → (IsParsed o → IsParsed o') × (length rest ≤ length args)
unfolding handle
handle-IsParsed Flag.help args o h = absurd (ground arith)
handle-IsParsed Flag.spectre args o h = plain_case args (λ p. ground arith) h
handle-IsParsed Flag.quiet_flag args o h = plain_case args (λ p. ground arith) h
handle-IsParsed Flag.verbose_flag args o h = plain_case args (λ p. ground arith) h
handle-IsParsed Flag.no_bandwidth args o h = plain_case args (λ p. ground arith) h
handle-IsParsed Flag.no_shared_memory args o h = plain_case args (λ p. ground arith) h
handle-IsParsed Flag.rounds_of args o h =
    int_case args any_int _ _ (λ v good fits p. ground arith) h
handle-IsParsed Flag.iterations_of args o h =
    int_case args any_int _ _ (λ v good fits p. ground arith) h
handle-IsParsed Flag.warmup_of args o h =
    int_case args any_int _ _ (λ v good fits p. ground arith) h
handle-IsParsed Flag.shm_iterations_of args o h =
    int_case args any_int _ _ (λ v good fits p. ground arith) h
handle-IsParsed Flag.numa_node_of args o h =
    int_case args not_negative _ _ (λ v good fits p. ground arith) h
handle-IsParsed Flag.numa_matrix args o h = plain_case args (λ p. ground arith) h
handle-IsParsed Flag.buffer_mib args o h = size_case args _ _ (λ v more small p. ground arith) h
handle-IsParsed Flag.bandwidth_mib args o h = size_case args _ _ (λ v more small p. ground arith) h
handle-IsParsed Flag.spectre_lab args o h = plain_case args (λ p. ground arith) h
handle-IsParsed Flag.lab_runs args o h =
    int_case args positive _ _ (λ v good fits p. ground arith) h
handle-IsParsed Flag.phase5_lab args o h = plain_case args (λ p. ground arith) h
handle-IsParsed Flag.phase5_runs_of args o h =
    int_case args positive _ _ (λ v good fits p. ground arith) h
handle-IsParsed Flag.cpu_capability args o h = plain_case args (λ p. ground arith) h
handle-IsParsed Flag.compute_seconds_of args o h =
    int_case args positive _ _ (λ v good fits p. ground arith) h
handle-IsParsed Flag.evaluation_lab args o h = plain_case args (λ p. ground arith) h
handle-IsParsed Flag.evaluation_runs_of args o h =
    int_case args positive _ _ (λ v good fits p. ground arith) h
handle-IsParsed Flag.trace_samples_of args o h =
    int_case args positive _ _ (λ v good fits p. ground arith) h
handle-IsParsed Flag.trace_average_of args o h =
    int_case args positive _ _ (λ v good fits p. ground arith) h
handle-IsParsed Flag.evaluation_report_of args o h = text_case args _ _ (λ v p. ground arith) h
handle-IsParsed Flag.operational_lab args o h = plain_case args (λ p. ground arith) h
handle-IsParsed Flag.operational_runs_of args o h =
    int_case args positive _ _ (λ v good fits p. ground arith) h
handle-IsParsed Flag.operational_report_of args o h = text_case args _ _ (λ v p. ground arith) h
handle-IsParsed Flag.spectre_tries_of args o h =
    int_case args positive _ _ (λ v good fits p. ground arith) h
handle-IsParsed Flag.csv args o h = text_case args _ _ (λ v p. ground arith) h

round-IsParsed :
    (arg : String) (args : List String) (o : Options) {rest : List String} {o' : Options}
    → round arg args o ≡ next rest o'
    → (IsParsed o → IsParsed o') × (length rest ≤ length args)
unfolding round
round-IsParsed arg args o {rest} {o'} h = elim (Option-cases (flag_of arg)) [
  | inl e ↦ absurd (ground arith)
  | inr (flag, e) ↦ handle-IsParsed flag args o (ground arith)
]

-- A loop that accepts goes on behind its first round.
pub parse_from_accepted :
    (fuel : ℕ) (arg : String) (args : List String) (o : Options) {o' : Options}
    → parse_from (suc fuel) (arg ∷ args) o ≡ accepted o'
    → (rest : List String) × (o2 : Options) × (round arg args o ≡ next rest o2)
      × (parse_from fuel rest o2 ≡ accepted o')
unfolding parse_from
parse_from_accepted fuel arg args o {o'} h = go (round arg args o) refl
  where
    go :
        (r : Round)
        → round arg args o ≡ r
        → (rest : List String) × (o2 : Options) × (round arg args o ≡ next rest o2)
          × (parse_from fuel rest o2 ≡ accepted o')
    go (next rest o2) e = (rest, o2, e, ground arith)
    go print_help e = absurd (ground arith)
    go (refuse m) e = absurd (ground arith)
    go (unknown m) e = absurd (ground arith)

parse_from-IsParsed :
    (fuel : ℕ) (args : List String) (o : Options) {o' : Options}
    → IsParsed o
    → parse_from fuel args o ≡ accepted o'
    → IsParsed o'
parse_from-IsParsed fuel [] o {o'} p h =
    let same : o ≡ o' = unfold parse_from in ground arith in rw (← same) p
parse_from-IsParsed zero (arg ∷ args) o p h = absurd (unfold parse_from in ground arith)
parse_from-IsParsed (suc fuel) (arg ∷ args) o {o'} p h =
    let (rest, o2, e, again) = parse_from_accepted fuel arg args o h in
    parse_from-IsParsed fuel rest o2 ((round-IsParsed arg args o e).0 p) again

-- From options that meet the bounds, an accepted command line leaves options that meet them: every count
-- of runs, tries, samples and seconds is a positive `int`, the NUMA node is -1 or more, and the sizes are
-- below 2^51 bytes.
pub parse-IsParsed :
    (args : List String) (o : Options) {o' : Options}
    → IsParsed o
    → parse args o ≡ accepted o'
    → IsParsed o'
parse-IsParsed args o p h = parse_from-IsParsed (length args) args o p (unfold parse in h)

-- What a round leaves is no longer than what stood behind its option.
pub round_shorter :
    (arg : String) (args : List String) (o : Options) {rest : List String} {o' : Options}
    → round arg args o ≡ next rest o'
    → length rest ≤ length args
round_shorter arg args o h = (round-IsParsed arg args o h).1

parse_from-ne-exhausted :
    (fuel : ℕ) (args : List String) (o : Options)
    → length args ≤ fuel
    → parse_from fuel args o ≢ exhausted
parse_from-ne-exhausted fuel [] o h e = unfold parse_from in ground arith
parse_from-ne-exhausted zero (arg ∷ args) o h e = absurd (omega arith)
parse_from-ne-exhausted (suc fuel) (arg ∷ args) o h e =
    go (λ rest o2. parse_from-ne-exhausted fuel rest o2) (round arg args o) refl
  where
    go :
        ((rest : List String) (o2 : Options)
          → length rest ≤ fuel
          → parse_from fuel rest o2 ≢ exhausted)
        → (r : Round) → round arg args o ≡ r
        → ⊥
    go again (next rest o2) q =
        let less : length rest ≤ length args = (round-IsParsed arg args o q).1 in
        again rest o2 (omega arith) (unfold parse_from in ground arith)
    go again print_help q = unfold parse_from in ground arith
    go again (refuse m) q = unfold parse_from in ground arith
    go again (unknown m) q = unfold parse_from in ground arith

-- The loop always ends by its own returns: the fuel of the model never runs out.
parse-ne-exhausted : (args : List String) (o : Options) → parse args o ≢ exhausted
unfolding parse
parse-ne-exhausted args o = parse_from-ne-exhausted (length args) args o (omega arith)

positive_false : (z : ℤ) → IsPositiveInt z → not_positive z ≡ false
positive_false z h = ground arith

-- What is left of the long condition: the other counts are positive already.
has_invalid_numbers_lem :
    (o : Options)
    → IsParsed o
    → has_invalid_numbers o ≡ (
        not_positive o.rounds
        || not_positive o.iterations
        || ltb_ℤ o.warmup (pos 0)
        || (o.run_shared_memory && not_positive o.shm_iterations))
unfolding has_invalid_numbers
has_invalid_numbers_lem o p = simp (
  positive_false o.spectre_tries p.tries_pos,
  positive_false o.spectre_lab_runs p.lab_runs_pos,
  positive_false o.phase5_runs p.phase5_pos,
  positive_false o.compute_seconds p.seconds_pos,
  positive_false o.evaluation_runs p.evaluation_pos,
  positive_false o.trace_samples p.samples_pos,
  positive_false o.trace_average p.average_pos,
  positive_false o.operational_runs p.operational_pos,
  and-false,
  or-false,
)

-- Behind an accepted command line the final checks refuse exactly this: a NUMA node together with the
-- NUMA matrix, or rounds or iterations below 1, a negative warmup, or, where the shared-memory test runs,
-- fewer than 1 of its iterations. Its tests of the other counts never fire.
pub check_exact :
    (o : Options)
    → IsParsed o
    → (check o ≡ none) ↔ (
        (is_set o.numa_node && o.run_numa_matrix_mode ≡ false)
        × (pos 0 <ℤ o.rounds)
        × (pos 0 <ℤ o.iterations)
        × (pos 0 ≤ℤ o.warmup)
        × (o.run_shared_memory ≡ false ⊎ pos 0 <ℤ o.shm_iterations))
unfolding check
check_exact o p = rw (has_invalid_numbers_lem o p) (λ h. ground arith, λ h. ground arith)
