-- ===== src/Cli/Compose.antt =====
-- Command lines side by side in the option loop of `main` (MemoryLatencyAnalyzer_linux/src/main.cpp).
use Prim.Native.String.{String}
use memory_latency_analyzer.Base.{
  ℕ, zero, suc, ◌+◌, ◌≤◌, ◌≡◌, refl, Bool, true, false, some, List, [], ◌∷◌, ◌++◌, length,
  length-append, arith, inl, inr, Option-cases,
}
use memory_latency_analyzer.Base.Int.{ℤ, pos, pos_part, leb_ℤ}
use memory_latency_analyzer.Base.Text.{codes}
use memory_latency_analyzer.Cli.Numbers.{parse_int, consume_int, consume_size_mib, mib_bytes}
use memory_latency_analyzer.Cli.Options.{Options, Flag, flag_of}
use memory_latency_analyzer.Cli.Parse.{
  Round, Outcome, next, print_help, refuse, unknown, accepted, help_shown, refused, unknown_option,
  take_int, take_size, take_text, any_int, positive, not_negative, handle, round, parse_from, parse,
}
use memory_latency_analyzer.Cli.Bounds.{round_shorter, parse_from_accepted}

consume_int-append :
    (args more : List String) {v : ℤ} {rest : List String}
    → consume_int args ≡ some (v, rest)
    → consume_int (args ++ more) ≡ some (v, rest ++ more)
unfolding consume_int
consume_int-append [] more h = absurd (ground arith)
consume_int-append (arg ∷ args) more {v} {rest} h = elim (Option-cases (parse_int (codes arg))) [
  | inl e ↦ absurd (ground arith)
  | inr (w, e) ↦
      let same : (w ≡ v) × (args ≡ rest) = ground arith in rw (e, consume_int) (rw (same.0, same.1))
]

consume_size_mib-append :
    (args more : List String) {v : ℕ} {rest : List String}
    → consume_size_mib args ≡ some (v, rest)
    → consume_size_mib (args ++ more) ≡ some (v, rest ++ more)
unfolding consume_size_mib
consume_size_mib-append args more {v} {rest} h = elim (Option-cases (consume_int args)) [
  | inl e ↦ absurd (ground arith)
  | inr ((w, left), e) ↦
      let ok : leb_ℤ w (pos 0) ≡ false = ground arith in
      let same : (left ≡ rest) × (mib_bytes (pos_part w) ≡ v) = ground arith in
      rw (consume_int-append args more e, consume_size_mib) (rw (ok, same.0, same.1))
]

take_int-append :
    (args more : List String) (valid : ℤ → Bool) (store : ℤ → Options) (message : String)
    {rest : List String} {o : Options}
    → take_int args valid store message ≡ next rest o
    → take_int (args ++ more) valid store message ≡ next (rest ++ more) o
unfolding take_int
take_int-append args more valid store message {rest} {o} h =
    elim (Option-cases (consume_int args)) [
      | inl e ↦ absurd (ground arith)
      | inr ((w, left), e) ↦
          let ok : valid w ≡ true = ground arith in
          let same : (left ≡ rest) × (store w ≡ o) = ground arith in
          rw (consume_int-append args more e, take_int) (rw (ok, same.0, same.1))
    ]

take_size-append :
    (args more : List String) (store : ℕ → Options) (message : String) {rest : List String}
    {o : Options}
    → take_size args store message ≡ next rest o
    → take_size (args ++ more) store message ≡ next (rest ++ more) o
unfolding take_size
take_size-append args more store message {rest} {o} h =
    elim (Option-cases (consume_size_mib args)) [
      | inl e ↦ absurd (ground arith)
      | inr ((w, left), e) ↦
          let same : (left ≡ rest) × (store w ≡ o) = ground arith in
          rw (consume_size_mib-append args more e, take_size) (rw (same.0, same.1))
    ]

take_text-append :
    (args more : List String) (store : String → Options) (message : String) {rest : List String}
    {o : Options}
    → take_text args store message ≡ next rest o
    → take_text (args ++ more) store message ≡ next (rest ++ more) o
unfolding take_text
take_text-append [] more store message h = absurd (ground arith)
take_text-append (arg ∷ args) more store message {rest} {o} h =
    let same : (args ≡ rest) × (store arg ≡ o) = ground arith in rw (same.0, same.1)

next-append :
    (args more : List String) {rest : List String} {o o' : Options}
    → next args o' ≡ next rest o
    → next (args ++ more) o' ≡ next (rest ++ more) o
next-append args more {rest} {o} {o'} h =
    let same : (args ≡ rest) × (o' ≡ o) = ground arith in rw (same.0, same.1)

handle-append :
    (flag : Flag) (args more : List String) (o : Options) {rest : List String} {o' : Options}
    → handle flag args o ≡ next rest o'
    → handle flag (args ++ more) o ≡ next (rest ++ more) o'
unfolding handle
handle-append Flag.help args more o h = absurd (ground arith)
handle-append Flag.spectre args more o h = next-append args more h
handle-append Flag.quiet_flag args more o h = next-append args more h
handle-append Flag.verbose_flag args more o h = next-append args more h
handle-append Flag.no_bandwidth args more o h = next-append args more h
handle-append Flag.no_shared_memory args more o h = next-append args more h
handle-append Flag.rounds_of args more o h = take_int-append args more any_int _ _ h
handle-append Flag.iterations_of args more o h = take_int-append args more any_int _ _ h
handle-append Flag.warmup_of args more o h = take_int-append args more any_int _ _ h
handle-append Flag.shm_iterations_of args more o h = take_int-append args more any_int _ _ h
handle-append Flag.numa_node_of args more o h = take_int-append args more not_negative _ _ h
handle-append Flag.numa_matrix args more o h = next-append args more h
handle-append Flag.buffer_mib args more o h = take_size-append args more _ _ h
handle-append Flag.bandwidth_mib args more o h = take_size-append args more _ _ h
handle-append Flag.spectre_lab args more o h = next-append args more h
handle-append Flag.lab_runs args more o h = take_int-append args more positive _ _ h
handle-append Flag.phase5_lab args more o h = next-append args more h
handle-append Flag.phase5_runs_of args more o h = take_int-append args more positive _ _ h
handle-append Flag.cpu_capability args more o h = next-append args more h
handle-append Flag.compute_seconds_of args more o h = take_int-append args more positive _ _ h
handle-append Flag.evaluation_lab args more o h = next-append args more h
handle-append Flag.evaluation_runs_of args more o h = take_int-append args more positive _ _ h
handle-append Flag.trace_samples_of args more o h = take_int-append args more positive _ _ h
handle-append Flag.trace_average_of args more o h = take_int-append args more positive _ _ h
handle-append Flag.evaluation_report_of args more o h = take_text-append args more _ _ h
handle-append Flag.operational_lab args more o h = next-append args more h
handle-append Flag.operational_runs_of args more o h = take_int-append args more positive _ _ h
handle-append Flag.operational_report_of args more o h = take_text-append args more _ _ h
handle-append Flag.spectre_tries_of args more o h = take_int-append args more positive _ _ h
handle-append Flag.csv args more o h = take_text-append args more _ _ h

round-append :
    (arg : String) (args more : List String) (o : Options) {rest : List String} {o' : Options}
    → round arg args o ≡ next rest o'
    → round arg (args ++ more) o ≡ next (rest ++ more) o'
unfolding round
round-append arg args more o {rest} {o'} h = elim (Option-cases (flag_of arg)) [
  | inl e ↦ absurd (ground arith)
  | inr (flag, e) ↦ rw (e, round) (handle-append flag args more o (ground arith))
]

-- A round's result, with the loop that follows it.
abbrev goes_on : (List String → Options → Outcome) → Round → Outcome
goes_on again (next rest o) = again rest o
goes_on again print_help = help_shown
goes_on again (refuse message) = refused message
goes_on again (unknown name) = unknown_option name

parse_from_step :
    (fuel : ℕ) (arg : String) (args : List String) (o : Options)
    → parse_from (suc fuel) (arg ∷ args) o ≡ goes_on (parse_from fuel) (round arg args o)
unfolding parse_from
parse_from_step fuel arg args o = ground arith

-- Fuel beyond the number of arguments changes nothing.
parse_from_fuel :
    (f g : ℕ) (args : List String) (o : Options)
    → length args ≤ f
    → length args ≤ g
    → parse_from f args o ≡ parse_from g args o
parse_from_fuel f g [] o hf hg = unfold parse_from in ground arith
parse_from_fuel zero g (arg ∷ args) o hf hg = absurd (omega arith)
parse_from_fuel (suc f) zero (arg ∷ args) o hf hg = absurd (omega arith)
parse_from_fuel (suc f) (suc g) (arg ∷ args) o hf hg =
    rw (parse_from_step f arg args o, parse_from_step g arg args o)
      (go (parse_from_fuel f g) (round arg args o) refl)
  where
    go :
        ((rest : List String) (o2 : Options)
          → length rest ≤ f
          → length rest ≤ g
          → parse_from f rest o2 ≡ parse_from g rest o2)
        → (r : Round) → round arg args o ≡ r
        → goes_on (parse_from f) r ≡ goes_on (parse_from g) r
    go again (next rest o2) e =
        let less : length rest ≤ length args = round_shorter arg args o e in
        again rest o2 (omega arith) (omega arith)
    go again print_help e = refl
    go again (refuse message) e = refl
    go again (unknown name) e = refl

parse_from-append :
    (f g : ℕ) (args more : List String) (o : Options) {o' : Options}
    → length args ≤ f
    → length args + length more ≤ g
    → parse_from f args o ≡ accepted o'
    → parse_from g (args ++ more) o ≡ parse (more) o'
unfolding parse
parse_from-append f g [] more o {o'} hf hg h =
    let same : o ≡ o' = unfold parse_from in ground arith in
    rw same (parse_from_fuel g (length more) more o' (omega arith) (omega arith))
parse_from-append zero g (arg ∷ args) more o hf hg h = absurd (omega arith)
parse_from-append (suc f) zero (arg ∷ args) more o hf hg h = absurd (omega arith)
parse_from-append (suc f) (suc g) (arg ∷ args) more o hf hg h =
    let (rest, o2, e, again) = parse_from_accepted f arg args o h in
    let less : length rest ≤ length args = round_shorter arg args o e in
    rw (parse_from_step g arg (args ++ more) o, round-append arg args more o e)
      (parse_from-append f g rest more o2 (omega arith) (omega arith) again)

-- The loop reads one command line behind another: if it accepts the first part, the whole is read as the
-- second part is, from the options that the first has left.
pub parse-append :
    (args more : List String) (o : Options) {o' : Options}
    → parse args o ≡ accepted o'
    → parse (args ++ more) o ≡ parse more o'
parse-append args more o h =
    unfold parse in
    parse_from-append (length args) (length (args ++ more)) args more o (omega arith)
      (omega (arith, length-append args more)) h
