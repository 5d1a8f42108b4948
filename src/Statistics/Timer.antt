-- ===== src/Statistics/Timer.antt =====
-- The clock of MemoryLatencyAnalyzer_linux/src/timer.cpp: the time stamps, the calibration of their rate and the overhead
-- of a pair of them. The instructions and the calls of the system are a record; the barriers of the compiler do
-- nothing when the program runs.
use memory_latency_analyzer.Base.{
  ℕ, zero, suc, ◌+◌, ◌-◌, ◌*◌, ◌/◌, ◌%◌, ◌^◌, not, ◌||◌, Option, none, some, List, [], ◌∷◌, length,
  get_or, ltb, ◌==◌, if◌then◌else◌,
}
use memory_latency_analyzer.Base.Int.{ℤ, pos, leb_ℤ, pos_part}
use memory_latency_analyzer.Base.Sort.{sort_by}
use memory_latency_analyzer.Evaluation.Real.{Real}

pub record Clock : Type 1 where
  pub State : Type 0
  pub lfence : State → State
  -- The counter and the processor's id.
  pub rdtscp : State → (ℕ × ℕ) × State
  -- Seconds and nanoseconds of the raw monotonic clock; `none` is a failure.
  pub clock_gettime : State → Option (ℕ × ℕ) × State
  pub sleep_ms : ℕ → State → State

pub data TimerError : Type 0 where
  not_positive : TimerError
  clock_failed : TimerError
  unable : TimerError

pub data Calibrated (D : Type 0) : Type 0 where
  rate : D → Calibrated D
  thrown : TimerError → Calibrated D

-- A difference of two `std::uint64_t`.
abbrev pub difference : ℕ → ℕ → ℕ
difference first last = (last + 2 ^ 64 - first) % 2 ^ 64

module _ (c : Clock) where
  open c use {State, lfence, rdtscp, clock_gettime, sleep_ms}

  unfoldable pub read_tsc_start : State → (ℕ × ℕ) × State
  read_tsc_start s = let (stamp, s1) = rdtscp (lfence s) in (stamp, lfence s1)

  unfoldable pub read_tsc_end : State → (ℕ × ℕ) × State
  read_tsc_end s = let (stamp, s1) = rdtscp (lfence s) in (stamp, lfence s1)

  abbrev pub nanoseconds : Option (ℕ × ℕ) → Option ℕ
  nanoseconds none = none
  nanoseconds (some (sec, nsec)) = some ((sec * 1000000000 + nsec) % 2 ^ 64)

  -- `none` is an exception.
  unfoldable pub monotonic_raw_ns : State → Option ℕ × State
  monotonic_raw_ns s = let (answer, s1) = clock_gettime s in (nanoseconds answer, s1)

  -- The differences of `left` pairs of stamps.
  unfoldable pub overheads_from : ℕ → State → List ℕ
  unfolding read_tsc_start read_tsc_end
  overheads_from zero s = []
  overheads_from (suc left) s =
      let ((t0, _), s1) = read_tsc_start s in
      let ((t1, _), s2) = read_tsc_end s1 in difference t0 t1 ∷ overheads_from left s2

  unfoldable pub measure_overhead_cycles : ℤ → State → ℕ
  unfolding overheads_from sort_by
  measure_overhead_cycles samples s =
      let values = overheads_from (pos_part samples) s in
      if leb_ℤ samples (pos 0) then 0 else get_or (sort_by ltb values) (length values / 2) 0

  module _ (r : Real) (nano : Real.D r) where
    open r use {D, of_nat, mul, div, lt}

    -- What a round finds: `none` where the clock fails, `some none` where the round is left out.
    abbrev pub Round : Type 0
    Round = Option (Option D)

    abbrev pub estimate : ℕ → ℕ → ℕ → ℕ → ℕ → ℕ → Option D
    estimate ns_start ns_end aux_start aux_end tsc_start tsc_end =
        if difference ns_start ns_end == 0 || not (aux_start == aux_end)
        then none
        else some (
            div (of_nat (difference tsc_start tsc_end))
              (mul (of_nat (difference ns_start ns_end)) nano))

    abbrev pub finish_round : Option ℕ → (ℕ × ℕ) → (ℕ × ℕ) → ℕ → Round
    finish_round none first last ns_start = none
    finish_round (some ns_end) (tsc_start, aux_start) (tsc_end, aux_end) ns_start =
        some (estimate ns_start ns_end aux_start aux_end tsc_start tsc_end)

    unfoldable pub round : ℕ → State → Round × State
    unfolding monotonic_raw_ns read_tsc_start read_tsc_end
    round interval s =
        let (begun, s1) = monotonic_raw_ns s in
        let (first, s2) = read_tsc_start s1 in
        let (last, s3) = read_tsc_end (sleep_ms interval s2) in
        let (ended, s4) = monotonic_raw_ns s3 in
        elim begun [
          | none ↦ (none, s1)
          | some ns_start ↦ (finish_round ended first last ns_start, s4)
        ]

    abbrev pub put : Option D → List D → List D
    put none estimates = estimates
    put (some e) estimates = e ∷ estimates

    -- The estimates of the rounds that are left; `none` is an exception of the clock.
    unfoldable pub estimates_from : ℕ → ℕ → State → Option (List D)
    unfolding round
    estimates_from interval zero s = some []
    estimates_from interval (suc left) s =
        let (found, s1) = round interval s in
        let rest = estimates_from interval left s1 in
        elim found [ none ↦ none | some e ↦ elim rest [ none ↦ none | some es ↦ some (put e es) ] ]

    abbrev pub choose : Option (List D) → Calibrated D
    choose none = thrown clock_failed
    choose (some []) = thrown unable
    choose (some (e ∷ es)) = rate (get_or (sort_by lt (e ∷ es)) (length (e ∷ es) / 2) (of_nat 0))

    unfoldable pub calibrate_tsc_hz : ℤ → ℤ → State → Calibrated D
    unfolding estimates_from sort_by
    calibrate_tsc_hz rounds interval_ms s =
        if leb_ℤ rounds (pos 0) || leb_ℤ interval_ms (pos 0)
        then thrown not_positive
        else choose (estimates_from (pos_part interval_ms) (pos_part rounds) s)
