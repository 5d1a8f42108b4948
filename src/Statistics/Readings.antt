-- ===== src/Statistics/Readings.antt =====
-- What a round of `calibrate_tsc_hz` of MemoryLatencyAnalyzer_linux/src/timer.cpp reads, apart from what it makes of it.
use memory_latency_analyzer.Base.{
  ℕ, zero, suc, ◌+◌, ◌*◌, ◌%◌, ◌^◌, ◌<◌, ◌≡◌, refl, Bool, not, ◌&&◌, Option, none, some, List, [],
  ◌∷◌, arith, ◌==◌, if◌then◌else◌, Option-cases, inl, inr,
}
use memory_latency_analyzer.Evaluation.Real.{Real}
use memory_latency_analyzer.Statistics.Timer.{
  Clock, difference, read_tsc_start, read_tsc_end, monotonic_raw_ns, nanoseconds, Round, round,
  finish_round,
}

-- The two times, and the two stamps of the counter with their processors.
pub record Reading : Type 0 where
  pub ns_start : ℕ
  pub tsc_start : ℕ
  pub aux_start : ℕ
  pub tsc_end : ℕ
  pub aux_end : ℕ
  pub ns_end : ℕ

-- Time has passed, and both stamps are of one processor.
abbrev pub is_usable : Reading → Bool
is_usable q = not (q.ns_start == q.ns_end) && (q.aux_start == q.aux_end)

abbrev pub in_nanoseconds : ℕ × ℕ → ℕ
in_nanoseconds (sec, nsec) = (sec * 1000000000 + nsec) % 2 ^ 64

-- Both times are there.
abbrev pub reading_of : Option (ℕ × ℕ) → (ℕ × ℕ) → (ℕ × ℕ) → Option (ℕ × ℕ) → Option Reading
reading_of none first last ended = none
reading_of (some begin) first last none = none
reading_of (some begin) (tsc_start, aux_start) (tsc_end, aux_end) (some ended) = some (record {
  ns_start = in_nanoseconds begin;
  tsc_start = tsc_start;
  aux_start = aux_start;
  tsc_end = tsc_end;
  aux_end = aux_end;
  ns_end = in_nanoseconds ended;
})

difference_zero : (a b : ℕ) → a < 2 ^ 64 → b < 2 ^ 64 → (difference a b == 0) ≡ (a == b)
difference_zero a b h k = ground arith

module _ (c : Clock) where
  open c use {State, lfence, rdtscp, clock_gettime, sleep_ms}

  -- The clock, the counter between two fences, the sleep, the counter between two fences, and the clock; a clock
  -- that fails at first ends the round.
  unfoldable pub read_round : ℕ → State → Option Reading × State
  read_round interval s =
      let (begun, s1) = clock_gettime s in
      let (first, s2) = rdtscp (lfence s1) in
      let (last, s3) = rdtscp (lfence (sleep_ms interval (lfence s2))) in
      let (ended, s4) = clock_gettime (lfence s3) in
      (reading_of begun first last ended, elim begun [ none ↦ s1 | some begin ↦ s4 ])

  -- The readings of the rounds, one behind the other, also behind a failure.
  abbrev pub readings : ℕ → ℕ → State → List (Option Reading)
  readings interval zero s = []
  readings interval (suc left) s =
      (read_round interval s).0 ∷ readings interval left (read_round interval s).1

  module _ (r : Real) (nano : Real.D r) where
    open r use {D, of_nat, mul, div}

    -- Cycles by seconds.
    abbrev pub rate_of : Reading → D
    rate_of q =
        div (of_nat (difference q.tsc_start q.tsc_end))
          (mul (of_nat (difference q.ns_start q.ns_end)) nano)

    -- What a round makes of its reading.
    abbrev pub interpret : Option Reading → Round c r nano
    interpret none = none
    interpret (some q) = some (if is_usable q then some (rate_of q) else none)

    estimate-reading :
        (begin ended first last : ℕ × ℕ)
        → finish_round c r nano (some (in_nanoseconds ended)) first last (in_nanoseconds begin)
          ≡ interpret (reading_of (some begin) first last (some ended))
    estimate-reading (sec, nsec) (sec', nsec') (tsc_start, aux_start) (tsc_end, aux_end) =
        let same =
          difference_zero ((sec * 1000000000 + nsec) % 2 ^ 64)
            ((sec' * 1000000000 + nsec') % 2 ^ 64) (omega arith) (omega arith) in
        rw same (ground arith)

    finish_round-reading :
        (begin first last : ℕ × ℕ) (ended : Option (ℕ × ℕ))
        → finish_round c r nano (nanoseconds c ended) first last (in_nanoseconds begin)
          ≡ interpret (reading_of (some begin) first last ended)
    finish_round-reading begin first last none = refl
    finish_round-reading begin first last (some ended) = estimate-reading begin ended first last

    pub round-reading :
        (interval : ℕ) (s : State)
        → ((round c r nano interval s).0 ≡ interpret (read_round interval s).0)
          × ((round c r nano interval s).1 ≡ (read_round interval s).1)
    unfolding round monotonic_raw_ns read_tsc_start read_tsc_end read_round
    round-reading interval s = elim (Option-cases (clock_gettime s).0) [
      | inl e ↦ rw (e, round) (refl, refl)
      | inr (begin, e) ↦ rw (e, round) (finish_round-reading begin _ _ _, refl)
    ]
