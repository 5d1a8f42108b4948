-- ===== src/Statistics/Calibration.antt =====
-- What the calibration and the overhead of MemoryLatencyAnalyzer_linux/src/timer.cpp say of the rounds that were made.
use mathlib.Core.Path.{subst}
use memory_latency_analyzer.Base.{
  ℕ, zero, suc, ◌/◌, ◌<◌, ◌≡◌, refl, ap, sym, ◌∙◌, map, ◌⊎◌, inl, inr, Bool, true, false, Option,
  none, some, List, [], ◌∷◌, length, ltb, arith, Bool-cases, if◌then◌else◌,
}
use memory_latency_analyzer.Base.Int.{ℤ, pos, leb_ℤ, pos_part, ◌≤ℤ◌, ◌<ℤ◌}
use memory_latency_analyzer.Base.Sort.{IsOrder, HasRank, sort_by-HasRank}
use memory_latency_analyzer.Evaluation.Real.{Real}
use memory_latency_analyzer.Statistics.Timer.{
  Clock, Calibrated, rate, thrown, not_positive, clock_failed, unable, read_tsc_start, read_tsc_end,
  overheads_from, measure_overhead_cycles, round, calibrate_tsc_hz,
}
use memory_latency_analyzer.Statistics.Readings.{
  Reading, is_usable, rate_of, read_round, readings, interpret, round-reading,
}
use memory_latency_analyzer.Statistics.Estimates.{
  trace, usable, fails, ExplainedRounds, calibrate-ExplainedRounds,
}

pub ltb-IsOrder : IsOrder ltb
ltb-IsOrder = record { asym = λ x y h. ground arith; trans = λ x y z h k. ground arith }

module _ (c : Clock) where
  open c use {State}

  length-overheads_from : (n : ℕ) (s : State) → length (overheads_from c n s) ≡ n
  unfolding overheads_from
  length-overheads_from zero s = refl
  length-overheads_from (suc n) s =
      let s2 = (read_tsc_end c (read_tsc_start c s).1).1 in
      omega (arith, length-overheads_from n s2)

  -- The overhead of a positive number of pairs of stamps is the difference of one of these pairs, and of their
  -- differences no more than half are below it and no more than half are above it.
  pub measure_overhead_cycles_median :
      (n : ℕ) (s : State)
      → 0 < n
      → HasRank ltb (overheads_from c n s) (n / 2) (measure_overhead_cycles c (pos n) s)
  unfolding measure_overhead_cycles
  measure_overhead_cycles_median n s more =
      let positive : leb_ℤ (pos n) (pos 0) ≡ false = ground arith in
      let same = length-overheads_from n s in
      rw (positive, same)
        (sort_by-HasRank ltb ltb-IsOrder (overheads_from c n s) (n / 2) 0 (omega (arith, same)))

  module _ (r : Real) (nano : Real.D r) where
    open r use {D, lt}

    -- Some round's clock fails.
    abbrev pub has_failed : List (Option Reading) → Bool
    has_failed [] = false
    has_failed (none ∷ qs) = true
    has_failed (some q ∷ qs) = has_failed qs

    -- The rates of the usable readings.
    abbrev pub rates : List (Option Reading) → List D
    rates [] = []
    rates (none ∷ qs) = rates qs
    rates (some q ∷ qs) = if is_usable q then rate_of c r nano q ∷ rates qs else rates qs

    trace-readings :
        (interval n : ℕ) (s : State)
        → trace c r nano interval n s ≡ map (interpret c r nano) (readings c interval n s)
    trace-readings interval zero s = refl
    trace-readings interval (suc n) s =
        let (found, after) = round-reading c r nano interval s in
        ap (λ f. f ∷ trace c r nano interval n (round c r nano interval s).1) found
        ∙ ap (◌∷◌ (interpret c r nano (read_round c interval s).0)) (
            ap (trace c r nano interval n) after
            ∙ trace-readings interval n (read_round c interval s).1)

    fails-interpret :
        (qs : List (Option Reading)) → fails c r nano (map (interpret c r nano) qs) ≡ has_failed qs
    fails-interpret [] = refl
    fails-interpret (none ∷ qs) = refl
    fails-interpret (some q ∷ qs) = fails-interpret qs

    usable-interpret :
        (qs : List (Option Reading)) → usable c r nano (map (interpret c r nano) qs) ≡ rates qs
    usable-interpret [] = refl
    usable-interpret (none ∷ qs) = usable-interpret qs
    usable-interpret (some q ∷ qs) = elim (Bool-cases (is_usable q)) [
      | inl e ↦ rw e (ap (λ es. rate_of c r nano q ∷ es) (usable-interpret qs))
      | inr e ↦ rw e (usable-interpret qs)
    ]

    -- What a result of the calibration says of the readings.
    abbrev pub Explained : ℤ → ℤ → List (Option Reading) → Calibrated D → Type 0
    Explained rounds interval qs (thrown not_positive) = (rounds ≤ℤ pos 0) ⊎ (interval ≤ℤ pos 0)
    Explained rounds interval qs (thrown clock_failed) =
        (pos 0 <ℤ rounds) × (pos 0 <ℤ interval) × (has_failed qs ≡ true)
    Explained rounds interval qs (thrown unable) =
        (pos 0 <ℤ rounds) × (pos 0 <ℤ interval) × (has_failed qs ≡ false) × (rates qs ≡ [])
    Explained rounds interval qs (rate hz) =
        (pos 0 <ℤ rounds)
        × (pos 0 <ℤ interval)
        × (has_failed qs ≡ false)
        × HasRank lt (rates qs) (length (rates qs) / 2) hz

    Explained-interpret :
        (rounds interval : ℤ) (qs : List (Option Reading)) (result : Calibrated D)
        → ExplainedRounds c r nano rounds interval (map (interpret c r nano) qs) result
        → Explained rounds interval qs result
    Explained-interpret rounds interval qs (thrown not_positive) h = h
    Explained-interpret rounds interval qs (thrown clock_failed) h =
        (h.0, h.1, sym (fails-interpret qs) ∙ h.2)
    Explained-interpret rounds interval qs (thrown unable) h =
        (h.0, h.1, sym (fails-interpret qs) ∙ h.2, sym (usable-interpret qs) ∙ h.3)
    Explained-interpret rounds interval qs (rate hz) h = (
      h.0,
      h.1,
      sym (fails-interpret qs) ∙ h.2,
      subst (λ es. HasRank lt es (length es / 2) hz) (usable-interpret qs) h.3,
    )

    -- The calibration answers for every number of rounds and every interval, and its answer is exact: it refuses the
    -- arguments exactly where one of them is not positive, fails exactly where the clock fails in a round or no round
    -- is usable, and otherwise gives the rate of a usable round, its cycles by its seconds, with no more than half of
    -- the usable rates below it and no more than half above it. A round is usable where the clock has moved between its
    -- two times and both stamps of its counter are of one processor.
    pub calibrate_tsc_hz_exact :
        (order : IsOrder lt) (rounds interval : ℤ) (s : State)
        → Explained rounds interval
            (readings c (pos_part interval) (pos_part rounds) s)
            (calibrate_tsc_hz c r nano rounds interval s)
    calibrate_tsc_hz_exact order rounds interval s =
        Explained-interpret rounds interval (readings c (pos_part interval) (pos_part rounds) s)
          (calibrate_tsc_hz c r nano rounds interval s)
          (subst
            (λ found.
              ExplainedRounds c r nano rounds interval found
                (calibrate_tsc_hz c r nano rounds interval s))
            (trace-readings (pos_part interval) (pos_part rounds) s)
            (calibrate-ExplainedRounds c r nano order rounds interval s))
