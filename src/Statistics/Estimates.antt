-- ===== src/Statistics/Estimates.antt =====
-- What `calibrate_tsc_hz` of MemoryLatencyAnalyzer_linux/src/timer.cpp makes of what its rounds find.
use memory_latency_analyzer.Base.{
  ℕ, zero, suc, ◌/◌, ◌≡◌, refl, ◌⊎◌, inl, inr, Bool, true, false, ◌||◌, Option, none, some, List,
  [], ◌∷◌, length, arith, Bool-cases, if◌then◌else◌,
}
use memory_latency_analyzer.Base.Int.{ℤ, pos, leb_ℤ, pos_part, ◌≤ℤ◌, ◌<ℤ◌}
use memory_latency_analyzer.Base.Sort.{IsOrder, HasRank, sort_by-HasRank}
use memory_latency_analyzer.Evaluation.Real.{Real}
use memory_latency_analyzer.Statistics.Timer.{
  Clock, Calibrated, rate, thrown, not_positive, clock_failed, unable, Round, round, put,
  estimates_from, choose, calibrate_tsc_hz,
}

refused_lem :
    (rounds interval : ℤ)
    → (leb_ℤ rounds (pos 0) || leb_ℤ interval (pos 0)) ≡ true
    → (rounds ≤ℤ pos 0) ⊎ (interval ≤ℤ pos 0)
refused_lem rounds interval h = ground arith

accepted_lem :
    (rounds interval : ℤ)
    → (leb_ℤ rounds (pos 0) || leb_ℤ interval (pos 0)) ≡ false
    → (pos 0 <ℤ rounds) × (pos 0 <ℤ interval)
accepted_lem rounds interval h = ground arith

module _ (c : Clock) where
  open c use {State}

  module _ (r : Real) (nano : Real.D r) where
    open r use {D, lt}

    -- What the rounds find, one behind the other, also behind a failure.
    abbrev pub trace : ℕ → ℕ → State → List (Round c r nano)
    trace interval zero s = []
    trace interval (suc left) s =
        (round c r nano interval s).0 ∷ trace interval left (round c r nano interval s).1

    abbrev pub usable : List (Round c r nano) → List D
    usable [] = []
    usable (none ∷ found) = usable found
    usable (some e ∷ found) = put c r nano e (usable found)

    abbrev pub fails : List (Round c r nano) → Bool
    fails [] = false
    fails (none ∷ found) = true
    fails (some e ∷ found) = fails found

    collect : Round c r nano → Option (List D) → Option (List D)
    collect none rest = none
    collect (some e) none = none
    collect (some e) (some es) = some (put c r nano e es)

    abbrev outcome_of : List (Round c r nano) → Option (List D)
    outcome_of found = if fails found then none else some (usable found)

    collect-outcome_of :
        (f : Round c r nano) (found : List (Round c r nano))
        → collect f (outcome_of found) ≡ outcome_of (f ∷ found)
    unfolding collect
    collect-outcome_of none found = refl
    collect-outcome_of (some e) found = ground arith

    estimates_from-suc :
        (interval n : ℕ) (s : State)
        → estimates_from c r nano interval (suc n) s
          ≡ collect
              (round c r nano interval s).0
              (estimates_from c r nano interval n (round c r nano interval s).1)
    unfolding collect estimates_from
    estimates_from-suc interval n s = ground arith

    -- The estimates are those of the usable rounds, where no round's clock fails.
    estimates_from-trace :
        (interval n : ℕ) (s : State)
        → estimates_from c r nano interval n s ≡ outcome_of (trace interval n s)
    estimates_from-trace interval zero s = unfold estimates_from in refl
    estimates_from-trace interval (suc n) s =
        let (found, s1) = round c r nano interval s in
        rw (estimates_from-suc, estimates_from-trace interval n s1)
          (collect-outcome_of found (trace interval n s1))

    -- What a result says of what the rounds find.
    abbrev pub ExplainedRounds : ℤ → ℤ → List (Round c r nano) → Calibrated D → Type 0
    ExplainedRounds rounds interval found (thrown not_positive) =
        (rounds ≤ℤ pos 0) ⊎ (interval ≤ℤ pos 0)
    ExplainedRounds rounds interval found (thrown clock_failed) =
        (pos 0 <ℤ rounds) × (pos 0 <ℤ interval) × (fails found ≡ true)
    ExplainedRounds rounds interval found (thrown unable) =
        (pos 0 <ℤ rounds) × (pos 0 <ℤ interval) × (fails found ≡ false) × (usable found ≡ [])
    ExplainedRounds rounds interval found (rate hz) =
        (pos 0 <ℤ rounds)
        × (pos 0 <ℤ interval)
        × (fails found ≡ false)
        × HasRank lt (usable found) (length (usable found) / 2) hz

    choose-ExplainedRounds-usable :
        (order : IsOrder lt) (rounds interval : ℤ) (found : List (Round c r nano)) (es : List D)
        → pos 0 <ℤ rounds
        → pos 0 <ℤ interval
        → fails found ≡ false
        → usable found ≡ es
        → ExplainedRounds rounds interval found (choose c r nano (some es))
    choose-ExplainedRounds-usable order rounds interval found [] more longer e same =
        (more, longer, e, same)
    choose-ExplainedRounds-usable order rounds interval found (x ∷ xs) more longer e same = (
      more,
      longer,
      e,
      rw same
          (sort_by-HasRank lt order (x ∷ xs) (length (x ∷ xs) / 2) (Real.of_nat r 0) (omega arith)),
    )

    choose-ExplainedRounds :
        (order : IsOrder lt) (rounds interval : ℤ) (found : List (Round c r nano))
        → pos 0 <ℤ rounds
        → pos 0 <ℤ interval
        → ExplainedRounds rounds interval found (choose c r nano (outcome_of found))
    choose-ExplainedRounds order rounds interval found more longer =
        elim (Bool-cases (fails found)) [
          | inl e ↦ rw e (more, longer, e)
          | inr e ↦ rw e (
              choose-ExplainedRounds-usable order rounds interval found (usable found) more longer e
                refl)
        ]

    pub calibrate-ExplainedRounds :
        (order : IsOrder lt) (rounds interval : ℤ) (s : State)
        → ExplainedRounds rounds interval
            (trace (pos_part interval) (pos_part rounds) s)
            (calibrate_tsc_hz c r nano rounds interval s)
    calibrate-ExplainedRounds order rounds interval s =
        elim (Bool-cases (leb_ℤ rounds (pos 0) || leb_ℤ interval (pos 0))) [
          | inl e ↦ unfold calibrate_tsc_hz in rw e (refused_lem rounds interval e)
          | inr e ↦
              let (more, longer) = accepted_lem rounds interval e in
              unfold calibrate_tsc_hz in
              rw (e, estimates_from-trace)
                (choose-ExplainedRounds order rounds interval
                  (trace (pos_part interval) (pos_part rounds) s) more longer)
        ]
