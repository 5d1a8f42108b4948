-- ===== src/Evaluation/Run.antt =====
-- `collect_trace` and `EvaluationLab::run` of MemoryLatencyAnalyzer_linux/src/evaluation_lab.cpp. The generator of
-- the random bytes and the clock are a parameter; the fields for the platform and the controls are left out.
use memory_latency_analyzer.Base.{
  ℕ, zero, suc, ◌+◌, ◌-◌, ◌*◌, ◌/◌, ◌%◌, ◌^◌, Bool, true, false, not, ◌&&◌, ◌||◌, List, [], ◌∷◌,
  ◌++◌, length, take, ltb, ◌==◌, if◌then◌else◌,
}
use memory_latency_analyzer.Base.Int.{ℤ, pos, leb_ℤ, pos_part}
use memory_latency_analyzer.Evaluation.Real.{Real, mean_of, stddev_of, median_of}
use memory_latency_analyzer.Evaluation.Metrics.{
  align_samples, average_blocks, remove_mad_outliers, RobustMetrics, robust_metrics,
  outlier_threshold, snr_linear, classification_error_rate, TvlaResult, tvla_start, welch_tvla,
}

-- What `collect_trace` uses: a byte of the generator, and the two readings of the clock around the work that a
-- value and a number of rounds make.
pub record Bench : Type 1 where
  pub State : Type 0
  pub draw : State → ℕ × State
  pub timed : ℕ → ℕ → State → ℕ × ℕ × State

-- `std::size_t` product and quotient: the product of two `int`s is below 2^62.
abbrev pub requested_pairs : ℕ → ℕ → ℕ → ℕ
requested_pairs runs samples window = runs * samples / window

module _ (r : Real) (b : Bench) where
  open r use {D, of_nat, sub, mul, div, le, lt, abs, log10, tiny}
  open b use {State, draw, timed}

  -- The rounds of work for a value: `value & 0x0F` makes the extra ones of the leaky fixture.
  abbrev pub work_rounds : Bool → ℕ → ℕ
  work_rounds leaky value = 80 + (if leaky then value % 16 else 0) * 8

  abbrev pub next_value : Bool → State → ℕ × State
  next_value random s = if random then draw s else (0xA5, s)

  unfoldable pub collect_trace : ℕ → Bool → Bool → State → List D × State
  collect_trace zero random leaky s = ([], s)
  collect_trace (suc left) random leaky s =
      let (value, s1) = next_value random s in
      let (t0, t1, s2) = timed value (work_rounds leaky value) s1 in
      let (rest, s3) = collect_trace left random leaky s2 in
      (of_nat ((t1 + 2 ^ 64 - t0) % 2 ^ 64) ∷ rest, s3)

  -- What the loop over the runs collects.
  pub record Progress : Type 0 where
    pub faults : ℕ
    pub recovered : ℕ
    pub fixed_all : List D
    pub random_all : List D
    pub run_medians : List D

  -- The simulated loss of the last eight samples in run 0, and their second capture.
  unfoldable pub recapture : ℕ → ℕ → List D → Progress → State → List D × Progress × State
  unfolding collect_trace
  recapture run samples fixed p s =
      let (recovery, s') = collect_trace 8 false true s in
      let repaired = take (length fixed - 8) fixed ++ recovery in
      if run == 0 && ltb 8 (length fixed)
      then (
        repaired,
        record p {
          faults = p.faults + 1;
          recovered = p.recovered + (if length repaired == samples then 1 else 0);
        },
        s',
      )
      else (fixed, p, s)

  -- The averages of a run, cut to the same length and appended.
  unfoldable pub append_run : ℕ → List D → List D → Progress → Progress
  append_run window fixed random p =
      let fixed_averaged = average_blocks r fixed window in
      let random_averaged = average_blocks r random window in
      let aligned_fixed = align_samples fixed_averaged random_averaged in
      let aligned_random = take (length aligned_fixed) random_averaged in
      if length aligned_fixed == 0 then p else record p {
        fixed_all = p.fixed_all ++ aligned_fixed;
        random_all = p.random_all ++ aligned_random;
        run_medians = p.run_medians ++ median_of r aligned_fixed ∷ [];
      }

  unfoldable pub one_run : ℕ → ℕ → ℕ → Progress → State → Progress × State
  unfolding collect_trace recapture append_run
  one_run samples window run p s =
      let (fixed, s1) = collect_trace samples false true s in
      let (random, s2) = collect_trace samples true true s1 in
      let (repaired, p', s3) = recapture run samples fixed p s2 in
      (append_run window repaired random p', s3)

  unfoldable pub runs_from : ℕ → ℕ → ℕ → ℕ → Progress → State → Progress × State
  unfolding one_run
  runs_from samples window zero run p s = (p, s)
  runs_from samples window (suc left) run p s =
      let (p', s') = one_run samples window run p s in runs_from samples window left (run + 1) p' s'

  abbrev pub no_progress : Progress
  no_progress = record {
    faults = 0;
    recovered = 0;
    fixed_all = [];
    random_all = [];
    run_medians = [];
  }

  unfoldable pub repeatability_cv : List D → D
  repeatability_cv values =
      let mean = mean_of r values in
      if ltb (length values) 2
      then of_nat 0
      else if lt (abs mean) tiny
      then of_nat 0
      else div (mul (of_nat 100) (stddev_of r values mean)) (abs mean)

  pub record LabResult : Type 0 where
    pub runs : ℤ
    pub trace_samples : ℤ
    pub simulated_capture_faults : ℕ
    pub recovered_captures : ℕ
    pub recovery_rate_percent : D
    pub aligned_samples : ℕ
    pub alignment_loss_percent : D
    pub fixed_metrics : RobustMetrics D
    pub random_metrics : RobustMetrics D
    pub snr_linear : D
    pub snr_db : D
    pub classification_error_percent : D
    pub repeatability_cv_percent : D
    pub tvla : TvlaResult D
    pub repeatability_ok : Bool
    pub leakage_detected : Bool
    pub report_written : Bool

  abbrev pub no_metrics : RobustMetrics D
  no_metrics = record {
    input_count = 0;
    kept_count = 0;
    rejected_count = 0;
    mean = of_nat 0;
    median = of_nat 0;
    stddev = of_nat 0;
  }

  -- The default threshold 4.5.
  abbrev pub tvla_threshold : D
  tvla_threshold = div (of_nat 9) (of_nat 2)

  abbrev pub empty_result : ℤ → ℤ → LabResult
  empty_result runs trace_samples = record {
    runs = runs;
    trace_samples = trace_samples;
    simulated_capture_faults = 0;
    recovered_captures = 0;
    recovery_rate_percent = of_nat 0;
    aligned_samples = 0;
    alignment_loss_percent = of_nat 0;
    fixed_metrics = no_metrics;
    random_metrics = no_metrics;
    snr_linear = of_nat 0;
    snr_db = of_nat 0;
    classification_error_percent = of_nat 0;
    repeatability_cv_percent = of_nat 0;
    tvla = tvla_start r 0 0 tvla_threshold;
    repeatability_ok = false;
    leakage_detected = false;
    report_written = false;
  }

  -- The fields behind the loop.
  unfoldable pub evaluate : ℕ → ℕ → ℕ → Bool → Progress → LabResult
  unfolding repeatability_cv
  evaluate runs samples window written p =
      let pairs = requested_pairs runs samples window in
      let aligned = length p.fixed_all in
      let snr = snr_linear r p.fixed_all p.random_all in
      let error = classification_error_rate r p.fixed_all p.random_all in
      let tvla = welch_tvla r p.fixed_all p.random_all tvla_threshold in
      let fixed_clean = remove_mad_outliers r p.fixed_all (outlier_threshold r) in
      let random_clean = remove_mad_outliers r p.random_all (outlier_threshold r) in
      let tvla_clean =
        welch_tvla r (average_blocks r fixed_clean 1) (average_blocks r random_clean 1)
          tvla_threshold in
      let cv = repeatability_cv p.run_medians in
      record {
        runs = pos runs;
        trace_samples = pos samples;
        simulated_capture_faults = p.faults;
        recovered_captures = p.recovered;
        recovery_rate_percent =
            if p.faults == 0
            then of_nat 100
            else div (mul (of_nat 100) (of_nat p.recovered)) (of_nat p.faults);
        aligned_samples = aligned;
        alignment_loss_percent =
            if ltb 0 pairs
            then mul (of_nat 100) (sub (of_nat 1) (div (of_nat aligned) (of_nat pairs)))
            else of_nat 0;
        fixed_metrics = robust_metrics r p.fixed_all (outlier_threshold r);
        random_metrics = robust_metrics r p.random_all (outlier_threshold r);
        snr_linear = snr;
        snr_db = if lt (of_nat 0) snr then mul (of_nat 20) (log10 snr) else of_nat 0;
        classification_error_percent = error;
        repeatability_cv_percent = cv;
        tvla = tvla;
        repeatability_ok = le cv (of_nat 10) && le error (of_nat 5);
        leakage_detected = tvla.threshold_exceeded || tvla_clean.threshold_exceeded;
        report_written = written;
      }

  -- `named` says that the path of the report is not empty, `written` whether `write_report` succeeds.
  unfoldable pub run : Bool → Bool → ℤ → ℤ → ℕ → State → LabResult × State
  unfolding runs_from evaluate
  run named written runs trace_samples window s =
      let (p, s') = runs_from (pos_part trace_samples) window (pos_part runs) 0 no_progress s in
      if leb_ℤ runs (pos 0) || leb_ℤ trace_samples (pos 0) || window == 0 || not named
      then (empty_result runs trace_samples, s)
      else (evaluate (pos_part runs) (pos_part trace_samples) window written p, s')
