-- ===== src/Evaluation/Metrics.antt =====
-- The functions of the namespace `Evaluation` in MemoryLatencyAnalyzer_linux/src/evaluation_lab.cpp.
use Prim.Native.Nat.{min}
use memory_latency_analyzer.Base.{
  ℕ, zero, suc, ◌+◌, ◌-◌, ◌/◌, Bool, false, ◌||◌, List, [], ◌∷◌, length, take, drop, map, ltb, ◌==◌,
  if◌then◌else◌,
}
use memory_latency_analyzer.Base.Sort.{count_if}
use memory_latency_analyzer.Evaluation.Real.{Real, sum_from, mean_of, stddev_of, median_of}

module _ {ℓ} {A : Type ℓ} where
  unfoldable pub align_samples : List A → List A → List A
  align_samples first second = take (min (length first) (length second)) first

pub record RobustMetrics (D : Type 0) : Type 0 where
  pub input_count : ℕ
  pub kept_count : ℕ
  pub rejected_count : ℕ
  pub mean : D
  pub median : D
  pub stddev : D

pub record TvlaResult (D : Type 0) : Type 0 where
  pub fixed_count : ℕ
  pub random_count : ℕ
  pub fixed_mean : D
  pub random_mean : D
  pub fixed_stddev : D
  pub random_stddev : D
  pub t_statistic : D
  pub abs_t : D
  pub threshold : D
  pub threshold_exceeded : Bool

module _ (r : Real) where
  open r use {
    D, of_nat, add, sub, mul, div, le, lt, abs, sqrt, long_of_nat, long_div, to_double, tiny,
    mad_factor,
  }

  -- The blocks of `window` samples that are left.
  unfoldable pub blocks_from : ℕ → ℕ → List D → List D
  blocks_from window zero samples = []
  blocks_from window (suc left) samples =
      to_double (long_div (sum_from r (long_of_nat 0) (take window samples)) (long_of_nat window))
      ∷ blocks_from window left (drop window samples)

  unfoldable pub average_blocks : List D → ℕ → List D
  unfolding blocks_from
  average_blocks samples window =
      if length samples == 0 || window == 0
      then []
      else blocks_from window (length samples / window) samples

  unfoldable pub keep : (D → Bool) → List D → List D
  keep test [] = []
  keep test (x ∷ xs) = if test x then x ∷ keep test xs else keep test xs

  unfoldable pub remove_mad_outliers : List D → D → List D
  unfolding keep
  remove_mad_outliers samples threshold =
      let median = median_of r samples in
      let mad = median_of r (map (λ value. abs (sub value median)) samples) in
      let scale = mul mad_factor mad in
      if ltb (length samples) 5 || le threshold (of_nat 0)
      then samples
      else if le mad tiny
      then samples
      else keep (λ value. le (abs (sub value median)) (mul threshold scale)) samples

  unfoldable pub robust_metrics : List D → D → RobustMetrics D
  unfolding remove_mad_outliers
  robust_metrics samples outlier_threshold =
      let filtered = remove_mad_outliers samples outlier_threshold in
      record {
        input_count = length samples;
        kept_count = length filtered;
        rejected_count = length samples - length filtered;
        mean = mean_of r filtered;
        median = median_of r filtered;
        stddev = stddev_of r filtered (mean_of r filtered);
      }

  -- The default threshold 3.5.
  abbrev pub outlier_threshold : D
  outlier_threshold = div (of_nat 7) (of_nat 2)

  unfoldable pub snr_linear : List D → List D → D
  unfolding robust_metrics
  snr_linear first second =
      let a = robust_metrics first outlier_threshold in
      let b = robust_metrics second outlier_threshold in
      let signal = abs (sub a.mean b.mean) in
      let noise = sqrt (div (add (mul a.stddev a.stddev) (mul b.stddev b.stddev)) (of_nat 2)) in
      if ltb a.kept_count 2 || ltb b.kept_count 2
      then of_nat 0
      else if le noise tiny
      then of_nat 0
      else div signal noise

  -- The samples on the wrong side of the threshold.
  unfoldable pub count_errors : D → List D → List D → ℕ
  unfolding count_if
  count_errors threshold fixed random =
      count_if (λ value. lt threshold value) fixed + count_if (λ value. le value threshold) random

  unfoldable pub classification_error_rate : List D → List D → D
  unfolding robust_metrics count_errors
  classification_error_rate fixed_samples random_samples =
      let fixed = robust_metrics fixed_samples outlier_threshold in
      let random = robust_metrics random_samples outlier_threshold in
      let threshold = div (add fixed.mean random.mean) (of_nat 2) in
      let errors = count_errors threshold fixed_samples random_samples in
      let total = length fixed_samples + length random_samples in
      if fixed.kept_count == 0 || random.kept_count == 0
      then of_nat 100
      else if total == 0
      then of_nat 100
      else div (mul (of_nat 100) (of_nat errors)) (of_nat total)

  -- A result with its counts and its threshold only.
  abbrev pub tvla_start : ℕ → ℕ → D → TvlaResult D
  tvla_start fixed random threshold = record {
    fixed_count = fixed;
    random_count = random;
    fixed_mean = of_nat 0;
    random_mean = of_nat 0;
    fixed_stddev = of_nat 0;
    random_stddev = of_nat 0;
    t_statistic = of_nat 0;
    abs_t = of_nat 0;
    threshold = threshold;
    threshold_exceeded = false;
  }

  unfoldable pub welch_tvla : List D → List D → D → TvlaResult D
  welch_tvla fixed_samples random_samples threshold =
      let start = tvla_start (length fixed_samples) (length random_samples) threshold in
      let fixed_mean = mean_of r fixed_samples in
      let random_mean = mean_of r random_samples in
      let fixed_stddev = stddev_of r fixed_samples fixed_mean in
      let random_stddev = stddev_of r random_samples random_mean in
      let summary = record start {
        fixed_mean = fixed_mean;
        random_mean = random_mean;
        fixed_stddev = fixed_stddev;
        random_stddev = random_stddev;
      } in
      let denominator = sqrt (
        add (div (mul fixed_stddev fixed_stddev) (of_nat (length fixed_samples)))
          (div (mul random_stddev random_stddev) (of_nat (length random_samples)))) in
      let t = div (sub fixed_mean random_mean) denominator in
      if ltb (length fixed_samples) 2 || ltb (length random_samples) 2
      then start
      else if le denominator tiny
      then summary
      else record summary {
        t_statistic = t;
        abs_t = abs t;
        threshold_exceeded = le threshold (abs t);
      }
