-- ===== src/Statistics/Examples.antt =====
-- Tests and examples of the statistics and the clock, with hundredths in place of floating-point numbers.
use native.Mathlib.Nat.{mul-le-mul_right}
use memory_latency_analyzer.Base.{ℕ, ◌+◌, ◌*◌, ◌/◌, ◌≤◌, ◌≡◌, refl, some, [], ◌∷◌, arith, ltb}
use memory_latency_analyzer.Base.Int.{pos}
use memory_latency_analyzer.Base.Sort.{HasRank}
use memory_latency_analyzer.Statistics.Summary.{summarize_impl}
use memory_latency_analyzer.Statistics.Hundredths.{hundredths, places}
use memory_latency_analyzer.Statistics.Quantiles.{IsExact, summarize_inside, summarize_median}
use memory_latency_analyzer.Statistics.Timer.{Clock, measure_overhead_cycles, calibrate_tsc_hz}
use memory_latency_analyzer.Statistics.Readings.{readings}
use memory_latency_analyzer.Statistics.Calibration.{Explained, ltb-IsOrder, calibrate_tsc_hz_exact}

factor_le : (q n : ℕ) → q ≤ 100 → q * (100 * n) / 100 ≤ 100 * n
factor_le q n h = omega (arith, mul-le-mul_right (100 * n) h)

hundredths-IsExact : IsExact hundredths places
hundredths-IsExact = record {
  mul_le = λ q n few h. ground (arith, factor_le q n);
  ceil_le = λ p n few h. ground arith;
  floor_le = λ p. omega arith;
  ceil_near = λ p. omega arith;
  floor_nat = λ n few. omega arith;
  ceil_nat = λ n few. omega arith;
  half_double = λ n few. omega arith;
  half_le = refl;
  q95_le = refl;
  q99_le = refl;
}

summarize_inside_example :
    summarize_impl hundredths places 7 (300 ∷ 100 ∷ 200 ∷ [])
    ≡ summarize_impl hundredths places 9 (300 ∷ 100 ∷ 200 ∷ [])
summarize_inside_example =
    summarize_inside hundredths places hundredths-IsExact 7 9 (300 ∷ 100 ∷ 200 ∷ []) (omega arith)

summarize_median_example :
    HasRank ltb
      (300 ∷ 100 ∷ 200 ∷ [])
      1
      (summarize_impl hundredths places 7 (300 ∷ 100 ∷ 200 ∷ [])).median
summarize_median_example =
    summarize_median hundredths places hundredths-IsExact ltb-IsOrder 7 (300 ∷ 100 ∷ 200 ∷ []) 1
      refl (omega arith)

summary_run : (summarize_impl hundredths places 7 (300 ∷ 100 ∷ 200 ∷ [])).median ≡ 200
unfolding summarize_impl
summary_run = refl

-- The state is the counter; the clock has a nanosecond for each cycle.
abbrev clock : Clock
clock = record {
  State = ℕ;
  lfence = λ s. s + 1;
  rdtscp = λ s. ((s, 0), s + 20);
  clock_gettime = λ s. (some (0, s), s + 5);
  sleep_ms = λ ms s. s + 1000 * ms;
}

overhead_run : measure_overhead_cycles clock (pos 3) 10 ≡ 22
unfolding measure_overhead_cycles
overhead_run = refl

calibrate_tsc_hz_exact_example :
    Explained clock hundredths 1
      (pos 3)
      (pos 50)
      (readings clock 50 3 10)
      (calibrate_tsc_hz clock hundredths 1 (pos 3) (pos 50) 10)
calibrate_tsc_hz_exact_example =
    calibrate_tsc_hz_exact clock hundredths 1 ltb-IsOrder (pos 3) (pos 50) 10
