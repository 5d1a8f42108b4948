-- ===== src/Evaluation/Examples.antt =====
-- Tests and examples of the evaluation lab, with natural numbers in place of floating-point ones.
use mathlib.Core.Option
use memory_latency_analyzer.Base.{
  List, some, ℕ, ◌+◌, ◌-◌, ◌*◌, ◌/◌, ◌≤◌, ◌≡◌, refl, true, [], ◌∷◌, arith, ltb, leb,
}
use memory_latency_analyzer.Base.Int.{pos}
use memory_latency_analyzer.Evaluation.Real.{Real, median_of}
use memory_latency_analyzer.Evaluation.Metrics.{
  average_blocks, remove_mad_outliers, TvlaResult, tvla_start,
}
use memory_latency_analyzer.Evaluation.Run.{Bench, LabResult, run, requested_pairs, tvla_threshold}
use memory_latency_analyzer.Evaluation.Layout.{PlatformSignature, control_matrix, write_report}
use memory_latency_analyzer.Evaluation.Listed.{IsPlainPlatform, AreShown, control_matrix-IsPlain}
use memory_latency_analyzer.Evaluation.CountFields.{counts_printed}
use memory_latency_analyzer.Evaluation.ScoreFields.{scores_printed}
use memory_latency_analyzer.Evaluation.Report.{evaluation_value, read_json-write_report}
use memory_latency_analyzer.Base.Text.{codes, print_nat}
use memory_latency_analyzer.Json.Emitting.{read_json}
use memory_latency_analyzer.Json.Numbers.{is_number-print_nat}
use memory_latency_analyzer.Evaluation.Counts.{run_aligned_exact}

abbrev natural : Real
natural = record {
  D = ℕ;
  L = ℕ;
  of_nat = λ n. n;
  add = λ a b. a + b;
  sub = λ a b. a - b + (b - a);
  mul = λ a b. a * b;
  div = λ a b. a / b;
  le = leb;
  lt = ltb;
  abs = λ a. a;
  sqrt = λ a. a;
  log10 = λ a. a;
  to_long = λ a. a;
  long_of_nat = λ n. n;
  long_add = λ a b. a + b;
  long_sub = λ a b. a - b + (b - a);
  long_mul = λ a b. a * b;
  long_div = λ a b. a / b;
  to_double = λ a. a;
  tiny = 0;
  mad_factor = 1;
}

-- The state is the clock; the bytes follow it.
abbrev bench : Bench
bench = record {
  State = ℕ;
  draw = λ s. (s, s + 1);
  timed = λ value rounds s. (s, s + rounds, s + rounds);
}

run_aligned_exact_example :
    ((run natural bench true true (pos 2) (pos 10) 4 0).0.aligned_samples ≡ 2 * (10 / 4))
    × ((run natural bench true true (pos 2) (pos 10) 4 0).0.aligned_samples
        ≤ requested_pairs 2 10 4)
    × ((run natural bench true true (pos 2) (pos 10) 4 0).0.recovered_captures
        ≡ (run natural bench true true (pos 2) (pos 10) 4 0).0.simulated_capture_faults)
    × ((run natural bench true true (pos 2) (pos 10) 4 0).0.fixed_metrics.kept_count
          + (run natural bench true true (pos 2) (pos 10) 4 0).0.fixed_metrics.rejected_count
        ≡ (run natural bench true true (pos 2) (pos 10) 4 0).0.aligned_samples)
    × ((run natural bench true true (pos 2) (pos 10) 4 0).0.random_metrics.kept_count
          + (run natural bench true true (pos 2) (pos 10) 4 0).0.random_metrics.rejected_count
        ≡ (run natural bench true true (pos 2) (pos 10) 4 0).0.aligned_samples)
run_aligned_exact_example =
    run_aligned_exact natural bench true 2 10 4 0 (omega arith) (omega arith) (omega arith)

abbrev platform : PlatformSignature
platform = record {
  vendor = codes "GenuineIntel";
  brand = codes "Model \"9\"";
  os_release = codes "6.1";
  machine = codes "x86_64";
  physical_cores = pos 4;
  logical_cpus = pos 8;
  packages = pos 1;
  smt_active = true;
}

abbrev two_runs : LabResult natural bench
two_runs = (run natural bench true true (pos 2) (pos 10) 4 0).0

abbrev clean : TvlaResult ℕ
clean = tvla_start natural 4 4 (tvla_threshold natural bench)

all_shown : (ms : List ℕ) → AreShown natural bench print_nat ms
all_shown [] = tt
all_shown (m ∷ ms) = (is_number-print_nat m, all_shown ms)

platform-IsPlain : IsPlainPlatform platform
unfolding IsPlainPlatform
platform-IsPlain = ground arith

read_json-write_report_example :
    let (written, file) =
      write_report natural bench print_nat true true two_runs
        (pos 4)
        platform
        control_matrix
        clean
        (81 ∷ 79 ∷ []) in
    (written ≡ true)
    × (Option.map read_json file
        ≡ some (
            some (
              evaluation_value natural bench print_nat two_runs
                (pos 4)
                platform
                control_matrix
                clean
                (81 ∷ 79 ∷ []))))
read_json-write_report_example =
    read_json-write_report natural bench print_nat two_runs (pos 4) platform control_matrix clean
      (81 ∷ 79 ∷ []) true
      (
        all_shown (counts_printed natural bench print_nat two_runs (pos 4)),
        all_shown (scores_printed natural bench print_nat two_runs clean),
        all_shown (81 ∷ 79 ∷ []),
      )
      platform-IsPlain control_matrix-IsPlain

-- The last sample makes no whole block.
blocks_run : average_blocks natural (1 ∷ 3 ∷ 5 ∷ 7 ∷ 9 ∷ []) 2 ≡ 2 ∷ 6 ∷ []
unfolding average_blocks
blocks_run = refl

outlier_run : remove_mad_outliers natural (10 ∷ 12 ∷ 11 ∷ 90 ∷ 10 ∷ []) 4 ≡ 10 ∷ 12 ∷ 11 ∷ 10 ∷ []
unfolding remove_mad_outliers median_of
outlier_run = refl
