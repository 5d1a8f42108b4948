-- ===== src/Spectre/Examples.antt =====
-- Tests of MemoryLatencyAnalyzer_linux/src/spectre_v1.cpp, and its theorems at a processor without noise.
use memory_latency_analyzer.Base.{
  ℕ, zero, suc, ◌+◌, ◌*◌, ◌≤◌, ◌<◌, ◌≡◌, ◌≢◌, ◌↔◌, refl, true, false, List, [], ◌∷◌, ◌++◌, map,
  replicate, get_or-replicate, arith, All,
}
use memory_latency_analyzer.Base.Int.{pos, negsuc}
use memory_latency_analyzer.Spectre.Scores.{score_at, analyze_scores, rank, score_limit, separation}
use memory_latency_analyzer.Spectre.Ranking.{analyze_scores_exact, analyze_scores_zero}
use memory_latency_analyzer.Spectre.Machine.{
  choose_threshold, retry_tries, read_byte_with_threshold,
}
use memory_latency_analyzer.Spectre.Reload.{read_byte_bounds}
use memory_latency_analyzer.Spectre.Reader.{
  initial_array, is_readable, read_string, fill_demo, run_reliability_lab,
}
use memory_latency_analyzer.Spectre.Recover.{display, read_string_clean}
use memory_latency_analyzer.Spectre.Lab.{sum, run_reliability_lab_consistent}
use memory_latency_analyzer.Spectre.Secret.{run_reliability_lab_unfilled}
use memory_latency_analyzer.Spectre.Perfect.{perfect, perfect-IsClean}

thresholds : (choose_threshold 60 300 ≡ 180) × (choose_threshold 60 65 ≡ 80)
unfolding choose_threshold
thresholds = (refl, refl)

-- The product wraps around: such a retry makes no attempt.
retries :
    (retry_tries 999 ≡ pos 2997)
    × (retry_tries 5000 ≡ pos 5000)
    × (retry_tries 900_000_000 ≡ negsuc 1594967295)
unfolding retry_tries
retries = (refl, refl, refl)

-- 50 hits at index 65 and 7 at index 3.
abbrev two_peaks : List ℕ
two_peaks = replicate 3 0 ++ 7 ∷ replicate 61 0 ++ 50 ∷ replicate 190 0

two_peaks_read :
    ((analyze_scores two_peaks 180 (pos 100)).guessed_value ≡ 65)
    × ((analyze_scores two_peaks 180 (pos 100)).second_score ≡ 7)
    × ((analyze_scores two_peaks 180 (pos 100)).success ≡ true)
unfolding analyze_scores rank separation
two_peaks_read = (refl, refl, refl)

get_or_limited :
    (scores : List ℕ) (j : ℕ) → All (λ c. c ≤ score_limit) scores → score_at scores j ≤ score_limit
get_or_limited [] j h = omega arith
get_or_limited (c ∷ scores) zero h = h.0
get_or_limited (c ∷ scores) (suc j) h = get_or_limited scores j h.1

two_peaks_small : (j : ℕ) → j < 256 → score_at two_peaks j ≤ score_limit
two_peaks_small j h = get_or_limited two_peaks j (omega arith)

analyze_scores_exact_example :
    (((analyze_scores two_peaks 180 (pos 100)).guessed_value ≡ 65)
      × ((analyze_scores two_peaks 180 (pos 100)).success ≡ true))
    ↔ ((5 ≤ 50) × ((j : ℕ) → j < 256 → j ≢ 65 → 2 * score_at two_peaks j + 5 ≤ 50))
analyze_scores_exact_example =
    analyze_scores_exact two_peaks 180 (pos 100) 65 refl (omega arith) (omega arith) two_peaks_small

-- A clear peak at index 0.
abbrev zero_peak : List ℕ
zero_peak = 50 ∷ replicate 255 0

zero_peak_top : (j : ℕ) → j < 256 → score_at zero_peak j ≤ 50
zero_peak_top zero h = omega arith
zero_peak_top (suc j) h =
    let e : score_at (replicate 255 0) j ≡ 0 = get_or-replicate {A = ℕ} 255 j 0 in
    rw e (omega arith)

analyze_scores_zero_example :
    ((analyze_scores zero_peak 180 (pos 100)).guessed_value ≡ 0)
    × ((analyze_scores zero_peak 180 (pos 100)).success ≡ false)
analyze_scores_zero_example =
    analyze_scores_zero zero_peak 180 (pos 100) refl zero_peak_top (omega arith)

read_string_clean_example :
    (read_string perfect (fill_demo initial_array) 16 3 (pos 6) 0).0
    ≡ map display (b'T' ∷ b'h' ∷ b'e' ∷ [])
unfolding fill_demo is_readable
read_string_clean_example =
    read_string_clean perfect-IsClean (fill_demo initial_array) 16 3 (pos 6) 0 refl (omega arith)
      (omega arith) (omega arith) (omega arith)

read_byte_bounds_example :
    let r = (read_byte_with_threshold perfect initial_array 16 (pos 999) 180 0).0 in
    (r.second_score ≤ r.score) × (r.score ≤ 999) × (r.guessed_value < 256)
read_byte_bounds_example = read_byte_bounds perfect initial_array 16 999 180 0

run_reliability_lab_consistent_example :
    let r = (run_reliability_lab perfect initial_array (pos 2) (pos 7) 0).0 in
    (r.exact_matches ≤ 2)
    × (sum r.per_byte_correct_runs ≡ r.correct_bytes)
    × All (λ k. k ≤ 2) r.per_byte_correct_runs
    × (r.exact_matches * 40 ≤ r.correct_bytes)
    × (r.correct_bytes ≤ r.total_bytes)
    × (r.total_bytes ≡ 40 * 2)
run_reliability_lab_consistent_example =
    run_reliability_lab_consistent perfect initial_array 2 7 0 (omega arith) (omega arith)

run_reliability_lab_unfilled_example :
    let r = (run_reliability_lab perfect initial_array (pos 5) (pos 999) 0).0 in
    (r.correct_bytes ≡ 0) × (r.exact_matches ≡ 0)
run_reliability_lab_unfilled_example =
    run_reliability_lab_unfilled perfect-IsClean 5 999 0 (omega arith) (omega arith) (omega arith)
