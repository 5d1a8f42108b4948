-- ===== src/Evaluation/Counts.antt =====
-- How many samples the evaluation lab of MemoryLatencyAnalyzer_linux/src/evaluation_lab.cpp keeps.
use Prim.Native.Nat.{min}
use native.Mathlib.Nat.{zero-div, le-div_iff_mul-le, mul_assoc, div-mul-le_self}
use memory_latency_analyzer.Base.{
  ℕ, zero, suc, ◌+◌, ◌-◌, ◌*◌, ◌/◌, ◌≤◌, ◌<◌, ◌≡◌, ◌∙◌, refl, sym, ap, Bool, true, false, not, ◌&&◌,
  ◌||◌, List, [], ◌∷◌, ◌++◌, length, take, drop, length-append, length-take, arith, Bool-cases, inl,
  inr, ltb, ◌==◌, if◌then◌else◌,
}
use memory_latency_analyzer.Base.Int.{pos, leb_ℤ}
use memory_latency_analyzer.Evaluation.Real.{Real}
use memory_latency_analyzer.Evaluation.Metrics.{
  align_samples, blocks_from, average_blocks, keep, remove_mad_outliers, robust_metrics,
  outlier_threshold,
}
use memory_latency_analyzer.Evaluation.Run.{
  Bench, Progress, collect_trace, recapture, append_run, one_run, runs_from, no_progress,
  requested_pairs, evaluate, run,
}

module _ (r : Real) where
  open r use {D}

  length-blocks_from :
      (window left : ℕ) (samples : List D) → length (blocks_from r window left samples) ≡ left
  unfolding blocks_from
  length-blocks_from window zero samples = refl
  length-blocks_from window (suc left) samples =
      ap suc (length-blocks_from window left (drop window samples))

  -- The whole blocks of a list, whatever its length.
  pub length-average_blocks :
      (samples : List D) (window : ℕ)
      → 0 < window
      → length (average_blocks r samples window) ≡ length samples / window
  unfolding average_blocks
  length-average_blocks [] window h = sym (zero-div window)
  length-average_blocks (x ∷ xs) window h =
      let some_window : (window == 0) ≡ false = ground arith in
      let some_samples : (suc (length xs) == 0) ≡ false = ground arith in
      rw (some_samples, some_window) (length-blocks_from window (length (x ∷ xs) / window) (x ∷ xs))

  length-keep : (test : D → Bool) (samples : List D) → length (keep r test samples) ≤ length samples
  unfolding keep
  length-keep test [] = omega arith
  length-keep test (x ∷ xs) = ground (arith, length-keep test xs)

  if_length :
      (n : ℕ) (b : Bool) (xs ys : List D)
      → length xs ≤ n
      → length ys ≤ n
      → length (if b then xs else ys) ≤ n
  if_length n true xs ys h k = h
  if_length n false xs ys h k = k

  length-remove_mad_outliers :
      (samples : List D) (threshold : D)
      → length (remove_mad_outliers r samples threshold) ≤ length samples
  unfolding remove_mad_outliers
  length-remove_mad_outliers samples threshold =
      if_length (length samples) (ltb (length samples) 5 || r.le threshold (r.of_nat 0)) samples _
        (omega arith) (if_length (length samples) _ samples _ (omega arith) (length-keep _ samples))

  -- What is kept and what is rejected add up to the input.
  pub robust_metrics-counts :
      (samples : List D) (threshold : D)
      → let m = robust_metrics r samples threshold in
        (m.kept_count + m.rejected_count ≡ length samples) × (m.input_count ≡ length samples)
  unfolding robust_metrics
  robust_metrics-counts samples threshold =
      (omega (arith, length-remove_mad_outliers samples threshold), refl)

mul_le_right : (k a b : ℕ) → a ≤ b → k * a ≤ k * b
mul_le_right zero a b h = omega arith
mul_le_right (suc k) a b h = omega (arith, mul_le_right k a b h)

add-mul-one : (n k : ℕ) → (n + 1) * k ≡ n * k + k
add-mul-one n k = omega arith

module _ (r : Real) (b : Bench) where
  open r use {D}
  open b use {State}

  length-collect_trace :
      (count : ℕ) (random leaky : Bool) (s : State)
      → length (collect_trace r b count random leaky s).0 ≡ count
  unfolding collect_trace
  length-collect_trace zero random leaky s = refl
  length-collect_trace (suc left) random leaky s = ap suc (length-collect_trace left random leaky _)

  -- What holds after `n` runs.
  record IsCounted (samples window n : ℕ) (p : Progress r b) : Type 0 where
    fixed_length : length p.fixed_all ≡ n * (samples / window)
    random_length : length p.random_all ≡ n * (samples / window)
    recovered_all : p.recovered ≡ p.faults

  recapture-counts :
      (run samples : ℕ) (fixed : List D) (p : Progress r b) (s : State)
      → length fixed ≡ samples
      → let (repaired, p', s') = recapture r b run samples fixed p s in
        (length repaired ≡ samples)
        × (p'.fixed_all ≡ p.fixed_all)
        × (p'.random_all ≡ p.random_all)
        × (p.recovered ≡ p.faults → p'.recovered ≡ p'.faults)
  unfolding recapture
  recapture-counts run samples fixed p s len =
      let tail = length-collect_trace 8 false true s in
      let repaired =
        length-append (take (length fixed - 8) fixed) (collect_trace r b 8 false true s).0 in
      let cut = length-take (length fixed - 8) fixed in
      elim (Bool-cases (run == 0 && ltb 8 (length fixed))) [
        | inl e ↦
            let more : 8 < length fixed = ground arith in
            let whole : length
                  (take (length fixed - 8) fixed ++ (collect_trace r b 8 false true s).0)
                ≡ samples =
              omega arith in
            let same : (length
                    (take (length fixed - 8) fixed ++ (collect_trace r b 8 false true s).0)
                  == samples)
                ≡ true =
              ground arith in
            rw (e, same) (whole, refl, refl, λ h. ap (λ k. k + 1) h)
        | inr e ↦ rw e (len, refl, refl, λ h. h)
      ]

  append_run-counts :
      (window : ℕ) (fixed random : List D) (p : Progress r b) (samples n : ℕ)
      → 0 < window
      → length fixed ≡ samples
      → length random ≡ samples
      → IsCounted samples window n p
      → IsCounted samples window (n + 1) (append_run r b window fixed random p)
  append_run-counts window fixed random p samples n some_window len1 len2 c =
      let blocks = samples / window in
      let a : length (average_blocks r fixed window) ≡ blocks =
        length-average_blocks r fixed window some_window ∙ ap (λ k. k / window) len1 in
      let z : length (average_blocks r random window) ≡ blocks =
        length-average_blocks r random window some_window ∙ ap (λ k. k / window) len2 in
      let aligned =
        align_samples (average_blocks r fixed window) (average_blocks r random window) in
      let both : length aligned ≡ blocks =
        unfold align_samples in
        omega (
          arith,
          length-take
              (min (length (average_blocks r fixed window))
                (length (average_blocks r random window)))
              (average_blocks r fixed window),
        ) in
      let other : length (take (length aligned) (average_blocks r random window)) ≡ blocks =
        omega (arith, length-take (length aligned) (average_blocks r random window)) in
      let f : length p.fixed_all ≡ n * blocks = c.fixed_length in
      let g : length p.random_all ≡ n * blocks = c.random_length in
      let step : (n + 1) * blocks ≡ n * blocks + blocks = add-mul-one n blocks in
      unfold append_run in
      elim (Bool-cases (length aligned == 0)) [
        | inl e ↦
            let none_left : blocks ≡ 0 = ground arith in
            rw e (record {
              fixed_length = omega arith;
              random_length = omega arith;
              recovered_all = c.recovered_all;
            })
        | inr e ↦ rw e (record {
          fixed_length = length-append p.fixed_all aligned ∙ omega arith;
          random_length =
              length-append p.random_all (take (length aligned) (average_blocks r random window))
              ∙ omega arith;
          recovered_all = c.recovered_all;
        })
      ]

  one_run-counts :
      (samples window run n : ℕ) (p : Progress r b) (s : State)
      → 0 < window
      → IsCounted samples window n p
      → IsCounted samples window (n + 1) (one_run r b samples window run p s).0
  unfolding one_run
  one_run-counts samples window run n p s some_window c =
      let (fixed, s1) = collect_trace r b samples false true s in
      let (random, s2) = collect_trace r b samples true true s1 in
      let (repaired, p', s3) = recapture r b run samples fixed p s2 in
      let (len, same_fixed, same_random, again) =
        recapture-counts run samples fixed p s2 (length-collect_trace samples false true s) in
      append_run-counts window repaired random p' samples n some_window len
        (length-collect_trace samples true true s1)
        (record {
          fixed_length = ap length same_fixed ∙ c.fixed_length;
          random_length = ap length same_random ∙ c.random_length;
          recovered_all = again c.recovered_all;
        })

  runs_from-counts :
      (samples window left run n k : ℕ) (p : Progress r b) (s : State)
      → 0 < window
      → n + left ≡ k
      → IsCounted samples window n p
      → IsCounted samples window k (runs_from r b samples window left run p s).0
  unfolding runs_from
  runs_from-counts samples window zero run n k p s some_window e c =
      let same : n ≡ k = omega arith in rw (← same) c
  runs_from-counts samples window (suc left) run n k p s some_window e c =
      let (p', s') = one_run r b samples window run p s in
      runs_from-counts samples window left (run + 1) (n + 1) k p' s' some_window (omega arith)
        (one_run-counts samples window run n p s some_window c)

  aligned_le :
      (runs samples window : ℕ)
      → 0 < window
      → runs * (samples / window) ≤ requested_pairs runs samples window
  aligned_le runs samples window h = (le-div_iff_mul-le h).1 (
      let whole : runs * (samples / window) * window ≡ runs * (samples / window * window) =
        mul_assoc runs (samples / window) window in
      rw whole
        (mul_le_right runs (samples / window * window) samples (div-mul-le_self samples window)))

  -- On any processor and with any floating-point arithmetic, an evaluation of positive numbers of runs and
  -- samples and a positive window keeps exactly the whole blocks of every run, the same number of both classes:
  -- no more than the pairs that were requested, so the alignment loss is that of the last partial blocks alone.
  -- Each simulated capture fault is recovered, and kept and rejected samples add up.
  pub run_aligned_exact :
      (written : Bool) (runs samples window : ℕ) (s : State)
      → 0 < runs
      → 0 < samples
      → 0 < window
      → let result = (run r b true written (pos runs) (pos samples) window s).0 in
        (result.aligned_samples ≡ runs * (samples / window))
        × (result.aligned_samples ≤ requested_pairs runs samples window)
        × (result.recovered_captures ≡ result.simulated_capture_faults)
        × (result.fixed_metrics.kept_count + result.fixed_metrics.rejected_count
            ≡ result.aligned_samples)
        × (result.random_metrics.kept_count + result.random_metrics.rejected_count
            ≡ result.aligned_samples)
  run_aligned_exact written runs samples window s some_runs some_samples some_window =
      let p = (runs_from r b samples window runs 0 (no_progress r b) s).0 in
      let c : IsCounted samples window runs p =
        runs_from-counts samples window runs 0 0 runs (no_progress r b) s some_window (omega arith)
          (record {
            fixed_length = omega arith;
            random_length = omega arith;
            recovered_all = refl;
          }) in
      let good : (leb_ℤ (pos runs) (pos 0)
            || leb_ℤ (pos samples) (pos 0)
            || window == 0
            || not true)
          ≡ false =
        ground arith in
      let f : length p.fixed_all ≡ runs * (samples / window) = c.fixed_length in
      let g : length p.random_all ≡ runs * (samples / window) = c.random_length in
      let kept = robust_metrics-counts r p.fixed_all (outlier_threshold r) in
      let kept2 = robust_metrics-counts r p.random_all (outlier_threshold r) in
      let pairs = aligned_le runs samples window some_window in
      unfold run evaluate in rw good (f, rw f pairs, c.recovered_all, kept.0, kept2.0 ∙ g ∙ sym f)
