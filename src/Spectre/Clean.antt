-- ===== src/Spectre/Clean.antt =====
-- The attack of MemoryLatencyAnalyzer_linux/src/spectre_v1.cpp over a channel without noise: what it reads is
-- decided by the code alone.
use memory_latency_analyzer.Base.{
  ℕ, zero, suc, ◌+◌, ◌*◌, ◌≤◌, ◌<◌, ◌≡◌, ◌≢◌, ◌∙◌, true, false, List, length, get_or, ◌==◌, arith,
  if◌then◌else◌, Bool-cases, inl, inr,
}
use memory_latency_analyzer.Base.Int.{ℤ, pos, pos_part}
use memory_latency_analyzer.Spectre.Scores.{
  probe_values, score_at, no_scores, length-no_scores, score_at-no_scores, score_limit,
}
use memory_latency_analyzer.Spectre.Ranking.{analyze_scores_exact, analyze_scores_zero}
use memory_latency_analyzer.Spectre.Machine.{
  Machine, architectural_size, calibrate_threshold, attempt_once, attempts_from,
  read_byte_with_threshold,
}
use memory_latency_analyzer.Spectre.Reload.{attempt_once_raises}

-- An attempt out of bounds raises the score of the byte that stands at the offset, and no other score;
-- the calibration always chooses the same threshold.
pub record IsClean (m : Machine) (threshold : ℕ) : Type 0 where
  pub steady : (s : m.State) → (calibrate_threshold m s).0 ≡ threshold
  pub clean :
      (array1 : List ℕ) (malicious attempt : ℕ) (scores : List ℕ) (s : m.State) (k : ℕ)
      → architectural_size ≤ malicious
      → length scores ≡ probe_values
      → k < probe_values
      → score_at (attempt_once m array1 malicious threshold attempt scores s).0 k
        ≡ score_at scores k + (if k == get_or array1 malicious 0 then 1 else 0)

module _ {m : Machine} {threshold : ℕ} (channel : IsClean m threshold) where
  pub attempts_clean :
      (array1 : List ℕ) (malicious left attempt : ℕ) (scores : List ℕ) (s : m.State) (k : ℕ)
      → architectural_size ≤ malicious
      → length scores ≡ probe_values
      → k < probe_values
      → let after = (attempts_from m array1 malicious threshold left attempt scores s).0 in
        (length after ≡ probe_values)
        × (score_at after k
            ≡ score_at scores k + left * (if k == get_or array1 malicious 0 then 1 else 0))
  unfolding attempts_from
  attempts_clean array1 malicious zero attempt scores s k out len less = (len, omega arith)
  attempts_clean array1 malicious (suc left) attempt scores s k out len less =
      let (scores', s') = attempt_once m array1 malicious threshold attempt scores s in
      let (len', _) =
        attempt_once_raises m array1 malicious threshold attempt scores s k len less in
      let (len2, more) =
        attempts_clean array1 malicious left (attempt + 1) scores' s' k out len' less in
      (len2, grind (arith, channel.clean array1 malicious attempt scores s k out len less))

  -- The scores that a byte is analysed from.
  final_scores : List ℕ → ℕ → ℕ → m.State → List ℕ
  final_scores array1 malicious tries s =
      (attempts_from m array1 malicious threshold tries 0 no_scores s).0

  final_scores_lem :
      (array1 : List ℕ) (malicious tries : ℕ) (s : m.State) (k : ℕ)
      → architectural_size ≤ malicious
      → k < probe_values
      → (length (final_scores array1 malicious tries s) ≡ probe_values)
        × (score_at (final_scores array1 malicious tries s) k
            ≡ tries * (if k == get_or array1 malicious 0 then 1 else 0))
  unfolding final_scores
  final_scores_lem array1 malicious tries s k out less =
      let (len, e) =
        attempts_clean array1 malicious tries 0 no_scores s k out length-no_scores less in
      (len, e ∙ (rw (score_at-no_scores k) (omega arith)))

  final_scores_self :
      (array1 : List ℕ) (malicious tries v : ℕ) (s : m.State)
      → architectural_size ≤ malicious
      → get_or array1 malicious 0 ≡ v
      → v < probe_values
      → score_at (final_scores array1 malicious tries s) v ≡ tries
  final_scores_self array1 malicious tries v s out here less =
      ground (arith, (final_scores_lem array1 malicious tries s v out less).1)

  final_scores_other :
      (array1 : List ℕ) (malicious tries v : ℕ) (s : m.State) (j : ℕ)
      → architectural_size ≤ malicious
      → get_or array1 malicious 0 ≡ v
      → j < probe_values
      → j ≢ v
      → score_at (final_scores array1 malicious tries s) j ≡ 0
  final_scores_other array1 malicious tries v s j out here less ne =
      ground (arith, (final_scores_lem array1 malicious tries s j out less).1)

  bounded :
      (array1 : List ℕ) (malicious tries : ℕ) (s : m.State) (j : ℕ)
      → architectural_size ≤ malicious
      → j < probe_values
      → tries ≤ score_limit
      → score_at (final_scores array1 malicious tries s) j ≤ score_limit
  bounded array1 malicious tries s j out lt bound =
      ground (arith, (final_scores_lem array1 malicious tries s j out lt).1)

  -- With 5 tries or more a byte that is not 0 is read at once.
  pub read_byte_clean :
      (array1 : List ℕ) (malicious tries v : ℕ) (s : m.State)
      → architectural_size ≤ malicious
      → get_or array1 malicious 0 ≡ v
      → 0 < v
      → v < probe_values
      → 5 ≤ tries
      → tries ≤ score_limit
      → let r = (read_byte_with_threshold m array1 malicious (pos tries) threshold s).0 in
        (r.guessed_value ≡ v) × (r.success ≡ true)
  unfolding read_byte_with_threshold final_scores
  read_byte_clean array1 malicious tries v s out here more less enough bound =
      let scores = final_scores array1 malicious tries s in
      let len = (final_scores_lem array1 malicious tries s v out less).0 in
      let self = final_scores_self array1 malicious tries v s out here less in
      (analyze_scores_exact scores threshold (pos tries) v len more less
          (λ j lt. bounded array1 malicious tries s j out lt bound)).1
        (
          omega arith,
          λ j lt ne.
              let other = final_scores_other array1 malicious tries v s j out here lt ne in
              omega arith,
        )

  -- A byte that is 0 is a success with no number of tries up to the limit.
  pub read_byte_zero :
      (array1 : List ℕ) (malicious : ℕ) (tries : ℤ) (s : m.State)
      → architectural_size ≤ malicious
      → get_or array1 malicious 0 ≡ 0
      → pos_part tries ≤ score_limit
      → (read_byte_with_threshold m array1 malicious tries threshold s).0.success ≡ false
  unfolding read_byte_with_threshold final_scores
  read_byte_zero array1 malicious tries s out here bound =
      let scores = final_scores array1 malicious (pos_part tries) s in
      let len = (final_scores_lem array1 malicious (pos_part tries) s 0 out (omega arith)).0 in
      (analyze_scores_zero scores threshold tries len
        (λ j lt. elim (Bool-cases (j == 0)) [
          | inl e ↦ let same : j ≡ 0 = ground arith in rw same (omega arith)
          | inr e ↦
              let other =
                final_scores_other array1 malicious (pos_part tries) 0 s j out here lt
                  (λ q. ground arith) in
              omega arith
        ])
        (bounded array1 malicious (pos_part tries) s 0 out (omega arith) bound)).1
