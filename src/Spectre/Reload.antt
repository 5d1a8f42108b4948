-- ===== src/Spectre/Reload.antt =====
-- Proofs about the scores that `score_reload` of MemoryLatencyAnalyzer_linux/src/spectre_v1.cpp counts.
use memory_latency_analyzer.Base.{
  ℕ, zero, suc, ◌+◌, ◌*◌, ◌%◌, ◌≤◌, ◌<◌, ◌≡◌, ◌≢◌, refl, Bool, true, false, List, length,
  length-set, get_or-set_self, get_or-set_ne, leb, ◌==◌, arith, if◌then◌else◌, Bool-cases, inl, inr,
  ◌∙◌,
}
use memory_latency_analyzer.Base.Int.{pos}
use memory_latency_analyzer.Spectre.Scores.{
  probe_values, score_at, no_scores, length-no_scores, score_at-no_scores, analyze_scores, rank,
}
use memory_latency_analyzer.Spectre.Ranking.{IsRanked, rank-IsRanked, IsRanked-second-le}
use memory_latency_analyzer.Spectre.Machine.{
  Machine, elapsed, mixed, bump, reload_from, attempt_once, attempts_from, flush_from,
  train_and_attack, read_byte_with_threshold,
}

-- The round in which a line is visited: 23 * 167 is 1 modulo 256.
abbrev pub turn : ℕ → ℕ
turn k = 23 * (k + 243) % 256

pub turn-mixed : (i : ℕ) → i < 256 → turn (mixed i) ≡ i
unfolding mixed
turn-mixed i h = omega arith

pub mixed-turn : (k : ℕ) → k < 256 → mixed (turn k) ≡ k
unfolding mixed
mixed-turn k h = omega arith

pub mixed-lt : (i : ℕ) → mixed i < 256
unfolding mixed
mixed-lt i = omega arith

pub length-bump : (scores : List ℕ) (i : ℕ) → length (bump scores i) ≡ length scores
unfolding bump
length-bump scores i = length-set scores i (score_at scores i + 1)

pub bump_self :
    (scores : List ℕ) (i : ℕ)
    → i < length scores
    → score_at (bump scores i) i ≡ score_at scores i + 1
unfolding bump
bump_self scores i h = get_or-set_self scores i (score_at scores i + 1) 0 h

pub bump_ne : (scores : List ℕ) (i k : ℕ) → i ≢ k → score_at (bump scores i) k ≡ score_at scores k
unfolding bump
bump_ne scores i k h = get_or-set_ne scores i k (score_at scores i + 1) 0 h

-- What a step of the loop keeps of a score.
pub record IsRaised (before after : List ℕ) (k : ℕ) : Type 0 where
  pub not_less : score_at before k ≤ score_at after k
  pub one_more : score_at after k ≤ score_at before k + 1

abbrev maybe_bump : Bool → List ℕ → ℕ → List ℕ
maybe_bump hit scores i = if hit then bump scores i else scores

maybe_bump_lem :
    (hit : Bool) (scores : List ℕ) (i k : ℕ)
    → length scores ≡ 256
    → i < 256
    → (length (maybe_bump hit scores i) ≡ 256)
      × IsRaised scores (maybe_bump hit scores i) k
      × (i ≢ k → score_at (maybe_bump hit scores i) k ≡ score_at scores k)
maybe_bump_lem true scores i k len less = elim (Bool-cases (i == k)) [
  | inl e ↦
      let same : i ≡ k = ground arith in
      let more : score_at (bump scores k) k ≡ score_at scores k + 1 =
        bump_self scores k (omega arith) in
      rw same (
        omega (arith, length-bump scores k),
        record { not_less = omega arith; one_more = omega arith },
        λ ne. absurd (ne refl),
      )
  | inr e ↦
      let other : i ≢ k = λ q. ground arith in
      let kept = bump_ne scores i k other in
      (
        omega (arith, length-bump scores i),
        record { not_less = omega arith; one_more = omega arith },
        λ ne. kept,
      )
]
maybe_bump_lem false scores i k len less =
    (len, record { not_less = omega arith; one_more = omega arith }, λ ne. refl)

passed : (i k : ℕ) → i < 256 → turn k < i → mixed i ≢ k
passed i k less before e = let same : turn k ≡ i = rw (← e) (turn-mixed i less) in omega arith

-- Two steps raise a score once: the line of round `i` is visited in no later round.
joined :
    (i k : ℕ) (before mid after : List ℕ)
    → i < 256
    → k < 256
    → IsRaised before mid k
    → IsRaised mid after k
    → (mixed i ≢ k → score_at mid k ≡ score_at before k)
    → (turn k < i + 1 → score_at after k ≡ score_at mid k)
    → IsRaised before after k
joined i k before mid after less in_range r1 r2 kept1 kept2 = elim (Bool-cases (mixed i == k)) [
  | inl e ↦
      let same : mixed i ≡ k = ground arith in
      let now : turn k ≡ i = rw (← same) (turn-mixed i less) in
      let last = kept2 (omega arith) in record { not_less = omega arith; one_more = omega arith }
  | inr e ↦
      let first = kept1 (λ q. ground arith) in
      record { not_less = omega arith; one_more = omega arith }
]

module _ (m : Machine) where
  reload_from_raises :
      (threshold left i : ℕ) (scores : List ℕ) (s : m.State) (k : ℕ)
      → i + left ≤ 256
      → length scores ≡ 256
      → k < 256
      → let after = (reload_from m threshold left i scores s).0 in
        (length after ≡ 256)
        × IsRaised scores after k
        × (turn k < i → score_at after k ≡ score_at scores k)
  unfolding reload_from
  reload_from_raises threshold zero i scores s k within len less =
      (len, record { not_less = omega arith; one_more = omega arith }, λ h. refl)
  reload_from_raises threshold (suc left) i scores s k within len less =
      let (t0, t1, s') = m.time_load (mixed i) s in
      let hit : Bool = leb (elapsed t0 t1) threshold in
      let (len', raised, kept) = maybe_bump_lem hit scores (mixed i) k len (mixed-lt i) in
      let (len2, raised2, kept2) =
        reload_from_raises threshold left (i + 1) (maybe_bump hit scores (mixed i)) s' k
          (omega arith) len' less in
      (
        len2,
        joined i k scores _ _ (omega arith) less raised raised2 kept kept2,
        λ before. kept2 (omega arith) ∙ kept (passed i k (omega arith) before),
      )

  -- One attempt raises each score by one at most.
  pub attempt_once_raises :
      (array1 : List ℕ) (malicious threshold attempt : ℕ) (scores : List ℕ) (s : m.State) (k : ℕ)
      → length scores ≡ 256
      → k < 256
      → let after = (attempt_once m array1 malicious threshold attempt scores s).0 in
        (length after ≡ 256) × (score_at after k ≤ score_at scores k + 1)
  unfolding attempt_once
  attempt_once_raises array1 malicious threshold attempt scores s k len less =
      let ready =
        train_and_attack m array1 malicious attempt (m.fence (flush_from m probe_values 0 s)) in
      let (len', raised, kept) =
        reload_from_raises threshold 256 0 scores ready k (omega arith) len less in
      (len', raised.one_more)

  pub attempts_from_raises :
      (array1 : List ℕ) (malicious threshold left attempt : ℕ) (scores : List ℕ) (s : m.State)
      (k : ℕ)
      → length scores ≡ 256
      → k < 256
      → let after = (attempts_from m array1 malicious threshold left attempt scores s).0 in
        (length after ≡ 256) × (score_at after k ≤ score_at scores k + left)
  unfolding attempts_from
  attempts_from_raises array1 malicious threshold zero attempt scores s k len less =
      (len, omega arith)
  attempts_from_raises array1 malicious threshold (suc left) attempt scores s k len less =
      let (scores', s') = attempt_once m array1 malicious threshold attempt scores s in
      let (len', once) =
        attempt_once_raises array1 malicious threshold attempt scores s k len less in
      let (len2, more) =
        attempts_from_raises array1 malicious threshold left (attempt + 1) scores' s' k len' less in
      (len2, omega arith)

  -- On any processor and for any threshold, the scores that a byte is read with are in order and in bounds: the
  -- runner-up's is no larger than the best, the best is at most the number of tries, and the guess is a byte.
  pub read_byte_bounds :
      (array1 : List ℕ) (malicious tries threshold : ℕ) (s : m.State)
      → let r = (read_byte_with_threshold m array1 malicious (pos tries) threshold s).0 in
        (r.second_score ≤ r.score) × (r.score ≤ tries) × (r.guessed_value < 256)
  unfolding read_byte_with_threshold analyze_scores
  read_byte_bounds array1 malicious tries threshold s =
      let scores = (attempts_from m array1 malicious threshold tries 0 no_scores s).0 in
      let all = λ (k : ℕ) (h : k < 256).
        attempts_from_raises array1 malicious threshold tries 0 no_scores s k length-no_scores h in
      let len : length scores ≡ 256 = (all 0 (omega arith)).0 in
      let r : IsRanked scores 256 (rank scores) = rw len at (rank-IsRanked scores (omega arith)) in
      let most = (all (rank scores).best r.best_lt).1 in
      let zero = score_at-no_scores (rank scores).best in
      (IsRanked-second-le scores 256 (rank scores) r, omega arith, r.best_lt)
