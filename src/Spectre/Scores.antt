-- ===== src/Spectre/Scores.antt =====
-- `analyze_scores` of MemoryLatencyAnalyzer_linux/src/spectre_v1.cpp. A score counts hits, so it is a
-- natural number; the list stands for `CandidateScores::score`.
use Prim.Native.Nat.{max}
use memory_latency_analyzer.Base.{
  ℕ, ◌+◌, ◌-◌, ◌*◌, ◌/◌, ◌%◌, ◌^◌, ◌≤◌, ◌≡◌, Bool, not, ◌&&◌, List, [], ◌∷◌, drop, get_or,
  get_or-replicate, replicate, length, refl, ltb, leb, arith, ◌==◌, if◌then◌else◌,
}
use memory_latency_analyzer.Base.Int.{ℤ, pos, negsuc, pos_part, leb_ℤ}

abbrev pub probe_values : ℕ
probe_values = 256

-- `scores.score[i]`.
abbrev pub score_at : List ℕ → ℕ → ℕ
score_at scores i = get_or scores i 0

-- A fresh `CandidateScores`.
unfoldable pub no_scores : List ℕ
no_scores = replicate probe_values 0

pub length-no_scores : length no_scores ≡ probe_values
unfolding no_scores
length-no_scores = refl

pub score_at-no_scores : (k : ℕ) → score_at no_scores k ≡ 0
unfolding no_scores
score_at-no_scores k = get_or-replicate probe_values k 0

-- The exact quotient that `confidence` rounds to a `double`.
pub record Ratio : Type 0 where
  pub numerator : ℕ
  pub denominator : ℕ

pub record SpectreResult : Type 0 where
  pub guessed_value : ℕ
  pub score : ℕ
  pub second_score : ℕ
  pub threshold_cycles : ℕ
  pub confidence : Ratio
  pub attempts : ℤ
  pub success : Bool

-- What the loop carries: the indices `best` and `second`.
pub record Leaders : Type 0 where
  pub best : ℕ
  pub second : ℕ

-- One round at index `i`, where `value` is `scores.score[i]`.
unfoldable pub contend : List ℕ → ℕ → ℕ → Leaders → Leaders
contend scores i value l =
    if ltb (score_at scores l.best) value
    then record { best = i; second = l.best }
    else if not (i == l.best) && ltb (score_at scores l.second) value
    then record { best = l.best; second = i }
    else l

-- The rounds at `i`, `i + 1`, …, one for each value left.
unfoldable pub rank_from : List ℕ → List ℕ → ℕ → Leaders → Leaders
rank_from scores [] i l = l
rank_from scores (value ∷ values) i l = rank_from scores values (i + 1) (contend scores i value l)

unfoldable pub rank : List ℕ → Leaders
unfolding rank_from contend
rank scores = rank_from scores (drop 1 scores) 1 (record { best = 0; second = 0 })

-- `2 * second_score + 5` as a 32-bit `int`, which wraps around.
unfoldable pub separation : ℕ → ℤ
separation second =
    let word = (2 * second + 5) % 2 ^ 32 in
    if ltb word (2 ^ 31) then pos word else negsuc (2 ^ 32 - word - 1)

-- `best_score >= 2 * second_score + 5`.
abbrev pub is_separated : ℕ → ℕ → Bool
is_separated best second = leb_ℤ (separation second) (pos best)

-- The greatest score for which `2 * second_score + 5` is an `int`.
abbrev pub score_limit : ℕ
score_limit = 1_073_741_821

pub separation_exact :
    (second : ℕ) → second ≤ score_limit → separation second ≡ pos (2 * second + 5)
unfolding separation
separation_exact second h =
    let word : (2 * second + 5) % 2 ^ 32 ≡ 2 * second + 5 = omega arith in rw word (ground arith)

-- `best_score >= std::max(5, attempts / 40)`; division rounds towards 0, so a negative count gives 5.
abbrev pub evidence_needed : ℤ → ℕ
evidence_needed attempts = max 5 (pos_part attempts / 40)

unfoldable pub analyze_scores : List ℕ → ℕ → ℤ → SpectreResult
analyze_scores scores threshold attempts =
    let l = rank scores in
    let best_score = score_at scores l.best in
    let second_score = score_at scores l.second in
    record {
      guessed_value = l.best;
      score = best_score;
      second_score = second_score;
      threshold_cycles = threshold;
      confidence =
          if ltb 0 (pos_part attempts)
          then record { numerator = best_score - second_score; denominator = pos_part attempts }
          else record { numerator = 0; denominator = 1 };
      attempts = attempts;
      success = is_separated best_score second_score && leb (evidence_needed attempts) best_score;
    }
