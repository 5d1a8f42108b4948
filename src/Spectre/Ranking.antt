-- ===== src/Spectre/Ranking.antt =====
-- What `analyze_scores` of MemoryLatencyAnalyzer_linux/src/spectre_v1.cpp finds: the best score, the
-- runner-up where the best index is not 0, and when a guess counts as a success.
use memory_latency_analyzer.Base.{
  ℕ, zero, suc, ◌+◌, ◌*◌, ◌≤◌, ◌<◌, ◌≡◌, ◌≢◌, ◌↔◌, refl, true, false, List, [], ◌∷◌, drop, length,
  ◌==◌, arith, Bool-cases, inl, inr,
}
use memory_latency_analyzer.Base.Int.{ℤ, pos}
use memory_latency_analyzer.Spectre.Scores.{
  probe_values, score_at, Leaders, contend, rank_from, rank, evidence_needed, analyze_scores,
  separation, separation_exact, score_limit,
}

-- What holds when the indices below `i` have been compared.
pub record IsRanked (scores : List ℕ) (i : ℕ) (l : Leaders) : Type 0 where
  pub best_lt : l.best < i
  pub best_top : (j : ℕ) → j < i → score_at scores j ≤ score_at scores l.best
  pub best_first : (j : ℕ) → j < l.best → score_at scores j < score_at scores l.best
  pub zero_second : l.best ≡ 0 → l.second ≡ 0
  pub second_ne : l.best ≢ 0 → (l.second < i) × (l.second ≢ l.best)
  pub second_top :
      l.best ≢ 0 → (j : ℕ) → j < i → j ≢ l.best → score_at scores j ≤ score_at scores l.second

contend-IsRanked :
    (scores : List ℕ) (i : ℕ) (l : Leaders)
    → 0 < i
    → IsRanked scores i l
    → IsRanked scores (i + 1) (contend scores i (score_at scores i) l)
unfolding contend
contend-IsRanked scores i l pos_i r = record {
  best_lt = grind (arith, r.best_lt);
  best_top = λ j h. grind (arith, r.best_top, r.best_lt);
  best_first = λ j h. grind (arith, r.best_first, r.best_top, r.best_lt);
  zero_second = λ e. grind (arith, r.zero_second, r.best_top, r.best_lt);
  second_ne = λ e. grind (arith, r.second_ne, r.best_top, r.best_lt, r.zero_second);
  second_top =
      λ e j h ne. grind (arith, r.second_top, r.best_top, r.best_lt, r.second_ne, r.zero_second);
}

drop_head :
    (xs : List ℕ) (i v : ℕ) (vs : List ℕ)
    → drop i xs ≡ v ∷ vs
    → (score_at xs i ≡ v) × (drop (i + 1) xs ≡ vs)
drop_head [] zero v vs h = absurd (ground arith)
drop_head [] (suc i) v vs h = absurd (ground arith)
drop_head (x ∷ xs) zero v vs h = ground arith
drop_head (x ∷ xs) (suc i) v vs h =
    let (here, after) = drop_head xs i v vs h in (here, ground arith)

rank_from-IsRanked :
    (scores values : List ℕ) (i n : ℕ) (l : Leaders)
    → 0 < i
    → drop i scores ≡ values
    → i + length values ≡ n
    → IsRanked scores i l
    → IsRanked scores n (rank_from scores values i l)
unfolding rank_from
rank_from-IsRanked scores [] i n l more e count r = let same : i ≡ n = omega arith in rw (← same) r
rank_from-IsRanked scores (v ∷ vs) i n l more e count r =
    let (here, after) = drop_head scores i v vs e in
    let step : IsRanked scores (i + 1) (contend scores i v l) =
      rw here at (contend-IsRanked scores i l more r) in
    rank_from-IsRanked scores vs (i + 1) n (contend scores i v l) (omega arith) after (omega arith)
      step

-- The two indices that the loop of `analyze_scores` ends with.
pub rank-IsRanked :
    (scores : List ℕ) → 0 < length scores → IsRanked scores (length scores) (rank scores)
rank-IsRanked [] h = absurd (omega arith)
rank-IsRanked (x ∷ xs) h =
    unfold rank in
    rank_from-IsRanked (x ∷ xs) xs 1 (suc (length xs)) (record { best = 0; second = 0 })
      (omega arith) refl (omega arith)
      (record {
        best_lt = omega arith;
        best_top = λ j h. grind arith;
        best_first = λ j h. absurd (omega arith);
        zero_second = λ e. refl;
        second_ne = λ e. absurd (e refl);
        second_top = λ e j h ne. absurd (e refl);
      })

pub IsRanked-second-le :
    (scores : List ℕ) (n : ℕ) (l : Leaders)
    → IsRanked scores n l
    → score_at scores l.second ≤ score_at scores l.best
IsRanked-second-le scores n l r = elim (Bool-cases (l.best == 0)) [
  | inl e ↦
      let lead : l.best ≡ 0 = ground arith in
      let tie = r.zero_second lead in rw (lead, tie) (omega arith)
  | inr e ↦ r.best_top l.second (r.second_ne (λ q. ground arith)).0
]

winner :
    (scores : List ℕ) (l : Leaders) (v : ℕ)
    → IsRanked scores probe_values l
    → v < probe_values
    → ((j : ℕ) → j < probe_values → j ≢ v → 2 * score_at scores j + 5 ≤ score_at scores v)
    → l.best ≡ v
winner scores l v r less apart = elim (Bool-cases (l.best == v)) [
  | inl same ↦ ground arith
  | inr other ↦
      let (top, gap) : (score_at scores v ≤ score_at scores l.best)
          × (2 * score_at scores l.best + 5 ≤ score_at scores v) =
        (r.best_top v less, apart l.best r.best_lt (ground arith)) in
      absurd (omega arith)
]

separation-rank :
    (scores : List ℕ)
    → IsRanked scores probe_values (rank scores)
    → ((j : ℕ) → j < probe_values → score_at scores j ≤ score_limit)
    → separation (score_at scores (rank scores).second)
      ≡ pos (2 * score_at scores (rank scores).second + 5)
separation-rank scores r small =
    let low = IsRanked-second-le scores probe_values (rank scores) r in
    let top = small (rank scores).best r.best_lt in
    separation_exact (score_at scores (rank scores).second) (omega arith)

-- Where no score exceeds 1073741821, so that the `int` `2 * second_score + 5` does not overflow: a success at
-- another index than 0 is exactly a score that is at least `max(5, attempts / 40)` and at least twice each
-- other score plus 5.
pub analyze_scores_exact :
    (scores : List ℕ) (threshold : ℕ) (attempts : ℤ) (v : ℕ)
    → length scores ≡ probe_values
    → 0 < v
    → v < probe_values
    → ((j : ℕ) → j < probe_values → score_at scores j ≤ score_limit)
    → (((analyze_scores scores threshold attempts).guessed_value ≡ v)
        × ((analyze_scores scores threshold attempts).success ≡ true))
      ↔ ((evidence_needed attempts ≤ score_at scores v)
          × ((j : ℕ) → j < probe_values → j ≢ v → 2 * score_at scores j + 5 ≤ score_at scores v))
unfolding analyze_scores
analyze_scores_exact scores threshold attempts v len more less small =
    let r : IsRanked scores probe_values (rank scores) =
      rw len at (rank-IsRanked scores (omega arith)) in
    rw (separation-rank scores r small) (
      λ h. (ground arith, λ j lt ne. ground (arith, r.second_top (λ e. omega arith) j lt)),
      λ h.
          let found : (rank scores).best ≡ v =
            winner scores (rank scores) v r less (λ j lt ne. h.1 j lt ne) in
          let (below, other) = r.second_ne (λ e. omega arith) in
          (found, ground (arith, h.1 (rank scores).second below)),
    )

zero_leads :
    (scores : List ℕ) (l : Leaders)
    → IsRanked scores probe_values l
    → ((j : ℕ) → j < probe_values → score_at scores j ≤ score_at scores 0)
    → l.best ≡ 0
zero_leads scores l r top = elim (Bool-cases (l.best == 0)) [
  | inl same ↦ ground arith
  | inr other ↦
      let (first, most) : (score_at scores 0 < score_at scores l.best)
          × (score_at scores l.best ≤ score_at scores 0) =
        (r.best_first 0 (ground arith), top l.best r.best_lt) in
      absurd (omega arith)
]

-- Where no score exceeds the score of index 0, the guess is 0 and never a success: the runner-up that it is
-- compared with is index 0 itself. This is stated for a score of index 0 up to 1073741821, beyond which the
-- `int` `2 * second_score + 5` overflows.
pub analyze_scores_zero :
    (scores : List ℕ) (threshold : ℕ) (attempts : ℤ)
    → length scores ≡ probe_values
    → ((j : ℕ) → j < probe_values → score_at scores j ≤ score_at scores 0)
    → score_at scores 0 ≤ score_limit
    → ((analyze_scores scores threshold attempts).guessed_value ≡ 0)
      × ((analyze_scores scores threshold attempts).success ≡ false)
unfolding analyze_scores
analyze_scores_zero scores threshold attempts len top small =
    let r : IsRanked scores probe_values (rank scores) =
      rw len at (rank-IsRanked scores (omega arith)) in
    let lead : (rank scores).best ≡ 0 = zero_leads scores (rank scores) r top in
    let tie : (rank scores).second ≡ 0 = r.zero_second lead in
    (lead, rw (lead, tie) (rw (separation_exact (score_at scores 0) small) (ground arith)))
