-- ===== src/Statistics/Quantiles.antt =====
-- Where the quantiles of MemoryLatencyAnalyzer_linux/src/statistics.cpp read, and what the summary's extremes and median
-- say of the samples.
use memory_latency_analyzer.Base.{
  ℕ, ◌+◌, ◌-◌, ◌*◌, ◌^◌, ◌≤◌, ◌<◌, ◌≡◌, refl, true, List, [], ◌∷◌, arith, length, map, length-map,
  get_or, get_or_inside, ap, ◌∙◌,
}
use memory_latency_analyzer.Base.Sort.{sort_by, IsOrder, HasRank, sort_by-HasRank, length-sort_by}
use memory_latency_analyzer.Evaluation.Real.{Real}
use memory_latency_analyzer.Statistics.Summary.{
  Indexing, position, quantile, summarize_impl, summarize_cycles,
}

-- What IEEE 754 gives for numbers up to 2^53, which `double` holds exactly.
pub record IsExact (r : Real) (x : Indexing r) : Type 0 where
  -- A factor of at most 1 makes no number of at least 0 larger.
  pub mul_le :
      (q : Real.D r) (n : ℕ)
      → n < 2 ^ 53
      → Real.le r q (Real.of_nat r 1) ≡ true
      → Real.le r (Real.mul r q (Real.of_nat r n)) (Real.of_nat r n) ≡ true
  pub ceil_le :
      (p : Real.D r) (n : ℕ)
      → n < 2 ^ 53
      → Real.le r p (Real.of_nat r n) ≡ true
      → Indexing.ceil x p ≤ n
  pub floor_le : (p : Real.D r) → Indexing.floor x p ≤ Indexing.ceil x p
  pub ceil_near : (p : Real.D r) → Indexing.ceil x p ≤ Indexing.floor x p + 1
  pub floor_nat : (n : ℕ) → n < 2 ^ 53 → Indexing.floor x (Real.of_nat r n) ≡ n
  pub ceil_nat : (n : ℕ) → n < 2 ^ 53 → Indexing.ceil x (Real.of_nat r n) ≡ n
  pub half_double :
      (n : ℕ)
      → 2 * n < 2 ^ 53
      → Real.mul r (Indexing.half x) (Real.of_nat r (2 * n)) ≡ Real.of_nat r n
  pub half_le : Real.le r (Indexing.half x) (Real.of_nat r 1) ≡ true
  pub q95_le : Real.le r (Indexing.q95 x) (Real.of_nat r 1) ≡ true
  pub q99_le : Real.le r (Indexing.q99 x) (Real.of_nat r 1) ≡ true

module _ (r : Real) (x : Indexing r) (exact : IsExact r x) where
  open r use {D, of_nat, le, lt, mul}
  open x use {floor, ceil, half, q95, q99}

  abbrev pub ReadsInside : ℕ → D → Type 0
  ReadsInside n q =
      let place = position r x n q in
      (floor place ≤ ceil place) × (ceil place ≤ floor place + 1) × (ceil place < n)

  position_inside : (n : ℕ) (q : D) → 0 < n → n ≤ 2 ^ 53 → le q (of_nat 1) ≡ true → ReadsInside n q
  position_inside n q more fits h =
      let place = position r x n q in
      let less = exact.mul_le q (n - 1) (omega arith) h in
      let upper = exact.ceil_le place (n - 1) (omega arith) less in
      (exact.floor_le place, exact.ceil_near place, omega arith)

  quantile_inside :
      (a b : D) (sorted : List D) (q : D)
      → length sorted ≤ 2 ^ 53
      → le q (of_nat 1) ≡ true
      → quantile r x a sorted q ≡ quantile r x b sorted q
  unfolding quantile
  quantile_inside a b [] q fits h = refl
  quantile_inside a b (s ∷ []) q fits h = refl
  quantile_inside a b (s ∷ t ∷ rest) q fits h =
      let sorted = s ∷ t ∷ rest in
      let place = position r x (length sorted) q in
      let (lower, _, upper) = position_inside (length sorted) q (omega arith) fits h in
      let below : floor place < length sorted = omega arith in
      rw (get_or_inside sorted (floor place) a b below, get_or_inside sorted (ceil place) a b upper)

  -- For up to 2^53 samples the summary reads only inside the sorted vector: what stands behind the vector does not
  -- change it, neither the extremes nor the quantiles.
  pub summarize_inside :
      (a b : D) (samples : List D)
      → length samples ≤ 2 ^ 53
      → summarize_impl r x a samples ≡ summarize_impl r x b samples
  unfolding summarize_impl
  summarize_inside a b [] fits = refl
  summarize_inside a b (s ∷ rest) fits =
      let samples = s ∷ rest in
      let sorted = sort_by lt samples in
      let same = length-sort_by lt samples in
      let few : length sorted ≤ 2 ^ 53 = omega (arith, same) in
      rw (
        quantile_inside a b sorted half few exact.half_le,
        quantile_inside a b sorted q95 few exact.q95_le,
        quantile_inside a b sorted q99 few exact.q99_le,
        get_or_inside sorted 0 a b (omega (arith, same)),
        get_or_inside sorted (length samples - 1) a b (omega (arith, same)),
      )

  quantile_middle :
      (beyond : D) (k : ℕ) (sorted : List D)
      → length sorted ≡ 2 * k + 1
      → length sorted ≤ 2 ^ 53
      → quantile r x beyond sorted half ≡ get_or sorted k beyond
  unfolding quantile
  quantile_middle beyond k [] odd fits = absurd (omega arith)
  quantile_middle beyond k (s ∷ []) odd fits = let e : k ≡ 0 = omega arith in rw e
  quantile_middle beyond k (s ∷ t ∷ rest) odd fits =
      let even : length (s ∷ t ∷ rest) - 1 ≡ 2 * k = omega arith in
      let whole : position r x (length (s ∷ t ∷ rest)) half ≡ of_nat k =
        ap (λ n. mul half (of_nat n)) even ∙ exact.half_double k (omega arith) in
      let lower : floor (position r x (length (s ∷ t ∷ rest)) half) ≡ k =
        rw whole (exact.floor_nat k (omega arith)) in
      let upper : ceil (position r x (length (s ∷ t ∷ rest)) half) ≡ k =
        rw whole (exact.ceil_nat k (omega arith)) in
      ground arith

  -- Of an odd number of samples up to 2^53, 2k + 1, the median is one, with at most k samples below it and at most
  -- k above it; whatever their order is.
  pub summarize_median :
      (order : IsOrder lt) (beyond : D) (samples : List D) (k : ℕ)
      → length samples ≡ 2 * k + 1
      → length samples ≤ 2 ^ 53
      → HasRank lt samples k (summarize_impl r x beyond samples).median
  unfolding summarize_impl
  summarize_median order beyond [] k odd fits = absurd (omega arith)
  summarize_median order beyond (s ∷ rest) k odd fits =
      let samples = s ∷ rest in
      let same = length-sort_by lt samples in
      rw (quantile_middle beyond k (sort_by lt samples) (omega (arith, same)) (omega (arith, same)))
        (sort_by-HasRank lt order samples k beyond (omega arith))

module _ (r : Real) (x : Indexing r) (order : IsOrder (Real.lt r)) where
  open r use {D, lt}

  -- Of one sample or more, the minimum and the maximum are samples: none is below the one, none above the other;
  -- and `count` is their number.
  pub summarize_extremes :
      (beyond : D) (samples : List D)
      → 0 < length samples
      → let s = summarize_impl r x beyond samples in
        (s.count ≡ length samples)
        × HasRank lt samples 0 s.min
        × HasRank lt samples (length samples - 1) s.max
  unfolding summarize_impl
  summarize_extremes beyond [] more = absurd (omega arith)
  summarize_extremes beyond (s ∷ rest) more = (
    refl,
    sort_by-HasRank lt order (s ∷ rest) 0 beyond (omega arith),
    sort_by-HasRank lt order (s ∷ rest) (length (s ∷ rest) - 1) beyond (omega arith),
  )

module _ (r : Real) (x : Indexing r) where
  pub count-summarize_impl :
      (beyond : Real.D r) (samples : List (Real.D r))
      → (summarize_impl r x beyond samples).count ≡ length samples
  unfolding summarize_impl
  count-summarize_impl beyond [] = refl
  count-summarize_impl beyond (s ∷ rest) = refl

  pub count-summarize_cycles :
      (beyond : Real.D r) (samples : List ℕ)
      → (summarize_cycles r x beyond samples).count ≡ length samples
  unfolding summarize_cycles
  count-summarize_cycles beyond samples =
      count-summarize_impl beyond (map (Real.of_nat r) samples) ∙ length-map samples (Real.of_nat r)
