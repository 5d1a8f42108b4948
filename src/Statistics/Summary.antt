-- ===== src/Statistics/Summary.antt =====
-- `quantile` and `summarize` of MemoryLatencyAnalyzer_linux/src/statistics.cpp over the floating-point operations of a
-- processor.
use memory_latency_analyzer.Base.{
  ℕ, ◌-◌, List, [], ◌∷◌, map, length, get_or, ltb, ◌==◌, if◌then◌else◌,
}
use memory_latency_analyzer.Base.Sort.{sort_by}
use memory_latency_analyzer.Evaluation.Real.{Real, sum_from, squares_from}

-- `std::floor` and `std::ceil` with the cast to `std::size_t`, and the literals 0.50, 0.95 and 0.99.
pub record Indexing (r : Real) : Type 0 where
  pub floor : Real.D r → ℕ
  pub ceil : Real.D r → ℕ
  pub half : Real.D r
  pub q95 : Real.D r
  pub q99 : Real.D r

pub record Summary (D : Type 0) : Type 0 where
  pub count : ℕ
  pub mean : D
  pub median : D
  pub p95 : D
  pub p99 : D
  pub stddev : D
  pub min : D
  pub max : D

module _ (r : Real) (x : Indexing r) where
  open r use {D, of_nat, add, sub, mul, lt, sqrt, to_long, long_of_nat, long_div, to_double}
  open x use {floor, ceil, half, q95, q99}

  -- The position of a quantile in a sorted list of `n` samples.
  abbrev pub position : ℕ → D → D
  position n q = mul q (of_nat (n - 1))

  -- A read behind the end of the vector is undefined; `beyond` is what it finds.
  unfoldable pub quantile : D → List D → D → D
  quantile beyond [] q = of_nat 0
  quantile beyond (s ∷ []) q = s
  quantile beyond (s ∷ t ∷ rest) q =
      let sorted = s ∷ t ∷ rest in
      let place = position (length sorted) q in
      let lower = floor place in
      let upper = ceil place in
      let weight = sub place (of_nat lower) in
      if lower == upper
      then get_or sorted lower beyond
      else add (mul (get_or sorted lower beyond) (sub (of_nat 1) weight))
          (mul (get_or sorted upper beyond) weight)

  abbrev pub empty_summary : Summary D
  empty_summary = record {
    count = 0;
    mean = of_nat 0;
    median = of_nat 0;
    p95 = of_nat 0;
    p99 = of_nat 0;
    stddev = of_nat 0;
    min = of_nat 0;
    max = of_nat 0;
  }

  -- `front` and `back` of a list that is not empty.
  unfoldable pub summarize_impl : D → List D → Summary D
  unfolding quantile sort_by
  summarize_impl beyond [] = empty_summary
  summarize_impl beyond (s ∷ rest) =
      let samples = s ∷ rest in
      let n = length samples in
      let sorted = sort_by lt samples in
      let mean = to_double (long_div (sum_from r (long_of_nat 0) samples) (long_of_nat n)) in
      let squared = squares_from r (to_long mean) (long_of_nat 0) samples in
      record {
        count = n;
        mean = mean;
        median = quantile beyond sorted half;
        p95 = quantile beyond sorted q95;
        p99 = quantile beyond sorted q99;
        stddev =
            if ltb n 2 then of_nat 0 else sqrt (to_double (long_div squared (long_of_nat (n - 1))));
        min = get_or sorted 0 beyond;
        max = get_or sorted (n - 1) beyond;
      }

  -- The overload for cycle counts converts them first.
  unfoldable pub summarize_cycles : D → List ℕ → Summary D
  unfolding summarize_impl
  summarize_cycles beyond samples = summarize_impl beyond (map of_nat samples)
