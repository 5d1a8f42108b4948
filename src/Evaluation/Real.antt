-- ===== src/Evaluation/Real.antt =====
-- The floating-point operations that MemoryLatencyAnalyzer_linux/src/evaluation_lab.cpp uses: the arithmetic of the
-- processor is a parameter. `D` is `double`, `L` is `long double`.
use memory_latency_analyzer.Base.{
  ℕ, ◌-◌, ◌/◌, ◌%◌, Bool, List, [], ◌∷◌, length, get_or, ltb, ◌==◌, if◌then◌else◌,
}
use memory_latency_analyzer.Base.Sort.{sort_by}

pub record Real : Type 1 where
  pub D : Type 0
  pub L : Type 0
  pub of_nat : ℕ → D
  pub add : D → D → D
  pub sub : D → D → D
  pub mul : D → D → D
  pub div : D → D → D
  pub le : D → D → Bool
  pub lt : D → D → Bool
  pub abs : D → D
  pub sqrt : D → D
  pub log10 : D → D
  pub to_long : D → L
  pub long_of_nat : ℕ → L
  pub long_add : L → L → L
  pub long_sub : L → L → L
  pub long_mul : L → L → L
  pub long_div : L → L → L
  pub to_double : L → D
  -- The literals 1e-12 and 1.4826.
  pub tiny : D
  pub mad_factor : D

module _ (r : Real) where
  open r use {
    D, L, of_nat, add, div, lt, to_long, long_of_nat, long_add, long_sub, long_mul, long_div,
    to_double, sqrt,
  }

  abbrev pub sum_from : L → List D → L
  sum_from sum [] = sum
  sum_from sum (x ∷ xs) = sum_from (long_add sum (to_long x)) xs

  unfoldable pub mean_of : List D → D
  mean_of [] = of_nat 0
  mean_of (x ∷ xs) =
      to_double (long_div (sum_from (long_of_nat 0) (x ∷ xs)) (long_of_nat (length (x ∷ xs))))

  abbrev pub squares_from : L → L → List D → L
  squares_from mean squared [] = squared
  squares_from mean squared (x ∷ xs) =
      let diff = long_sub (to_long x) mean in
      squares_from mean (long_add squared (long_mul diff diff)) xs

  unfoldable pub stddev_of : List D → D → D
  stddev_of samples mean =
      if ltb (length samples) 2
      then of_nat 0
      else sqrt (
          to_double (
            long_div (squares_from (to_long mean) (long_of_nat 0) samples)
              (long_of_nat (length samples - 1))))

  unfoldable pub median_of : List D → D
  unfolding sort_by
  median_of [] = of_nat 0
  median_of (x ∷ xs) =
      let sorted = sort_by lt (x ∷ xs) in
      let middle = length (x ∷ xs) / 2 in
      if length (x ∷ xs) % 2 == 0
      then div (add (get_or sorted (middle - 1) (of_nat 0)) (get_or sorted middle (of_nat 0)))
          (of_nat 2)
      else get_or sorted middle (of_nat 0)
