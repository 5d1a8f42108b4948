-- ===== src/Statistics/Hundredths.antt =====
-- Hundredths in place of floating-point numbers: the concrete arithmetic of the examples.
use memory_latency_analyzer.Base.{ℕ, ◌+◌, ◌-◌, ◌*◌, ◌/◌, ltb, leb}
use memory_latency_analyzer.Evaluation.Real.{Real}
use memory_latency_analyzer.Statistics.Summary.{Indexing}

abbrev pub hundredths : Real
hundredths = record {
  D = ℕ;
  L = ℕ;
  of_nat = λ n. 100 * n;
  add = λ a b. a + b;
  sub = λ a b. a - b;
  mul = λ a b. a * b / 100;
  div = λ a b. 100 * a / b;
  le = leb;
  lt = ltb;
  abs = λ a. a;
  sqrt = λ a. a;
  log10 = λ a. a;
  to_long = λ a. a;
  long_of_nat = λ n. n;
  long_add = λ a b. a + b;
  long_sub = λ a b. a - b + (b - a);
  long_mul = λ a b. a * b;
  long_div = λ a b. a / b;
  to_double = λ a. a;
  tiny = 0;
  mad_factor = 148;
}

abbrev pub places : Indexing hundredths
places = record { floor = λ p. p / 100; ceil = λ p. (p + 99) / 100; half = 50; q95 = 95; q99 = 99 }
