-- ===== src/Cli/Readback.antt =====
-- Which texts the number options of MemoryLatencyAnalyzer_linux/src/main.cpp read.
use memory_latency_analyzer.Base.{ℕ, suc, ◌<◌, ◌^◌, ◌≡◌, refl, true, false, some, [], ◌∷◌, arith}
use mathlib.Core.List.{append-nil}
use memory_latency_analyzer.Base.Int.{ℤ, pos, negsuc, IsInt}
use memory_latency_analyzer.Base.Text.{
  Bytes, to_string, print_nat, from_chars, starts_digit, read_magnitude, read_magnitude-print_nat,
  starts_digit-print_nat,
}
use memory_latency_analyzer.Cli.Numbers.{parse_int}

-- A text that starts with a digit is read without a sign.
from_chars_unsigned : (s : Bytes) → starts_digit s ≡ true → from_chars s ≡ read_magnitude false s
unfolding from_chars
from_chars_unsigned [] h = absurd (ground arith)
from_chars_unsigned (c ∷ s) h = ground arith

pub from_chars-print_nat : (n : ℕ) → n < 2 ^ 31 → from_chars (print_nat n) ≡ some (pos n, [])
from_chars-print_nat n h =
    let starts : starts_digit (print_nat n) ≡ true =
      rw append-nil at (starts_digit-print_nat n []) in
    let read = read_magnitude-print_nat false n [] refl (ground arith) in
    rw (from_chars_unsigned (print_nat n) starts) (rw append-nil at read)

from_chars-negative :
    (n : ℕ) → n < 2 ^ 31 → from_chars (b'-' ∷ print_nat (suc n)) ≡ some (negsuc n, [])
unfolding from_chars
from_chars-negative n h =
    let read = read_magnitude-print_nat true (suc n) [] refl (ground arith) in rw append-nil at read

parse_int-from_chars_nil : (s : Bytes) {z : ℤ} → from_chars s ≡ some (z, []) → parse_int s ≡ some z
unfolding parse_int
parse_int-from_chars_nil [] h = absurd (unfold from_chars in ground arith)
parse_int-from_chars_nil (c ∷ s) h = ground arith

-- Every `int` is read back from its decimal print.
pub parse_int-to_string : (z : ℤ) → IsInt z → parse_int (to_string z) ≡ some z
unfolding to_string
parse_int-to_string (pos n) h = parse_int-from_chars_nil (print_nat n) (from_chars-print_nat n h.0)
parse_int-to_string (negsuc n) h =
    parse_int-from_chars_nil (b'-' ∷ print_nat (suc n)) (from_chars-negative n (omega arith))
