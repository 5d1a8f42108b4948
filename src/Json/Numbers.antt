-- ===== src/Json/Numbers.antt =====
-- That a printed integer is a number of JSON.
use memory_latency_analyzer.Base.{ℕ, zero, suc, ◌≡◌, refl, true, false, [], ◌∷◌, All, arith, ◌==◌}
use memory_latency_analyzer.Base.Int.{ℤ, pos, negsuc}
use memory_latency_analyzer.Base.Text.{
  Bytes, is_digit, print_nat, to_string, leads, leads-print_nat, All-is_digit-print_nat,
}
use memory_latency_analyzer.Json.Tokens.{is_number, is_unsigned, is_tail}

is_tail-digits : (s : Bytes) → All (λ c. is_digit c ≡ true) s → is_tail s ≡ true
is_tail-digits [] h = refl
is_tail-digits (c ∷ s) h = rw (h.0, is_tail-digits s h.1) refl

is_unsigned-digits :
    (s : Bytes) → All (λ c. is_digit c ≡ true) s → leads s ≡ true → is_unsigned s ≡ true
is_unsigned-digits [] h l = cc
is_unsigned-digits (c ∷ s) h l =
    let other : (c == b'0') ≡ false = ground arith in rw (other, h.0, is_tail-digits s h.1) refl

is_number-unsigned :
    (s : Bytes) → All (λ c. is_digit c ≡ true) s → is_unsigned s ≡ true → is_number s ≡ true
unfolding is_number
is_number-unsigned [] h u = cc
is_number-unsigned (c ∷ s) h u =
    let digit = h.0 in let other : (c == b'-') ≡ false = ground arith in rw other u

is_unsigned-print_nat : (n : ℕ) → is_unsigned (print_nat n) ≡ true
is_unsigned-print_nat zero = unfold print_nat in refl
is_unsigned-print_nat (suc n) =
    is_unsigned-digits (print_nat (suc n)) (All-is_digit-print_nat (suc n)) (leads-print_nat n)

pub is_number-print_nat : (n : ℕ) → is_number (print_nat n) ≡ true
is_number-print_nat n =
    is_number-unsigned (print_nat n) (All-is_digit-print_nat n) (is_unsigned-print_nat n)

pub is_number-to_string : (z : ℤ) → is_number (to_string z) ≡ true
unfolding to_string
is_number-to_string (pos n) = is_number-print_nat n
is_number-to_string (negsuc n) = unfold is_number in is_unsigned-print_nat (suc n)
