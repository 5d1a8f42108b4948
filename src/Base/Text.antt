-- ===== src/Base/Text.antt =====
-- Texts as lists of bytes; decimal printing (`std::to_string`) and the number readers of the standard
-- library: `std::from_chars` and `std::stoi` over `int`.
use Prim.Native.Char.{code}
use Prim.Native.String.{String}
use memory_latency_analyzer.Base.{
  ℕ, zero, suc, ◌+◌, ◌-◌, ◌*◌, ◌/◌, ◌%◌, ◌≤◌, ◌<◌, ◌≡◌, refl, sym, ap, ◌∙◌, Bool, true, false, ◌&&◌,
  ◌||◌, Option, none, some, List, [], ◌∷◌, ◌++◌, arith, leb, ltb, ◌==◌, if◌then◌else◌, All,
  Bool-cases, inl, inr,
}
use memory_latency_analyzer.Base.Int.{ℤ, pos, negsuc, fits_int, signed}

abbrev pub Bytes : Type 0
Bytes = List ℕ

-- The code points of a literal: its bytes when it is ASCII.
abbrev pub codes : String → Bytes
codes String.[] = []
codes (String.◌∷◌ c s) = code c ∷ codes s

abbrev pub is_digit : ℕ → Bool
is_digit c = leb b'0' c && leb c b'9'

-- The digits of `n` in front of `out`; none for 0. One round of fuel for each digit.
digits : ℕ → ℕ → Bytes → Bytes
digits zero n out = out
digits (suc fuel) n out = elim (n == 0) [
  | true ↦ out
  | false ↦ digits fuel (n / 10) ((b'0' + n % 10) ∷ out)
]

unfoldable pub print_nat : ℕ → Bytes
unfolding digits
print_nat zero = b'0' ∷ []
print_nat (suc n) = digits (suc n) (suc n) []

-- `std::to_string(int)`.
unfoldable pub to_string : ℤ → Bytes
unfolding print_nat
to_string (pos n) = print_nat n
to_string (negsuc n) = b'-' ∷ print_nat (suc n)

-- The longest run of digits, as the number that it spells behind `n`, and the text that follows it.
unfoldable pub take_digits : ℕ → Bytes → ℕ × Bytes
take_digits n [] = (n, [])
take_digits n (c ∷ s) = elim (is_digit c) [
  | true ↦ take_digits (n * 10 + (c - b'0')) s
  | false ↦ (n, c ∷ s)
]

abbrev pub starts_digit : Bytes → Bool
starts_digit [] = false
starts_digit (c ∷ s) = is_digit c

-- What the readers do behind the sign: at least one digit, and a value in the range of `int`.
unfoldable pub read_magnitude : Bool → Bytes → Option (ℤ × Bytes)
unfolding take_digits
read_magnitude negative s =
    let (n, rest) = take_digits 0 s in
    if starts_digit s && fits_int (signed negative n) then some (signed negative n, rest) else none

-- `std::from_chars` for `int` in base 10: the value and the text behind it; `none` is an error code.
unfoldable pub from_chars : Bytes → Option (ℤ × Bytes)
unfolding read_magnitude
from_chars [] = none
from_chars (c ∷ s) = if c == b'-' then read_magnitude true s else read_magnitude false (c ∷ s)

-- The bytes that `isspace` accepts.
abbrev pub is_space : ℕ → Bool
is_space c = c == b' ' || leb 9 c && leb c 13

unfoldable pub skip_spaces : Bytes → Bytes
skip_spaces [] = []
skip_spaces (c ∷ s) = if is_space c then skip_spaces s else c ∷ s

abbrev stoi_signed : Bytes → Option (ℤ × Bytes)
stoi_signed [] = none
stoi_signed (c ∷ s) =
    if c == b'-'
    then read_magnitude true s
    else if c == b'+'
    then read_magnitude false s
    else read_magnitude false (c ∷ s)

-- `std::stoi`: spaces and a sign may come first, what follows the number is ignored; `none` is an
-- exception.
unfoldable pub stoi : Bytes → Option ℤ
unfolding read_magnitude skip_spaces
stoi s = elim (stoi_signed (skip_spaces s)) [ none ↦ none | some (z, rest) ↦ some z ]

take_digits_last :
    (n : ℕ) (out : Bytes) → take_digits (n / 10) ((b'0' + n % 10) ∷ out) ≡ take_digits n out
unfolding take_digits
take_digits_last n out = ground arith

take_digits-digits :
    (fuel n : ℕ) (out : Bytes) → n ≤ fuel → take_digits 0 (digits fuel n out) ≡ take_digits n out
unfolding digits
take_digits-digits zero n out h = let e : n ≡ 0 = omega arith in rw e
take_digits-digits (suc fuel) n out h =
    ground (arith, take_digits-digits fuel (n / 10) ((b'0' + n % 10) ∷ out), take_digits_last n out)

digits-append :
    (fuel n : ℕ) (out rest : Bytes) → digits fuel n (out ++ rest) ≡ digits fuel n out ++ rest
unfolding digits
digits-append zero n out rest = refl
digits-append (suc fuel) n out rest =
    ground (arith, digits-append fuel (n / 10) ((b'0' + n % 10) ∷ out) rest)

starts_digit-digits :
    (fuel n : ℕ) (out : Bytes) → starts_digit out ≡ true → starts_digit (digits fuel n out) ≡ true
unfolding digits
starts_digit-digits zero n out h = h
starts_digit-digits (suc fuel) n out h =
    ground (arith, starts_digit-digits fuel (n / 10) ((b'0' + n % 10) ∷ out))

starts_digit-digits_pos : (n : ℕ) (out : Bytes) → starts_digit (digits (suc n) (suc n) out) ≡ true
unfolding digits
starts_digit-digits_pos n out =
    ground (arith, starts_digit-digits n (suc n / 10) ((b'0' + suc n % 10) ∷ out))

print_nat-append : (n : ℕ) (rest : Bytes) → print_nat (suc n) ++ rest ≡ digits (suc n) (suc n) rest
unfolding print_nat
print_nat-append n rest = sym (digits-append (suc n) (suc n) [] rest)

pub starts_digit-print_nat : (n : ℕ) (rest : Bytes) → starts_digit (print_nat n ++ rest) ≡ true
starts_digit-print_nat zero rest = unfold print_nat in refl
starts_digit-print_nat (suc n) rest = rw print_nat-append (starts_digit-digits_pos n rest)

take_digits_stop :
    (n : ℕ) (rest : Bytes) → starts_digit rest ≡ false → take_digits n rest ≡ (n, rest)
unfolding take_digits
take_digits_stop n [] h = refl
take_digits_stop n (c ∷ s) h = rw (h, take_digits)

-- Where the text behind a printed number does not start with a digit, the number is read back.
pub take_digits-print_nat :
    (n : ℕ) (rest : Bytes)
    → starts_digit rest ≡ false
    → take_digits 0 (print_nat n ++ rest) ≡ (n, rest)
take_digits-print_nat zero rest h = unfold print_nat take_digits in take_digits_stop 0 rest h
take_digits-print_nat (suc n) rest h = rw (
  print_nat-append,
  take_digits-digits (suc n) (suc n) rest (omega arith),
  take_digits_stop (suc n) rest h,
)

pub read_magnitude-print_nat :
    (negative : Bool) (n : ℕ) (rest : Bytes)
    → starts_digit rest ≡ false
    → fits_int (signed negative n) ≡ true
    → read_magnitude negative (print_nat n ++ rest) ≡ some (signed negative n, rest)
unfolding read_magnitude
read_magnitude-print_nat negative n rest h fits =
    rw (take_digits-print_nat n rest h, starts_digit-print_nat n rest, fits)

All-is_digit-digits :
    (fuel n : ℕ) (out : Bytes)
    → All (λ c. is_digit c ≡ true) out
    → All (λ c. is_digit c ≡ true) (digits fuel n out)
unfolding digits
All-is_digit-digits zero n out h = h
All-is_digit-digits (suc fuel) n out h = elim (Bool-cases (n == 0)) [
  | inl e ↦ rw (e, All) h
  | inr e ↦
      let digit : is_digit (b'0' + n % 10) ≡ true = ground arith in
      rw (e, All) (All-is_digit-digits fuel (n / 10) ((b'0' + n % 10) ∷ out) (digit, h))
]

-- A printed number has only digits.
pub All-is_digit-print_nat : (n : ℕ) → All (λ c. is_digit c ≡ true) (print_nat n)
unfolding print_nat
All-is_digit-print_nat zero = (refl, tt)
All-is_digit-print_nat (suc n) = All-is_digit-digits (suc n) (suc n) [] tt

-- Does a text start with a digit other than 0?
abbrev pub leads : Bytes → Bool
leads [] = false
leads (c ∷ s) = ltb b'0' c

leads-digits :
    (fuel n : ℕ) (out : Bytes)
    → n ≤ fuel
    → (n ≡ 0)
    → leads out ≡ true
    → leads (digits fuel n out) ≡ true
unfolding digits
leads-digits zero n out h z l = l
leads-digits (suc fuel) n out h z l = rw z l

digits_step :
    (fuel n : ℕ) (out : Bytes)
    → 0 < n
    → digits (suc fuel) n out ≡ digits fuel (n / 10) ((b'0' + n % 10) ∷ out)
unfolding digits
digits_step fuel n out p =
    let nonzero : (n == 0) ≡ false = ground arith in rw (nonzero, digits) refl

leads-digits_pos : (fuel n : ℕ) (out : Bytes) → 0 < n → n ≤ fuel → leads (digits fuel n out) ≡ true
leads-digits_pos zero n out p h = absurd (omega arith)
leads-digits_pos (suc fuel) n out p h =
    ap leads (digits_step fuel n out p) ∙ elim (Bool-cases (n / 10 == 0)) [
      | inl small ↦
          let none_left : n / 10 ≡ 0 = ground arith in
          leads-digits fuel (n / 10) ((b'0' + n % 10) ∷ out) (omega arith) none_left (ground arith)
      | inr more ↦
          leads-digits_pos fuel (n / 10) ((b'0' + n % 10) ∷ out) (ground arith) (omega arith)
    ]

-- The first digit of a printed number is not 0, unless the number is.
pub leads-print_nat : (n : ℕ) → leads (print_nat (suc n)) ≡ true
unfolding print_nat
leads-print_nat n = leads-digits_pos (suc n) (suc n) [] (omega arith) (omega arith)
