-- ===== src/Cli/Inputs.antt =====
-- Proofs about the readers of option values in MemoryLatencyAnalyzer_linux/src/main.cpp.
use Prim.Native.String.{String}
use memory_latency_analyzer.Base.{
  ℕ, ◌*◌, ◌^◌, ◌<◌, ◌≡◌, refl, Bool, true, false, some, List, [], ◌∷◌, length, arith, inl, inr,
  Option-cases, Bool-cases,
}
use memory_latency_analyzer.Base.Int.{ℤ, pos, negsuc, pos_part, IsInt, leb_ℤ}
use memory_latency_analyzer.Base.Text.{Bytes, codes, from_chars}
use memory_latency_analyzer.Cli.Numbers.{parse_int, consume_int, consume_size_mib, mib_bytes}
use memory_latency_analyzer.Cli.Options.{Options}
use memory_latency_analyzer.Cli.Parse.{next, take_int, take_size, take_text}

-- `std::from_chars` gives values of `int` alone.
from_chars-IsInt : (s : Bytes) {z : ℤ} {rest : Bytes} → from_chars s ≡ some (z, rest) → IsInt z
unfolding from_chars
from_chars-IsInt [] h = cc
from_chars-IsInt (c ∷ s) h = ground arith

-- An accepted text is used up by the number.
pub parse_int-from_chars : (s : Bytes) {z : ℤ} → parse_int s ≡ some z → from_chars s ≡ some (z, [])
unfolding parse_int
parse_int-from_chars [] h = cc
parse_int-from_chars (c ∷ s) {z} h = ground arith

pub parse_int-IsInt : (s : Bytes) {z : ℤ} → parse_int s ≡ some z → IsInt z
parse_int-IsInt s h = from_chars-IsInt s (parse_int-from_chars s h)

consume_int-IsInt :
    (args : List String) {z : ℤ} {rest : List String}
    → consume_int args ≡ some (z, rest)
    → IsInt z × (length rest < length args)
unfolding consume_int
consume_int-IsInt [] h = cc
consume_int-IsInt (arg ∷ args) {z} h = ground (arith, parse_int-IsInt (codes arg) {z = z})

-- The product does not wrap around.
mib_bytes_exact : (n : ℕ) → n < 2 ^ 31 → mib_bytes n ≡ n * 2 ^ 20
unfolding mib_bytes
mib_bytes_exact n h = omega arith

-- The condition that an accepted size meets, as a fact about the number read.
abbrev pub IsSizeOf : ℤ → ℕ → Type 0
IsSizeOf value size = (n : ℕ) × (value ≡ pos n) × (0 < n) × (size ≡ n * 2 ^ 20) × (size < 2 ^ 51)

IsSizeOf-mib_bytes :
    (value : ℤ)
    → IsInt value
    → leb_ℤ value (pos 0) ≡ false
    → IsSizeOf value (mib_bytes (pos_part value))
IsSizeOf-mib_bytes (pos n) fits h =
    let e : mib_bytes n ≡ n * 2 ^ 20 = mib_bytes_exact n fits.0 in
    (n, refl, ground arith, e, rw e (omega arith))
IsSizeOf-mib_bytes (negsuc n) fits h = absurd (ground arith)

-- An accepted size is a positive number of MiB, exactly: `std::size_t` does not wrap around.
pub consume_size_mib_exact :
    (args : List String) {size : ℕ} {rest : List String}
    → consume_size_mib args ≡ some (size, rest)
    → (value : ℤ) × (consume_int args ≡ some (value, rest)) × IsSizeOf value size
unfolding consume_size_mib
consume_size_mib_exact args {size} {rest} h = elim (Option-cases (consume_int args)) [
  | inl e ↦ absurd (ground arith)
  | inr ((value, left), e) ↦ elim (Bool-cases (leb_ℤ value (pos 0))) [
    | inl bad ↦ absurd (ground arith)
    | inr good ↦
        let fits : IsInt value = (consume_int-IsInt args e).0 in
        let same : (size ≡ mib_bytes (pos_part value)) × (rest ≡ left) = ground arith in
        (value, rw same.1 e, rw same.0 (IsSizeOf-mib_bytes value fits good))
  ]
]

-- What a round that goes on has read.
pub take_int-next :
    (args : List String) (valid : ℤ → Bool) (store : ℤ → Options) (message : String)
    {rest : List String} {o : Options}
    → take_int args valid store message ≡ next rest o
    → (v : ℤ) × (valid v ≡ true) × IsInt v × (o ≡ store v) × (length rest < length args)
unfolding take_int
take_int-next args valid store message {rest} {o} h = elim (Option-cases (consume_int args)) [
  | inl e ↦ absurd (ground arith)
  | inr ((v, left), e) ↦
      let (fits, less) = consume_int-IsInt args e in
      (v, ground arith, fits, ground arith, ground arith)
]

pub take_size-next :
    (args : List String) (store : ℕ → Options) (message : String) {rest : List String} {o : Options}
    → take_size args store message ≡ next rest o
    → (size : ℕ) × (0 < size) × (size < 2 ^ 51) × (o ≡ store size) × (length rest < length args)
unfolding take_size
take_size-next args store message {rest} {o} h = elim (Option-cases (consume_size_mib args)) [
  | inl e ↦ absurd (ground arith)
  | inr ((size, left), e) ↦
      let (value, read, size_of) = consume_size_mib_exact args e in
      let (n, _, more, exact, small) = size_of in
      let (_, less) = consume_int-IsInt args read in
      (size, rw exact (omega arith), small, ground arith, ground arith)
]

pub take_text-next :
    (args : List String) (store : String → Options) (message : String) {rest : List String}
    {o : Options}
    → take_text args store message ≡ next rest o
    → (v : String) × (o ≡ store v) × (length rest < length args)
unfolding take_text
take_text-next [] store message h = absurd (ground arith)
take_text-next (arg ∷ args) store message h = (arg, ground arith, ground arith)
