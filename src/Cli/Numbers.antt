-- ===== src/Cli/Numbers.antt =====
-- `parse_int`, `consume_int` and `consume_size_mib` of MemoryLatencyAnalyzer_linux/src/main.cpp. The
-- list is what stands behind the option, `argv[index + 1]` onwards; `none` is `false`.
use Prim.Native.String.{String}
use memory_latency_analyzer.Base.{
  ℕ, ◌*◌, ◌%◌, ◌^◌, Option, none, some, List, [], ◌∷◌, if◌then◌else◌,
}
use memory_latency_analyzer.Base.Int.{ℤ, pos, leb_ℤ, pos_part}
use memory_latency_analyzer.Base.Text.{Bytes, codes, from_chars}

-- The whole text has to be the number.
unfoldable pub parse_int : Bytes → Option ℤ
parse_int [] = none
parse_int (c ∷ s) = elim (from_chars (c ∷ s)) [
  | none ↦ none
  | some (value, []) ↦ some value
  | some (value, d ∷ rest) ↦ none
]

-- The value and the arguments behind it.
unfoldable pub consume_int : List String → Option (ℤ × List String)
consume_int [] = none
consume_int (arg ∷ rest) = elim (parse_int (codes arg)) [
  | none ↦ none
  | some value ↦ some (value, rest)
]

-- `mib * 1024 * 1024` in `std::size_t`; the value is positive, so its cast is the value.
unfoldable pub mib_bytes : ℕ → ℕ
mib_bytes mib = (mib * 1024 % 2 ^ 64) * 1024 % 2 ^ 64

unfoldable pub consume_size_mib : List String → Option (ℕ × List String)
consume_size_mib args = elim (consume_int args) [
  | none ↦ none
  | some (value, rest) ↦
      if leb_ℤ value (pos 0) then none else some (mib_bytes (pos_part value), rest)
]
