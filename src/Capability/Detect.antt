-- ===== src/Capability/Detect.antt =====
-- `read_brand` and `CpuCapability::detect` of MemoryLatencyAnalyzer_linux/src/cpu_capability.cpp. `cpuid` is a parameter, as
-- are the frequency and what the compiler's run time says of AVX2 and AVX-512. An or of fields that share no
-- bit is their sum.
use memory_latency_analyzer.Base.{
  ℕ, ◌+◌, ◌*◌, ◌/◌, ◌%◌, ◌^◌, Bool, true, false, ◌&&◌, ◌||◌, [], ◌∷◌, ◌++◌, ltb, leb, ◌==◌,
  if◌then◌else◌,
}
use memory_latency_analyzer.Base.Text.{Bytes, codes}

pub record Words : Type 0 where
  pub eax : ℕ
  pub ebx : ℕ
  pub ecx : ℕ
  pub edx : ℕ

-- The bytes of a register in memory.
abbrev pub word_bytes : ℕ → Bytes
word_bytes w = w % 256 ∷ w / 2 ^ 8 % 256 ∷ w / 2 ^ 16 % 256 ∷ w / 2 ^ 24 % 256 ∷ []

abbrev pub words_bytes : Words → Bytes
words_bytes w = word_bytes w.eax ++ word_bytes w.ebx ++ word_bytes w.ecx ++ word_bytes w.edx

-- A string up to its NUL.
unfoldable pub until_nul : Bytes → Bytes
until_nul [] = []
until_nul (c ∷ s) = if c == 0 then [] else c ∷ until_nul s

abbrev pub is_empty : Bytes → Bool
is_empty [] = true
is_empty (c ∷ s) = false

-- The two loops that take the spaces off.
unfoldable pub erase_front : Bytes → Bytes
erase_front [] = []
erase_front (c ∷ s) = if c == b' ' then erase_front s else c ∷ s

unfoldable pub pop_back : Bytes → Bytes
pop_back [] = []
pop_back (c ∷ s) = let rest = pop_back s in if c == b' ' && is_empty rest then [] else c ∷ rest

abbrev pub or_unknown : Bytes → Bytes
or_unknown value = if is_empty value then codes "Unknown" else value

unfoldable pub read_brand : (ℕ → Words) → (max_extended_leaf : ℕ) → Bytes
unfolding until_nul erase_front pop_back
read_brand cpuid max_extended_leaf =
    if ltb max_extended_leaf 0x8000_0004
    then codes "Unknown"
    else or_unknown (
        pop_back (
          erase_front (
            until_nul (
              words_bytes (cpuid 0x8000_0002)
              ++ words_bytes (cpuid 0x8000_0003)
              ++ words_bytes (cpuid 0x8000_0004)))))

pub record CpuCapabilityInfo : Type 0 where
  pub vendor : Bytes
  pub brand : Bytes
  pub family : ℕ
  pub model : ℕ
  pub stepping : ℕ
  pub sse : Bool
  pub sse2 : Bool
  pub sse4_2 : Bool
  pub avx : Bool
  pub avx2 : Bool
  pub avx512f : Bool

abbrev pub base_family : ℕ → ℕ
base_family eax = eax / 2 ^ 8 % 16

abbrev pub base_model : ℕ → ℕ
base_model eax = eax / 2 ^ 4 % 16

abbrev pub ext_family : ℕ → ℕ
ext_family eax = eax / 2 ^ 20 % 256

abbrev pub ext_model : ℕ → ℕ
ext_model eax = eax / 2 ^ 16 % 16

unfoldable pub family_of : ℕ → ℕ
family_of eax = if base_family eax == 15 then base_family eax + ext_family eax else base_family eax

unfoldable pub model_of : ℕ → ℕ
model_of eax =
    if base_family eax == 6 || base_family eax == 15
    then ext_model eax * 16 + base_model eax
    else base_model eax

abbrev pub has_bit : ℕ → ℕ → Bool
has_bit w n = w / 2 ^ n % 2 == 1

-- The fields of leaf 1 keep their first values where there is no such leaf.
unfoldable pub detect :
    (cpuid : ℕ → Words)
    → (max_basic_leaf max_extended_leaf : ℕ) → (avx2 avx512f : Bool) → CpuCapabilityInfo
unfolding read_brand family_of model_of until_nul
detect cpuid max_basic_leaf max_extended_leaf avx2 avx512f =
    let zeroth = cpuid 0 in
    let first = cpuid 1 in
    let there = leb 1 max_basic_leaf in
    record {
      vendor = until_nul (word_bytes zeroth.ebx ++ word_bytes zeroth.edx ++ word_bytes zeroth.ecx);
      brand = read_brand cpuid max_extended_leaf;
      family = if there then family_of first.eax else 0;
      model = if there then model_of first.eax else 0;
      stepping = if there then first.eax % 16 else 0;
      sse = there && has_bit first.edx 25;
      sse2 = there && has_bit first.edx 26;
      sse4_2 = there && has_bit first.ecx 20;
      avx = there && has_bit first.ecx 28;
      avx2 = avx2;
      avx512f = avx512f;
    }
