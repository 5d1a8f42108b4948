-- ===== src/Capability/Brand.antt =====
-- The shape of the brand that MemoryLatencyAnalyzer_linux/src/cpu_capability.cpp reads.
use memory_latency_analyzer.Base.{
  ℕ, ◌≤◌, ◌≡◌, refl, Bool, false, ◌&&◌, [], ◌∷◌, ◌++◌, length, All, arith, ltb, ◌==◌, if◌then◌else◌,
  Bool-cases, inl, inr,
}
use memory_latency_analyzer.Base.Text.{Bytes, codes}
use memory_latency_analyzer.Capability.Detect.{
  Words, words_bytes, until_nul, is_empty, erase_front, pop_back, or_unknown, read_brand,
}

abbrev pub starts_blank : Bytes → Bool
starts_blank [] = false
starts_blank (c ∷ s) = c == b' '

abbrev pub ends_blank : Bytes → Bool
ends_blank [] = false
ends_blank (c ∷ s) = if is_empty s then c == b' ' else ends_blank s

-- A text of at most `n` bytes, without a NUL.
abbrev pub IsText : ℕ → Bytes → Type 0
IsText n s = (length s ≤ n) × All (λ c. (c == 0) ≡ false) s

until_nul-IsText : (s : Bytes) → IsText (length s) (until_nul s)
unfolding until_nul
until_nul-IsText [] = (omega arith, tt)
until_nul-IsText (c ∷ s) =
    let (short, clean) = until_nul-IsText s in
    elim (Bool-cases (c == 0)) [
      | inl nul ↦ rw nul (omega arith, tt)
      | inr other ↦ rw other (omega arith, (other, clean))
    ]

erase_front-IsText :
    (n : ℕ) (s : Bytes)
    → IsText n s
    → IsText n (erase_front s) × (starts_blank (erase_front s) ≡ false)
unfolding erase_front
erase_front-IsText n [] h = (h, refl)
erase_front-IsText n (c ∷ s) (short, clean) = elim (Bool-cases (c == b' ')) [
  | inl blank ↦ rw blank (erase_front-IsText n s (omega arith, clean.1))
  | inr other ↦ rw other ((short, clean), other)
]

pop_back_short : (s : Bytes) → length (pop_back s) ≤ length s
unfolding pop_back
pop_back_short [] = omega arith
pop_back_short (c ∷ s) = elim (Bool-cases (c == b' ' && is_empty (pop_back s))) [
  | inl gone ↦ rw gone (omega arith)
  | inr kept ↦ rw kept (omega (arith, pop_back_short s))
]

pop_back_clean :
    (s : Bytes) → All (λ c. (c == 0) ≡ false) s → All (λ c. (c == 0) ≡ false) (pop_back s)
unfolding pop_back
pop_back_clean [] h = tt
pop_back_clean (c ∷ s) h = elim (Bool-cases (c == b' ' && is_empty (pop_back s))) [
  | inl gone ↦ rw gone tt
  | inr kept ↦ rw kept (h.0, pop_back_clean s h.1)
]

and_false : (a b : Bool) → b ≡ false → (a && b) ≡ false
and_false a b h = ground arith

pop_back_end : (s : Bytes) → ends_blank (pop_back s) ≡ false
unfolding pop_back
pop_back_end [] = refl
pop_back_end (c ∷ s) = elim (Bool-cases (is_empty (pop_back s))) [
  | inl alone ↦ elim (Bool-cases (c == b' ')) [
    | inl blank ↦ rw (blank, alone) refl
    | inr other ↦ rw (other, alone) other
  ]
  | inr more ↦ rw (and_false (c == b' ') (is_empty (pop_back s)) more, more) (pop_back_end s)
]

pop_back_start : (s : Bytes) → starts_blank s ≡ false → starts_blank (pop_back s) ≡ false
unfolding pop_back
pop_back_start [] h = refl
pop_back_start (c ∷ s) h = rw h h

abbrev IsBrand : Bytes → Type 0
IsBrand s = (is_empty s ≡ false) × IsText 48 s × (starts_blank s ≡ false) × (ends_blank s ≡ false)

unknown_lem : IsBrand (codes "Unknown")
unknown_lem = (refl, (omega arith, ground arith), refl, refl)

or_unknown_lem :
    (s : Bytes)
    → IsText 48 s
    → starts_blank s ≡ false
    → ends_blank s ≡ false
    → IsBrand (or_unknown s)
or_unknown_lem [] text start end = unknown_lem
or_unknown_lem (c ∷ s) text start end = (refl, text, start, end)

-- The brand is never empty, has at most 48 bytes and no NUL among them, and neither starts nor ends with a space,
-- whatever the processor answers.
pub read_brand_lem :
    (cpuid : ℕ → Words) (max_extended_leaf : ℕ)
    → let brand = read_brand cpuid max_extended_leaf in
      (is_empty brand ≡ false)
      × IsText 48 brand
      × (starts_blank brand ≡ false)
      × (ends_blank brand ≡ false)
unfolding read_brand
read_brand_lem cpuid max_extended_leaf =
    let raw =
      words_bytes (cpuid 0x8000_0002)
      ++ words_bytes (cpuid 0x8000_0003)
      ++ words_bytes (cpuid 0x8000_0004) in
    let (text, start) = erase_front-IsText 48 (until_nul raw) (until_nul-IsText raw) in
    let front = erase_front (until_nul raw) in
    elim (Bool-cases (ltb max_extended_leaf 0x8000_0004)) [
      | inl old ↦ rw old unknown_lem
      | inr new ↦ rw new (
          or_unknown_lem (pop_back front)
            (omega (arith, pop_back_short front, text.0), pop_back_clean front text.1)
            (pop_back_start front start) (pop_back_end front))
    ]
