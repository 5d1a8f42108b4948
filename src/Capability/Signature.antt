-- ===== src/Capability/Signature.antt =====
-- How MemoryLatencyAnalyzer_linux/src/cpu_capability.cpp decodes the signature of a processor.
use memory_latency_analyzer.Base.{
  ℕ, ◌+◌, ◌-◌, ◌*◌, ◌/◌, ◌%◌, ◌^◌, ◌≤◌, ◌<◌, ◌≡◌, Bool, true, ◌⊎◌, arith, ltb, leb, if◌then◌else◌,
}
use memory_latency_analyzer.Capability.Detect.{
  Words, base_family, base_model, ext_family, ext_model, family_of, model_of, detect,
}

-- The word that the manuals give a processor: the fields of a family and a model as they are displayed; `kind` and
-- `rest` are the bits that are not read.
abbrev pub signature : (family model stepping kind rest : ℕ) → ℕ
signature family model stepping kind rest =
    stepping
    + 2 ^ 4 * (model % 16)
    + 2 ^ 8 * (if ltb family 15 then family else 15)
    + 2 ^ 12 * kind
    + 2 ^ 16 * (model / 16)
    + 2 ^ 20 * (family - 15)
    + 2 ^ 28 * rest

fields_lem :
    (s b k f x y z : ℕ)
    → s < 16
    → b < 16
    → f < 16
    → k < 16
    → x < 16
    → y < 256
    → let eax = s + 2 ^ 4 * b + 2 ^ 8 * f + 2 ^ 12 * k + 2 ^ 16 * x + 2 ^ 20 * y + 2 ^ 28 * z in
      (base_family eax ≡ f)
      × (base_model eax ≡ b)
      × (ext_family eax ≡ y)
      × (ext_model eax ≡ x)
      × (eax % 16 ≡ s)
fields_lem s b k f x y z hs hb hf hk hx hy =
    (omega arith, omega arith, omega arith, omega arith, omega arith)

abbrev base_of : ℕ → ℕ
base_of family = if ltb family 15 then family else 15

base_of_lt : (family : ℕ) → base_of family < 16
base_of_lt family = ground arith

family_of_lem :
    (family eax : ℕ)
    → base_family eax ≡ base_of family
    → ext_family eax ≡ family - 15
    → family_of eax ≡ family
unfolding family_of
family_of_lem family eax base ext = rw (base, ext) (ground arith)

model_of_lem :
    (family model eax : ℕ)
    → base_family eax ≡ base_of family
    → base_model eax ≡ model % 16
    → ext_model eax ≡ model / 16
    → ((family ≡ 6) ⊎ (15 ≤ family)) ⊎ (model < 16)
    → model_of eax ≡ model
unfolding model_of
model_of_lem family model eax base low high fits = rw (base, low, high) (ground (arith, fits))

-- Where the processor has leaf 1, the family up to 270, the model below 256 and the stepping below 16 that its
-- signature spells are read back, whatever stands in the bits that are not read. A model of 16 and more needs
-- the family 6 or one of 15 and more.
pub detect-signature :
    (cpuid : ℕ → Words) (max_basic max_extended : ℕ) (avx2 avx512f : Bool)
    (family model stepping kind rest : ℕ)
    → 1 ≤ max_basic
    → (cpuid 1).eax ≡ signature family model stepping kind rest
    → family ≤ 270
    → model < 256
    → stepping < 16
    → kind < 16
    → ((family ≡ 6) ⊎ (15 ≤ family)) ⊎ (model < 16)
    → let info = detect cpuid max_basic max_extended avx2 avx512f in
      (info.family ≡ family) × (info.model ≡ model) × (info.stepping ≡ stepping)
unfolding detect
detect-signature cpuid max_basic max_extended avx2 avx512f family model stepping kind rest there
      word hf hm hs hk fits =
    let leaf : leb 1 max_basic ≡ true = ground arith in
    let eax = signature family model stepping kind rest in
    let (base, low, ext, high, step) =
      fields_lem stepping (model % 16) kind (base_of family) (model / 16) (family - 15) rest hs
        (omega arith) (base_of_lt family) hk (omega arith) (omega arith) in
    rw (leaf, word)
      (family_of_lem family eax base ext, model_of_lem family model eax base low high fits, step)
