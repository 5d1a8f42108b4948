-- ===== src/Capability/Examples.antt =====
-- Tests and examples of what is read from the processor.
use memory_latency_analyzer.Base.{ℕ, ◌≡◌, ◌==◌, if◌then◌else◌, refl, true, false, inl, arith}
use memory_latency_analyzer.Base.Text.{codes}
use memory_latency_analyzer.Capability.Detect.{Words, is_empty, detect, read_brand}
use memory_latency_analyzer.Capability.Brand.{IsText, starts_blank, ends_blank, read_brand_lem}
use memory_latency_analyzer.Capability.Signature.{detect-signature}

-- Family 6, model 158, stepping 10, and the brand "AB" between spaces, one after another in each leaf.
abbrev answers : ℕ → Words
answers leaf =
    if leaf == 1
    then record { eax = 0x0009_06EA; ebx = 0; ecx = 0; edx = 0 }
    else record { eax = 0x4241_2020; ebx = 0x2020_2020; ecx = 0x2020; edx = 0 }

brand_run : read_brand answers 0x8000_0008 ≡ codes "AB"
unfolding read_brand
brand_run = refl

read_brand_lem_example :
    (is_empty (read_brand answers 0x8000_0008) ≡ false)
    × IsText 48 (read_brand answers 0x8000_0008)
    × (starts_blank (read_brand answers 0x8000_0008) ≡ false)
    × (ends_blank (read_brand answers 0x8000_0008) ≡ false)
read_brand_lem_example = read_brand_lem answers 0x8000_0008

detect-signature_example :
    let info = detect answers 22 0x8000_0008 true false in
    (info.family ≡ 6) × (info.model ≡ 158) × (info.stepping ≡ 10)
detect-signature_example =
    detect-signature answers 22 0x8000_0008 true false 6 158 10 0 0 (omega arith) refl (omega arith)
      (omega arith) (omega arith) (omega arith) (inl (inl refl))
