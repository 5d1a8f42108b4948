-- ===== src/Topology/Levels.antt =====
-- What `detect_caches` of MemoryLatencyAnalyzer_linux/src/cpu_info.cpp lists.
use memory_latency_analyzer.Base.{
  ℕ, zero, suc, ◌+◌, ◌≤◌, ◌≡◌, refl, true, false, List, [], ◌∷◌, arith, Bool-cases, inl, inr, All,
  ◌==◌, ltb, ◌*◌,
}
use memory_latency_analyzer.Topology.Caches.{
  Registers, CacheLevelInfo, cache_type, is_listed, type_rank, is_before, describe, scan_from,
  insert_cache, sort_caches, detect_caches, first_line_size, cache_line_size, CacheType,
}

-- A cache that is listed.
pub record IsCache (c : CacheLevelInfo) : Type 0 where
  pub level_pos : 1 ≤ c.level
  pub level_le : c.level ≤ 3
  pub line_pos : 1 ≤ c.line_size
  pub line_le : c.line_size ≤ 4096

abbrev pub key : CacheLevelInfo → ℕ
key c = 2 * c.level + type_rank c.type

-- In the order of the levels, the data cache of a level before the unified one.
abbrev pub IsSorted : List CacheLevelInfo → Type 0
IsSorted [] = Unit
IsSorted (c ∷ []) = Unit
IsSorted (c ∷ d ∷ cs) = (key c ≤ key d) × IsSorted (d ∷ cs)

describe-IsCache : (r : Registers) → is_listed r ≡ true → IsCache (describe r)
unfolding describe
describe-IsCache r h = record {
  level_pos = ground arith;
  level_le = ground arith;
  line_pos = omega arith;
  line_le = omega arith;
}

scan_from-IsCache :
    (cpuid : ℕ → Registers) (left subleaf : ℕ) → All IsCache (scan_from cpuid left subleaf)
unfolding scan_from
scan_from-IsCache cpuid zero subleaf = tt
scan_from-IsCache cpuid (suc left) subleaf = elim (Bool-cases (cache_type (cpuid subleaf) == 0)) [
  | inl e ↦ rw (e, All) tt
  | inr e ↦ elim (Bool-cases (is_listed (cpuid subleaf))) [
    | inl q ↦
        rw (e, q, All)
          (describe-IsCache (cpuid subleaf) q, scan_from-IsCache cpuid left (subleaf + 1))
    | inr q ↦ rw (e, q, All) (scan_from-IsCache cpuid left (subleaf + 1))
  ]
]

insert_cache-IsCache :
    (c : CacheLevelInfo) (cs : List CacheLevelInfo)
    → IsCache c
    → All IsCache cs
    → All IsCache (insert_cache c cs)
unfolding insert_cache
insert_cache-IsCache c [] h hs = (h, tt)
insert_cache-IsCache c (d ∷ ds) h hs = elim (Bool-cases (is_before d c)) [
  | inl e ↦ rw (e, All) (hs.0, insert_cache-IsCache c ds h hs.1)
  | inr e ↦ rw (e, All) (h, hs)
]

rank_le : (t : CacheType) → type_rank t ≤ 1
rank_le CacheType.data_cache = omega arith
rank_le CacheType.unified = omega arith

is_before-key : (a b : CacheLevelInfo) → is_before a b ≡ true → key a ≤ key b
is_before-key a b h = ground (arith, rank_le a.type, rank_le b.type)

not_before-key : (a b : CacheLevelInfo) → is_before a b ≡ false → key b ≤ key a
not_before-key a b h = ground (arith, rank_le a.type, rank_le b.type)

-- `k` is no greater than the first key.
abbrev IsLow : ℕ → List CacheLevelInfo → Type 0
IsLow k [] = Unit
IsLow k (c ∷ cs) = k ≤ key c

cons-IsSorted :
    (c : CacheLevelInfo) (cs : List CacheLevelInfo)
    → IsLow (key c) cs
    → IsSorted cs
    → IsSorted (c ∷ cs)
cons-IsSorted c [] h s = tt
cons-IsSorted c (d ∷ ds) h s = (h, s)

tail-IsSorted :
    (c : CacheLevelInfo) (cs : List CacheLevelInfo)
    → IsSorted (c ∷ cs)
    → IsLow (key c) cs × IsSorted cs
tail-IsSorted c [] s = (tt, tt)
tail-IsSorted c (d ∷ ds) s = s

insert_cache-IsLow :
    (k : ℕ) (c : CacheLevelInfo) (cs : List CacheLevelInfo)
    → k ≤ key c
    → IsLow k cs
    → IsLow k (insert_cache c cs)
unfolding insert_cache
insert_cache-IsLow k c [] h hs = h
insert_cache-IsLow k c (d ∷ ds) h hs = elim (Bool-cases (is_before d c)) [
  | inl e ↦ rw (e, IsLow) hs
  | inr e ↦ rw (e, IsLow) h
]

insert_cache-IsSorted :
    (c : CacheLevelInfo) (cs : List CacheLevelInfo) → IsSorted cs → IsSorted (insert_cache c cs)
insert_cache-IsSorted c [] s = unfold insert_cache in tt
insert_cache-IsSorted c (d ∷ ds) s = elim (Bool-cases (is_before d c)) [
  | inl e ↦
      let (low, rest) = tail-IsSorted d ds s in
      let same : insert_cache c (d ∷ ds) ≡ d ∷ insert_cache c ds =
        unfold insert_cache in rw e refl in
      rw same (
        cons-IsSorted d (insert_cache c ds)
          (insert_cache-IsLow (key d) c ds (is_before-key d c e) low)
          (insert_cache-IsSorted c ds rest))
  | inr e ↦
      let same : insert_cache c (d ∷ ds) ≡ c ∷ d ∷ ds = unfold insert_cache in rw e refl in
      rw same (not_before-key d c e, s)
]

sort_caches_lem :
    (cs : List CacheLevelInfo)
    → All IsCache cs
    → All IsCache (sort_caches cs) × IsSorted (sort_caches cs)
unfolding sort_caches
sort_caches_lem [] h = (tt, tt)
sort_caches_lem (c ∷ cs) h =
    let (a, b) = sort_caches_lem cs h.1 in
    (insert_cache-IsCache c (sort_caches cs) h.0 a, insert_cache-IsSorted c (sort_caches cs) b)

first_line_size-bounds :
    (cs : List CacheLevelInfo)
    → All IsCache cs
    → (1 ≤ first_line_size cs) × (first_line_size cs ≤ 4096)
unfolding first_line_size
first_line_size-bounds [] h = (omega arith, omega arith)
first_line_size-bounds (c ∷ cs) h =
    (ground (arith, h.0.line_pos), ground (arith, h.0.line_pos, h.0.line_le))

-- Whatever the processor reports, the caches are listed by level from 1 to 3, the data cache of a level before
-- its unified one, each line size is between 1 and 4096 bytes, and so is the line size that is chosen.
pub detect_caches-IsSorted :
    (max_leaf : ℕ) (cpuid : ℕ → Registers)
    → All IsCache (detect_caches max_leaf cpuid)
      × IsSorted (detect_caches max_leaf cpuid)
      × (1 ≤ cache_line_size max_leaf cpuid)
      × (cache_line_size max_leaf cpuid ≤ 4096)
unfolding cache_line_size
detect_caches-IsSorted max_leaf cpuid =
    let (a, b) : All IsCache (detect_caches max_leaf cpuid)
        × IsSorted (detect_caches max_leaf cpuid) =
      unfold detect_caches in
      elim (Bool-cases (ltb max_leaf 4)) [
        | inl e ↦ rw (e, All, IsSorted) (tt, tt)
        | inr e ↦
            rw (e, All, IsSorted)
              (sort_caches_lem (scan_from cpuid 32 0) (scan_from-IsCache cpuid 32 0))
      ] in
    let (low, high) = first_line_size-bounds (detect_caches max_leaf cpuid) a in (a, b, low, high)
