-- ===== src/Topology/Caches.antt =====
-- `detect_caches` and `cache_line_size` of MemoryLatencyAnalyzer_linux/src/cpu_info.cpp. `cpuid` is a
-- parameter: the four registers of leaf 4 for each subleaf, and `max_basic_leaf()`.
use memory_latency_analyzer.Base.{
  ℕ, zero, suc, ◌+◌, ◌*◌, ◌/◌, ◌%◌, ◌^◌, Bool, not, ◌&&◌, ◌||◌, List, [], ◌∷◌, ltb, ◌==◌,
  if◌then◌else◌,
}

pub record Registers : Type 0 where
  pub eax : ℕ
  pub ebx : ℕ
  pub ecx : ℕ

pub data CacheType : Type 0 where
  data_cache unified : CacheType

pub record CacheLevelInfo : Type 0 where
  pub level : ℕ
  pub size : ℕ
  pub line_size : ℕ
  pub type : CacheType

abbrev pub cache_type : Registers → ℕ
cache_type r = r.eax % 32

abbrev pub level_of : Registers → ℕ
level_of r = r.eax / 2 ^ 5 % 8

-- A level is between 1 and 3, and the cache is no instruction cache.
abbrev pub is_listed : Registers → Bool
is_listed r = not (ltb (level_of r) 1 || ltb 3 (level_of r)) && not (cache_type r == 2)

-- The fields of the registers; the product is a `std::size_t`.
unfoldable pub describe : Registers → CacheLevelInfo
describe r =
    let line_size = r.ebx % 2 ^ 12 + 1 in
    let partitions = r.ebx / 2 ^ 12 % 2 ^ 10 + 1 in
    let ways = r.ebx / 2 ^ 22 % 2 ^ 10 + 1 in
    let sets = r.ecx + 1 in
    record {
      level = level_of r;
      size = line_size * partitions * ways * sets % 2 ^ 64;
      line_size = line_size;
      type = if cache_type r == 1 then CacheType.data_cache else CacheType.unified;
    }

-- The subleaves `subleaf`, `subleaf + 1`, ….
unfoldable pub scan_from : (ℕ → Registers) → ℕ → ℕ → List CacheLevelInfo
unfolding describe
scan_from cpuid zero subleaf = []
scan_from cpuid (suc left) subleaf =
    let info = cpuid subleaf in
    let rest = scan_from cpuid left (subleaf + 1) in
    if cache_type info == 0 then [] else if is_listed info then describe info ∷ rest else rest

-- "Data" is before "Unified".
abbrev pub type_rank : CacheType → ℕ
type_rank CacheType.data_cache = 0
type_rank CacheType.unified = 1

abbrev pub is_before : CacheLevelInfo → CacheLevelInfo → Bool
is_before a b =
    if not (a.level == b.level)
    then ltb a.level b.level
    else ltb (type_rank a.type) (type_rank b.type)

unfoldable pub insert_cache : CacheLevelInfo → List CacheLevelInfo → List CacheLevelInfo
insert_cache c [] = c ∷ []
insert_cache c (d ∷ ds) = if is_before d c then d ∷ insert_cache c ds else c ∷ d ∷ ds

unfoldable pub sort_caches : List CacheLevelInfo → List CacheLevelInfo
unfolding insert_cache
sort_caches [] = []
sort_caches (c ∷ cs) = insert_cache c (sort_caches cs)

unfoldable pub detect_caches : ℕ → (ℕ → Registers) → List CacheLevelInfo
unfolding scan_from sort_caches
detect_caches max_leaf cpuid = if ltb max_leaf 4 then [] else sort_caches (scan_from cpuid 32 0)

unfoldable pub first_line_size : List CacheLevelInfo → ℕ
first_line_size [] = 64
first_line_size (c ∷ cs) =
    let later = first_line_size cs in if not (c.line_size == 0) then c.line_size else later

unfoldable pub cache_line_size : ℕ → (ℕ → Registers) → ℕ
unfolding detect_caches first_line_size
cache_line_size max_leaf cpuid = first_line_size (detect_caches max_leaf cpuid)
