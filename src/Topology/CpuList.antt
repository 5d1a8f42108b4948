-- ===== src/Topology/CpuList.antt =====
-- The two readers of Linux CPU lists: `parse_cpu_list` of MemoryLatencyAnalyzer_linux/src/numa_support.cpp and
-- of MemoryLatencyAnalyzer_linux/src/cpu_info.cpp.
pub mod Numa
pub mod Info
pub mod Agree
pub mod Print
use memory_latency_analyzer.Base.{
  ℕ, zero, suc, ◌+◌, ◌-◌, Bool, true, false, Option, none, some, List, [], ◌∷◌, ◌++◌, length, ◌==◌,
  if◌then◌else◌, ◌>>=◌,
}
use memory_latency_analyzer.Base.Int.{ℤ, pos, negsuc, pos_part, neg_part, ltb_ℤ}
use memory_latency_analyzer.Base.Text.{Bytes, stoi}

-- `find` and the two `substr`: what stands before the first such character, and behind it where there is one.
unfoldable pub cut : ℕ → Bytes → Bytes × Option Bytes
cut c [] = ([], none)
cut c (d ∷ s) =
    let (before, after) = cut c s in if d == c then ([], some s) else (d ∷ before, after)

abbrev pub next_int : ℤ → ℤ
next_int (pos n) = pos (suc n)
next_int (negsuc zero) = pos 0
next_int (negsuc (suc n)) = negsuc n

-- `++cpu` as often as the loop runs.
unfoldable pub range_from : ℕ → ℤ → List ℤ
range_from zero cpu = []
range_from (suc left) cpu = cpu ∷ range_from left (next_int cpu)

-- `for (cpu = first; cpu <= last; ++cpu)` where `first` is at most `last`, for `last` below 2147483647. At
-- 2147483647 the source's `++cpu` overflows `int`: there this list is not what the source makes, and the two
-- readers are compared as texts only.
unfoldable pub range : ℤ → ℤ → List ℤ
unfolding range_from
range first last =
    range_from (suc (pos_part last + neg_part first - (pos_part first + neg_part last))) first

abbrev pub read_bounds : Option ℤ → Option ℤ → Option (List ℤ)
read_bounds none last = none
read_bounds (some first) none = none
read_bounds (some first) (some last) = if ltb_ℤ last first then none else some (range first last)

-- One item, the same code in both readers: a number or a range; `none` is an exception or a range that ends
-- before it starts.
unfoldable pub read_item : Bytes → Option (List ℤ)
unfolding cut range
read_item token =
    let (before, rest) = cut b'-' token in
    elim rest [
      | none ↦ elim (stoi token) [ none ↦ none | some cpu ↦ some (cpu ∷ []) ]
      | some after ↦ read_bounds (stoi before) (stoi after)
    ]
