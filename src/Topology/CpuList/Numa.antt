-- ===== src/Topology/CpuList/Numa.antt =====
-- The loop of `parse_cpu_list` in MemoryLatencyAnalyzer_linux/src/numa_support.cpp.
use memory_latency_analyzer.Base.{ℕ, zero, suc, Option, none, some, List, [], ◌∷◌, ◌++◌, length}
use memory_latency_analyzer.Base.Int.{ℤ}
use memory_latency_analyzer.Base.Text.{Bytes}
use memory_latency_analyzer.Topology.CpuList.{cut, read_item}

-- A round of the loop, up to its last test: the item that is read, and what stands behind the comma. `none` is
-- an empty item or one that is refused.
unfoldable pub take_item : Bytes × Option Bytes → Option (List ℤ × Option Bytes)
unfolding read_item
take_item ([], rest) = none
take_item (d ∷ token, rest) = elim (read_item (d ∷ token)) [
  | none ↦ none
  | some item ↦ some (item, rest)
]

-- The loop at the text from `begin` on. A round drops a character at least.
unfoldable pub list_from : ℕ → Bytes → List ℤ → List ℤ
unfolding take_item cut
list_from fuel [] cpus = cpus
list_from zero (c ∷ s) cpus = []
list_from (suc fuel) (c ∷ s) cpus = elim (take_item (cut b',' (c ∷ s))) [
  | none ↦ []
  | some (item, rest) ↦ elim rest [
    | none ↦ cpus ++ item
    | some rest ↦ list_from fuel rest (cpus ++ item)
  ]
]

unfoldable pub parse_cpu_list : Bytes → List ℤ
unfolding list_from
parse_cpu_list text = list_from (length text) text []
