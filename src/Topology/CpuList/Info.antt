-- ===== src/Topology/CpuList/Info.antt =====
-- The loop of `parse_cpu_list` in MemoryLatencyAnalyzer_linux/src/cpu_info.cpp.
use memory_latency_analyzer.Base.{ℕ, zero, suc, Option, none, some, List, [], ◌∷◌, ◌++◌, length}
use memory_latency_analyzer.Base.Int.{ℤ}
use memory_latency_analyzer.Base.Text.{Bytes}
use memory_latency_analyzer.Topology.CpuList.{cut, read_item}

-- `std::getline(ss, item, ',')`: the item and what is left; `none` at the end of the text.
unfoldable pub get_item : Bytes → Option (Bytes × Bytes)
unfolding cut
get_item [] = none
get_item (c ∷ s) =
    let (item, rest) = cut b',' (c ∷ s) in
    elim rest [ none ↦ some (item, []) | some rest ↦ some (item, rest) ]

unfoldable pub items_from : ℕ → Bytes → List ℤ → List ℤ
unfolding read_item get_item
items_from zero text cpus = cpus
items_from (suc fuel) text cpus = elim (get_item text) [
  | none ↦ cpus
  | some (item, rest) ↦ elim (read_item item) [
    | none ↦ []
    | some item ↦ items_from fuel rest (cpus ++ item)
  ]
]

unfoldable pub parse_cpu_list : Bytes → List ℤ
unfolding items_from
parse_cpu_list text = items_from (suc (length text)) text []
