-- ===== src/Topology/Examples.antt =====
-- Tests and examples of CPU lists, NUMA nodes, cores and caches.
use memory_latency_analyzer.Base.{
  ℕ, zero, suc, ◌+◌, ◌≤◌, ◌^◌, ◌≡◌, ◌⊎◌, refl, true, false, none, some, List, [], ◌∷◌, map, arith,
  inl, inr, All, if◌then◌else◌, ◌*◌,
}
use memory_latency_analyzer.Base.Int.{pos, eq_ℤ}
use memory_latency_analyzer.Base.Text.{codes, stoi}
use memory_latency_analyzer.Topology.CpuList.{cut, read_item, range, range_from}
use memory_latency_analyzer.Topology.CpuList.Numa
use memory_latency_analyzer.Topology.CpuList.Info
use memory_latency_analyzer.Topology.CpuList.Agree.{parse_cpu_list-agree}
use memory_latency_analyzer.Topology.CpuList.Print.{
  print_spans, spans_cpus, parse_cpu_list-print_spans,
}
use memory_latency_analyzer.Topology.Nodes.{has_cpu, node_for_cpu}
use memory_latency_analyzer.Topology.Homes.{Host, host_entry, node_for_cpu-host}
use memory_latency_analyzer.Topology.Cores.{Sysfs, choose_distinct_cpu, cpu_topology_pair}
use memory_latency_analyzer.Topology.Choice.{choose_distinct_cpu_exact, IsOther, IsSame}
use memory_latency_analyzer.Topology.Caches.{Registers, detect_caches, cache_line_size}
use memory_latency_analyzer.Topology.Levels.{IsCache, IsSorted, detect_caches-IsSorted}

parse_cpu_list-agree_example :
    Numa.parse_cpu_list (codes "0-2,,7") ≡ Info.parse_cpu_list (codes "0-2,,7")
parse_cpu_list-agree_example = parse_cpu_list-agree (codes "0-2,,7")

list_run : Numa.parse_cpu_list (codes "0-2,7,") ≡ pos 0 ∷ pos 1 ∷ pos 2 ∷ pos 7 ∷ []
unfolding Numa.parse_cpu_list stoi cut read_item range range_from
list_run = refl

refused_run : Info.parse_cpu_list (codes "4,3-1") ≡ []
unfolding Info.parse_cpu_list stoi cut read_item range range_from
refused_run = refl

parse_cpu_list-print_spans_example :
    Numa.parse_cpu_list (print_spans ((0, 3) ∷ (8, 0) ∷ [])) ≡ spans_cpus ((0, 3) ∷ (8, 0) ∷ [])
parse_cpu_list-print_spans_example =
    parse_cpu_list-print_spans ((0, 3) ∷ (8, 0) ∷ []) (omega arith, (omega arith, tt))

-- Two nodes, in another order than their numbers.
abbrev hosts : List Host
hosts = (1, (2, 1) ∷ []) ∷ (0, (0, 1) ∷ (8, 0) ∷ []) ∷ []

node_for_cpu-host_example : node_for_cpu (some (map host_entry hosts)) (pos 8) ≡ pos 0
node_for_cpu-host_example =
    node_for_cpu-host hosts 8 0
      ((omega arith, (omega arith, tt)), ((omega arith, (omega arith, (omega arith, tt))), tt))
      (inl (unfold has_cpu in refl), (inr refl, tt)) (unfold has_cpu in refl)

-- CPUs 0 and 1 share a core.
abbrev siblings : Sysfs
siblings = record {
  package_id = λ cpu. some (pos 0);
  core_id = λ cpu. if eq_ℤ cpu (pos 1) then some (pos 0) else none;
}

choose_distinct_cpu_exact_example :
    (has_cpu
        (choose_distinct_cpu siblings (pos 0) (pos 0 ∷ pos 1 ∷ pos 2 ∷ []))
        (pos 0 ∷ pos 1 ∷ pos 2 ∷ [])
      ≡ true)
    × (eq_ℤ (choose_distinct_cpu siblings (pos 0) (pos 0 ∷ pos 1 ∷ pos 2 ∷ [])) (pos 0) ≡ false)
    × (IsOther siblings (pos 0) (choose_distinct_cpu siblings (pos 0) (pos 0 ∷ pos 1 ∷ pos 2 ∷ []))
        ⊎ All (IsSame siblings (pos 0)) (pos 0 ∷ pos 1 ∷ pos 2 ∷ []))
choose_distinct_cpu_exact_example =
    choose_distinct_cpu_exact siblings (pos 0) (pos 0) (pos 1) (pos 2 ∷ []) refl

chosen_run : choose_distinct_cpu siblings (pos 0) (pos 0 ∷ pos 1 ∷ pos 2 ∷ []) ≡ pos 2
unfolding choose_distinct_cpu cpu_topology_pair
chosen_run = refl

-- A data cache of level 1, an instruction cache, then nothing.
abbrev leaf : ℕ → Registers
leaf zero = record { eax = 1 + 32; ebx = 63 + 7 * 2 ^ 22; ecx = 63 }
leaf (suc zero) = record { eax = 2 + 32; ebx = 63 + 7 * 2 ^ 22; ecx = 63 }
leaf (suc (suc n)) = record { eax = 0; ebx = 0; ecx = 0 }

detect_caches-IsSorted_example :
    All IsCache (detect_caches 13 leaf)
    × IsSorted (detect_caches 13 leaf)
    × (1 ≤ cache_line_size 13 leaf)
    × (cache_line_size 13 leaf ≤ 4096)
detect_caches-IsSorted_example = detect_caches-IsSorted 13 leaf
