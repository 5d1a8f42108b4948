-- ===== src/Topology/Cores.antt =====
-- `topology` and `choose_distinct_cpu` of MemoryLatencyAnalyzer_linux/src/cpu_info.cpp. What sysfs,
-- `sysconf` and the processor say is a parameter.
use memory_latency_analyzer.Base.{
  ℕ, Bool, false, not, ◌&&◌, ◌||◌, Option, none, some, List, [], ◌∷◌, length, ltb, leb,
  if◌then◌else◌,
}
use memory_latency_analyzer.Base.Int.{ℤ, pos, ltb_ℤ, eq_ℤ, pos_part}
use memory_latency_analyzer.Base.Text.{Bytes}
use memory_latency_analyzer.Topology.CpuList.Info.{parse_cpu_list}
use memory_latency_analyzer.Topology.Nodes.{has_cpu}

-- The numbers in `physical_package_id` and `core_id` of a CPU; `none` where a file cannot be read.
pub record Sysfs : Type 0 where
  pub package_id : ℤ → Option ℤ
  pub core_id : ℤ → Option ℤ

abbrev pub or_else : Option ℤ → ℤ → ℤ
or_else none z = z
or_else (some y) z = y

unfoldable pub cpu_topology_pair : Sysfs → ℤ → ℤ × ℤ
cpu_topology_pair sys cpu = (or_else (sys.package_id cpu) (pos 0), or_else (sys.core_id cpu) cpu)

abbrev pub eq_pair : ℤ × ℤ → ℤ × ℤ → Bool
eq_pair (a, b) (c, d) = eq_ℤ a c && eq_ℤ b d

-- `std::set`: one copy of each element; only its size is used.
unfoldable pub has_pair : ℤ × ℤ → List (ℤ × ℤ) → Bool
has_pair p [] = false
has_pair p (q ∷ qs) = eq_pair q p || has_pair p qs

unfoldable pub insert_pair : ℤ × ℤ → List (ℤ × ℤ) → List (ℤ × ℤ)
unfolding has_pair
insert_pair p ps = if has_pair p ps then ps else p ∷ ps

unfoldable pub insert_package : ℤ → List ℤ → List ℤ
insert_package p ps = if has_cpu p ps then ps else p ∷ ps

-- The loop over the online CPUs: the sets of cores and of packages.
unfoldable pub collect : Sysfs → List ℤ → List (ℤ × ℤ) → List ℤ → List (ℤ × ℤ) × List ℤ
unfolding cpu_topology_pair insert_pair insert_package
collect sys [] cores packages = (cores, packages)
collect sys (cpu ∷ cpus) cores packages =
    let (package_id, core_id) = cpu_topology_pair sys cpu in
    collect sys cpus (insert_pair (package_id, core_id) cores) (insert_package package_id packages)

-- The sets for the text of the file of the online CPUs; `none` where it cannot be read.
unfoldable pub collect_online : Sysfs → Option Bytes → List (ℤ × ℤ) × List ℤ
unfolding collect
collect_online sys none = ([], [])
collect_online sys (some text) = collect sys (parse_cpu_list text) [] []

pub record TopologyInfo : Type 0 where
  pub logical_cpus : ℕ
  pub physical_cores : ℕ
  pub packages : ℕ
  pub smt_capable : Bool
  pub smt_active : Bool

-- `online` is what `sysconf` returns, `smt` the bit of `cpuid`, `list` the text of the file.
unfoldable pub topology : Sysfs → ℤ → Bool → Option Bytes → TopologyInfo
unfolding collect_online
topology sys online smt list =
    let logical = if ltb_ℤ (pos 0) online then pos_part online else 1 in
    let (cores, packages) = collect_online sys list in
    let physical = if leb (length cores) 0 then logical else length cores in
    record {
      logical_cpus = logical;
      physical_cores = physical;
      packages = if leb (length cores) 0 then 1 else length packages;
      smt_capable = smt;
      smt_active = ltb physical logical;
    }

-- The loop of `choose_distinct_cpu`; `none` where it ends without a return.
unfoldable pub find_other_core : Sysfs → ℤ → List ℤ → Option ℤ
find_other_core sys primary [] = none
find_other_core sys primary (cpu ∷ cpus) =
    let later = find_other_core sys primary cpus in
    if eq_ℤ cpu primary
    then later
    else if not (eq_pair (cpu_topology_pair sys cpu) (cpu_topology_pair sys primary))
    then some cpu
    else later

unfoldable pub choose_distinct_cpu : Sysfs → ℤ → List ℤ → ℤ
unfolding find_other_core
choose_distinct_cpu sys primary [] = primary
choose_distinct_cpu sys primary (first ∷ []) = primary
choose_distinct_cpu sys primary (first ∷ second ∷ rest) =
    or_else (find_other_core sys primary (first ∷ second ∷ rest)) second
