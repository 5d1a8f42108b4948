-- ===== src/Topology/Nodes.antt =====
-- NUMA nodes (MemoryLatencyAnalyzer_linux/src/numa_support.cpp) and `first_allowed_cpu_for_node`
-- (MemoryLatencyAnalyzer_linux/src/main.cpp). What sysfs holds is a parameter.
use memory_latency_analyzer.Base.{
  ℕ, suc, Bool, true, false, not, ◌&&◌, ◌||◌, Option, none, some, List, [], ◌∷◌, drop, get_or,
  length, ltb, leb, if◌then◌else◌,
}
use memory_latency_analyzer.Base.Int.{ℤ, pos, negsuc, ltb_ℤ, eq_ℤ}
use memory_latency_analyzer.Base.Text.{Bytes, codes, stoi}
use memory_latency_analyzer.Topology.CpuList.Numa.{parse_cpu_list}

-- An entry of the directory: its name, whether it is a directory, and the first line of its `cpulist`, empty
-- where the file cannot be read.
pub record Entry : Type 0 where
  pub name : Bytes
  pub is_directory : Bool
  pub cpulist : Bytes

pub record NodeInfo : Type 0 where
  pub id : ℤ
  pub cpus : List ℤ

unfoldable pub starts_with : Bytes → Bytes → Bool
starts_with s [] = true
starts_with [] (c ∷ prefix) = false
starts_with (d ∷ s) (c ∷ prefix) = leb c d && leb d c && starts_with s prefix

unfoldable pub parse_node_id : Bytes → Option ℤ
unfolding starts_with
parse_node_id name =
    if not (starts_with name (codes "node")) || leb (length name) 4
    then none
    else elim (stoi (drop 4 name)) [
      | none ↦ none
      | some id ↦ if ltb_ℤ id (pos 0) then none else some id
    ]

-- The nodes of the entries, in the order of the directory.
unfoldable pub read_nodes : List Entry → List NodeInfo
unfolding parse_node_id
read_nodes [] = []
read_nodes (e ∷ es) =
    let rest = read_nodes es in
    if not e.is_directory then rest else elim (parse_node_id e.name) [
      | none ↦ rest
      | some id ↦ record { id = id; cpus = parse_cpu_list e.cpulist } ∷ rest
    ]

-- `std::sort` by the id.
unfoldable pub insert_node : NodeInfo → List NodeInfo → List NodeInfo
insert_node n [] = n ∷ []
insert_node n (m ∷ ms) = if ltb_ℤ m.id n.id then m ∷ insert_node n ms else n ∷ m ∷ ms

unfoldable pub sort_nodes : List NodeInfo → List NodeInfo
unfolding insert_node
sort_nodes [] = []
sort_nodes (n ∷ ns) = insert_node n (sort_nodes ns)

-- `none` is a root that is no directory.
unfoldable pub nodes : Option (List Entry) → List NodeInfo
unfolding read_nodes sort_nodes
nodes none = []
nodes (some entries) = sort_nodes (read_nodes entries)

-- `std::find` found it.
unfoldable pub has_cpu : ℤ → List ℤ → Bool
has_cpu cpu [] = false
has_cpu cpu (c ∷ cs) = eq_ℤ c cpu || has_cpu cpu cs

unfoldable pub find_node : ℤ → List NodeInfo → ℤ
unfolding has_cpu
find_node cpu [] = negsuc 0
find_node cpu (n ∷ ns) = let later = find_node cpu ns in if has_cpu cpu n.cpus then n.id else later

unfoldable pub node_for_cpu : Option (List Entry) → ℤ → ℤ
unfolding nodes find_node
node_for_cpu root cpu = if ltb_ℤ cpu (pos 0) then negsuc 0 else find_node cpu (nodes root)

-- `std::find_if` by the id, as an index.
unfoldable pub index_of : ℤ → List NodeInfo → Option ℕ
index_of id [] = none
index_of id (n ∷ ns) =
    let later = index_of id ns in
    if eq_ℤ n.id id then some 0 else elim later [ none ↦ none | some i ↦ some (suc i) ]

-- `values` are the numbers in the `distance` file of the first node; `none` is a file that cannot be read.
unfoldable pub distance : Option (List Entry) → Option (List ℤ) → ℤ → ℤ → ℤ
unfolding nodes index_of
distance root values from_node to_node =
    if ltb_ℤ from_node (pos 0) || ltb_ℤ to_node (pos 0) then negsuc 0 else elim values [
      | none ↦ negsuc 0
      | some values ↦ elim (index_of to_node (nodes root)) [
        | none ↦ negsuc 0
        | some index ↦ if ltb index (length values) then get_or values index (pos 0) else negsuc 0
      ]
    ]

unfoldable pub first_allowed_cpu_for_node : Option (List Entry) → ℤ → List ℤ → ℤ
unfolding node_for_cpu
first_allowed_cpu_for_node root node [] = negsuc 0
first_allowed_cpu_for_node root node (cpu ∷ cpus) =
    let later = first_allowed_cpu_for_node root node cpus in
    if eq_ℤ (node_for_cpu root cpu) node then cpu else later
