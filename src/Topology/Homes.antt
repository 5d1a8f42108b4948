-- ===== src/Topology/Homes.antt =====
-- What `NumaSupport` (MemoryLatencyAnalyzer_linux/src/numa_support.cpp) finds on a system whose sysfs is
-- printed the way Linux does it.
use memory_latency_analyzer.Base.{
  ℕ, suc, ◌+◌, ◌<◌, ◌^◌, ◌≡◌, ◌∙◌, ◌⊎◌, refl, ap, Bool, true, false, ◌||◌, Option, some, List, [],
  ◌∷◌, ◌++◌, map, length, leb, if◌then◌else◌, arith, Bool-cases, inl, inr, All,
}
use memory_latency_analyzer.Base.Int.{ℤ, pos, negsuc, ltb_ℤ, eq_ℤ, eq_ℤ→eq, eq_ℤ_self}
use memory_latency_analyzer.Base.Text.{codes, print_nat}
use memory_latency_analyzer.Topology.CpuList.Print.{
  Span, print_spans, spans_cpus, IsSpan, parse_cpu_list-print_spans, stoi-print_nat, print_nat-cons,
}
use memory_latency_analyzer.Topology.Nodes.{
  Entry, NodeInfo, starts_with, parse_node_id, read_nodes, insert_node, sort_nodes, nodes, has_cpu,
  find_node, node_for_cpu, first_allowed_cpu_for_node,
}

-- A node as the kernel knows it: its number and the ranges of its CPUs.
abbrev pub Host : Type 0
Host = ℕ × List Span

abbrev pub IsHost : Host → Type 0
IsHost (n, spans) = (n < 2 ^ 31) × All IsSpan spans

abbrev pub host_entry : Host → Entry
host_entry (n, spans) = record {
  name = codes "node" ++ print_nat n;
  is_directory = true;
  cpulist = print_spans spans;
}

abbrev pub host_node : Host → NodeInfo
host_node (n, spans) = record { id = pos n; cpus = spans_cpus spans }

-- The name of a node's directory is read back as its number.
pub parse_node_id-print_nat :
    (n : ℕ) → n < 2 ^ 31 → parse_node_id (codes "node" ++ print_nat n) ≡ some (pos n)
unfolding parse_node_id starts_with
parse_node_id-print_nat n h =
    let (c, t, e) = print_nat-cons n in
    let long : length (print_nat n) ≡ suc (length t) = ap length e in
    let enough : leb (4 + length (print_nat n)) 4 ≡ false = ground arith in
    rw (stoi-print_nat n h) (ground arith)

read_nodes-host :
    (hosts : List Host) → All IsHost hosts → read_nodes (map host_entry hosts) ≡ map host_node hosts
unfolding read_nodes
read_nodes-host [] h = refl
read_nodes-host ((n, spans) ∷ hosts) h =
    rw
      (
        parse_node_id-print_nat n h.0.0,
        parse_cpu_list-print_spans spans h.0.1,
        read_nodes-host hosts h.1,
      )
      refl

-- Every node that has the CPU has this id.
abbrev pub IsOnly : ℤ → ℤ → NodeInfo → Type 0
IsOnly cpu id n = (has_cpu cpu n.cpus ≡ false) ⊎ (n.id ≡ id)

abbrev pub some_has : ℤ → List NodeInfo → Bool
some_has cpu [] = false
some_has cpu (n ∷ ns) = has_cpu cpu n.cpus || some_has cpu ns

insert_node-IsOnly :
    (cpu id : ℤ) (n : NodeInfo) (ns : List NodeInfo)
    → IsOnly cpu id n
    → All (IsOnly cpu id) ns
    → All (IsOnly cpu id) (insert_node n ns)
unfolding insert_node
insert_node-IsOnly cpu id n [] h hs = (h, tt)
insert_node-IsOnly cpu id n (m ∷ ms) h hs = elim (Bool-cases (ltb_ℤ m.id n.id)) [
  | inl e ↦ rw (e, All) (hs.0, insert_node-IsOnly cpu id n ms h hs.1)
  | inr e ↦ rw (e, All) (h, hs)
]

insert_node-some_has :
    (cpu : ℤ) (n : NodeInfo) (ns : List NodeInfo)
    → some_has cpu (insert_node n ns) ≡ has_cpu cpu n.cpus || some_has cpu ns
unfolding insert_node
insert_node-some_has cpu n [] = refl
insert_node-some_has cpu n (m ∷ ms) = ground (arith, insert_node-some_has cpu n ms)

find_node-IsOnly :
    (cpu id : ℤ) (ns : List NodeInfo)
    → All (IsOnly cpu id) ns
    → some_has cpu ns ≡ true
    → find_node cpu ns ≡ id
unfolding find_node
find_node-IsOnly cpu id [] hs h = absurd (ground arith)
find_node-IsOnly cpu id (n ∷ ns) hs h = elim (Bool-cases (has_cpu cpu n.cpus)) [
  | inl e ↦ elim (hs.0) [ inl q ↦ absurd (ground arith) | inr q ↦ rw (find_node, e) q ]
  | inr e ↦ rw (find_node, e) (find_node-IsOnly cpu id ns hs.1 (rw e at h))
]

sort_nodes-IsOnly :
    (cpu id : ℤ) (ns : List NodeInfo) → All (IsOnly cpu id) ns → All (IsOnly cpu id) (sort_nodes ns)
unfolding sort_nodes
sort_nodes-IsOnly cpu id [] hs = tt
sort_nodes-IsOnly cpu id (n ∷ ns) hs =
    insert_node-IsOnly cpu id n (sort_nodes ns) hs.0 (sort_nodes-IsOnly cpu id ns hs.1)

sort_nodes-some_has :
    (cpu : ℤ) (ns : List NodeInfo) → some_has cpu (sort_nodes ns) ≡ some_has cpu ns
unfolding sort_nodes
sort_nodes-some_has cpu [] = refl
sort_nodes-some_has cpu (n ∷ ns) =
    insert_node-some_has cpu n (sort_nodes ns)
    ∙ ap (λ b. has_cpu cpu n.cpus || b) (sort_nodes-some_has cpu ns)

-- On a system whose nodes are printed the way Linux prints them, with CPUs below 2147483647 and in any order of the
-- directory, the node of a CPU is the one whose ranges have it, where only nodes of this number have it.
pub node_for_cpu-host :
    (hosts : List Host) (cpu n : ℕ)
    → All IsHost hosts
    → All (IsOnly (pos cpu) (pos n)) (map host_node hosts)
    → some_has (pos cpu) (map host_node hosts) ≡ true
    → node_for_cpu (some (map host_entry hosts)) (pos cpu) ≡ pos n
unfolding node_for_cpu nodes
node_for_cpu-host hosts cpu n good only h =
    let there = sort_nodes-some_has (pos cpu) (map host_node hosts) ∙ h in
    let found =
      find_node-IsOnly (pos cpu) (pos n) (sort_nodes (map host_node hosts))
        (sort_nodes-IsOnly (pos cpu) (pos n) (map host_node hosts) only) there in
    let start : ltb_ℤ (pos cpu) (pos 0) ≡ false = ground arith in
    rw (read_nodes-host hosts good, start) found

abbrev pub IsFirst : Option (List Entry) → ℤ → List ℤ → ℤ → Type 0
IsFirst root node cpus r =
    ((has_cpu r cpus ≡ true) × (node_for_cpu root r ≡ node))
    ⊎ ((r ≡ negsuc 0) × All (λ cpu. eq_ℤ (node_for_cpu root cpu) node ≡ false) cpus)

has_cpu-later : (r cpu : ℤ) (cpus : List ℤ) → has_cpu r cpus ≡ true → has_cpu r (cpu ∷ cpus) ≡ true
unfolding has_cpu
has_cpu-later r cpu cpus h = ground (arith, h)

has_cpu_self : (cpu : ℤ) (cpus : List ℤ) → has_cpu cpu (cpu ∷ cpus) ≡ true
unfolding has_cpu
has_cpu_self cpu cpus = ground (arith, eq_ℤ_self cpu)

-- The CPU that is chosen for a node is an allowed one on this node, or it is -1 and no allowed CPU is on this
-- node.
pub first_allowed_cpu_for_node_exact :
    (root : Option (List Entry)) (node : ℤ) (cpus : List ℤ)
    → IsFirst root node cpus (first_allowed_cpu_for_node root node cpus)
first_allowed_cpu_for_node_exact root node [] = unfold first_allowed_cpu_for_node in inr (refl, tt)
first_allowed_cpu_for_node_exact root node (cpu ∷ cpus) =
    elim (Bool-cases (eq_ℤ (node_for_cpu root cpu) node)) [
      | inl e ↦
          let r : first_allowed_cpu_for_node root node (cpu ∷ cpus) ≡ cpu =
            unfold first_allowed_cpu_for_node in
            ap (λ b. if b then cpu else first_allowed_cpu_for_node root node cpus) e in
          rw r (inl (has_cpu_self cpu cpus, eq_ℤ→eq (node_for_cpu root cpu) node e))
      | inr e ↦
          let r : first_allowed_cpu_for_node root node (cpu ∷ cpus)
              ≡ first_allowed_cpu_for_node root node cpus =
            unfold first_allowed_cpu_for_node in
            ap (λ b. if b then cpu else first_allowed_cpu_for_node root node cpus) e in
          rw r (elim (first_allowed_cpu_for_node_exact root node cpus) [
            | inl (a, b) ↦
                inl (has_cpu-later (first_allowed_cpu_for_node root node cpus) cpu cpus a, b)
            | inr (a, b) ↦ inr (a, (e, b))
          ])
    ]
