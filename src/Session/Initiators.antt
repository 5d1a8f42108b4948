-- ===== src/Session/Initiators.antt =====
-- The initiators of the NUMA matrix of MemoryLatencyAnalyzer_linux/src/main.cpp: which nodes have one, and at which CPU.
use memory_latency_analyzer.Base.{
  All, ◌≡◌, refl, inl, inr, Bool, true, false, ◌||◌, not, if◌then◌else◌, map, ap, Option, List, [],
  ◌∷◌, arith, Bool-cases,
}
use memory_latency_analyzer.Base.Int.{ℤ, pos, ltb_ℤ, eq_ℤ, ◌≤ℤ◌}
use memory_latency_analyzer.Topology.Nodes.{
  Entry, NodeInfo, has_cpu, node_for_cpu, first_allowed_cpu_for_node,
}
use memory_latency_analyzer.Topology.Homes.{first_allowed_cpu_for_node_exact}
use memory_latency_analyzer.Session.Matrix.{Initiator, initiators}

-- The CPU of an initiator is allowed and on its node.
abbrev pub IsPlaced : Option (List Entry) → List ℤ → Initiator → Type 0
IsPlaced root allowed_cpus i =
    (has_cpu i.cpu allowed_cpus ≡ true) × (node_for_cpu root i.cpu ≡ i.node)

pub initiators-IsPlaced :
    (root : Option (List Entry)) (allowed_cpus : List ℤ) (ns : List NodeInfo)
    → All (IsPlaced root allowed_cpus) (initiators root allowed_cpus ns)
unfolding initiators
initiators-IsPlaced root allowed_cpus [] = tt
initiators-IsPlaced root allowed_cpus (n ∷ ns) =
    let rest = initiators-IsPlaced root allowed_cpus ns in
    elim (first_allowed_cpu_for_node_exact root n.id allowed_cpus) [
      | inl found ↦
          elim (Bool-cases (ltb_ℤ (first_allowed_cpu_for_node root n.id allowed_cpus) (pos 0))) [
            | inl negative ↦ rw negative rest
            | inr e ↦ rw e (found, rest)
          ]
      | inr missing ↦ rw (missing.0) rest
    ]

-- Some CPU of the list is on the node.
abbrev pub is_inhabited : Option (List Entry) → ℤ → List ℤ → Bool
is_inhabited root node [] = false
is_inhabited root node (cpu ∷ cpus) =
    eq_ℤ (node_for_cpu root cpu) node || is_inhabited root node cpus

-- The nodes on which some allowed CPU is.
abbrev pub inhabited : Option (List Entry) → List ℤ → List NodeInfo → List ℤ
inhabited root allowed_cpus [] = []
inhabited root allowed_cpus (n ∷ ns) =
    let rest = inhabited root allowed_cpus ns in
    if is_inhabited root n.id allowed_cpus then n.id ∷ rest else rest

first_allowed-is_inhabited :
    (root : Option (List Entry)) (node : ℤ) (cpus : List ℤ)
    → All (λ cpu. pos 0 ≤ℤ cpu) cpus
    → not (ltb_ℤ (first_allowed_cpu_for_node root node cpus) (pos 0)) ≡ is_inhabited root node cpus
unfolding first_allowed_cpu_for_node
first_allowed-is_inhabited root node [] h = ground arith
first_allowed-is_inhabited root node (cpu ∷ cpus) h =
    elim (Bool-cases (eq_ℤ (node_for_cpu root cpu) node)) [
      | inl e ↦
          let high : ltb_ℤ cpu (pos 0) ≡ false = ground (arith, h.0) in
          rw (e, first_allowed_cpu_for_node, high) refl
      | inr e ↦ rw (e, first_allowed_cpu_for_node) (first_allowed-is_inhabited root node cpus h.1)
    ]

pub initiators-inhabited :
    (root : Option (List Entry)) (allowed_cpus : List ℤ)
    → All (λ cpu. pos 0 ≤ℤ cpu) allowed_cpus
    → (ns : List NodeInfo)
    → map (λ i. i.node) (initiators root allowed_cpus ns) ≡ inhabited root allowed_cpus ns
unfolding initiators
initiators-inhabited root allowed_cpus h [] = refl
initiators-inhabited root allowed_cpus h (n ∷ ns) =
    let rest = initiators-inhabited root allowed_cpus h ns in
    let same = first_allowed-is_inhabited root n.id allowed_cpus h in
    elim (Bool-cases (ltb_ℤ (first_allowed_cpu_for_node root n.id allowed_cpus) (pos 0))) [
      | inl none_found ↦
          let alone : is_inhabited root n.id allowed_cpus ≡ false = ground arith in
          rw (none_found, alone) rest
      | inr found ↦
          let there : is_inhabited root n.id allowed_cpus ≡ true = ground arith in
          rw (found, there) (ap (λ k. n.id ∷ k) rest)
    ]
