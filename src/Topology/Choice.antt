-- ===== src/Topology/Choice.antt =====
-- What `choose_distinct_cpu` and `topology` of MemoryLatencyAnalyzer_linux/src/cpu_info.cpp give.
use memory_latency_analyzer.Base.{
  ◌+◌, ◌≤◌, ◌<◌, ◌≡◌, ◌⊎◌, refl, Bool, true, false, Option, none, some, List, [], ◌∷◌, length, leb,
  arith, Bool-cases, inl, inr, All, ◌↔◌,
}
use memory_latency_analyzer.Base.Int.{ℤ, eq_ℤ, eq_ℤ→eq, eq_ℤ_self}
use memory_latency_analyzer.Base.Text.{Bytes}
use memory_latency_analyzer.Topology.CpuList.Info.{parse_cpu_list}
use memory_latency_analyzer.Topology.Nodes.{has_cpu}
use memory_latency_analyzer.Topology.Cores.{
  Sysfs, cpu_topology_pair, eq_pair, has_pair, insert_pair, insert_package, collect, topology,
  find_other_core, choose_distinct_cpu, collect_online,
}

-- An allowed CPU on another core than the primary one.
abbrev pub IsOther : Sysfs → ℤ → ℤ → Type 0
IsOther sys primary cpu =
    (eq_ℤ cpu primary ≡ false)
    × (eq_pair (cpu_topology_pair sys cpu) (cpu_topology_pair sys primary) ≡ false)

abbrev pub IsSame : Sysfs → ℤ → ℤ → Type 0
IsSame sys primary cpu =
    (eq_ℤ cpu primary ≡ true)
    ⊎ (eq_pair (cpu_topology_pair sys cpu) (cpu_topology_pair sys primary) ≡ true)

find_other_core_lem :
    (sys : Sysfs) (primary : ℤ) (cpus : List ℤ)
    → ((cpu : ℤ) × (find_other_core sys primary cpus ≡ some cpu)
        × (has_cpu cpu cpus ≡ true)
        × IsOther sys primary cpu)
      ⊎ ((find_other_core sys primary cpus ≡ none) × All (IsSame sys primary) cpus)
unfolding find_other_core has_cpu
find_other_core_lem sys primary [] = inr (refl, tt)
find_other_core_lem sys primary (cpu ∷ cpus) = elim (Bool-cases (eq_ℤ cpu primary)) [
  | inl e ↦ elim (find_other_core_lem sys primary cpus) [
    | inl (c, a, b, d) ↦ inl (c, rw (find_other_core, e) a, ground (arith, b), d)
    | inr (a, b) ↦ inr (rw (find_other_core, e) a, (inl e, b))
  ]
  | inr e ↦
      elim (Bool-cases (eq_pair (cpu_topology_pair sys cpu) (cpu_topology_pair sys primary))) [
        | inl q ↦ elim (find_other_core_lem sys primary cpus) [
          | inl (c, a, b, d) ↦ inl (c, rw (find_other_core, e, q) a, ground (arith, b), d)
          | inr (a, b) ↦ inr (rw (find_other_core, e, q) a, (inr q, b))
        ]
        | inr q ↦ inl (cpu, rw (find_other_core, e, q) refl, rw (eq_ℤ_self cpu) refl, (e, q))
      ]
]

-- With two allowed CPUs or more, the second of which is not the primary one, the chosen CPU is allowed and is
-- not the primary one; and it is on another core, or every allowed CPU is the primary one or on its core.
pub choose_distinct_cpu_exact :
    (sys : Sysfs) (primary first second : ℤ) (rest : List ℤ)
    → eq_ℤ second primary ≡ false
    → let allowed = first ∷ second ∷ rest in
      let chosen = choose_distinct_cpu sys primary allowed in
      (has_cpu chosen allowed ≡ true)
      × (eq_ℤ chosen primary ≡ false)
      × (IsOther sys primary chosen ⊎ All (IsSame sys primary) allowed)
unfolding choose_distinct_cpu
choose_distinct_cpu_exact sys primary first second rest h =
    elim (find_other_core_lem sys primary (first ∷ second ∷ rest)) [
      | inl (c, a, b, d) ↦ rw (choose_distinct_cpu, a) (b, d.0, inl d)
      | inr (a, b) ↦
          let there : has_cpu second (first ∷ second ∷ rest) ≡ true =
            unfold has_cpu in ground (arith, eq_ℤ_self second) in
          rw (choose_distinct_cpu, a) (there, h, inr b)
    ]

-- What the two sets have in common: the package of each core is there, and no set is larger than its source.
record IsCollected (cores : List (ℤ × ℤ)) (packages : List ℤ) : Type 0 where
  covered : All (λ core. has_cpu core.0 packages ≡ true) cores
  fewer : length packages ≤ length cores

has_pair-covered :
    (p : ℤ × ℤ) (cores : List (ℤ × ℤ)) (packages : List ℤ)
    → All (λ core. has_cpu core.0 packages ≡ true) cores
    → has_pair p cores ≡ true
    → has_cpu p.0 packages ≡ true
unfolding has_pair
has_pair-covered p [] packages h e = absurd (ground arith)
has_pair-covered p (q ∷ qs) packages h e = elim (Bool-cases (eq_pair q p)) [
  | inl same ↦ let first : q.0 ≡ p.0 = eq_ℤ→eq q.0 p.0 (ground arith) in rw first at h.0
  | inr other ↦ has_pair-covered p qs packages h.1 (rw other at e)
]

covered-insert :
    (z : ℤ) (cores : List (ℤ × ℤ)) (packages : List ℤ)
    → All (λ core. has_cpu core.0 packages ≡ true) cores
    → All (λ core. has_cpu core.0 (z ∷ packages) ≡ true) cores
unfolding has_cpu
covered-insert z [] packages h = tt
covered-insert z (core ∷ cores) packages h =
    (ground (arith, h.0), covered-insert z cores packages h.1)

insert-IsCollected :
    (p : ℤ × ℤ) (cores : List (ℤ × ℤ)) (packages : List ℤ)
    → IsCollected cores packages
    → IsCollected (insert_pair p cores) (insert_package p.0 packages)
insert-IsCollected p cores packages r = elim (Bool-cases (has_pair p cores)) [
  | inl e ↦
      let known = has_pair-covered p cores packages r.covered e in
      let a : insert_pair p cores ≡ cores = unfold insert_pair in rw e refl in
      let b : insert_package p.0 packages ≡ packages = unfold insert_package in rw known refl in
      rw (a, b) r
  | inr e ↦
      let a : insert_pair p cores ≡ p ∷ cores = unfold insert_pair in rw e refl in
      rw a (elim (Bool-cases (has_cpu p.0 packages)) [
        | inl known ↦
            let b : insert_package p.0 packages ≡ packages =
              unfold insert_package in rw known refl in
            let fewer : length packages ≤ length cores = r.fewer in
            rw b (record { covered = (known, r.covered); fewer = omega arith })
        | inr unknown ↦
            let b : insert_package p.0 packages ≡ p.0 ∷ packages =
              unfold insert_package in rw unknown refl in
            let here : has_cpu p.0 (p.0 ∷ packages) ≡ true =
              unfold has_cpu in ground (arith, eq_ℤ_self p.0) in
            let fewer : length packages ≤ length cores = r.fewer in
            rw b (record {
              covered = (here, covered-insert p.0 cores packages r.covered);
              fewer = omega arith;
            })
      ])
]

length-insert_pair :
    (p : ℤ × ℤ) (cores : List (ℤ × ℤ)) → length cores ≤ length (insert_pair p cores)
unfolding insert_pair
length-insert_pair p cores = ground arith

length-insert_pair_le :
    (p : ℤ × ℤ) (cores : List (ℤ × ℤ)) → length (insert_pair p cores) ≤ length cores + 1
unfolding insert_pair
length-insert_pair_le p cores = ground arith

collect-IsCollected :
    (sys : Sysfs) (cpus : List ℤ) (cores : List (ℤ × ℤ)) (packages : List ℤ)
    → IsCollected cores packages
    → let (cores', packages') = collect sys cpus cores packages in
      IsCollected cores' packages' × (length cores' ≤ length cores + length cpus)
unfolding collect
collect-IsCollected sys [] cores packages r = (r, omega arith)
collect-IsCollected sys (cpu ∷ cpus) cores packages r =
    let p = cpu_topology_pair sys cpu in
    let (a, b) =
      collect-IsCollected sys cpus (insert_pair p cores) (insert_package p.0 packages)
        (insert-IsCollected p cores packages r) in
    (a, omega (arith, length-insert_pair_le p cores))

nonempty-packages :
    (cores : List (ℤ × ℤ)) (packages : List ℤ)
    → IsCollected cores packages
    → 0 < length cores
    → 0 < length packages
nonempty-packages [] packages r h = absurd (omega arith)
nonempty-packages (core ∷ cores) [] r h = absurd (unfold has_cpu in ground (arith, r.covered.0))
nonempty-packages (core ∷ cores) (p ∷ ps) r h = omega arith

collect_online-IsCollected :
    (sys : Sysfs) (list : Option Bytes)
    → IsCollected (collect_online sys list).0 (collect_online sys list).1
unfolding collect_online
collect_online-IsCollected sys none = record { covered = tt; fewer = omega arith }
collect_online-IsCollected sys (some text) =
    (collect-IsCollected sys (parse_cpu_list text) [] []
      (record { covered = tt; fewer = omega arith })).0

-- Whatever sysfs and the processor say, the topology has at least one package, at least as many physical cores
-- as packages, and at least one logical CPU; and SMT is active exactly where there are more logical CPUs than
-- physical cores.
pub topology_bounds :
    (sys : Sysfs) (online : ℤ) (smt : Bool) (list : Option Bytes)
    → let t = topology sys online smt list in
      (1 ≤ t.packages)
      × (t.packages ≤ t.physical_cores)
      × (1 ≤ t.logical_cpus)
      × ((t.smt_active ≡ true) ↔ (t.physical_cores < t.logical_cpus))
unfolding topology
topology_bounds sys online smt list =
    let r = collect_online-IsCollected sys list in
    let fewer : length (collect_online sys list).1 ≤ length (collect_online sys list).0 = r.fewer in
    let some_packages =
      nonempty-packages (collect_online sys list).0 (collect_online sys list).1 r in
    elim (Bool-cases (leb (length (collect_online sys list).0) 0)) [
      | inl e ↦ rw e (omega arith, ground arith, ground arith, ground arith)
      | inr e ↦
          let one : 0 < length (collect_online sys list).1 = some_packages (ground arith) in
          rw e (omega arith, omega arith, ground arith, ground arith)
    ]
