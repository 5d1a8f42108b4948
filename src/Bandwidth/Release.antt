-- ===== src/Bandwidth/Release.antt =====
-- Proofs about the buffers of MemoryLatencyAnalyzer_linux/src/bandwidth_measurer.cpp and their release.
use memory_latency_analyzer.Base.{
  ℕ, ◌<◌, ◌^◌, ◌≡◌, ◌∙◌, ◌⊎◌, refl, ap, Bool, true, false, ◌||◌, Option, none, some, length,
  length-append, List, [], ◌∷◌, ◌++◌, All, All-append, arith, Bool-cases, inl, inr, ◌==◌,
}
use memory_latency_analyzer.Base.Int.{ℤ, pos, negsuc, IsInt, leb_ℤ, ltb_ℤ}
use memory_latency_analyzer.Base.Text.{Bytes, codes, to_string}
use memory_latency_analyzer.Topology.CpuList.Print.{stoi-print_nat}
use memory_latency_analyzer.Topology.Nodes.{starts_with}
use memory_latency_analyzer.Bandwidth.Buffers.{
  heap, mapping, node_memory, Call, acquire, free_heap, unmap, free_on_node, Allocation, eq_bytes,
  prefix, large_size, got, allocate_buffer, release_buffer, Outcome, measure, is_null,
  invalid_argument, allocation_failed, clock_failed, measured, end_measure, run_measure,
}

eq_bytes→eq : (s t : Bytes) → eq_bytes s t ≡ true → s ≡ t
unfolding eq_bytes
eq_bytes→eq [] [] h = refl
eq_bytes→eq [] (c ∷ cs) h = absurd (ground arith)
eq_bytes→eq (d ∷ ds) [] h = absurd (ground arith)
eq_bytes→eq (d ∷ ds) (c ∷ cs) h =
    let same : d ≡ c = ground arith in
    let rest : ds ≡ cs = eq_bytes→eq ds cs (ground arith) in
    ap (λ k. k ∷ ds) same ∙ ap (λ k. c ∷ k) rest

-- The calls that give back what the calls of a list have acquired.
abbrev pub give_back : List Call → List Call
give_back [] = []
give_back (acquire heap n ∷ cs) = free_heap ∷ give_back cs
give_back (acquire mapping n ∷ cs) = unmap n ∷ give_back cs
give_back (acquire node_memory n ∷ cs) = free_on_node n ∷ give_back cs
give_back (free_heap ∷ cs) = give_back cs
give_back (unmap n ∷ cs) = give_back cs
give_back (free_on_node n ∷ cs) = give_back cs

-- The calls that acquire.
abbrev pub IsAcquire : Call → Type 0
IsAcquire (acquire source n) = Unit
IsAcquire free_heap = ⊥
IsAcquire (unmap n) = ⊥
IsAcquire (free_on_node n) = ⊥

abbrev IsGiven : Allocation × List Call → Type 0
IsGiven (a, calls) =
    (release_buffer a ≡ give_back calls)
    × All IsAcquire calls
    × (is_null a.ptr ≡ false → length calls ≡ 1)

got-heap : (gives : Bool) (n : ℕ) → IsGiven (got gives heap n (codes "malloc"))
unfolding release_buffer
got-heap true n = (refl, (tt, tt), λ e. refl)
got-heap false n = (refl, tt, λ e. absurd (ground arith))

got-large : (gives : Bool) (n : ℕ) → IsGiven (got gives mapping n (codes "LargePage"))
unfolding release_buffer
got-large true n = (refl, (tt, tt), λ e. refl)
got-large false n = (refl, tt, λ e. absurd (ground arith))

got-mapping : (gives : Bool) (n : ℕ) → IsGiven (got gives mapping n (codes "mmap"))
unfolding release_buffer
got-mapping true n = (refl, (tt, tt), λ e. refl)
got-mapping false n = (refl, tt, λ e. absurd (ground arith))

-- The number of a node is read back from the name of the method.
got-node :
    (gives : Bool) (size n : ℕ)
    → n < 2 ^ 31
    → IsGiven (got gives node_memory size (prefix ++ to_string (pos n)))
unfolding release_buffer to_string starts_with
got-node false size n h = (refl, tt, λ e. absurd (ground arith))
got-node true size n h =
    let positive : ltb_ℤ (pos n) (pos 0) ≡ false = ground arith in
    (rw (stoi-print_nat n h, positive) refl, (tt, tt), λ e. refl)

-- Whatever the method and the node are, two allocations with them are both refused, or what each gives is given
-- back by its release.
allocate-IsGiven :
    (available gives : Bool) (size : ℕ) (method : Bytes) (numa_node : ℤ)
    → IsInt numa_node
    → ((g : Bool) → allocate_buffer available g size method numa_node ≡ none)
      ⊎ ((g : Bool)
          → (x : Allocation × List Call) × (allocate_buffer available g size method numa_node
              ≡ some x)
            × IsGiven x)
unfolding allocate_buffer
allocate-IsGiven true gives size method (pos n) fits =
    let ok : ltb_ℤ (pos n) (pos 0) ≡ false = ground arith in
    inr (λ g.
      (got g node_memory size (prefix ++ to_string (pos n)), rw ok refl, got-node g size n fits.0))
allocate-IsGiven false gives size method (pos n) fits =
    let ok : ltb_ℤ (pos n) (pos 0) ≡ false = ground arith in
    inr (λ g. (
      (record { ptr = none; size = size; method = method }, []),
      rw ok refl,
      (unfold release_buffer in refl, tt, λ e. absurd (ground arith)),
    ))
allocate-IsGiven available gives size method (negsuc n) fits =
    let ok : ltb_ℤ (negsuc n) (pos 0) ≡ true = ground arith in
    elim (Bool-cases (eq_bytes method (codes "malloc"))) [
      | inl e ↦ inr (λ g. (
        got g heap size method,
        rw (ok, e) refl,
        rw (eq_bytes→eq method (codes "malloc") e) (got-heap g size),
      ))
      | inr e ↦ elim (Bool-cases (eq_bytes method (codes "LargePage"))) [
        | inl q ↦ inr (λ g. (
          got g mapping (large_size size) method,
          rw (ok, e, q) refl,
          rw (eq_bytes→eq method (codes "LargePage") q) (got-large g (large_size size)),
        ))
        | inr q ↦ elim (Bool-cases (eq_bytes method (codes "mmap"))) [
          | inl z ↦ inr (λ g. (
            got g mapping size method,
            rw (ok, e, q, z) refl,
            rw (eq_bytes→eq method (codes "mmap") z) (got-mapping g size),
          ))
          | inr z ↦ inl (λ g. rw (ok, e, q, z) refl)
        ]
      ]
    ]

give_back-append : (c d : List Call) → give_back (c ++ d) ≡ give_back c ++ give_back d
give_back-append [] d = refl
give_back-append (acquire heap n ∷ cs) d = ap (λ k. free_heap ∷ k) (give_back-append cs d)
give_back-append (acquire mapping n ∷ cs) d = ap (λ k. unmap n ∷ k) (give_back-append cs d)
give_back-append (acquire node_memory n ∷ cs) d =
    ap (λ k. free_on_node n ∷ k) (give_back-append cs d)
give_back-append (free_heap ∷ cs) d = give_back-append cs d
give_back-append (unmap n ∷ cs) d = give_back-append cs d
give_back-append (free_on_node n ∷ cs) d = give_back-append cs d

-- Some acquisitions, and behind them what gives each of them back.
abbrev pub IsReleased : List Call → Type 0
IsReleased calls =
    (acquired : List Call) × All IsAcquire acquired × (calls ≡ acquired ++ give_back acquired)

-- Both buffers are still held: two acquisitions, and nothing behind them.
abbrev pub IsHeld : List Call → Type 0
IsHeld calls = All IsAcquire calls × (length calls ≡ 2)

-- What the calls of each end are.
abbrev pub IsAccounted : Outcome × List Call → Type 0
IsAccounted (invalid_argument, calls) = IsReleased calls
IsAccounted (allocation_failed, calls) = IsReleased calls
IsAccounted (clock_failed, calls) = IsHeld calls
IsAccounted (measured name size times, calls) = IsReleased calls

both-IsReleased :
    (x y : Allocation × List Call)
    → IsGiven x
    → IsGiven y
    → IsReleased ((x.1 ++ y.1) ++ (release_buffer x.0 ++ release_buffer y.0))
both-IsReleased (a, c) (b, d) h k =
    (c ++ d, All-append IsAcquire c d h.1 k.1, rw (h.0, k.0, give_back-append c d) refl)

end_measure-IsAccounted :
    (name : Bytes) (size : ℕ) (acquired released : List Call) (times : Option (List (ℕ × ℕ × ℕ)))
    → IsReleased (acquired ++ released)
    → IsHeld acquired
    → IsAccounted (end_measure name size acquired released times)
end_measure-IsAccounted name size acquired released none h k = k
end_measure-IsAccounted name size acquired released (some times) h k = h

run_measure-IsAccounted :
    (method : Bytes) (node : ℤ) (size repeats : ℕ) (times : ℕ → Option (ℕ × ℕ × ℕ))
    (x y : Allocation × List Call)
    → IsGiven x
    → IsGiven y
    → IsAccounted (run_measure method node size repeats times (some x) (some y))
run_measure-IsAccounted method node size repeats times x y h k =
    elim (Bool-cases (is_null x.0.ptr || is_null y.0.ptr)) [
      | inl missing ↦ rw missing (both-IsReleased x y h k)
      | inr there ↦
          let one : length x.1 ≡ 1 = h.2 (ground arith) in
          let other : length y.1 ≡ 1 = k.2 (ground arith) in
          rw there (
            end_measure-IsAccounted _ size (x.1 ++ y.1) _ _ (both-IsReleased x y h k)
              (All-append IsAcquire x.1 y.1 h.1 k.1, length-append x.1 y.1 ∙ omega arith))
    ]

-- Whatever the allocators and the clock answer, `measure` gives back each buffer that it has got, to the allocator
-- it came from and with the size that was asked of it: also the buffer that it has got where the other one fails,
-- large pages with their rounded size, and node memory by the name of the method alone, which has the node's
-- number. The one end without this is the exception of the clock between the repeats: it leaves both buffers held.
pub measure-IsAccounted :
    (available gives_src gives_dst : Bool)
    → (times : ℕ → Option (ℕ × ℕ × ℕ)) → (size : ℕ) (method : Bytes) (repeats numa_node : ℤ)
    → IsInt numa_node
    → IsAccounted (measure available gives_src gives_dst times size method repeats numa_node)
unfolding measure
measure-IsAccounted available gives_src gives_dst times size method repeats numa_node fits =
    elim (Bool-cases (size == 0 || leb_ℤ repeats (pos 0))) [
      | inl bad ↦ rw bad ([], tt, refl)
      | inr good ↦ elim (allocate-IsGiven available gives_src size method numa_node fits) [
        | inl refused ↦ rw (good, refused gives_src) ([], tt, refl)
        | inr given ↦
            let (x, e, h) = given gives_src in
            let (y, q, k) = given gives_dst in
            rw (good, e, q) (run_measure-IsAccounted method numa_node size _ times x y h k)
      ]
    ]
