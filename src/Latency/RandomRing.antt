-- ===== src/Latency/RandomRing.antt =====
-- Proofs about the ring that `build_random_ring` of MemoryLatencyAnalyzer_linux/src/latency_measurer.cpp links.
use native.Mathlib.Nat.{mod-add-mod, mod-lt, mod-eq_of_lt, mod-eq-sub-mod}
use memory_latency_analyzer.Base.{
  ℕ, zero, suc, ◌+◌, ◌%◌, ◌≤◌, ◌<◌, ◌≡◌, ◌≢◌, ◌∙◌, refl, sym, ap, List, length, get_or, set,
  length-set, get_or-set_self, get_or-set_ne, arith, ◌==◌, Bool-cases, inl, inr, ◌⊎◌, ltb, ◌-◌,
}
use memory_latency_analyzer.Latency.Rings.{
  next_of, link_from, count_from, build_random_ring, chase_path, flush_path,
}

-- What `std::shuffle` leaves of `0`, …, `n - 1`: the same numbers in some order.
pub record IsOrder (n : ℕ) (order : List ℕ) : Type 0 where
  pub order_length : length order ≡ n
  pub order_lt : (i : ℕ) → i < n → get_or order i 0 < n
  pub order_ne : (i j : ℕ) → i < j → j < n → get_or order i 0 ≢ get_or order j 0

-- What holds when the nodes at the positions below `i` are linked.
record IsLinked (n : ℕ) (order : List ℕ) (i : ℕ) (nodes : List ℕ) : Type 0 where
  nodes_length : length nodes ≡ n
  links : (j : ℕ) → j < i → next_of nodes (get_or order j 0) ≡ get_or order ((j + 1) % n) 0

link-IsLinked :
    (n : ℕ) (order : List ℕ) (i : ℕ) (nodes : List ℕ)
    → IsOrder n order
    → i < n
    → IsLinked n order i nodes
    → IsLinked n order (i + 1) (set nodes (get_or order i 0) (get_or order ((i + 1) % n) 0))
link-IsLinked n order i nodes p h r = record {
  nodes_length =
      length-set nodes (get_or order i 0) (get_or order ((i + 1) % n) 0) ∙ r.nodes_length;
  links = λ j less. elim (Bool-cases (j == i)) [
    | inl e ↦
        let same : j ≡ i = ground arith in
        let room : get_or order i 0 < length nodes = rw r.nodes_length (p.order_lt i h) in
        rw same (get_or-set_self nodes (get_or order i 0) (get_or order ((i + 1) % n) 0) 0 room)
    | inr e ↦
        let before : j < i = ground arith in
        get_or-set_ne nodes (get_or order i 0) (get_or order j 0) (get_or order ((i + 1) % n) 0) 0
          (λ q. p.order_ne j i before h (sym q))
        ∙ r.links j before
  ];
}

link_from-IsLinked :
    (n : ℕ) (order : List ℕ) (left i k : ℕ) (nodes : List ℕ)
    → IsOrder n order
    → i + left ≡ k
    → k ≤ n
    → IsLinked n order i nodes
    → IsLinked n order k (link_from n order left i nodes)
unfolding link_from
link_from-IsLinked n order zero i k nodes p e most r =
    let same : i ≡ k = omega arith in rw (← same) r
link_from-IsLinked n order (suc left) i k nodes p e most r =
    link_from-IsLinked n order left (i + 1) k
      (set nodes (get_or order i 0) (get_or order ((i + 1) % n) 0)) p (omega arith) most
      (link-IsLinked n order i nodes p (omega arith) r)

-- The nodes behind a position, where each node links to the next position's.
path_lem :
    (n : ℕ) (order nodes : List ℕ) (start i steps : ℕ)
    → 0 < n
    → length order ≡ n
    → IsLinked n order n nodes
    → chase_path nodes (get_or order ((start + i) % n) 0) steps ≡ flush_path order start steps i
unfolding chase_path flush_path
path_lem n order nodes start i zero some_nodes len r = refl
path_lem n order nodes start i (suc steps) some_nodes len r =
    let here : (start + i) % n < n = mod-lt (start + i) some_nodes in
    let turn : ((start + i) % n + 1) % n ≡ (start + (i + 1)) % n =
      mod-add-mod (start + i) n 1 ∙ ap (λ k. k % n) (omega arith) in
    let link : next_of nodes (get_or order ((start + i) % n) 0)
        ≡ get_or order ((start + (i + 1)) % n) 0 =
      r.links ((start + i) % n) here ∙ ap (λ k. get_or order k 0) turn in
    rw (len, link, path_lem n order nodes start (i + 1) steps some_nodes len r)

flush_path_get :
    (order : List ℕ) (start steps i k : ℕ)
    → k < steps
    → get_or (flush_path order start steps i) k 0
      ≡ get_or order ((start + (i + k)) % length order) 0
unfolding flush_path
flush_path_get order start zero i k h = absurd (omega arith)
flush_path_get order start (suc steps) i zero h =
    ap (λ p. get_or order (p % length order) 0) (omega arith)
flush_path_get order start (suc steps) i (suc k) h =
    flush_path_get order start steps (i + 1) k (omega arith)
    ∙ ap (λ p. get_or order (p % length order) 0) (omega arith)

flush_path_first :
    (order : List ℕ) (start steps k : ℕ)
    → k < steps
    → get_or (flush_path order start steps 0) k 0 ≡ get_or order ((start + k) % length order) 0
flush_path_first order start steps k h =
    flush_path_get order start steps 0 k h
    ∙ ap (λ p. get_or order (p % length order) 0) (omega arith)

-- A position moved on by less than `n`.
mod_cases : (n p : ℕ) → p < n + n → ((p < n) × (p % n ≡ p)) ⊎ ((n ≤ p) × (p % n ≡ p - n))
mod_cases n p h = elim (Bool-cases (ltb p n)) [
  | inl e ↦ let less : p < n = ground arith in inl (less, mod-eq_of_lt less)
  | inr e ↦
      let most : n ≤ p = ground arith in
      inr (most, mod-eq-sub-mod most ∙ mod-eq_of_lt (omega arith))
]

mod_ne : (n start i j : ℕ) → start < n → i < j → j < n → (start + i) % n ≢ (start + j) % n
mod_ne n start i j h less most e = elim (mod_cases n (start + i) (omega arith)) [
  | inl (a, b) ↦ elim (mod_cases n (start + j) (omega arith)) [
    | inl (c, d) ↦ omega arith
    | inr (c, d) ↦ omega arith
  ]
  | inr (a, b) ↦ elim (mod_cases n (start + j) (omega arith)) [
    | inl (c, d) ↦ omega arith
    | inr (c, d) ↦ omega arith
  ]
]

order_ne_any :
    (n : ℕ) (order : List ℕ) (i j : ℕ)
    → IsOrder n order
    → i < n
    → j < n
    → i ≢ j
    → get_or order i 0 ≢ get_or order j 0
order_ne_any n order i j p hi hj ne = elim (Bool-cases (ltb i j)) [
  | inl e ↦ p.order_ne i j (ground arith) hj
  | inr e ↦ λ q. p.order_ne j i (ground arith) hi (sym q)
]

module _ (shuffle : List ℕ → List ℕ) (n : ℕ) (shuffled : IsOrder n (shuffle (count_from n 0))) where
  ring-IsLinked :
      (nodes : List ℕ)
      → length nodes ≡ n
      → IsLinked n (build_random_ring shuffle n nodes).0 n (build_random_ring shuffle n nodes).1
  unfolding build_random_ring
  ring-IsLinked nodes len =
      link_from-IsLinked n (shuffle (count_from n 0)) n 0 n nodes shuffled (omega arith)
        (omega arith) (record { nodes_length = len; links = λ j h. absurd (omega arith) })

  -- However the order is shuffled, a chase of any number of steps from any position reads exactly the lines
  -- that `flush_random_path` flushes from this position, in the same order.
  pub random_ring-flush_path :
      (nodes : List ℕ) (position steps : ℕ)
      → length nodes ≡ n
      → position < n
      → let (order, ring) = build_random_ring shuffle n nodes in
        chase_path ring (get_or order position 0) steps ≡ flush_path order position steps 0
  unfolding build_random_ring
  random_ring-flush_path nodes position steps len less =
      let r = ring-IsLinked nodes len in
      let order = shuffle (count_from n 0) in
      let from : (position + 0) % n ≡ position =
        ap (λ k. k % n) (omega arith) ∙ mod-eq_of_lt less in
      rw from at (
        path_lem n order (link_from n order n 0 nodes) position 0 steps (omega arith)
          shuffled.order_length r)

  -- However the order is shuffled, the loads of a chase from any position are of different nodes, as long as
  -- there are no more of them than nodes: no timed load finds the line that an earlier one has brought in.
  pub random_ring_distinct :
      (nodes : List ℕ) (position steps i j : ℕ)
      → length nodes ≡ n
      → position < n
      → steps ≤ n
      → i < j
      → j < steps
      → let (order, ring) = build_random_ring shuffle n nodes in
        let path = chase_path ring (get_or order position 0) steps in
        get_or path i 0 ≢ get_or path j 0
  random_ring_distinct nodes position steps i j len less most before last =
      let order = (build_random_ring shuffle n nodes).0 in
      let p : IsOrder n order = unfold build_random_ring in shuffled in
      let ne =
        order_ne_any n order ((position + i) % n) ((position + j) % n) p
          (mod-lt (position + i) (omega arith)) (mod-lt (position + j) (omega arith))
          (mod_ne n position i j less before (omega arith)) in
      rw
        (
          random_ring-flush_path nodes position steps len less,
          flush_path_first order position steps i (omega arith),
          flush_path_first order position steps j last,
          p.order_length,
        )
        ne
