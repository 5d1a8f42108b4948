-- ===== src/Latency/StrideRing.antt =====
-- The ring that `build_stride_ring` of MemoryLatencyAnalyzer_linux/src/latency_measurer.cpp links.
use native.Mathlib.Nat.{mod-add-mod, mod-lt, mod-eq_of_lt}
use memory_latency_analyzer.Base.{
  ℕ, zero, suc, ◌+◌, ◌*◌, ◌%◌, ◌≤◌, ◌<◌, ◌≡◌, ◌⊎◌, ◌∙◌, ap, List, length, set, length-set,
  get_or-set_self, get_or-set_ne, arith, ◌==◌, Bool-cases, inl, inr,
}
use memory_latency_analyzer.Latency.Sizes.{line}
use memory_latency_analyzer.Latency.Rings.{
  next_of, stride_from, stride_lines, build_stride_ring, chase_end, whole_stride,
}

record IsStrided (n lines i : ℕ) (nodes : List ℕ) : Type 0 where
  nodes_length : length nodes ≡ n
  links : (j : ℕ) → j < i → next_of nodes j ≡ (j + lines) % n

stride_from-IsStrided :
    (n lines left i k : ℕ) (nodes : List ℕ)
    → i + left ≡ k
    → k ≤ n
    → IsStrided n lines i nodes
    → IsStrided n lines k (stride_from n lines left i nodes)
unfolding stride_from
stride_from-IsStrided n lines zero i k nodes e most r =
    let same : i ≡ k = omega arith in rw (← same) r
stride_from-IsStrided n lines (suc left) i k nodes e most r =
    stride_from-IsStrided n lines left (i + 1) k (set nodes i ((i + lines) % n)) (omega arith) most
      (record {
        nodes_length = length-set nodes i ((i + lines) % n) ∙ r.nodes_length;
        links = λ j less. elim (Bool-cases (j == i)) [
          | inl q ↦
              let same : j ≡ i = ground arith in
              let room : i < length nodes = rw r.nodes_length (omega arith) in
              rw same (get_or-set_self nodes i ((i + lines) % n) 0 room)
          | inr q ↦
              get_or-set_ne nodes i j ((i + lines) % n) 0 (λ x. ground arith)
              ∙ r.links j (ground arith)
        ];
      })

chase_end-strided :
    (n lines : ℕ) (nodes : List ℕ) (start steps : ℕ)
    → start < n
    → IsStrided n lines n nodes
    → chase_end nodes start steps ≡ (start + steps * lines) % n
unfolding chase_end
chase_end-strided n lines nodes start zero h r =
    let same : (start + 0 * lines) % n ≡ start = ap (λ k. k % n) (omega arith) ∙ mod-eq_of_lt h in
    rw same
chase_end-strided n lines nodes start (suc steps) h r =
    let moved : ((start + lines) % n + steps * lines) % n ≡ (start + suc steps * lines) % n =
      mod-add-mod (start + lines) n (steps * lines) ∙ ap (λ k. k % n) (omega arith) in
    rw (r.links start h) (
      chase_end-strided n lines nodes ((start + lines) % n) steps
        (mod-lt (start + lines) (omega arith)) r
      ∙ moved)

-- In the ring that `measure_strides` builds for a requested stride, `steps` loads from a node lead to the
-- node that is `steps` whole strides further on, counted around the buffer. The stride is the requested one
-- rounded down to whole lines where it has a whole line, and one line otherwise.
pub stride_ring_exact :
    (n raw : ℕ) (nodes : List ℕ) (start steps : ℕ)
    → length nodes ≡ n
    → start < n
    → (lines : ℕ) × (whole_stride raw ≡ lines * line)
      × (1 ≤ lines)
      × ((lines * line ≤ raw) ⊎ ((lines ≡ 1) × (raw < line)))
      × (raw < (lines + 1) * line)
      × (chase_end (build_stride_ring n (whole_stride raw) nodes) start steps
          ≡ (start + steps * lines) % n)
unfolding build_stride_ring stride_lines whole_stride
stride_ring_exact n raw nodes start steps len less =
    let stride = whole_stride raw in
    let r =
      stride_from-IsStrided n (stride_lines stride) n 0 n nodes (omega arith) (omega arith)
        (record { nodes_length = len; links = λ j h. absurd (omega arith) }) in
    (
      stride_lines stride,
      ground arith,
      ground arith,
      ground arith,
      ground arith,
      chase_end-strided n (stride_lines stride) (stride_from n (stride_lines stride) n 0 nodes)
          start steps less r,
    )
