-- ===== src/Latency/Rings.antt =====
-- The pointer rings of MemoryLatencyAnalyzer_linux/src/latency_measurer.cpp. A `Node` is its index, and the
-- buffer is the list of the `next` indices.
use Prim.Native.Nat.{max}
use memory_latency_analyzer.Base.{
  ℕ, zero, suc, ◌+◌, ◌*◌, ◌/◌, ◌%◌, List, [], ◌∷◌, length, get_or, set,
}
use memory_latency_analyzer.Latency.Sizes.{line}

-- `buffer_[i].next` as an index.
abbrev pub next_of : List ℕ → ℕ → ℕ
next_of nodes i = get_or nodes i 0

unfoldable pub build_self_loop : List ℕ → List ℕ
build_self_loop nodes = set nodes 0 0

-- `0`, `1`, …: the order before it is shuffled, and the first links of the buffer.
unfoldable pub count_from : ℕ → ℕ → List ℕ
count_from zero i = []
count_from (suc left) i = i ∷ count_from left (i + 1)

-- The rounds `i`, `i + 1`, … of the loop that links the shuffled nodes; `n` is `node_count_`.
unfoldable pub link_from : ℕ → List ℕ → ℕ → ℕ → List ℕ → List ℕ
link_from n order zero i nodes = nodes
link_from n order (suc left) i nodes =
    link_from n order left (i + 1) (set nodes (get_or order i 0) (get_or order ((i + 1) % n) 0))

-- `shuffle` is `std::shuffle` with the generator of the seed.
unfoldable pub build_random_ring : (List ℕ → List ℕ) → ℕ → List ℕ → List ℕ × List ℕ
unfolding link_from count_from
build_random_ring shuffle n nodes =
    let order = shuffle (count_from n 0) in (order, link_from n order n 0 nodes)

-- The rounds `i`, `i + 1`, … of `build_stride_ring`.
unfoldable pub stride_from : ℕ → ℕ → ℕ → ℕ → List ℕ → List ℕ
stride_from n lines zero i nodes = nodes
stride_from n lines (suc left) i nodes =
    stride_from n lines left (i + 1) (set nodes i ((i + lines) % n))

-- `std::max(1, stride_bytes / cache_line_size_)`.
unfoldable pub stride_lines : ℕ → ℕ
stride_lines stride_bytes = max 1 (stride_bytes / line)

unfoldable pub build_stride_ring : ℕ → ℕ → List ℕ → List ℕ
unfolding stride_from stride_lines
build_stride_ring n stride_bytes nodes = stride_from n (stride_lines stride_bytes) n 0 nodes

-- The stride that `measure_strides` makes of a requested one.
unfoldable pub whole_stride : ℕ → ℕ
whole_stride raw = max line (raw / line * line)

-- The nodes that a chase of `steps` loads reads, and the node that it ends at.
unfoldable pub chase_path : List ℕ → ℕ → ℕ → List ℕ
chase_path nodes start zero = []
chase_path nodes start (suc steps) = start ∷ chase_path nodes (next_of nodes start) steps

unfoldable pub chase_end : List ℕ → ℕ → ℕ → ℕ
chase_end nodes start zero = start
chase_end nodes start (suc steps) = chase_end nodes (next_of nodes start) steps

-- The lines that `flush_random_path` flushes, from its round `i`.
unfoldable pub flush_path : List ℕ → ℕ → ℕ → ℕ → List ℕ
flush_path order start zero i = []
flush_path order start (suc left) i =
    get_or order ((start + i) % length order) 0 ∷ flush_path order start left (i + 1)
