-- ===== src/Topology/CpuList/Agree.antt =====
-- Proofs that compare the two readers of CPU lists, of MemoryLatencyAnalyzer_linux/src/numa_support.cpp and of
-- MemoryLatencyAnalyzer_linux/src/cpu_info.cpp.
use memory_latency_analyzer.Base.{
  ℕ, zero, suc, ◌+◌, ◌≤◌, ◌<◌, ◌≡◌, ◌∙◌, refl, sym, Option, none, some, List, [], ◌∷◌, ◌++◌, length,
  arith, Option-cases, inl, inr, ap,
}
use memory_latency_analyzer.Base.Int.{ℤ}
use memory_latency_analyzer.Base.Text.{Bytes, stoi}
use memory_latency_analyzer.Topology.CpuList.{cut, read_item}
use memory_latency_analyzer.Topology.CpuList.Numa
use memory_latency_analyzer.Topology.CpuList.Info

abbrev pub length_after : Option Bytes → ℕ
length_after none = 0
length_after (some rest) = suc (length rest)

-- Both parts together are as long as the text.
pub length-cut : (c : ℕ) (s : Bytes) → length (cut c s).0 + length_after (cut c s).1 ≡ length s
unfolding cut
length-cut c [] = refl
length-cut c (d ∷ s) = ground (arith, length-cut c s)

read_item-nil : read_item [] ≡ none
unfolding read_item cut stoi
read_item-nil = refl

take_item-none :
    (parts : Bytes × Option Bytes) → read_item parts.0 ≡ none → Numa.take_item parts ≡ none
unfolding Numa.take_item
take_item-none ([], rest) q = refl
take_item-none (d ∷ token, rest) q = rw (Numa.take_item, q) refl

pub take_item-some :
    (parts : Bytes × Option Bytes) (item : List ℤ)
    → read_item parts.0 ≡ some item
    → Numa.take_item parts ≡ some (item, parts.1)
unfolding Numa.take_item
take_item-some ([], rest) item q = absurd (ground (arith, read_item-nil))
take_item-some (d ∷ token, rest) item q = rw (Numa.take_item, q) refl

abbrev after_or_nil : Option Bytes → Bytes
after_or_nil none = []
after_or_nil (some rest) = rest

get_item_lem :
    (c : ℕ) (s : Bytes)
    → Info.get_item (c ∷ s) ≡ some ((cut b',' (c ∷ s)).0, after_or_nil (cut b',' (c ∷ s)).1)
unfolding Info.get_item
get_item_lem c s = elim (Option-cases (cut b',' (c ∷ s)).1) [
  | inl e ↦ rw (Info.get_item, e) refl
  | inr (rest, e) ↦ rw (Info.get_item, e) refl
]

items_from-nil : (more : ℕ) (cpus : List ℤ) → Info.items_from more [] cpus ≡ cpus
unfolding Info.items_from Info.get_item
items_from-nil zero cpus = refl
items_from-nil (suc more) cpus = refl

list_from_refused :
    (fuel c : ℕ) (s : Bytes) (cpus : List ℤ)
    → Numa.take_item (cut b',' (c ∷ s)) ≡ none
    → Numa.list_from (suc fuel) (c ∷ s) cpus ≡ []
unfolding Numa.list_from
list_from_refused fuel c s cpus e = rw (Numa.list_from, e) refl

pub list_from_last :
    (fuel c : ℕ) (s : Bytes) (cpus item : List ℤ)
    → Numa.take_item (cut b',' (c ∷ s)) ≡ some (item, none)
    → Numa.list_from (suc fuel) (c ∷ s) cpus ≡ cpus ++ item
unfolding Numa.list_from
list_from_last fuel c s cpus item e = rw (Numa.list_from, e) refl

pub list_from_step :
    (fuel c : ℕ) (s : Bytes) (cpus item : List ℤ) (rest : Bytes)
    → Numa.take_item (cut b',' (c ∷ s)) ≡ some (item, some rest)
    → Numa.list_from (suc fuel) (c ∷ s) cpus ≡ Numa.list_from fuel rest (cpus ++ item)
unfolding Numa.list_from
list_from_step fuel c s cpus item rest e = rw (Numa.list_from, e) refl

items_from_refused :
    (more : ℕ) (text token rest : Bytes) (cpus : List ℤ)
    → Info.get_item text ≡ some (token, rest)
    → read_item token ≡ none
    → Info.items_from (suc more) text cpus ≡ []
unfolding Info.items_from
items_from_refused more text token rest cpus e q = rw (Info.items_from, e, q) refl

items_from_step :
    (more : ℕ) (text token rest : Bytes) (cpus item : List ℤ)
    → Info.get_item text ≡ some (token, rest)
    → read_item token ≡ some item
    → Info.items_from (suc more) text cpus ≡ Info.items_from more rest (cpus ++ item)
unfolding Info.items_from
items_from_step more text token rest cpus item e q = rw (Info.items_from, e, q) refl

list_from-items_from :
    (fuel more : ℕ) (text : Bytes) (cpus : List ℤ)
    → length text ≤ fuel
    → length text < more
    → Numa.list_from fuel text cpus ≡ Info.items_from more text cpus
list_from-items_from fuel zero text cpus h k = absurd (omega arith)
list_from-items_from zero (suc more) [] cpus h k =
    unfold Numa.list_from in sym (items_from-nil (suc more) cpus)
list_from-items_from (suc fuel) (suc more) [] cpus h k =
    unfold Numa.list_from in sym (items_from-nil (suc more) cpus)
list_from-items_from zero (suc more) (c ∷ s) cpus h k = absurd (omega arith)
list_from-items_from (suc fuel) (suc more) (c ∷ s) cpus h k =
    let parts = cut b',' (c ∷ s) in
    let len : length parts.0 + length_after parts.1 ≡ suc (length s) = length-cut b',' (c ∷ s) in
    let left = after_or_nil parts.1 in
    let got = get_item_lem c s in
    elim (Option-cases (read_item parts.0)) [
      | inl q ↦
          list_from_refused fuel c s cpus (take_item-none parts q)
          ∙ sym (items_from_refused more (c ∷ s) parts.0 left cpus got q)
      | inr (item, q) ↦
          let taken = take_item-some parts item q in
          let stepped = items_from_step more (c ∷ s) parts.0 left cpus item got q in
          elim (Option-cases parts.1) [
            | inl e ↦
                list_from_last fuel c s cpus item (taken ∙ ap (λ r. some (item, r)) e)
                ∙ sym (
                    stepped
                    ∙ ap (λ r. Info.items_from more (after_or_nil r) (cpus ++ item)) e
                    ∙ items_from-nil more (cpus ++ item))
            | inr (rest, e) ↦
                let shorter : length_after parts.1 ≡ suc (length rest) = ap length_after e in
                list_from_step fuel c s cpus item rest (taken ∙ ap (λ r. some (item, r)) e)
                ∙ list_from-items_from fuel more rest (cpus ++ item) (omega arith) (omega arith)
                ∙ sym (stepped ∙ ap (λ r. Info.items_from more (after_or_nil r) (cpus ++ item)) e)
          ]
    ]

-- The reader of the NUMA nodes and the reader of the CPU topology give the same list for every text: they
-- refuse the same texts and agree on a comma at the end.
pub parse_cpu_list-agree : (text : Bytes) → Numa.parse_cpu_list text ≡ Info.parse_cpu_list text
unfolding Numa.parse_cpu_list Info.parse_cpu_list
parse_cpu_list-agree text =
    list_from-items_from (length text) (suc (length text)) text [] (omega arith) (omega arith)
