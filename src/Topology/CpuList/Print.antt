-- ===== src/Topology/CpuList/Print.antt =====
-- CPU lists in the form in which Linux prints them, and `parse_cpu_list` of
-- MemoryLatencyAnalyzer_linux/src/numa_support.cpp on them.
use memory_latency_analyzer.Topology.CpuList.Agree.{take_item-some, list_from_last, list_from_step}
use mathlib.Core.List.{append-nil, append_assoc}
use memory_latency_analyzer.Base.{
  ℕ, zero, suc, ◌+◌, ◌-◌, ◌^◌, ◌≤◌, ◌<◌, ◌≡◌, ◌∙◌, refl, sym, ap, true, false, none, some, List, [],
  ◌∷◌, ◌++◌, length, ◌==◌, arith, All, length-append, All-append,
}
use memory_latency_analyzer.Base.Int.{ℤ, pos}
use memory_latency_analyzer.Base.Text.{
  Bytes, stoi, print_nat, is_digit, starts_digit, skip_spaces, read_magnitude,
  read_magnitude-print_nat, starts_digit-print_nat, All-is_digit-print_nat,
}
use memory_latency_analyzer.Topology.CpuList.{cut, read_item, range, range_from}
use memory_latency_analyzer.Topology.CpuList.Numa.{list_from, parse_cpu_list, take_item}

-- A range of CPUs: the first, and how many more.
abbrev pub Span : Type 0
Span = ℕ × ℕ

abbrev pub print_span : Span → Bytes
print_span (first, zero) = print_nat first
print_span (first, suc more) = print_nat first ++ b'-' ∷ print_nat (first + suc more)

abbrev pub print_more : List Span → Bytes
print_more [] = []
print_more (s ∷ ss) = b',' ∷ print_span s ++ print_more ss

-- As `cpulist` files have it: ranges with commas between them.
abbrev pub print_spans : List Span → Bytes
print_spans [] = []
print_spans (s ∷ ss) = print_span s ++ print_more ss

abbrev pub count_up : ℕ → ℕ → List ℤ
count_up zero cpu = []
count_up (suc left) cpu = pos cpu ∷ count_up left (suc cpu)

abbrev pub span_cpus : Span → List ℤ
span_cpus (first, more) = count_up (suc more) first

abbrev pub spans_cpus : List Span → List ℤ
spans_cpus [] = []
spans_cpus (s ∷ ss) = span_cpus s ++ spans_cpus ss

-- The last CPU is below the greatest `int`, where `++cpu` of the source's loop overflows.
abbrev pub IsSpan : Span → Type 0
IsSpan (first, more) = first + more < 2 ^ 31 - 1

range_from-count_up : (left cpu : ℕ) → range_from left (pos cpu) ≡ count_up left cpu
unfolding range_from
range_from-count_up zero cpu = refl
range_from-count_up (suc left) cpu = ap (λ r. pos cpu ∷ r) (range_from-count_up left (suc cpu))

range-count_up :
    (first more : ℕ) → range (pos first) (pos (first + more)) ≡ count_up (suc more) first
unfolding range
range-count_up first more =
    let count : suc (first + more + 0 - (first + 0)) ≡ suc more = omega arith in
    ap (λ k. range_from k (pos first)) count ∙ range_from-count_up (suc more) first

-- A text without the character is cut only behind it.
cut_first :
    (c : ℕ) (s rest : Bytes)
    → All (λ d. (d == c) ≡ false) s
    → cut c (s ++ c ∷ rest) ≡ (s, some rest)
unfolding cut
cut_first c [] rest h = let same : (c == c) ≡ true = ground arith in rw same refl
cut_first c (d ∷ s) rest h = rw (h.0, cut_first c s rest h.1) refl

cut-none : (c : ℕ) (s : Bytes) → All (λ d. (d == c) ≡ false) s → cut c s ≡ (s, none)
unfolding cut
cut-none c [] h = refl
cut-none c (d ∷ s) h = rw (h.0, cut-none c s h.1) refl

All-imp : (s : Bytes) (P Q : ℕ → Type 0) → ((d : ℕ) → P d → Q d) → All P s → All Q s
All-imp [] P Q f h = tt
All-imp (d ∷ s) P Q f h = (f d h.0, All-imp s P Q f h.1)

digits_ne : (c n : ℕ) → is_digit c ≡ false → All (λ d. (d == c) ≡ false) (print_nat n)
digits_ne c n h =
    All-imp (print_nat n) (λ d. is_digit d ≡ true) (λ d. (d == c) ≡ false) (λ d q. ground arith)
      (All-is_digit-print_nat n)

stoi_unsigned :
    (s : Bytes) {z : ℤ} {rest : Bytes}
    → starts_digit s ≡ true
    → read_magnitude false s ≡ some (z, rest)
    → stoi s ≡ some z
unfolding stoi skip_spaces
stoi_unsigned [] h e = absurd (ground arith)
stoi_unsigned (c ∷ s) h e = ground arith

pub stoi-print_nat : (n : ℕ) → n < 2 ^ 31 → stoi (print_nat n) ≡ some (pos n)
stoi-print_nat n h =
    let starts : starts_digit (print_nat n) ≡ true =
      rw append-nil at (starts_digit-print_nat n []) in
    let read = read_magnitude-print_nat false n [] refl (ground arith) in
    stoi_unsigned (print_nat n) starts (rw append-nil at read)

read_item-print_span : (s : Span) → IsSpan s → read_item (print_span s) ≡ some (span_cpus s)
unfolding read_item
read_item-print_span (first, zero) h =
    rw
      (
        cut-none b'-' (print_nat first) (digits_ne b'-' first refl),
        read_item,
        stoi-print_nat first (omega arith),
      )
      refl
read_item-print_span (first, suc more) h =
    let parts =
      cut_first b'-' (print_nat first) (print_nat (first + suc more)) (digits_ne b'-' first refl) in
    rw
      (
        parts,
        read_item,
        parts,
        stoi-print_nat first (omega arith),
        stoi-print_nat (first + suc more) (omega arith),
      )
      (ground (arith, range-count_up first (suc more)))

starts_digit-cons : (s : Bytes) → starts_digit s ≡ true → (c : ℕ) × (t : Bytes) × (s ≡ c ∷ t)
starts_digit-cons [] h = absurd (ground arith)
starts_digit-cons (c ∷ t) h = (c, t, refl)

pub print_nat-cons : (n : ℕ) → (c : ℕ) × (t : Bytes) × (print_nat n ≡ c ∷ t)
print_nat-cons n = starts_digit-cons (print_nat n) (rw append-nil at (starts_digit-print_nat n []))

span_ne : (s : Span) → All (λ d. (d == b',') ≡ false) (print_span s)
span_ne (first, zero) = digits_ne b',' first refl
span_ne (first, suc more) =
    All-append (λ d. (d == b',') ≡ false) (print_nat first) (b'-' ∷ print_nat (first + suc more))
      (digits_ne b',' first refl) (refl, digits_ne b',' (first + suc more) refl)

print_span-cons : (s : Span) → (c : ℕ) × (t : Bytes) × (print_span s ≡ c ∷ t)
print_span-cons (first, zero) =
    starts_digit-cons (print_nat first) (rw append-nil at (starts_digit-print_nat first []))
print_span-cons (first, suc more) =
    starts_digit-cons (print_nat first ++ b'-' ∷ print_nat (first + suc more))
      (starts_digit-print_nat first (b'-' ∷ print_nat (first + suc more)))

-- The loop on a printed list.
list_from-print :
    (fuel : ℕ) (s : Span) (ss : List Span) (cpus : List ℤ)
    → IsSpan s
    → All IsSpan ss
    → length ss < fuel
    → list_from fuel (print_span s ++ print_more ss) cpus ≡ cpus ++ (span_cpus s ++ spans_cpus ss)
list_from-print zero s ss cpus h hs less = absurd (omega arith)
list_from-print (suc fuel) s [] cpus h hs less =
    let (c, t, e) = print_span-cons s in
    let whole : print_span s ++ [] ≡ c ∷ t = append-nil (print_span s) ∙ e in
    let parts : cut b',' (c ∷ t) ≡ (c ∷ t, none) = cut-none b',' (c ∷ t) (rw e at (span_ne s)) in
    let item : read_item (c ∷ t) ≡ some (span_cpus s) = rw e at (read_item-print_span s h) in
    let taken : take_item (cut b',' (c ∷ t)) ≡ some (span_cpus s, none) =
      rw parts (take_item-some (c ∷ t, none) (span_cpus s) item) in
    rw whole (
      list_from_last fuel c t cpus (span_cpus s) taken
      ∙ ap (λ r. cpus ++ r) (sym (append-nil (span_cpus s))))
list_from-print (suc fuel) s (s2 ∷ ss) cpus h hs less =
    let (c, t, e) = print_span-cons s in
    let more = print_span s2 ++ print_more ss in
    let whole : print_span s ++ b',' ∷ more ≡ c ∷ (t ++ b',' ∷ more) =
      ap (λ r. r ++ b',' ∷ more) e in
    let parts : cut b',' (c ∷ (t ++ b',' ∷ more)) ≡ (c ∷ t, some more) =
      cut_first b',' (c ∷ t) more (rw e at (span_ne s)) in
    let item : read_item (c ∷ t) ≡ some (span_cpus s) = rw e at (read_item-print_span s h) in
    let taken : take_item (cut b',' (c ∷ (t ++ b',' ∷ more))) ≡ some (span_cpus s, some more) =
      rw parts (take_item-some (c ∷ t, some more) (span_cpus s) item) in
    rw whole (
      list_from_step fuel c (t ++ b',' ∷ more) cpus (span_cpus s) more taken
      ∙ list_from-print fuel s2 ss (cpus ++ span_cpus s) hs.0 hs.1 (omega arith)
      ∙ append_assoc cpus (span_cpus s) (span_cpus s2 ++ spans_cpus ss))

length-print_more : (ss : List Span) → length ss ≤ length (print_more ss)
length-print_more [] = omega arith
length-print_more (s ∷ ss) =
    omega (arith, length-print_more ss, length-append (print_span s) (print_more ss))

-- A list in the form of the `cpulist` files, ranges and single CPUs with commas between them, all of them below
-- 2147483647, is read back as these CPUs in this order.
pub parse_cpu_list-print_spans :
    (ss : List Span) → All IsSpan ss → parse_cpu_list (print_spans ss) ≡ spans_cpus ss
unfolding parse_cpu_list
parse_cpu_list-print_spans [] h = unfold list_from in refl
parse_cpu_list-print_spans (s ∷ ss) h =
    let (c, t, e) = print_span-cons s in
    let long : length (print_span s) ≡ suc (length t) = ap length e in
    list_from-print (length (print_span s ++ print_more ss)) s ss [] h.0 h.1
      (omega (arith, length-print_more ss, length-append (print_span s) (print_more ss)))
