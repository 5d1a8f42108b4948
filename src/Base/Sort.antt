-- ===== src/Base/Sort.antt =====
-- `std::sort` with a comparison, and what a position of its result says of the input.
use mathlib.Core.List.{Mem, Perm, mem-cons_self, mem-cons_of_mem}
use mathlib.Core.List.Perm
use memory_latency_analyzer.Base.{
  ℕ, zero, suc, ◌+◌, ◌-◌, ◌≤◌, ◌<◌, ◌≡◌, refl, Bool, true, false, List, [], ◌∷◌, arith, length,
  get_or, All, if◌then◌else◌, Bool-cases, inl, inr,
}

module _ {ℓ} {A : Type ℓ} (lt : A → A → Bool) where
  unfoldable pub insert_by : A → List A → List A
  insert_by x [] = x ∷ []
  insert_by x (y ∷ ys) = if lt y x then y ∷ insert_by x ys else x ∷ y ∷ ys

  unfoldable pub sort_by : List A → List A
  unfolding insert_by
  sort_by [] = []
  sort_by (x ∷ xs) = insert_by x (sort_by xs)

  insert_by-perm : (x : A) (ys : List A) → Perm (insert_by x ys) (x ∷ ys)
  unfolding insert_by
  insert_by-perm x [] = Perm.rfl
  insert_by-perm x (y ∷ ys) = elim (Bool-cases (lt y x)) [
    | inl e ↦ rw e (Perm.trans (Perm.cons y (insert_by-perm x ys)) (Perm.swap x y ys))
    | inr e ↦ rw e Perm.rfl
  ]

  pub sort_by-perm : (xs : List A) → Perm (sort_by xs) xs
  unfolding sort_by
  sort_by-perm [] = Perm.rfl
  sort_by-perm (x ∷ xs) = Perm.trans (insert_by-perm x (sort_by xs)) (Perm.cons x (sort_by-perm xs))

module _ {ℓ} {A : Type ℓ} where
  unfoldable pub count_if : (A → Bool) → List A → ℕ
  count_if test [] = 0
  count_if test (x ∷ xs) = (if test x then 1 else 0) + count_if test xs

  pub Mem-get_or : (xs : List A) (i : ℕ) (d : A) → i < length xs → Mem (get_or xs i d) xs
  Mem-get_or [] i d h = absurd (omega arith)
  Mem-get_or (x ∷ xs) zero d h = mem-cons_self
  Mem-get_or (x ∷ xs) (suc i) d h = mem-cons_of_mem x (Mem-get_or xs i d (omega arith))

  pub All-get_or {κ} :
      (P : A → Type κ) (xs : List A) (i : ℕ) (d : A) → i < length xs → All P xs → P (get_or xs i d)
  All-get_or P [] i d h all = absurd (omega arith)
  All-get_or P (x ∷ xs) zero d h all = all.0
  All-get_or P (x ∷ xs) (suc i) d h all = All-get_or P xs i d (omega arith) all.1

  count_if_none :
      (test : A → Bool) (xs : List A) → All (λ x. test x ≡ false) xs → count_if test xs ≡ 0
  unfolding count_if
  count_if_none test [] h = refl
  count_if_none test (x ∷ xs) h = rw (h.0, count_if_none test xs h.1)

  pub count_if-le : (test : A → Bool) (xs : List A) → count_if test xs ≤ length xs
  unfolding count_if
  count_if-le test [] = omega arith
  count_if-le test (x ∷ xs) = ground (arith, count_if-le test xs)

-- What `std::sort` asks of its comparison: a strict weak order.
pub record IsOrder {ℓ} {A : Type ℓ} (lt : A → A → Bool) : Type ℓ where
  pub asym : (x y : A) → lt x y ≡ true → lt y x ≡ false
  pub trans : (x y z : A) → lt y x ≡ false → lt z y ≡ false → lt z x ≡ false

module _ {ℓ} {A : Type ℓ} (lt : A → A → Bool) where
  abbrev pub IsAbove : A → List A → Type 0
  IsAbove x ys = All (λ y. lt y x ≡ false) ys

  abbrev pub IsSorted : List A → Type 0
  IsSorted [] = Unit
  IsSorted (x ∷ xs) = IsAbove x xs × IsSorted xs

  pub length-insert_by : (x : A) (ys : List A) → length (insert_by lt x ys) ≡ suc (length ys)
  unfolding insert_by
  length-insert_by x [] = refl
  length-insert_by x (y ∷ ys) = ground (arith, length-insert_by x ys)

  pub length-sort_by : (xs : List A) → length (sort_by lt xs) ≡ length xs
  unfolding sort_by
  length-sort_by [] = refl
  length-sort_by (x ∷ xs) = omega (arith, length-insert_by x (sort_by lt xs), length-sort_by xs)

  count_if-insert_by :
      (test : A → Bool) (x : A) (ys : List A)
      → count_if test (insert_by lt x ys) ≡ (if test x then 1 else 0) + count_if test ys
  unfolding insert_by count_if
  count_if-insert_by test x [] = refl
  count_if-insert_by test x (y ∷ ys) = ground (arith, count_if-insert_by test x ys)

  pub count_if-sort_by :
      (test : A → Bool) (xs : List A) → count_if test (sort_by lt xs) ≡ count_if test xs
  unfolding sort_by count_if
  count_if-sort_by test [] = refl
  count_if-sort_by test (x ∷ xs) =
      omega (arith, count_if-insert_by test x (sort_by lt xs), count_if-sort_by test xs)

  module _ (order : IsOrder lt) where
    IsAbove-trans : (x y : A) (zs : List A) → lt y x ≡ false → IsAbove y zs → IsAbove x zs
    IsAbove-trans x y [] h all = tt
    IsAbove-trans x y (z ∷ zs) h all = (order.trans x y z h all.0, IsAbove-trans x y zs h all.1)

    IsAbove-insert_by :
        (b x : A) (ys : List A) → lt x b ≡ false → IsAbove b ys → IsAbove b (insert_by lt x ys)
    unfolding insert_by
    IsAbove-insert_by b x [] h all = (h, tt)
    IsAbove-insert_by b x (y ∷ ys) h all = elim (Bool-cases (lt y x)) [
      | inl e ↦ rw e (all.0, IsAbove-insert_by b x ys h all.1)
      | inr e ↦ rw e (h, all)
    ]

    insert_by-IsSorted : (x : A) (ys : List A) → IsSorted ys → IsSorted (insert_by lt x ys)
    unfolding insert_by
    insert_by-IsSorted x [] s = (tt, tt)
    insert_by-IsSorted x (y ∷ ys) s = elim (Bool-cases (lt y x)) [
      | inl e ↦ rw e (IsAbove-insert_by y x ys (order.asym y x e) s.0, insert_by-IsSorted x ys s.1)
      | inr e ↦ rw e ((e, IsAbove-trans x y ys e s.0), s)
    ]

    pub sort_by-IsSorted : (xs : List A) → IsSorted (sort_by lt xs)
    unfolding sort_by
    sort_by-IsSorted [] = tt
    sort_by-IsSorted (x ∷ xs) = insert_by-IsSorted x (sort_by lt xs) (sort_by-IsSorted xs)

    irrefl : (x : A) → lt x x ≡ false
    irrefl x = elim (Bool-cases (lt x x)) [ inl e ↦ order.asym x x e | inr e ↦ e ]

    -- Below the head of a sorted list is nothing that comes behind it.
    sorted_below :
        (xs : List A) (i : ℕ) (d : A)
        → i < length xs
        → IsSorted xs
        → (count_if (λ v. lt v (get_or xs i d)) xs ≤ i)
    unfolding count_if
    sorted_below [] i d h s = absurd (omega arith)
    sorted_below (x ∷ xs) zero d h s =
        rw (irrefl x, count_if_none (λ v. lt v x) xs s.0) (omega arith)
    sorted_below (x ∷ xs) (suc i) d h s =
        let ih = sorted_below xs i d (omega arith) s.1 in ground (arith, ih)

    sorted_above :
        (xs : List A) (i : ℕ) (d : A)
        → i < length xs
        → IsSorted xs
        → (count_if (lt (get_or xs i d)) xs ≤ length xs - 1 - i)
    unfolding count_if
    sorted_above [] i d h s = absurd (omega arith)
    sorted_above (x ∷ xs) zero d h s = rw (irrefl x) (omega (arith, count_if-le (lt x) xs))
    sorted_above (x ∷ xs) (suc i) d h s =
        let ih = sorted_above xs i d (omega arith) s.1 in
        let behind : lt (get_or xs i d) x ≡ false = All-get_or _ xs i d (omega arith) s.0 in
        rw behind (omega (arith, ih))

-- The value at a position of the sorted list is one of the values, with no more values below it than the position
-- says, and no more above it than are left.
pub record HasRank {ℓ} {A : Type ℓ} (lt : A → A → Bool) (xs : List A) (i : ℕ) (v : A) : Type ℓ where
  pub member : Mem v xs
  pub below : count_if (λ x. lt x v) xs ≤ i
  pub above : count_if (lt v) xs ≤ length xs - 1 - i

pub sort_by-HasRank {ℓ} :
    {A : Type ℓ} (lt : A → A → Bool)
    → IsOrder lt
    → (xs : List A) (i : ℕ) (d : A) → i < length xs
    → HasRank lt xs i (get_or (sort_by lt xs) i d)
sort_by-HasRank lt order xs i d h =
    let sorted = sort_by-IsSorted lt order xs in
    let same = length-sort_by lt xs in
    let inside : i < length (sort_by lt xs) = omega (arith, same) in
    let v = get_or (sort_by lt xs) i d in
    record {
      member = (Perm.mem_iff (sort_by-perm lt xs)).0 (Mem-get_or (sort_by lt xs) i d inside);
      below = rw count_if-sort_by at (sorted_below lt order (sort_by lt xs) i d inside sorted);
      above =
          rw (count_if-sort_by, same) at (sorted_above lt order (sort_by lt xs) i d inside sorted);
    }
