-- ===== src/Collections/BTreeSet.antt =====
-- `BTreeSet`: its elements in ascending order, each once.
use starlingmonkey_ng.Prelude.{
  ◌≡◌, refl, ◌⊎◌, inl, inr, Bool, true, false, not, ◌&&◌, ◌||◌, Option, none, some, List, [], ◌∷◌,
  arith, if◌then◌else◌, Bool-cases, All,
}
use starlingmonkey_ng.Collections.TotalOrder.{TotalOrder}

module _ {K : Type 0} ⦃o : TotalOrder K⦄ where
  unfoldable pub contains : K → List K → Bool
  contains k [] = false
  contains k (x ∷ xs) = o.eq k x || contains k xs

  unfoldable pub insert : K → List K → List K
  insert k [] = k ∷ []
  insert k (x ∷ xs) = if o.lt k x then k ∷ x ∷ xs else if o.eq k x then x ∷ xs else x ∷ insert k xs

  unfoldable pub remove : K → List K → List K
  remove k [] = []
  remove k (x ∷ xs) = let rest = remove k xs in if o.eq k x then rest else x ∷ rest

  unfoldable pub first : List K → Option K
  first [] = none
  first (x ∷ xs) = some x

  -- Strictly ascending: each element is below all that follow it.
  abbrev pub IsSorted : List K → Type 0
  IsSorted [] = Unit
  IsSorted (x ∷ xs) = All (λ y. o.lt x y ≡ true) xs × IsSorted xs

  pub contains-insert :
      (k j : K) (s : List K) → contains k (insert j s) ≡ (o.eq k j || contains k s)
  unfolding contains insert
  contains-insert k j [] = refl
  contains-insert k j (x ∷ xs) = ground (arith, contains-insert k j xs, o.eq_iff j x)

  pub contains-remove :
      (k j : K) (s : List K) → contains k (remove j s) ≡ (not (o.eq k j) && contains k s)
  unfolding contains remove
  contains-remove k j [] = ground arith
  contains-remove k j (x ∷ xs) =
      ground (arith, contains-remove k j xs, o.eq_iff j x, o.eq_iff k x, o.eq_iff k j)

  All-insert :
      (x k : K) (s : List K)
      → o.lt x k ≡ true
      → All (λ y. o.lt x y ≡ true) s
      → All (λ y. o.lt x y ≡ true) (insert k s)
  unfolding insert
  All-insert x k [] h a = (h, tt)
  All-insert x k (y ∷ ys) h a = ground (arith, All-insert x k ys h a.1)

  All-remove :
      (x k : K) (s : List K)
      → All (λ y. o.lt x y ≡ true) s
      → All (λ y. o.lt x y ≡ true) (remove k s)
  unfolding remove
  All-remove x k [] a = tt
  All-remove x k (y ∷ ys) a = ground (arith, All-remove x k ys a.1)

  All-trans :
      (x y : K) (s : List K)
      → o.lt x y ≡ true
      → All (λ z. o.lt y z ≡ true) s
      → All (λ z. o.lt x z ≡ true) s
  All-trans x y [] h a = tt
  All-trans x y (z ∷ zs) h a = (o.lt_trans x y z h a.0, All-trans x y zs h a.1)

  pub insert-IsSorted : (k : K) (s : List K) → IsSorted s → IsSorted (insert k s)
  unfolding insert
  insert-IsSorted k [] h = (tt, tt)
  insert-IsSorted k (x ∷ xs) h = elim (Bool-cases (o.lt k x)) [
    | inl below ↦ rw below ((below, All-trans k x xs below h.0), h)
    | inr above ↦ rw above (elim (Bool-cases (o.eq k x)) [
      | inl same ↦ rw same h
      | inr other ↦
          rw other (All-insert x k xs (o.lt_total k x above other) h.0, insert-IsSorted k xs h.1)
    ])
  ]

  pub remove-IsSorted : (k : K) (s : List K) → IsSorted s → IsSorted (remove k s)
  unfolding remove
  remove-IsSorted k [] h = tt
  remove-IsSorted k (x ∷ xs) h = elim (Bool-cases (o.eq k x)) [
    | inl same ↦ rw same (remove-IsSorted k xs h.1)
    | inr other ↦ rw other (All-remove x k xs h.0, remove-IsSorted k xs h.1)
  ]

  -- What an ascending set contains is its first element, or above it.
  pub contains-cons :
      (k x : K) (xs : List K)
      → IsSorted (x ∷ xs)
      → contains k (x ∷ xs) ≡ true
      → (k ≡ x) ⊎ (o.lt x k ≡ true)
  unfolding contains
  contains-cons k x [] h c = ground (arith, o.eq_iff k x)
  contains-cons k x (y ∷ ys) h c = elim (Bool-cases (o.eq k x)) [
    | inl same ↦ inl ((o.eq_iff k x).0 same)
    | inr other ↦ inr (elim (contains-cons k y ys h.1 (rw (other, contains) at c)) [
      | inl e ↦ rw e h.0.0
      | inr above ↦ o.lt_trans x y k h.0.0 above
    ])
  ]

  remove-above : (x : K) (xs : List K) → All (λ y. o.lt x y ≡ true) xs → remove x xs ≡ xs
  unfolding remove
  remove-above x [] h = refl
  remove-above x (y ∷ ys) h = ground (arith, remove-above x ys h.1, o.eq_iff x y, o.lt_irrefl x)

  -- Removing the first element of an ascending set leaves the others.
  pub remove-first : (x : K) (xs : List K) → IsSorted (x ∷ xs) → remove x (x ∷ xs) ≡ xs
  unfolding remove
  remove-first x xs h = ground (arith, remove-above x xs h.0, o.eq_iff x x)

  pub contains-first : (x : K) (xs : List K) → contains x (x ∷ xs) ≡ true
  unfolding contains
  contains-first x xs = ground (arith, o.eq_iff x x)

  pub contains-nil : (k : K) → contains k [] ≡ false
  unfolding contains
  contains-nil k = refl
