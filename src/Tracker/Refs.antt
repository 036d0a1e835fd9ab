-- ===== src/Tracker/Refs.antt =====
-- Slices of references, for the queue of pkg/ttlcleaner/tracker.go.
use opn_box.Base.{
  ℕ, zero, suc, ◌+◌, ◌≤◌, ◌<◌, ◌≡◌, refl, some, List, [], ◌∷◌, ◌++◌, length, get_elem?, set, take,
  arith, ◌==◌, if◌then◌else◌, sym, Bool-cases, inl, inr, ltb,
}

-- The reference at `i`, 0 out of range.
unfoldable pub ref_at : List ℕ → ℕ → ℕ
ref_at [] i = 0
ref_at (x ∷ xs) zero = x
ref_at (x ∷ xs) (suc i) = ref_at xs i

-- How often `r` stands in the slice.
unfoldable pub count : ℕ → List ℕ → ℕ
count r [] = 0
count r (x ∷ xs) = (if r == x then 1 else 0) + count r xs

pub get_elem?-ref_at : (xs : List ℕ) (i : ℕ) → i < length xs → get_elem? xs i ≡ some (ref_at xs i)
unfolding ref_at
get_elem?-ref_at [] i h = absurd (omega arith)
get_elem?-ref_at (x ∷ xs) zero h = refl
get_elem?-ref_at (x ∷ xs) (suc i) h = get_elem?-ref_at xs i (omega arith)

pub ref_at-set :
    (xs : List ℕ) (i j v : ℕ)
    → i < length xs
    → ref_at (set xs i v) j ≡ (if i == j then v else ref_at xs j)
unfolding ref_at
ref_at-set [] i j v h = absurd (omega arith)
ref_at-set (x ∷ xs) zero zero v h = refl
ref_at-set (x ∷ xs) (suc i) (suc j) v h = ground (arith, ref_at-set xs i j v)
ref_at-set (x ∷ xs) zero (suc j) v h = ground arith
ref_at-set (x ∷ xs) (suc i) zero v h = ground arith

pub ref_at-append : (xs ys : List ℕ) (i : ℕ) → i < length xs → ref_at (xs ++ ys) i ≡ ref_at xs i
unfolding ref_at
ref_at-append [] ys i h = absurd (omega arith)
ref_at-append (x ∷ xs) ys zero h = refl
ref_at-append (x ∷ xs) ys (suc i) h = ref_at-append xs ys i (omega arith)

pub ref_at-append_last : (xs : List ℕ) (r : ℕ) → ref_at (xs ++ r ∷ []) (length xs) ≡ r
unfolding ref_at
ref_at-append_last [] r = refl
ref_at-append_last (x ∷ xs) r = ref_at-append_last xs r

pub ref_at-take : (n : ℕ) (xs : List ℕ) (i : ℕ) → i < n → ref_at (take n xs) i ≡ ref_at xs i
unfolding ref_at
ref_at-take zero xs i h = absurd (omega arith)
ref_at-take (suc n) [] i h = refl
ref_at-take (suc n) (x ∷ xs) zero h = refl
ref_at-take (suc n) (x ∷ xs) (suc i) h = ref_at-take n xs i (omega arith)

-- A write trades the old reference for the new one.
pub count-set :
    (r : ℕ) (xs : List ℕ) (i v : ℕ)
    → i < length xs
    → count r (set xs i v) + (if r == ref_at xs i then 1 else 0)
      ≡ count r xs + (if r == v then 1 else 0)
unfolding ref_at count
count-set r [] i v h = absurd (omega arith)
count-set r (x ∷ xs) zero v h = omega arith
count-set r (x ∷ xs) (suc i) v h = omega (arith, count-set r xs i v (omega arith))

pub count-append : (r : ℕ) (xs ys : List ℕ) → count r (xs ++ ys) ≡ count r xs + count r ys
unfolding count
count-append r [] ys = omega arith
count-append r (x ∷ xs) ys = omega (arith, count-append r xs ys)

-- Cutting off the last reference.
pub count-take_last :
    (r n : ℕ) (xs : List ℕ)
    → length xs ≡ suc n
    → count r xs ≡ count r (take n xs) + (if r == ref_at xs n then 1 else 0)
unfolding ref_at count
count-take_last r zero (x ∷ []) h = omega arith
count-take_last r (suc n) (x ∷ xs) h = omega (arith, count-take_last r n xs (omega arith))
count-take_last r n xs h = absurd (omega arith)

-- Where a reference stands that occurs.
pub position :
    (r : ℕ) (xs : List ℕ) → 0 < count r xs → (i : ℕ) × (i < length xs) × (ref_at xs i ≡ r)
unfolding ref_at count
position r [] h = absurd (omega arith)
position r (x ∷ xs) h = elim (Bool-cases (r == x)) [
  | inl e ↦ (0, omega arith, ground arith)
  | inr e ↦ let (i, p, q) = position r xs (ground arith) in (suc i, omega arith, q)
]

pub count-ref_at_pos : (xs : List ℕ) (i : ℕ) → i < length xs → 0 < count (ref_at xs i) xs
unfolding ref_at count
count-ref_at_pos [] i h = absurd (omega arith)
count-ref_at_pos (x ∷ xs) zero h = ground arith
count-ref_at_pos (x ∷ xs) (suc i) h = omega (arith, count-ref_at_pos xs i (omega arith))

abbrev pub IsDistinct : List ℕ → Type 0
IsDistinct xs = (i j : ℕ) → i < length xs → j < length xs → ref_at xs i ≡ ref_at xs j → i ≡ j

absent : (x : ℕ) (xs : List ℕ) → IsDistinct (x ∷ xs) → count x xs ≡ 0
unfolding ref_at
absent x xs d = elim (Bool-cases (ltb 0 (count x xs))) [
  | inl e ↦
      let (i, p, q) = position x xs (ground arith) in
      absurd (omega (arith, d 0 (suc i) (omega arith) (omega arith) (sym q)))
  | inr e ↦ ground arith
]

pub count-le-one : (r : ℕ) (xs : List ℕ) → IsDistinct xs → count r xs ≤ 1
unfolding ref_at count
count-le-one r [] d = omega arith
count-le-one r (x ∷ xs) d =
    let rest : IsDistinct xs =
      λ i j p q e. omega (arith, d (suc i) (suc j) (omega arith) (omega arith) e) in
    elim (Bool-cases (r == x)) [
      | inl e ↦
          let same : r ≡ x = ground arith in
          let gone : count r xs ≡ 0 = rw same (absent x xs d) in ground arith
      | inr e ↦ ground (arith, count-le-one r xs rest)
    ]
