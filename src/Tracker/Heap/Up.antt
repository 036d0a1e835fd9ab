-- ===== src/Tracker/Heap/Up.antt =====
-- `up` of `container/heap`, on the queue of pkg/ttlcleaner/tracker.go.
use opn_box.Base.{
  ℕ, zero, suc, ◌+◌, ◌≤◌, ◌<◌, ◌≡◌, ◌≢◌, refl, true, false, some, length, arith, ltb, ◌==◌, inl,
  inr, Bool-cases, if◌then◌else◌,
}
use opn_box.Tracker.Refs.{get_elem?-ref_at}
use opn_box.Tracker.Queue.{EntryHeap, less}
use opn_box.Tracker.Heap.{parent, rises, up_loop, up}
use opn_box.Tracker.Heap.Swap.{
  key, IsIndexed, swapped, swap-eq, length-swapped, ref_at-swapped, key-swapped, swapped-Rearranged,
  swapped-IsIndexed, Rearranged-refl,
}
use opn_box.Tracker.Heap.Order.{IsBridged, Sifts, Sifted-after}

pub less-eq :
    (h : EntryHeap) (i j : ℕ)
    → i < length h.pq
    → j < length h.pq
    → less h i j ≡ some (ltb (key h i) (key h j))
unfolding less
less-eq h i j p q = rw (get_elem?-ref_at h.pq i p, get_elem?-ref_at h.pq j q)

-- Only the edge above `j` may be out of order.
pub record UpInv (n : ℕ) (h : EntryHeap) (j : ℕ) : Type 0 where
  pub inside : j < n
  pub fits : n ≤ length h.pq
  pub edges : (c : ℕ) → 0 < c → c < n → c ≢ j → key h (parent c) ≤ key h c
  pub bridged : IsBridged n h j

module _ (n : ℕ) (h : EntryHeap) (j : ℕ) (v : UpInv n h j) where
  rises-eq : rises h j ≡ some (if parent j == j then false else ltb (key h j) (key h (parent j)))
  unfolding rises
  rises-eq = ground (arith, v.inside, v.fits, less-eq h j (parent j))

  risen-UpInv : 0 < j → key h j < key h (parent j) → UpInv n (swapped h (parent j) j) (parent j)
  risen-UpInv pos below =
      let above : parent j < length h.pq = omega arith in
      let here : j < length h.pq = omega arith in
      let at = key-swapped h (parent j) j above here in
      record {
        inside = omega arith;
        fits = omega (arith, length-swapped h (parent j) j above here);
        edges = λ c p q r.
            ground (arith, at c, at (parent c), v.edges c, v.edges (parent j), v.bridged c);
        bridged = λ c p q r s.
            ground
              (arith, at c, at (parent (parent j)), v.edges c, v.edges (parent j), v.bridged c);
      }

  above : 0 < j → parent j < length h.pq
  above pos = omega (arith, v.inside, v.fits)

  here : j < length h.pq
  here = omega (arith, v.inside, v.fits)

  Sifts-risen :
      (k : ℕ)
      → 0 < j
      → (if parent j == j then false else ltb (key h j) (key h (parent j))) ≡ true
      → Sifts n (swapped h (parent j) j) (up_loop k (swapped h (parent j) j) (parent j))
      → Sifts n h (up_loop (suc k) h j)
  unfolding up_loop
  Sifts-risen k pos e (b, ran, s) =
      let p = above pos in
      (
        b,
        rw (rises-eq, e, swap-eq h (parent j) j p here) ran,
        Sifted-after (swapped-Rearranged h (parent j) j p here)
            (λ c l. ground (arith, v.inside, ref_at-swapped h (parent j) j p here c)) s,
      )

  Sifts-settled :
      (k : ℕ)
      → (if parent j == j then false else ltb (key h j) (key h (parent j))) ≡ false
      → IsIndexed h
      → Sifts n h (up_loop (suc k) h j)
  unfolding up_loop
  Sifts-settled k e x = (
    h,
    rw (rises-eq, e),
    record {
      heap = λ c p q. ground (arith, v.edges c);
      moved = Rearranged-refl h;
      indexed = x;
      beyond = λ c l. refl;
    },
  )

up_loop-Sifts :
    (k n : ℕ) (h : EntryHeap) (j : ℕ)
    → j < k
    → UpInv n h j
    → IsIndexed h
    → Sifts n h (up_loop k h j)
up_loop-Sifts zero n h j f v x = absurd (omega arith)
up_loop-Sifts (suc k) n h j f v x =
    elim (Bool-cases (if parent j == j then false else ltb (key h j) (key h (parent j)))) [
      | inl e ↦
          let pos : 0 < j = ground arith in
          Sifts-risen n h j v k pos e (
            up_loop-Sifts k n (swapped h (parent j) j) (parent j) (omega arith)
              (risen-UpInv n h j v pos (ground arith))
              (swapped-IsIndexed h (parent j) j (above n h j v pos) (here n h j v) x))
      | inr e ↦ Sifts-settled n h j v k e x
    ]

-- `up` puts a queue in order of which one entry may expire too early for its place.
pub up-Sifts : (n : ℕ) (h : EntryHeap) (j : ℕ) → UpInv n h j → IsIndexed h → Sifts n h (up h j)
unfolding up
up-Sifts n h j v x = up_loop-Sifts (j + 1) n h j (omega arith) v x
