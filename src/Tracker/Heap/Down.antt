-- ===== src/Tracker/Heap/Down.antt =====
-- `down` of `container/heap`, and `down` with `up` behind it, on the queue of
-- pkg/ttlcleaner/tracker.go.
use opn_box.Base.{
  ℕ, zero, suc, ◌+◌, ◌*◌, ◌≤◌, ◌<◌, ◌≡◌, ◌≢◌, refl, ◌⊎◌, inl, inr, Bool, false, Option, none, some,
  length, arith, ltb, leb, if◌then◌else◌,
}
use native.Mathlib.Numerals.{add-one}
use opn_box.Tracker.Queue.{EntryHeap}
use opn_box.Tracker.Heap.{parent, sinks, down_loop, down, settle, up}
use opn_box.Tracker.Heap.Swap.{
  key, IsIndexed, swapped, swap-eq, length-swapped, ref_at-swapped, key-swapped, swapped-Rearranged,
  swapped-IsIndexed, Rearranged-refl,
}
use opn_box.Tracker.Heap.Order.{IsBridged, Sifted, Sifts, Sifted-after}
use opn_box.Tracker.Heap.Up.{less-eq, up-Sifts, UpInv}

-- The child that `down` swaps with.
pick : EntryHeap → ℕ → ℕ → Option ℕ
pick h i n =
    let left = 2 * i + 1 in
    let right = left + 1 in
    let smaller = if ltb right n then ltb (key h right) (key h left) else false in
    let j = if smaller then right else left in
    if leb n left then none else if ltb (key h j) (key h i) then some j else none

sinks-eq : (h : EntryHeap) (i n : ℕ) → n ≤ length h.pq → sinks h i n ≡ some (pick h i n)
unfolding sinks pick
sinks-eq h i n f = ground (
  arith,
  less-eq h (2 * i + 1 + 1) (2 * i + 1),
  less-eq h (2 * i + 1) i,
  less-eq h (2 * i + 1 + 1) i,
)

children : (c i : ℕ) → 0 < c → parent c ≡ i → (c ≡ 2 * i + 1) ⊎ (c ≡ 2 * i + 1 + 1)
children c i p r = omega arith

pick-none :
    (h : EntryHeap) (i n : ℕ)
    → pick h i n ≡ none
    → (c : ℕ) → 0 < c
    → c < n
    → parent c ≡ i
    → key h i ≤ key h c
unfolding pick
pick-none h i n e c p q r = elim (children c i p r) [
  | inl same ↦ rw same (ground arith)
  | inr same ↦ rw same (ground arith)
]

record Picked (h : EntryHeap) (i n j : ℕ) : Type 0 where
  up_is : parent j ≡ i
  later : i < j
  inside : j < n
  below : key h j < key h i
  least : (c : ℕ) → 0 < c → c < n → parent c ≡ i → key h j ≤ key h c

pick-some : (h : EntryHeap) (i n j : ℕ) → pick h i n ≡ some j → Picked h i n j
unfolding pick
pick-some h i n j e = record {
  up_is = ground arith;
  later = ground arith;
  inside = ground arith;
  below = ground arith;
  least = λ c p q r. elim (children c i p r) [
    | inl same ↦ rw same (ground arith)
    | inr same ↦ rw same (ground arith)
  ];
}

-- Of the place `i` alone, the edges above and below may be out of order.
pub record DownInv (n : ℕ) (h : EntryHeap) (i : ℕ) : Type 0 where
  pub fits : n ≤ length h.pq
  pub edges : (c : ℕ) → 0 < c → c < n → c ≢ i → parent c ≢ i → key h (parent c) ≤ key h c
  pub bridged : IsBridged n h i

module _ (n : ℕ) (h : EntryHeap) (i j : ℕ) (v : DownInv n h i) (u : Picked h i n j) where
  from : i < length h.pq
  from = omega (arith, v.fits, u.later, u.inside)

  to : j < length h.pq
  to = omega (arith, v.fits, u.inside)

  -- After the swap all edges but those below `j` are in order.
  sunk_edges :
      (c : ℕ)
      → 0 < c
      → c < n
      → parent c ≢ j
      → key (swapped h i j) (parent c) ≤ key (swapped h i j) c
  sunk_edges c p q r =
      let at = key-swapped h i j from to in
      ground (
        arith,
        at c,
        at (parent c),
        v.edges c,
        v.bridged j,
        u.least c,
        u.up_is,
        u.later,
        u.inside,
        u.below,
      )

  sunk-DownInv : DownInv n (swapped h i j) j
  sunk-DownInv =
      let at = key-swapped h i j from to in
      record {
        fits = omega (arith, v.fits, length-swapped h i j from to);
        edges = λ c p q r s. sunk_edges c p q s;
        bridged = λ c p q r s. ground (arith, at c, at (parent j), v.edges c, u.up_is, u.later);
      }

-- The loop from a place whose upper edge is in order ends in an ordered queue, further down.
abbrev Sinks : ℕ → EntryHeap → ℕ → Option (EntryHeap × ℕ) → Type 0
Sinks n h i r = (b : EntryHeap) × (e : ℕ) × (r ≡ some (b, e)) × (i ≤ e) × Sifted n h b

abbrev UpperEdge : ℕ → EntryHeap → ℕ → Type 0
UpperEdge n h i = 0 < i → i < n → key h (parent i) ≤ key h i

module _ (k n : ℕ) (h : EntryHeap) (i : ℕ) (v : DownInv n h i) where
  Sinks-stop :
      pick h i n ≡ none → UpperEdge n h i → IsIndexed h → Sinks n h i (down_loop (suc k) h i n)
  unfolding down_loop
  Sinks-stop e o x = (
    h,
    i,
    rw (sinks-eq h i n v.fits, e),
    omega arith,
    record {
      heap = λ c p q. ground (arith, v.edges c, pick-none h i n e c);
      moved = Rearranged-refl h;
      indexed = x;
      beyond = λ c l. refl;
    },
  )

  Sinks-swap :
      (j : ℕ)
      → pick h i n ≡ some j
      → Picked h i n j
      → Sinks n (swapped h i j) j (down_loop k (swapped h i j) j n)
      → Sinks n h (suc i) (down_loop (suc k) h i n)
  unfolding down_loop
  Sinks-swap j e u (b, z, ran, far, s) =
      let p = from n h i j v u in
      let q = to n h i j v u in
      (
        b,
        z,
        rw (sinks-eq h i n v.fits, e, swap-eq h i j p q) ran,
        omega (arith, u.later),
        Sifted-after (swapped-Rearranged h i j p q)
            (λ c l. ground (arith, u.later, u.inside, ref_at-swapped h i j p q c)) s,
      )

module _ (k n : ℕ) (h : EntryHeap) (i : ℕ) (f : n < suc k + i) (v : DownInv n h i)
    (x : IsIndexed h) where
  -- The loop once an entry was picked, from the result for the place below.
  Picked-Sinks :
      (j : ℕ)
      → pick h i n ≡ some j
      → (n < k + j
          → DownInv n (swapped h i j) j
          → UpperEdge n (swapped h i j) j
          → IsIndexed (swapped h i j)
          → Sinks n (swapped h i j) j (down_loop k (swapped h i j) j n))
      → Sinks n h (suc i) (down_loop (suc k) h i n)
  Picked-Sinks j e rest =
      let u = pick-some h i n j e in
      Sinks-swap k n h i v j e u (
        rest (omega (arith, u.later)) (sunk-DownInv n h i j v u)
          (λ p q. sunk_edges n h i j v u j p q (omega arith))
          (swapped-IsIndexed h i j (from n h i j v u) (to n h i j v u) x))

Sinks-weaken :
    {n i j : ℕ} {h : EntryHeap} {r : Option (EntryHeap × ℕ)} → i ≤ j → Sinks n h j r → Sinks n h i r
Sinks-weaken l (b, z, ran, far, s) = (b, z, ran, omega arith, s)

-- The loop with `k` rounds does what is wanted, from every place.
abbrev LoopSinks : ℕ → ℕ → Type 0
LoopSinks k n =
    (h : EntryHeap) (i : ℕ)
    → n < k + i
    → 0 < k
    → DownInv n h i
    → UpperEdge n h i
    → IsIndexed h
    → Sinks n h i (down_loop k h i n)

module _ (k n : ℕ) (h : EntryHeap) (i : ℕ) (v : DownInv n h i) (x : IsIndexed h)
    (rest : LoopSinks k n) where
  -- One round that picks an entry, and the rounds after it.
  Sinks-some :
      (j : ℕ) → n < suc k + i → pick h i n ≡ some j → Sinks n h (suc i) (down_loop (suc k) h i n)
  Sinks-some j f e =
      let u = pick-some h i n j e in
      Picked-Sinks k n h i f v x j e (λ g. rest (swapped h i j) j g (omega (arith, u.inside)))

  Sinks-step :
      (r : Option ℕ)
      → n < suc k + i
      → pick h i n ≡ r
      → UpperEdge n h i
      → Sinks n h i (down_loop (suc k) h i n)
  Sinks-step none f e o = Sinks-stop k n h i v e o x
  Sinks-step (some j) f e o = Sinks-weaken (omega arith) (Sinks-some j f e)

down_loop-Sinks : (k n : ℕ) → LoopSinks k n
down_loop-Sinks zero n h i f g v o x = absurd (omega arith)
down_loop-Sinks (suc k) n h i f g v o x =
    Sinks-step k n h i v x (down_loop-Sinks k n) (pick h i n) f refl o

-- `down` puts a queue in order of which one entry may expire too late for its place.
pub down-Sifts :
    (n : ℕ) (h : EntryHeap) (i : ℕ)
    → DownInv n h i
    → UpperEdge n h i
    → IsIndexed h
    → (b : EntryHeap) × (moved : Bool) × (down h i n ≡ some (b, moved)) × Sifted n h b
unfolding down
down-Sifts n h i v o x =
    let (b, z, ran, far, s) = down_loop-Sinks (n + 1) n h i (omega arith) (omega arith) v o x in
    (b, ltb i z, rw ran, s)

settle-stopped :
    (n : ℕ) (h : EntryHeap) (i : ℕ) → down_loop (suc n) h i n ≡ some (h, i) → settle h i n ≡ up h i
unfolding settle down
settle-stopped n h i e = rw (add-one, e) (ground arith)

settle-moved :
    (n : ℕ) (h b : EntryHeap) (i z : ℕ)
    → down_loop (suc n) h i n ≡ some (b, z)
    → i < z
    → settle h i n ≡ some b
unfolding settle down
settle-moved n h b i z e l = rw (add-one, e) (ground arith)

module _ (n : ℕ) (h : EntryHeap) (i : ℕ) (v : DownInv n h i) (x : IsIndexed h) (l : i < n) where
  stays : pick h i n ≡ none → down_loop (suc n) h i n ≡ some (h, i)
  unfolding down_loop
  stays e = rw (sinks-eq h i n v.fits, e)

  settle-stays : pick h i n ≡ none → Sifts n h (settle h i n)
  settle-stays e =
      let up_inv : UpInv n h i = record {
        inside = l;
        fits = v.fits;
        edges = λ c p q r. ground (arith, v.edges c, pick-none h i n e c);
        bridged = v.bridged;
      } in
      rw (settle-stopped n h i (stays e)) (up-Sifts n h i up_inv x)

  settle-sinks : (j : ℕ) → pick h i n ≡ some j → Sifts n h (settle h i n)
  settle-sinks j e =
      let (b, z, ran, far, s) = Sinks-some n n h i v x (down_loop-Sinks n n) j (omega arith) e in
      (b, settle-moved n h b i z ran far, s)

  settle-by : (r : Option ℕ) → pick h i n ≡ r → Sifts n h (settle h i n)
  settle-by none e = settle-stays e
  settle-by (some j) e = settle-sinks j e

  -- `down`, and `up` if that moved nothing, puts a queue in order of which one entry is anywhere.
  pub settle-Sifts : Sifts n h (settle h i n)
  settle-Sifts = settle-by (pick h i n) refl
