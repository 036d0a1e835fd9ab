-- ===== src/Tracker/Heap/Order.antt =====
-- The order of the queue of pkg/ttlcleaner/tracker.go: no entry expires before its parent.
use opn_box.Base.{ℕ, zero, suc, ◌≤◌, ◌<◌, ◌≡◌, ◌∙◌, Option, some, length, arith}
use opn_box.Tracker.Refs.{ref_at}
use opn_box.Tracker.Queue.{EntryHeap}
use opn_box.Tracker.Heap.{parent}
use opn_box.Tracker.Heap.Swap.{key, IsIndexed, Rearranged, Rearranged-trans}

-- The first `n` places are in order.
abbrev pub IsHeapTo : ℕ → EntryHeap → Type 0
IsHeapTo n h = (c : ℕ) → 0 < c → c < n → key h (parent c) ≤ key h c

abbrev pub IsHeap : EntryHeap → Type 0
IsHeap h = IsHeapTo (length h.pq) h

-- No child of `i` expires before the parent of `i`.
abbrev pub IsBridged : ℕ → EntryHeap → ℕ → Type 0
IsBridged n h i = (c : ℕ) → 0 < c → c < n → parent c ≡ i → 0 < i → key h (parent i) ≤ key h c

-- `b` is `a` with its first `n` places put in order.
pub record Sifted (n : ℕ) (a b : EntryHeap) : Type 0 where
  pub heap : IsHeapTo n b
  pub moved : Rearranged a b
  pub indexed : IsIndexed b
  pub beyond : (c : ℕ) → n ≤ c → ref_at b.pq c ≡ ref_at a.pq c

-- The call returns such a heap.
abbrev pub Sifts : ℕ → EntryHeap → Option EntryHeap → Type 0
Sifts n a r = (b : EntryHeap) × (r ≡ some b) × Sifted n a b

pub Sifted-after :
    {n : ℕ} {a b c : EntryHeap}
    → Rearranged a b
    → ((k : ℕ) → n ≤ k → ref_at b.pq k ≡ ref_at a.pq k)
    → Sifted n b c
    → Sifted n a c
Sifted-after r far s = record {
  heap = s.heap;
  moved = Rearranged-trans r s.moved;
  indexed = s.indexed;
  beyond = λ k l. s.beyond k l ∙ far k l;
}

root_least_below :
    (k n : ℕ) (h : EntryHeap) (i : ℕ) → IsHeapTo n h → i < k → i < n → key h 0 ≤ key h i
root_least_below zero n h i o f p = absurd (omega arith)
root_least_below (suc k) n h i o f p = ground (arith, o i, root_least_below k n h (parent i) o)

-- The first entry of an ordered queue expires no later than any other.
pub root_least : (n : ℕ) (h : EntryHeap) (i : ℕ) → IsHeapTo n h → i < n → key h 0 ≤ key h i
root_least n h i o p = root_least_below (suc i) n h i o (omega arith) p
