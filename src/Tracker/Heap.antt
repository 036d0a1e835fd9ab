-- ===== src/Tracker/Heap.antt =====
-- The functions of Go's `container/heap` that pkg/ttlcleaner/tracker.go calls, over its `entryHeap`.
-- The loops take fuel; out of fuel is `none`, like a panic, and the theorems exclude both.
pub mod Swap
pub mod Order
pub mod Up
pub mod Down
pub mod Removal
pub mod Insertion
use opn_box.Base.{
  ℕ, zero, suc, ◌+◌, ◌-◌, ◌*◌, ◌/◌, Bool, false, ◌||◌, not, Option, none, some, length, ltb, leb,
  ◌==◌, if◌then◌else◌,
}
use opn_box.Tracker.Queue.{Ref, EntryHeap, less, swap, push, pop, ◌>>=◌}

abbrev pub parent : ℕ → ℕ
parent j = (j - 1) / 2

-- Whether `up` goes on from `j`: `i == j || !h.Less(j, i)` is the loop's exit.
unfoldable pub rises : EntryHeap → ℕ → Option Bool
rises h j = if parent j == j then some false else less h j (parent j)

unfoldable pub up_loop : ℕ → EntryHeap → ℕ → Option EntryHeap
up_loop zero h j = none
up_loop (suc k) h j = do
  going ← rises h j
  let rest = swap h (parent j) j >>= λ h'. up_loop k h' (parent j)
  if going then rest else some h

-- `up`
unfoldable pub up : EntryHeap → ℕ → Option EntryHeap
up h j = up_loop (j + 1) h j

-- The child of `i` below `n` that `down` swaps with, if it goes on.
unfoldable pub sinks : EntryHeap → ℕ → ℕ → Option (Option ℕ)
sinks h i n =
    let left = 2 * i + 1 in
    let right = left + 1 in
    if leb n left then some none else do
      smaller ← if ltb right n then less h right left else some false
      let j = if smaller then right else left
      below ← less h j i
      some (if below then some j else none)

-- The loop of `down`, with the place at which it stops.
unfoldable pub down_loop : ℕ → EntryHeap → ℕ → ℕ → Option (EntryHeap × ℕ)
down_loop zero h i n = none
down_loop (suc k) h i n = do
  next ← sinks h i n
  elim next [ none ↦ some (h, i) | some j ↦ swap h i j >>= λ h'. down_loop k h' j n ]

-- `down`: whether the entry moved is its result.
unfoldable pub down : EntryHeap → ℕ → ℕ → Option (EntryHeap × Bool)
down h i n = do (h', i') ← down_loop (n + 1) h i n; some (h', ltb i i')

-- `if !down(h, i, n) { up(h, i) }`
unfoldable pub settle : EntryHeap → ℕ → ℕ → Option EntryHeap
settle h i n = do (h', moved) ← down h i n; if moved then some h' else up h' i

-- `heap.Push`
unfoldable pub heap_push : EntryHeap → Ref → Option EntryHeap
heap_push h r = let h' = push h r in up h' (length h'.pq - 1)

-- `heap.Pop`
unfoldable pub heap_pop : EntryHeap → Option (Ref × EntryHeap)
heap_pop h =
    let n = length h.pq - 1 in
    if length h.pq == 0 then none else do h' ← swap h 0 n; (h'', _) ← down h' 0 n; pop h''

-- `heap.Remove`
unfoldable pub heap_remove : EntryHeap → ℕ → Option (Ref × EntryHeap)
heap_remove h i =
    let n = length h.pq - 1 in
    if length h.pq == 0
    then none
    else do h' ← if not (n == i) then (do g ← swap h i n; settle g i n) else some h; pop h'

-- `heap.Fix`
unfoldable pub heap_fix : EntryHeap → ℕ → Option EntryHeap
heap_fix h i = settle h i (length h.pq)
