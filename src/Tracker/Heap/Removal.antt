-- ===== src/Tracker/Heap/Removal.antt =====
-- `Pop` and `Remove` of `container/heap`, on the queue of pkg/ttlcleaner/tracker.go.
use opn_box.Base.{
  ℕ, suc, ◌+◌, ◌-◌, ◌≤◌, ◌<◌, ◌≡◌, sym, ap, ◌∙◌, Option, some, length, take, arith, ◌==◌,
  if◌then◌else◌, length-take, inl, inr, Bool-cases,
}
use mathlib.Core.Path.{subst}
use opn_box.Tracker.Refs.{ref_at, count, get_elem?-ref_at, ref_at-take, count-take_last}
use opn_box.Tracker.Queue.{Entry, Ref, popped, EntryHeap, set_index, pop}
use opn_box.Tracker.Heap.{parent, heap_pop, heap_remove}
use opn_box.Tracker.Heap.Swap.{
  key, payload, IsIndexed, IsIndexed-IsDistinct, Rearranged, swapped, swap-eq, length-swapped,
  ref_at-swapped, key-swapped, swapped-Rearranged, swapped-IsIndexed,
}
use opn_box.Tracker.Heap.Order.{IsHeapTo, IsHeap, Sifted}
use opn_box.Tracker.Heap.Down.{DownInv, down-Sifts, settle-Sifts}

-- `b` is an ordered queue of the references of `a` without one `r`, and no entry differs but in its
-- place.
pub record Removed (a : EntryHeap) (r : Ref) (b : EntryHeap) : Type 0 where
  pub heap : IsHeap b
  pub indexed : IsIndexed b
  pub size : length a.pq ≡ suc (length b.pq)
  pub same : (s : Ref) → count s a.pq ≡ count s b.pq + (if s == r then 1 else 0)
  pub kept : (s : Ref) → payload (b.entry s) ≡ payload (a.entry s)

Removed-after : {a b c : EntryHeap} {r : Ref} → Rearranged a b → Removed b r c → Removed a r c
Removed-after p q = record {
  heap = q.heap;
  indexed = q.indexed;
  size = sym p.size ∙ q.size;
  same = λ s. sym (p.same s) ∙ q.same s;
  kept = λ s. q.kept s ∙ p.kept s;
}

module _ (g : EntryHeap) (n : ℕ) (size : length g.pq ≡ suc n) (o : IsHeapTo n g)
    (x : IsIndexed g) where
  cut : EntryHeap
  cut = record { pq = take n g.pq; entry = set_index g.entry (ref_at g.pq n) popped }

  pop-eq : pop g ≡ some (ref_at g.pq n, cut)
  unfolding pop cut
  pop-eq =
      let step : length g.pq - 1 ≡ n = omega arith in
      rw step (rw (get_elem?-ref_at g.pq n (omega arith)) (ground arith))

  length-cut : length cut.pq ≡ n
  unfolding cut
  length-cut = length-take n g.pq (omega arith)

  payload-cut : (s : Ref) → payload (cut.entry s) ≡ payload (g.entry s)
  unfolding cut
  payload-cut s = ground arith

  key-cut : (c : ℕ) → c < n → key cut c ≡ key g c
  unfolding cut
  key-cut c l =
      ap (λ (e : Entry). e.expire_at) (payload-cut (ref_at (take n g.pq) c))
      ∙ ap (λ (r : ℕ). (g.entry r).expire_at) (ref_at-take n g.pq c l)

  cut-IsIndexed : IsIndexed cut
  unfolding cut
  cut-IsIndexed c l =
      let inside : c < n = omega (arith, length-cut) in
      let d = IsIndexed-IsDistinct g x n c (omega arith) (omega arith) in
      ground (arith, ref_at-take n g.pq c inside, d, x c (omega arith))

  cut-IsHeap : IsHeap cut
  cut-IsHeap c p q =
      let inside : c < n = omega (arith, length-cut) in
      omega (arith, key-cut c inside, key-cut (parent c) (omega arith), o c p inside)

  count-cut : (s : Ref) → count s g.pq ≡ count s cut.pq + (if s == ref_at g.pq n then 1 else 0)
  unfolding cut
  count-cut s = count-take_last s n g.pq size

  pop-Removed : Removed g (ref_at g.pq n) cut
  pop-Removed = record {
    heap = cut-IsHeap;
    indexed = cut-IsIndexed;
    size = omega (arith, length-cut);
    same = count-cut;
    kept = payload-cut;
  }

-- The call returns the reference `r` and a queue without it.
abbrev pub Removes : EntryHeap → Ref → Option (Ref × EntryHeap) → Type 0
Removes h r o = (b : EntryHeap) × (o ≡ some (r, b)) × Removed h r b

-- The last step of `Pop` and `Remove`, behind a sift of the first `n` places.
popped_last :
    (h a g : EntryHeap) (n r : ℕ)
    → Rearranged h a
    → Sifted n a g
    → length h.pq ≡ suc n
    → ref_at a.pq n ≡ r
    → Removes h r (pop g)
popped_last h a g n r p s size e =
    let long : length g.pq ≡ suc n = s.moved.size ∙ p.size ∙ size in
    let same : ref_at g.pq n ≡ r = s.beyond n (omega arith) ∙ e in
    let done = pop-Removed g n long s.heap s.indexed in
    rw (← same) (
      cut g n long s.heap s.indexed,
      pop-eq g n long s.heap s.indexed,
      Removed-after p (Removed-after s.moved done),
    )

module _ (h : EntryHeap) (o : IsHeap h) (x : IsIndexed h) (n : ℕ) (size : length h.pq ≡ suc n) where
  module _ (i : ℕ) (l : i ≤ n) where
    first : i < length h.pq
    first = omega arith

    end : n < length h.pq
    end = omega arith

    -- The last entry, put in the place of another, may be anywhere.
    replaced-DownInv : DownInv n (swapped h i n) i
    replaced-DownInv =
        let at = key-swapped h i n first end in
        record {
          fits = omega (arith, length-swapped h i n first end);
          edges = λ c p q r s. ground (arith, at c, at (parent c), o c);
          bridged = λ c p q r s. ground (arith, at c, at (parent i), o c, o i);
        }

    replaced-IsIndexed : IsIndexed (swapped h i n)
    replaced-IsIndexed = swapped-IsIndexed h i n first end x

    replaced_last : ref_at (swapped h i n).pq n ≡ ref_at h.pq i
    replaced_last = ground (arith, ref_at-swapped h i n first end n)

  -- `heap.Pop` returns the first entry.
  pop_first : Removes h (ref_at h.pq 0) (heap_pop h)
  unfolding heap_pop
  pop_first =
      let (g, moved, ran, s) =
        down-Sifts n (swapped h 0 n) 0 (replaced-DownInv 0 (omega arith))
          (λ p q. absurd (omega arith)) (replaced-IsIndexed 0 (omega arith)) in
      let (b, made, done) =
        popped_last h (swapped h 0 n) g n (ref_at h.pq 0)
          (swapped-Rearranged h 0 n (first 0 (omega arith)) (end 0 (omega arith))) s size
          (replaced_last 0 (omega arith)) in
      let step : length h.pq - 1 ≡ n = omega arith in
      (
        b,
        rw step (
            ground (arith, swap-eq h 0 n (first 0 (omega arith)) (end 0 (omega arith)), ran, made)),
        done,
      )

  remove_last : Removes h (ref_at h.pq n) (heap_remove h n)
  unfolding heap_remove
  remove_last =
      let step : length h.pq - 1 ≡ n = omega arith in
      let inner : IsHeapTo n h = λ c p q. o c p (omega arith) in
      (
        cut h n size inner x,
        rw step (ground (arith, pop-eq h n size inner x)),
        pop-Removed h n size inner x,
      )

  remove_inner : (i : ℕ) → i < n → Removes h (ref_at h.pq i) (heap_remove h i)
  unfolding heap_remove
  remove_inner i l =
      let p = first i (omega arith) in
      let q = end i (omega arith) in
      let (g, ran, s) =
        settle-Sifts n (swapped h i n) i (replaced-DownInv i (omega arith))
          (replaced-IsIndexed i (omega arith)) l in
      let (b, made, done) =
        popped_last h (swapped h i n) g n (ref_at h.pq i) (swapped-Rearranged h i n p q) s size
          (replaced_last i (omega arith)) in
      let step : length h.pq - 1 ≡ n = omega arith in
      (b, rw step (ground (arith, swap-eq h i n p q, ran, made)), done)

-- On an ordered queue that is not empty, whose entries know their places, `heap.Pop` does not panic,
-- returns the first entry and leaves such a queue of the others, changed in their places alone.
pub heap_pop-Removes :
    (h : EntryHeap)
    → IsHeap h
    → IsIndexed h
    → 0 < length h.pq
    → Removes h (ref_at h.pq 0) (heap_pop h)
heap_pop-Removes h o x l = pop_first h o x (length h.pq - 1) (omega arith)

-- On an ordered queue, whose entries know their places, `heap.Remove` of a place in it does not panic,
-- returns the entry that stood there and leaves such a queue of the others, changed in their places
-- alone.
pub heap_remove-Removes :
    (h : EntryHeap) (i : ℕ)
    → IsHeap h
    → IsIndexed h
    → i < length h.pq
    → Removes h (ref_at h.pq i) (heap_remove h i)
heap_remove-Removes h i o x l =
    let n = length h.pq - 1 in
    let size : length h.pq ≡ suc n = omega arith in
    elim (Bool-cases (i == n)) [
      | inl e ↦
          let same : i ≡ n = ground arith in
          subst (λ k. Removes h (ref_at h.pq k) (heap_remove h k)) (sym same)
            (remove_last h o x n size)
      | inr e ↦ remove_inner h o x n size i (ground arith)
    ]
