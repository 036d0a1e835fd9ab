-- ===== src/Tracker/Heap/Insertion.antt =====
-- `Push` and `Fix` of `container/heap`, on the queue of pkg/ttlcleaner/tracker.go.
use opn_box.Base.{
  ℕ, suc, ◌+◌, ◌-◌, ◌<◌, ◌≡◌, ap, ◌∙◌, some, [], ◌∷◌, length, arith, ◌==◌, if◌then◌else◌,
  length-append, inl, inr, Bool-cases,
}
use opn_box.Tracker.Refs.{
  ref_at, count, ref_at-append, ref_at-append_last, count-append, count-ref_at_pos,
}
use opn_box.Tracker.Queue.{Entry, Ref, EntryHeap, push}
use opn_box.Tracker.Heap.{parent, heap_push, heap_fix}
use opn_box.Tracker.Heap.Swap.{payload, IsIndexed}
use opn_box.Tracker.Heap.Order.{IsHeap, Sifted, Sifts}
use opn_box.Tracker.Heap.Up.{UpInv, up-Sifts}
use opn_box.Tracker.Heap.Down.{DownInv, settle-Sifts}

-- On a queue whose entries know their places, and which is in order but for the one at a place in it,
-- `heap.Fix` does not panic and gives an ordered queue of the same entries, changed in their places
-- alone.
pub heap_fix-Sifts :
    (h : EntryHeap) (i : ℕ)
    → DownInv (length h.pq) h i
    → IsIndexed h
    → i < length h.pq
    → Sifts (length h.pq) h (heap_fix h i)
unfolding heap_fix
heap_fix-Sifts h i v x l = settle-Sifts (length h.pq) h i v x l

-- `b` is an ordered queue of the references of `a` and one more.
pub record Pushed (a : EntryHeap) (r : Ref) (b : EntryHeap) : Type 0 where
  pub heap : IsHeap b
  pub indexed : IsIndexed b
  pub size : length b.pq ≡ suc (length a.pq)
  pub same : (s : Ref) → count s b.pq ≡ count s a.pq + (if s == r then 1 else 0)
  pub kept : (s : Ref) → payload (b.entry s) ≡ payload (a.entry s)

module _ (h : EntryHeap) (r : Ref) (o : IsHeap h) (x : IsIndexed h) (fresh : count r h.pq ≡ 0) where
  length-push : length (push h r).pq ≡ suc (length h.pq)
  unfolding push
  length-push = omega (arith, length-append h.pq (r ∷ []))

  payload-push : (s : Ref) → payload ((push h r).entry s) ≡ payload (h.entry s)
  unfolding push
  payload-push s = ground arith

  ref_at-push : (c : ℕ) → c < length h.pq → ref_at (push h r).pq c ≡ ref_at h.pq c
  unfolding push
  ref_at-push c l = ref_at-append h.pq (r ∷ []) c l

  push-IsIndexed : IsIndexed (push h r)
  unfolding push
  push-IsIndexed c l = elim (Bool-cases (c == length h.pq)) [
    | inl e ↦
        let same : c ≡ length h.pq = ground arith in
        rw (same, ref_at-append_last h.pq r) (ground arith)
    | inr e ↦
        let inside : c < length h.pq = ground (arith, length-append h.pq (r ∷ [])) in
        rw (ref_at-append h.pq (r ∷ []) c inside) (
          ground (
            arith,
            x c inside,
            ap (λ (s : ℕ). count s h.pq),
            count-ref_at_pos h.pq c inside,
            fresh,
          ))
  ]

  count-push : (s : Ref) → count s (push h r).pq ≡ count s h.pq + (if s == r then 1 else 0)
  unfolding push count
  count-push s = omega (arith, count-append s h.pq (r ∷ []))

  pushed-UpInv : UpInv (length (push h r).pq) (push h r) (length (push h r).pq - 1)
  pushed-UpInv =
      let keys = λ (c : ℕ) (l : c < length h.pq).
        ap (λ (e : Entry). e.expire_at) (payload-push (ref_at (push h r).pq c))
        ∙ ap (λ (s : ℕ). (h.entry s).expire_at) (ref_at-push c l) in
      record {
        inside = omega (arith, length-push);
        fits = omega arith;
        edges = λ c p q s.
            let inside : c < length h.pq = omega (arith, length-push) in
            omega (arith, keys c inside, keys (parent c) (omega arith), o c p inside);
        bridged = λ c p q s t. absurd (omega (arith, length-push));
      }

  Pushed-Sifted : (b : EntryHeap) → Sifted (length (push h r).pq) (push h r) b → Pushed h r b
  Pushed-Sifted b s = record {
    heap = rw s.moved.size (s.heap);
    indexed = s.indexed;
    size = s.moved.size ∙ length-push;
    same = λ t. s.moved.same t ∙ count-push t;
    kept = λ t. s.moved.kept t ∙ payload-push t;
  }

-- On an ordered queue, whose entries know their places, `heap.Push` of an entry that is not in it does
-- not panic and gives such a queue of one entry more, the others changed in their places alone.
pub heap_push-Pushed :
    (h : EntryHeap) (r : Ref)
    → IsHeap h
    → IsIndexed h
    → count r h.pq ≡ 0
    → (b : EntryHeap) × (heap_push h r ≡ some b) × Pushed h r b
unfolding heap_push
heap_push-Pushed h r o x fresh =
    let (b, ran, s) =
      up-Sifts (length (push h r).pq) (push h r) (length (push h r).pq - 1)
        (pushed-UpInv h r o x fresh) (push-IsIndexed h r o x fresh) in
    (b, ran, Pushed-Sifted h r o x fresh b s)
