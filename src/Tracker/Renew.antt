-- ===== src/Tracker/Renew.antt =====
-- pkg/ttlcleaner/tracker.go: `AddOrRenew` on an address that is tracked.
use opn_box.Base.{
  ℕ, ◌≤◌, ◌<◌, ◌≡◌, ◌≢◌, refl, ap, ◌∙◌, true, false, ◌&&◌, some, length, arith, ltb, ◌==◌,
  if◌then◌else◌, inl, inr, Bool-cases,
}
use opn_box.Tracker.Refs.{ref_at, count}
use opn_box.Tracker.Queue.{Ref, EntryHeap}
use opn_box.Tracker.Heap.{parent, heap_fix}
use opn_box.Tracker.Heap.Swap.{key, IsIndexed, IsIndexed-IsDistinct}
use opn_box.Tracker.Heap.Order.{IsHeap, Sifted}
use opn_box.Tracker.Heap.Down.{DownInv}
use opn_box.Tracker.Heap.Insertion.{heap_fix-Sifts}
use opn_box.Tracker.{Tracker, renew, increment, postponed}
use opn_box.Tracker.Invariant.{IsTracked, located, Rearranged-fields, Renames, Renames-IsTracked}

module _ (h : EntryHeap) (r : Ref) (e i : ℕ) (o : IsHeap h) (x : IsIndexed h) (l : i < length h.pq)
    (at : ref_at h.pq i ≡ r) where
  postponed-IsIndexed : IsIndexed (postponed h r e)
  unfolding postponed
  postponed-IsIndexed c p = ground (arith, x c p)

  key-postponed : (c : ℕ) → c < length h.pq → c ≢ i → key (postponed h r e) c ≡ key h c
  unfolding postponed
  key-postponed c p n = let d = IsIndexed-IsDistinct h x c i p l in ground (arith, d, at)

  postponed_edges :
      (c : ℕ)
      → 0 < c
      → c < length h.pq
      → c ≢ i
      → parent c ≢ i
      → key (postponed h r e) (parent c) ≤ key (postponed h r e) c
  postponed_edges c p q n m =
      omega (arith, key-postponed c q n, key-postponed (parent c) (omega arith) m, o c p q)

  postponed_bridge :
      (c : ℕ)
      → 0 < c
      → c < length h.pq
      → parent c ≡ i
      → 0 < i
      → key (postponed h r e) (parent i) ≤ key (postponed h r e) c
  postponed_bridge c p q n m =
      let first = key-postponed c q (omega arith) in
      let second = key-postponed (parent i) (omega arith) (omega arith) in
      let upper = o i m l in
      let lower = ap (λ (k : ℕ). key h k) n in omega (arith, first, second, upper, lower, o c p q)

  postponed-DownInv : DownInv (length (postponed h r e).pq) (postponed h r e) i
  unfolding postponed
  postponed-DownInv = record {
    fits = omega arith;
    edges = postponed_edges;
    bridged = postponed_bridge;
  }

  -- `heap.Fix` after the change.
  postponed_fixed :
      (b : EntryHeap) × (heap_fix (postponed h r e) i ≡ some b)
      × Sifted (length (postponed h r e).pq) (postponed h r e) b
  postponed_fixed =
      heap_fix-Sifts (postponed h r e) i postponed-DownInv postponed-IsIndexed
        (unfold postponed in l)

-- What `AddOrRenew` does to a tracked address: the tracker stays consistent, and its expiry becomes
-- the later one, while every other address keeps its own.
pub record Renewed (t : Tracker) (r : Ref) (e : ℕ) (t' : Tracker) : Type 0 where
  pub valid : IsTracked t'
  pub tables : t'.tables ≡ t.tables
  pub next : t'.next ≡ t.next
  pub expires :
      (s : Ref)
      → (t'.heap.entry s).expire_at
        ≡ (if r == s && ltb (t.heap.entry r).expire_at e then e else (t.heap.entry s).expire_at)

postponed-expires :
    (h : EntryHeap) (r : Ref) (e : ℕ) (s : Ref)
    → ((postponed h r e).entry s).expire_at ≡ (if r == s then e else (h.entry s).expire_at)
unfolding postponed
postponed-expires h r e s = ground arith

postponed-names :
    (h : EntryHeap) (r : Ref) (e : ℕ) (s : Ref)
    → (((postponed h r e).entry s).table ≡ (h.entry s).table)
      × (((postponed h r e).entry s).ip_str ≡ (h.entry s).ip_str)
      × (((postponed h r e).entry s).raw_ip ≡ (h.entry s).raw_ip)
unfolding postponed
postponed-names h r e s = ground arith

module _ (t : Tracker) (r : Ref) (e : ℕ) (v : IsTracked t) (tracked : 0 < count r t.heap.pq) where
  Renames-fixed :
      (b : EntryHeap)
      → Sifted (length (postponed t.heap r e).pq) (postponed t.heap r e) b
      → Renames t.heap b
  Renames-fixed b s = record {
    heap = rw s.moved.size s.heap;
    indexed = s.indexed;
    same = λ u. s.moved.same u ∙ unfold postponed in refl;
    size = s.moved.size ∙ unfold postponed in refl;
    table = λ u.
        (Rearranged-fields (postponed t.heap r e) b s.moved u).0 ∙ (postponed-names t.heap r e u).0;
    ip_str = λ u.
        (Rearranged-fields (postponed t.heap r e) b s.moved u).1 ∙ (postponed-names t.heap r e u).1;
    raw_ip = λ u.
        (Rearranged-fields (postponed t.heap r e) b s.moved u).2 ∙ (postponed-names t.heap r e u).2;
  }

  Renewed-later :
      ltb (t.heap.entry r).expire_at e ≡ true
      → (t' : Tracker) × (renew t r e ≡ some (t', false)) × Renewed t r e t'
  unfolding renew
  Renewed-later later =
      let (i, l, at, x) = located t.heap r v.indexed tracked in
      let (b, ran, s) = postponed_fixed t.heap r e i v.heap v.indexed l at in
      (
        record t { heap = b; total_renewed = increment t.total_renewed },
        rw (later, x, ran) refl,
        record {
          valid = Renames-IsTracked t b (increment t.total_renewed) v (Renames-fixed b s);
          tables = refl;
          next = refl;
          expires = λ u.
              (Rearranged-fields (postponed t.heap r e) b s.moved u).3
              ∙ ground (arith, postponed-expires t.heap r e u, later);
        },
      )

  Renewed-earlier :
      ltb (t.heap.entry r).expire_at e ≡ false
      → (t' : Tracker) × (renew t r e ≡ some (t', false)) × Renewed t r e t'
  unfolding renew
  Renewed-earlier earlier =
      let kept : Renames t.heap t.heap = record {
        heap = v.heap;
        indexed = v.indexed;
        same = λ u. refl;
        size = refl;
        table = λ u. refl;
        ip_str = λ u. refl;
        raw_ip = λ u. refl;
      } in
      (
        record t { total_renewed = increment t.total_renewed },
        rw earlier refl,
        record {
          valid = Renames-IsTracked t t.heap (increment t.total_renewed) v kept;
          tables = refl;
          next = refl;
          expires = λ u. ground (arith, earlier);
        },
      )

  pub renew-Renewed : (t' : Tracker) × (renew t r e ≡ some (t', false)) × Renewed t r e t'
  renew-Renewed = elim (Bool-cases (ltb (t.heap.entry r).expire_at e)) [
    | inl later ↦ Renewed-later later
    | inr earlier ↦ Renewed-earlier earlier
  ]
