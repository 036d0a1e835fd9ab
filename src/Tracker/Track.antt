-- ===== src/Tracker/Track.antt =====
-- pkg/ttlcleaner/tracker.go: `AddOrRenew` on an address that is not tracked.
use opn_box.Base.{
  suc, ℕ, ◌+◌, ◌<◌, ◌≡◌, refl, ap, ◌∙◌, true, false, ◌&&◌, none, some, Bytes, length, arith, ◌==◌,
  if◌then◌else◌, inl, inr, Bool-cases, bytes_eq, bytes_eq_iff, bytes_eq_self,
}
use opn_box.Net.{Ip}
use opn_box.Net.Text.{ip_string}
use opn_box.Base.Dict.{put, IsMap, put-IsMap}
use opn_box.Tracker.Refs.{ref_at, count, count-ref_at_pos}
use opn_box.Tracker.Queue.{Entry, Ref, EntryHeap}
use opn_box.Tracker.Heap.{parent, heap_push}
use opn_box.Tracker.Heap.Swap.{key, IsIndexed}
use opn_box.Tracker.Heap.Order.{IsHeap}
use opn_box.Tracker.Heap.Insertion.{heap_push-Pushed, Pushed}
use opn_box.Tracker.Find.{find-put, table_map-put}
use opn_box.Tracker.{Tracker, find, track, increment, allocated, new_entry, table_map}
use opn_box.Tracker.Invariant.{IsTracked, same_fields}

module _ (h : EntryHeap) (r : Ref) (e : Entry) (fresh : count r h.pq ≡ 0) where
  other : (c : ℕ) → c < length h.pq → (r == ref_at h.pq c) ≡ false
  other c l = elim (Bool-cases (r == ref_at h.pq c)) [
    | inl q ↦
        let same : r ≡ ref_at h.pq c = ground arith in
        absurd (omega (arith, count-ref_at_pos h.pq c l, ap (λ (s : ℕ). count s h.pq) same))
    | inr q ↦ q
  ]

  allocated-IsIndexed : IsIndexed h → IsIndexed (allocated h r e)
  unfolding allocated
  allocated-IsIndexed x c l = rw (other c l) (x c l)

  key-allocated : (c : ℕ) → c < length h.pq → key (allocated h r e) c ≡ key h c
  unfolding allocated
  key-allocated c l = ground (arith, other c l)

  allocated-IsHeap : IsHeap h → IsHeap (allocated h r e)
  allocated-IsHeap o c p q =
      let inside : c < length h.pq = unfold allocated in q in
      omega (arith, key-allocated c inside, key-allocated (parent c) (omega arith), o c p inside)

  entry-allocated : (s : Ref) → (allocated h r e).entry s ≡ (if r == s then e else h.entry s)
  unfolding allocated
  entry-allocated s = refl

  push-allocated :
      IsHeap h
      → IsIndexed h
      → (b : EntryHeap) × (heap_push (allocated h r e) r ≡ some b) × Pushed (allocated h r e) r b
  push-allocated o x =
      heap_push-Pushed (allocated h r e) r (allocated-IsHeap o) (allocated-IsIndexed x)
        (unfold allocated in fresh)

-- What `AddOrRenew` does to an address that is not tracked.
pub record Added (t : Tracker) (table ip_str : Bytes) (e : ℕ) (t' : Tracker) : Type 0 where
  pub valid : IsTracked t'
  pub finds :
      (tb k : Bytes)
      → find t'.tables tb k
        ≡ (if bytes_eq table tb && bytes_eq ip_str k then some t.next else find t.tables tb k)
  pub expires :
      (s : Ref)
      → (t'.heap.entry s).expire_at ≡ (if t.next == s then e else (t.heap.entry s).expire_at)

module _ (t : Tracker) (table : Bytes) (ip : Ip) (e : ℕ) (v : IsTracked t)
    (absent : find t.tables table (ip_string ip) ≡ none) where
  base : EntryHeap
  base = allocated t.heap t.next (new_entry table ip e)

  module _ (b : EntryHeap) (p : Pushed base t.next b) where
    abbrev after : Tracker
    after = record t {
      heap = b;
      tables = put table (put (ip_string ip) t.next (table_map t.tables table)) t.tables;
      next = t.next + 1;
      total_added = increment t.total_added;
    }

    counts : (s : Ref) → count s b.pq ≡ count s t.heap.pq + (if s == t.next then 1 else 0)
    unfolding base allocated
    counts s = p.same s

    fields :
        (s : Ref)
        → ((b.entry s).table ≡ (if t.next == s then table else (t.heap.entry s).table))
          × ((b.entry s).ip_str ≡ (if t.next == s then ip_string ip else (t.heap.entry s).ip_str))
          × ((b.entry s).expire_at ≡ (if t.next == s then e else (t.heap.entry s).expire_at))
          × ((b.entry s).raw_ip ≡ (if t.next == s then ip else (t.heap.entry s).raw_ip))
    unfolding base
    fields s =
        let f = same_fields (b.entry s) (base.entry s) (p.kept s) in
        let g =
          entry-allocated t.heap t.next (new_entry table ip e) (v.fresh t.next (omega arith)) s in
        ground (arith, f, g)

    after-linked :
        (tb k : Bytes) (s : Ref)
        → find after.tables tb k ≡ some s
        → (count s b.pq ≡ 1) × ((b.entry s).table ≡ tb) × ((b.entry s).ip_str ≡ k)
    after-linked tb k s h = ground (
      arith,
      find-put t.tables table (ip_string ip) tb k t.next,
      counts s,
      fields s,
      v.fresh t.next (omega arith),
      v.linked tb k s,
      bytes_eq_iff table tb,
      bytes_eq_iff (ip_string ip) k,
    )

    listed_new : find after.tables table (ip_string ip) ≡ some t.next
    listed_new = ground (
      arith,
      find-put t.tables table (ip_string ip) table (ip_string ip) t.next,
      bytes_eq_self table,
      bytes_eq_self (ip_string ip),
    )

    listed_old :
        (tb k : Bytes) (s : Ref) → find t.tables tb k ≡ some s → find after.tables tb k ≡ some s
    listed_old tb k s h = ground (
      arith,
      find-put t.tables table (ip_string ip) tb k t.next,
      h,
      absent,
      ap (λ (x : Bytes). find t.tables x k),
      bytes_eq_iff table tb,
      bytes_eq_iff (ip_string ip) k,
    )

    after-listed :
        (s : Ref)
        → 0 < count s b.pq
        → find after.tables (b.entry s).table (b.entry s).ip_str ≡ some s
    after-listed s h =
        let f = fields s in
        elim (Bool-cases (t.next == s)) [
          | inl q ↦
              let same : t.next ≡ s = ground arith in rw (f.0, f.1, q) (listed_new ∙ ap some same)
          | inr q ↦
              rw (f.0, f.1, q)
                (listed_old (t.heap.entry s).table (t.heap.entry s).ip_str s
                  (v.listed s (ground (arith, counts s))))
        ]

    after-named : (s : Ref) → 0 < count s b.pq → ip_string (b.entry s).raw_ip ≡ (b.entry s).ip_str
    after-named s h =
        let f = fields s in
        elim (Bool-cases (t.next == s)) [
          | inl q ↦ rw (f.1, f.3, q) refl
          | inr q ↦ rw (f.1, f.3, q) (v.named s (ground (arith, counts s)))
        ]

    after-keyed : (tb : Bytes) → IsMap (table_map after.tables tb)
    after-keyed tb =
        let put_in = put-IsMap (ip_string ip) t.next (table_map t.tables table) (v.keyed table) in
        rw (table_map-put t.tables table tb (put (ip_string ip) t.next (table_map t.tables table)))
          (elim (Bool-cases (bytes_eq table tb)) [
            | inl e ↦ rw e put_in
            | inr e ↦ rw e (v.keyed tb)
          ])

    longer : length b.pq ≡ suc (length t.heap.pq)
    unfolding base allocated
    longer = p.size

    after-IsTracked : IsTracked after
    after-IsTracked = record {
      heap = p.heap;
      indexed = p.indexed;
      fresh = λ s l. ground (arith, counts s, v.fresh s (omega arith));
      linked = after-linked;
      listed = after-listed;
      named = after-named;
      keyed = after-keyed;
      counted = omega (arith, longer, v.counted);
    }

    after-Added : Added t table (ip_string ip) e after
    after-Added = record {
      valid = after-IsTracked;
      finds = λ tb k. find-put t.tables table (ip_string ip) tb k t.next;
      expires = λ s. (fields s).2;
    }

  pub track-Added :
      (t' : Tracker) × (track t table ip e ≡ some (t', true)) × Added t table (ip_string ip) e t'
  unfolding track base
  track-Added =
      let (b, ran, p) =
        push-allocated t.heap t.next (new_entry table ip e) (v.fresh t.next (omega arith)) v.heap
          v.indexed in
      (after b p, rw ran refl, after-Added b p)
