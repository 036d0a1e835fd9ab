-- ===== src/Tracker/Invariant.antt =====
-- pkg/ttlcleaner/tracker.go: what holds between two calls of the tracker's methods.
use opn_box.Base.{
  ◌+◌, ◌%◌, ◌^◌, ℕ, ◌≤◌, ◌<◌, ◌≡◌, refl, sym, ap, ◌∙◌, Option, none, some, List, [], Bytes, length,
  arith,
}
use opn_box.Base.Dict.{lookup-nil, IsMap}
use opn_box.Net.Text.{ip_string}
use opn_box.Tracker.Refs.{ref_at, count, position}
use opn_box.Tracker.Queue.{Entry, Ref, place, EntryHeap}
use opn_box.Tracker.Heap.Swap.{payload, IsIndexed, Rearranged}
use opn_box.Tracker.Heap.Order.{IsHeap}
use opn_box.Tracker.{Tracker, new_tracker, find, table_map}

-- The tables name exactly the entries of the queue, each under its table and the text of its address,
-- and the counters account for the entries.
pub record IsTracked (t : Tracker) : Type 0 where
  pub heap : IsHeap t.heap
  pub indexed : IsIndexed t.heap
  pub fresh : (r : Ref) → t.next ≤ r → count r t.heap.pq ≡ 0
  pub linked :
      (table ip : Bytes) (r : Ref)
      → find t.tables table ip ≡ some r
      → (count r t.heap.pq ≡ 1) × ((t.heap.entry r).table ≡ table) × ((t.heap.entry r).ip_str ≡ ip)
  pub listed :
      (r : Ref)
      → 0 < count r t.heap.pq
      → find t.tables (t.heap.entry r).table (t.heap.entry r).ip_str ≡ some r
  pub named :
      (r : Ref)
      → 0 < count r t.heap.pq
      → ip_string (t.heap.entry r).raw_ip ≡ (t.heap.entry r).ip_str
  pub keyed : (table : Bytes) → IsMap (table_map t.tables table)
  pub counted : t.total_added ≡ (length t.heap.pq + t.total_expired + t.total_deleted) % 2 ^ 64

abbrev pub expiry_of : EntryHeap → Option Ref → Option ℕ
expiry_of h (some r) = some (h.entry r).expire_at
expiry_of h none = none

-- The expiry that is kept for an address of a table: the client's view of the tracker.
abbrev pub expiry : Tracker → Bytes → Bytes → Option ℕ
expiry t table ip = expiry_of t.heap (find t.tables table ip)

-- Where an entry of the queue stands, as its index says.
pub located :
    (h : EntryHeap) (r : Ref)
    → IsIndexed h
    → 0 < count r h.pq
    → (i : ℕ) × (i < length h.pq) × (ref_at h.pq i ≡ r) × ((h.entry r).index ≡ place i)
located h r x c =
    let (i, l, e) = position r h.pq c in
    (i, l, e, sym (ap (λ (s : ℕ). (h.entry s).index) e) ∙ x i l)

-- What two entries with the same payload share.
pub same_fields :
    (e f : Entry)
    → payload e ≡ payload f
    → (e.table ≡ f.table)
      × (e.ip_str ≡ f.ip_str)
      × (e.raw_ip ≡ f.raw_ip)
      × (e.expire_at ≡ f.expire_at)
same_fields e f h = (
  ap (λ (x : Entry). x.table) h,
  ap (λ (x : Entry). x.ip_str) h,
  ap (λ (x : Entry). x.raw_ip) h,
  ap (λ (x : Entry). x.expire_at) h,
)

pub Rearranged-fields :
    (a b : EntryHeap)
    → Rearranged a b
    → (r : Ref)
    → ((b.entry r).table ≡ (a.entry r).table)
      × ((b.entry r).ip_str ≡ (a.entry r).ip_str)
      × ((b.entry r).raw_ip ≡ (a.entry r).raw_ip)
      × ((b.entry r).expire_at ≡ (a.entry r).expire_at)
Rearranged-fields a b m r = same_fields (b.entry r) (a.entry r) (m.kept r)

pub find-nil : (table ip : Bytes) → find [] table ip ≡ none
find-nil table ip = rw (lookup-nil {V = List (Bytes × Ref)} table) (lookup-nil {V = Ref} ip)

-- A new tracker is empty and consistent.
pub new_tracker-IsTracked : IsTracked new_tracker
unfolding count
new_tracker-IsTracked = record {
  heap = λ c p q. absurd (omega arith);
  indexed = λ c p. absurd (omega arith);
  fresh = λ r l. refl;
  linked = λ table ip r e. cc (find-nil table ip);
  listed = λ r c. absurd (omega arith);
  named = λ r c. absurd (omega arith);
  keyed = λ table. rw (lookup-nil {V = List (Bytes × Ref)} table) tt;
  counted = refl;
}

-- A queue of the same references, whose entries keep their names, may replace the tracker's.
pub record Renames (a b : EntryHeap) : Type 0 where
  pub heap : IsHeap b
  pub indexed : IsIndexed b
  pub same : (r : Ref) → count r b.pq ≡ count r a.pq
  pub size : length b.pq ≡ length a.pq
  pub table : (r : Ref) → (b.entry r).table ≡ (a.entry r).table
  pub ip_str : (r : Ref) → (b.entry r).ip_str ≡ (a.entry r).ip_str
  pub raw_ip : (r : Ref) → (b.entry r).raw_ip ≡ (a.entry r).raw_ip

pub Renames-IsTracked :
    (t : Tracker) (b : EntryHeap) (n : ℕ)
    → IsTracked t
    → Renames t.heap b
    → IsTracked (record t { heap = b; total_renewed = n })
Renames-IsTracked t b n v k = record {
  heap = k.heap;
  indexed = k.indexed;
  fresh = λ r l. k.same r ∙ v.fresh r l;
  linked = λ table ip r e.
      let (c, p, q) = v.linked table ip r e in (k.same r ∙ c, k.table r ∙ p, k.ip_str r ∙ q);
  listed = λ r c. rw (k.table r, k.ip_str r) (v.listed r (omega (arith, k.same r)));
  named = λ r c. rw (k.raw_ip r, k.ip_str r) (v.named r (omega (arith, k.same r)));
  keyed = v.keyed;
  counted = ground (arith, k.size, v.counted);
}
