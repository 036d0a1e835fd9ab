-- ===== src/Tracker/Untrack.antt =====
-- pkg/ttlcleaner/tracker.go: an entry that leaves the queue and the tables, by `Delete` or by
-- `PopExpired`.
use opn_box.Base.{
  ◌+◌, ◌%◌, ◌^◌, ℕ, suc, ◌≤◌, ◌<◌, ◌≡◌, refl, true, ◌&&◌, none, some, Bytes, length, arith,
  if◌then◌else◌, bytes_eq, bytes_eq_iff, Bool-cases, inl, inr,
}
use mathlib.Core.Path.{subst}
use opn_box.Net.{Ip}
use opn_box.Net.Text.{ip_string}
use opn_box.Tracker.Refs.{ref_at, count, count-ref_at_pos, get_elem?-ref_at, count-le-one}
use opn_box.Tracker.Queue.{Entry, Ref, EntryHeap}
use opn_box.Tracker.Heap.Swap.{key, IsIndexed-IsDistinct}
use opn_box.Tracker.Heap.Removal.{Removed, heap_pop-Removes, heap_remove-Removes}
use opn_box.Tracker.Find.{find-forget, table_map-forget}
use opn_box.Base.Dict.{IsMap, remove-IsMap}
use opn_box.Tracker.{Tracker, find, table_map, forget, delete, expire_one, increment}
use opn_box.Tracker.Invariant.{IsTracked, located, same_fields}

-- What the departure of one entry does.
pub record Dropped (t : Tracker) (table ip_str : Bytes) (t' : Tracker) : Type 0 where
  pub valid : IsTracked t'
  pub finds :
      (tb k : Bytes)
      → find t'.tables tb k
        ≡ (if bytes_eq table tb && bytes_eq ip_str k then none else find t.tables tb k)
  pub expires : (s : Ref) → (t'.heap.entry s).expire_at ≡ (t.heap.entry s).expire_at
  pub size : length t.heap.pq ≡ suc (length t'.heap.pq)

module _ (t : Tracker) (r : Ref) (table ip_str : Bytes) (v : IsTracked t)
    (found : find t.tables table ip_str ≡ some r) (b : EntryHeap) (p : Removed t.heap r b) where
  fields :
      (s : Ref)
      → ((b.entry s).table ≡ (t.heap.entry s).table)
        × ((b.entry s).ip_str ≡ (t.heap.entry s).ip_str)
        × ((b.entry s).expire_at ≡ (t.heap.entry s).expire_at)
  fields s = let f = same_fields (b.entry s) (t.heap.entry s) (p.kept s) in (f.0, f.1, f.3)

  left-linked :
      (tb k : Bytes) (s : Ref)
      → find (forget table ip_str t.tables) tb k ≡ some s
      → (count s b.pq ≡ 1) × ((b.entry s).table ≡ tb) × ((b.entry s).ip_str ≡ k)
  left-linked tb k s h = ground (
    arith,
    find-forget table ip_str tb k t.tables,
    p.same s,
    fields s,
    v.linked tb k s,
    v.linked table ip_str r,
    found,
    bytes_eq_iff table tb,
    bytes_eq_iff ip_str k,
  )

  left-listed :
      (s : Ref)
      → 0 < count s b.pq
      → find (forget table ip_str t.tables) (b.entry s).table (b.entry s).ip_str ≡ some s
  left-listed s h =
      let f = fields s in
      let once = count-le-one s t.heap.pq (IsIndexed-IsDistinct t.heap v.indexed) in
      rw (f.0, f.1)
        (ground (
          arith,
          find-forget table ip_str (t.heap.entry s).table (t.heap.entry s).ip_str t.tables,
          p.same s,
          v.listed s,
          found,
          once,
          bytes_eq_iff table (t.heap.entry s).table,
          bytes_eq_iff ip_str (t.heap.entry s).ip_str,
        ))

  left-named : (s : Ref) → 0 < count s b.pq → ip_string (b.entry s).raw_ip ≡ (b.entry s).ip_str
  left-named s h =
      let f = same_fields (b.entry s) (t.heap.entry s) (p.kept s) in
      rw (f.1, f.2) (v.named s (ground (arith, p.same s)))

  left-keyed : (tb : Bytes) → IsMap (table_map (forget table ip_str t.tables) tb)
  left-keyed tb =
      rw (table_map-forget table ip_str tb t.tables) (elim (Bool-cases (bytes_eq table tb)) [
        | inl e ↦ rw e (remove-IsMap ip_str (table_map t.tables tb) (v.keyed tb))
        | inr e ↦ rw e (v.keyed tb)
      ])

  pub left-Dropped :
      (m n : ℕ)
      → (m + n) % 2 ^ 64 ≡ (t.total_expired + t.total_deleted + 1) % 2 ^ 64
      → Dropped t table ip_str (record t {
        heap = b;
        tables = forget table ip_str t.tables;
        total_expired = m;
        total_deleted = n;
      })
  left-Dropped m n one_more = record {
    valid = record {
      heap = p.heap;
      indexed = p.indexed;
      fresh = λ s l. omega (arith, p.same s, v.fresh s l);
      linked = left-linked;
      listed = left-listed;
      named = left-named;
      keyed = left-keyed;
      counted = omega (arith, p.size, v.counted, one_more);
    };
    finds = λ tb k. find-forget table ip_str tb k t.tables;
    expires = λ s. (fields s).2;
    size = p.size;
  }

-- `Delete` of a tracked address takes it out, and nothing else.
pub delete-Dropped :
    (t : Tracker) (table : Bytes) (ip : Ip) (r : Ref)
    → IsTracked t
    → find t.tables table (ip_string ip) ≡ some r
    → (t' : Tracker) × (delete t table ip ≡ some (t', true)) × Dropped t table (ip_string ip) t'
unfolding delete
delete-Dropped t table ip r v found =
    let once = v.linked table (ip_string ip) r found in
    let (i, l, at, x) = located t.heap r v.indexed (omega (arith, once.0)) in
    let (b, ran, p) = heap_remove-Removes t.heap i v.heap v.indexed l in
    let q : Removed t.heap r b = subst (λ s. Removed t.heap s b) at p in
    (
      record t {
        heap = b;
        tables = forget table (ip_string ip) t.tables;
        total_deleted = increment t.total_deleted;
      },
      rw (found, delete) (rw (x, ran) refl),
      left-Dropped t r table (ip_string ip) v found b q t.total_expired (increment t.total_deleted)
          (omega arith),
    )

-- One round of `PopExpired` on a queue whose first entry has expired.
pub expire_one-Dropped :
    (t : Tracker) (now : ℕ)
    → IsTracked t
    → 0 < length t.heap.pq
    → key t.heap 0 ≤ now
    → (t' : Tracker) × (e : Entry) × (expire_one t now ≡ some (some (t', e)))
      × Dropped t e.table e.ip_str t'
      × (find t.tables e.table e.ip_str ≡ some (ref_at t.heap.pq 0))
      × (e.expire_at ≡ key t.heap 0)
      × (e.raw_ip ≡ (t.heap.entry (ref_at t.heap.pq 0)).raw_ip)
unfolding expire_one
expire_one-Dropped t now v l due =
    let r = ref_at t.heap.pq 0 in
    let (b, ran, p) = heap_pop-Removes t.heap v.heap v.indexed l in
    let e = b.entry r in
    let f = same_fields e (t.heap.entry r) (p.kept r) in
    let listed = v.listed r (count-ref_at_pos t.heap.pq 0 l) in
    let found : find t.tables e.table e.ip_str ≡ some r = rw (f.0, f.1) listed in
    (
      record t {
        heap = b;
        tables = forget e.table e.ip_str t.tables;
        total_expired = increment t.total_expired;
      },
      e,
      ground (arith, get_elem?-ref_at t.heap.pq 0 l, ran),
      left-Dropped t r e.table e.ip_str v found b p (increment t.total_expired) t.total_deleted
          (omega arith),
      found,
      f.3,
      f.2,
    )
