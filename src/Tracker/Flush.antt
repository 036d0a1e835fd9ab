-- ===== src/Tracker/Flush.antt =====
-- pkg/ttlcleaner/tracker.go: `Flush`.
use opn_box.Base.{
  ◌%◌, ◌^◌, ℕ, ◌+◌, ◌≤◌, ◌<◌, ◌≡◌, refl, sym, ap, ◌∙◌, true, false, is_some, Option, none, some,
  List, [], Bytes, length, arith, ◌==◌, if◌then◌else◌, bytes_eq, bytes_eq_iff, Bool-cases, ◌⊎◌, inl,
  inr,
}
use opn_box.Base.Dict.{Dict, lookup, remove, lookup-nil}
use opn_box.Net.{Ip}
use opn_box.Net.Text.{ip_string, among}
use opn_box.Tracker.Refs.{count}
use opn_box.Tracker.Orders.{IsRange, count-Perm}
use opn_box.Tracker.Find.{table_map-remove}
use opn_box.Tracker.Queue.{Ref, EntryHeap}
use opn_box.Tracker.{Tracker, find, table_map, values, flush}
use opn_box.Tracker.Drain.{
  addresses, Drained, length-addresses, is_some-expiry, flush_loop-Drained, hits, count-values,
  among-addresses_of, among-addresses,
}
use opn_box.Tracker.Invariant.{IsTracked, same_fields, expiry}

module _ (t : Tracker) (table : Bytes) (rs : List Ref) (v : IsTracked t)
    (order : (r : Ref) → count r rs ≡ count r (values (table_map t.tables table))) where
  -- A reference is taken exactly when its entry stands under the table.
  taken : (r : Ref) → count r rs ≡ hits r (find t.tables table (t.heap.entry r).ip_str)
  taken r =
      order r
      ∙ count-values (table_map t.tables table) (λ s. (t.heap.entry s).ip_str) (v.keyed table)
          (λ k s e. (v.linked table k s e).2) r

  taken_at :
      (r : Ref) (o : Option Ref)
      → find t.tables table (t.heap.entry r).ip_str ≡ o
      → (count r rs ≡ 0)
        ⊎ ((count r rs ≡ 1)
            × (count r t.heap.pq ≡ 1)
            × ((t.heap.entry r).table ≡ table)
            × (find t.tables table (t.heap.entry r).ip_str ≡ some r))
  taken_at r none e = inl (taken r ∙ rw e refl)
  taken_at r (some s) e = elim (Bool-cases (r == s)) [
    | inl same ↦
        let q : s ≡ r = ground arith in
        let found = e ∙ ap some q in
        let (once, under, text) = v.linked table (t.heap.entry r).ip_str r found in
        inr (taken r ∙ rw (e, same) refl, once, under, found)
    | inr other ↦ inl (taken r ∙ rw (e, other) refl)
  ]

  taken_cases :
      (r : Ref)
      → (count r rs ≡ 0)
        ⊎ ((count r rs ≡ 1)
            × (count r t.heap.pq ≡ 1)
            × ((t.heap.entry r).table ≡ table)
            × (find t.tables table (t.heap.entry r).ip_str ≡ some r))
  taken_cases r = taken_at r (find t.tables table (t.heap.entry r).ip_str) refl

  in_queue : (r : Ref) → count r rs ≤ count r t.heap.pq
  in_queue r = ground (arith, taken_cases r)

  flushed_text : (j : Bytes) → among (addresses t.heap rs) j ≡ is_some (find t.tables table j)
  flushed_text j = by (find t.tables table j) refl
    where
      by :
          (o : Option Ref)
          → find t.tables table j ≡ o
          → among (addresses t.heap rs) j ≡ is_some (find t.tables table j)
      by (some r) e =
          let (once, under, text) = v.linked table j r e in
          let here : 0 < count r rs =
            let once' : count r rs ≡ 1 = taken r ∙ rw (text, e) (ground arith) in omega arith in
          let shown : ip_string (t.heap.entry r).raw_ip ≡ j =
            v.named r (omega (arith, once)) ∙ text in
          rw e (rw shown at (among-addresses t.heap rs r here))
      by none e = elim (Bool-cases (among (addresses t.heap rs) j)) [
        | inr out ↦ rw e out
        | inl inside ↦
            let (r, l, q) = among-addresses_of t.heap rs j inside in
            let text : (t.heap.entry r).ip_str ≡ j =
              sym (v.named r (omega (arith, l, in_queue r))) ∙ q in
            let untaken : count r rs ≡ 0 = taken r ∙ rw (text, e) refl in absurd (omega (arith, l))
      ]

  module _ (b : EntryHeap) (n : ℕ) (p : Drained t.heap rs b)
      (more : n % 2 ^ 64 ≡ (t.total_deleted + length rs) % 2 ^ 64) where
    abbrev left : Tracker
    left = record t { heap = b; total_deleted = n; tables = remove table t.tables }

    left-find :
        (tb k : Bytes)
        → find left.tables tb k ≡ (if bytes_eq table tb then none else find t.tables tb k)
    left-find tb k =
        rw (table_map-remove table tb t.tables) (ground (arith, lookup-nil {V = Ref} k))

    left_fields :
        (s : Ref)
        → ((b.entry s).table ≡ (t.heap.entry s).table)
          × ((b.entry s).ip_str ≡ (t.heap.entry s).ip_str)
          × ((b.entry s).raw_ip ≡ (t.heap.entry s).raw_ip)
          × ((b.entry s).expire_at ≡ (t.heap.entry s).expire_at)
    left_fields s = same_fields (b.entry s) (t.heap.entry s) (p.kept s)

    left-linked :
        (tb k : Bytes) (s : Ref)
        → find left.tables tb k ≡ some s
        → (count s b.pq ≡ 1) × ((b.entry s).table ≡ tb) × ((b.entry s).ip_str ≡ k)
    left-linked tb k s e = ground (
      arith,
      left-find tb k,
      left_fields s,
      v.linked tb k s,
      p.same s,
      taken_cases s,
      bytes_eq_iff table tb,
    )

    left-listed :
        (s : Ref)
        → 0 < count s b.pq
        → find left.tables (b.entry s).table (b.entry s).ip_str ≡ some s
    left-listed s l =
        let f = left_fields s in
        rw (f.0, f.1)
          (ground (
            arith,
            left-find (t.heap.entry s).table (t.heap.entry s).ip_str,
            v.listed s,
            p.same s,
            taken s,
            taken_cases s,
            bytes_eq_iff table (t.heap.entry s).table,
          ))

    left-IsTracked : IsTracked left
    left-IsTracked = record {
      heap = p.heap;
      indexed = p.indexed;
      fresh = λ s l. omega (arith, p.same s, v.fresh s l);
      linked = left-linked;
      listed = left-listed;
      named = λ s l. let f = left_fields s in rw (f.1, f.2) (v.named s (omega (arith, p.same s)));
      keyed = λ tb. rw (table_map-remove table tb t.tables) (ground (arith, v.keyed tb));
      counted = omega (arith, p.size, v.counted, more);
    }

    left-expiry :
        (tb j : Bytes) → expiry left tb j ≡ (if bytes_eq table tb then none else expiry t tb j)
    left-expiry tb j = go (find t.tables tb j) refl
      where
        go :
            (o : Option Ref)
            → find t.tables tb j ≡ o
            → expiry left tb j ≡ (if bytes_eq table tb then none else expiry t tb j)
        go none e = rw (left-find tb j, e) (ground arith)
        go (some s) e = rw (left-find tb j, e) (ground (arith, (left_fields s).3))

-- The call returns a tracker without the table, and its addresses.
abbrev pub Flushes : Tracker → Bytes → Option (Tracker × List Ip) → Type 0
Flushes t table r =
    (t' : Tracker) × (ips : List Ip) × (r ≡ some (t', ips))
    × IsTracked t'
    × ((tb j : Bytes) → expiry t' tb j ≡ (if bytes_eq table tb then none else expiry t tb j))
    × ((j : Bytes) → among ips j ≡ is_some (expiry t table j))
    × (length t.heap.pq ≡ length ips + length t'.heap.pq)

-- `Flush` never panics and keeps the tracker consistent, in whichever order the table's map yields
-- its entries. It takes out what is tracked under the table and nothing else, and returns exactly the
-- addresses that it takes out, as many as leave the queue.
pub flush-Flushes :
    (order : List Ref → List Ref) (t : Tracker) (table : Bytes)
    → IsRange order
    → IsTracked t
    → Flushes t table (flush order t table)
unfolding flush
flush-Flushes order t table h v = go (lookup table t.tables) refl
  where
    empty_table :
        (tb j : Bytes)
        → lookup table t.tables ≡ none
        → (bytes_eq table tb ≡ true) ⊎ (bytes_eq table tb ≡ false)
        → expiry t tb j ≡ (if bytes_eq table tb then none else expiry t tb j)
    empty_table tb j e (inr other) = rw other refl
    empty_table tb j e (inl same) =
        let p : table ≡ tb = (bytes_eq_iff table tb).0 same in
        let q : lookup tb t.tables ≡ none = rw p at e in rw (same, q, lookup-nil {V = Ref} j) refl

    go : (o : Option (Dict Ref)) → lookup table t.tables ≡ o → Flushes t table (flush order t table)
    go none e = (
      t,
      [],
      rw (e, flush) refl,
      v,
      λ tb j. empty_table tb j e (Bool-cases (bytes_eq table tb)),
      λ j. rw (e, lookup-nil {V = Ref} j) refl,
      omega arith,
    )
    go (some m) e =
        let rs = order (values m) in
        let every : (r : Ref) → count r rs ≡ count r (values (table_map t.tables table)) =
          λ r. rw e (count-Perm r rs (values m) (h (values m))) in
        let (b, n, ran, p, more) =
          flush_loop-Drained t rs [] v.heap v.indexed (in_queue t table rs v every) in
        (
          record t { heap = b; total_deleted = n; tables = remove table t.tables },
          addresses t.heap rs,
          rw (e, flush) (rw ran refl),
          left-IsTracked t table rs v every b n p more,
          left-expiry t table rs v every b n p more,
          λ j. flushed_text t table rs v every j ∙ is_some-expiry t.heap (find t.tables table j),
          omega (arith, p.size, length-addresses t.heap rs),
        )
