-- ===== src/Tracker/Drain.antt =====
-- pkg/ttlcleaner/tracker.go: the loop of `Flush`, and the references that it takes.
use opn_box.Base.{
  ◌%◌, ◌^◌, ℕ, ◌+◌, ◌≤◌, ◌<◌, ◌≡◌, refl, ap, ◌∙◌, true, is_some, Option, none, some, List, [], ◌∷◌,
  ◌++◌, Bytes, length, arith, ◌==◌, if◌then◌else◌, bytes_eq, bytes_eq_iff, bytes_eq_self,
  Bool-cases, inl, inr,
}
use opn_box.Base.Dict.{Dict, IsMap, lookup}
use mathlib.Core.Path.{subst}
use mathlib.Core.List.{append-nil, append_assoc}
use opn_box.Net.{Ip}
use opn_box.Net.Text.{ip_string, among}
use opn_box.Tracker.Refs.{count}
use opn_box.Tracker.Queue.{Ref, EntryHeap}
use opn_box.Tracker.Heap.Swap.{payload, IsIndexed}
use opn_box.Tracker.Heap.Order.{IsHeap}
use opn_box.Tracker.Heap.Removal.{Removed, heap_remove-Removes}
use opn_box.Tracker.{Tracker, values, flush_loop, increment}
use opn_box.Tracker.Invariant.{located, same_fields, expiry_of}

-- The addresses of the references, in order.
abbrev pub addresses : EntryHeap → List Ref → List Ip
addresses h [] = []
addresses h (r ∷ rs) = (h.entry r).raw_ip ∷ addresses h rs

-- `b` is an ordered queue of the references of `a` without those of `rs`, and no entry differs but in
-- its place.
pub record Drained (a : EntryHeap) (rs : List Ref) (b : EntryHeap) : Type 0 where
  pub heap : IsHeap b
  pub indexed : IsIndexed b
  pub size : length a.pq ≡ length rs + length b.pq
  pub same : (s : Ref) → count s a.pq ≡ count s b.pq + count s rs
  pub kept : (s : Ref) → payload (b.entry s) ≡ payload (a.entry s)

pub length-addresses : (h : EntryHeap) (rs : List Ref) → length (addresses h rs) ≡ length rs
length-addresses h [] = refl
length-addresses h (r ∷ rs) = omega (arith, length-addresses h rs)

pub is_some-expiry : (h : EntryHeap) (o : Option Ref) → is_some o ≡ is_some (expiry_of h o)
is_some-expiry h none = refl
is_some-expiry h (some r) = refl

addresses-kept :
    (a b : EntryHeap) (rs : List Ref)
    → ((s : Ref) → payload (b.entry s) ≡ payload (a.entry s))
    → addresses b rs ≡ addresses a rs
addresses-kept a b [] k = refl
addresses-kept a b (r ∷ rs) k =
    let f = same_fields (b.entry r) (a.entry r) (k r) in rw (f.2, addresses-kept a b rs k) refl

append-addresses :
    (a b : EntryHeap) (r : Ref) (rs : List Ref) (ips : List Ip)
    → ((s : Ref) → payload (b.entry s) ≡ payload (a.entry s))
    → (ips ++ (b.entry r).raw_ip ∷ []) ++ addresses b rs ≡ ips ++ addresses a (r ∷ rs)
append-addresses a b r rs ips k =
    let raw = (same_fields (b.entry r) (a.entry r) (k r)).2 in
    append_assoc ips ((b.entry r).raw_ip ∷ []) (addresses b rs)
    ∙ rw (raw, addresses-kept a b rs k) refl

Removed-Drained :
    (a b c : EntryHeap) (r : Ref) (rs : List Ref)
    → Removed a r b
    → Drained b rs c
    → Drained a (r ∷ rs) c
unfolding count
Removed-Drained a b c r rs p q = record {
  heap = q.heap;
  indexed = q.indexed;
  size = omega (arith, p.size, q.size);
  same = λ s. omega (arith, p.same s, q.same s);
  kept = λ s. q.kept s ∙ p.kept s;
}

-- The loop takes each reference out of the queue, and collects its address.
pub flush_loop-Drained :
    (t : Tracker) (rs : List Ref) (ips : List Ip)
    → IsHeap t.heap
    → IsIndexed t.heap
    → ((s : Ref) → count s rs ≤ count s t.heap.pq)
    → (b : EntryHeap) × (n : ℕ) × (flush_loop t rs ips
        ≡ some (record t { heap = b; total_deleted = n }, ips ++ addresses t.heap rs))
      × Drained t.heap rs b
      × (n % 2 ^ 64 ≡ (t.total_deleted + length rs) % 2 ^ 64)
unfolding flush_loop count
flush_loop-Drained t [] ips o x d = (
  t.heap,
  t.total_deleted,
  rw (append-nil ips) refl,
  record { heap = o; indexed = x; size = omega arith; same = λ s. omega arith; kept = λ s. refl },
  ap (λ k. k % 2 ^ 64) (omega arith),
)
flush_loop-Drained t (r ∷ rs) ips o x d =
    let in_queue : 0 < count r t.heap.pq = ground (arith, d r) in
    let (i, l, at, place_of) = located t.heap r x in_queue in
    let (b, ran, p) = heap_remove-Removes t.heap i o x l in
    let q : Removed t.heap r b = subst (λ s. Removed t.heap s b) at p in
    let u = record t { heap = b; total_deleted = increment t.total_deleted } in
    let (c, n, rest, w, more) =
      flush_loop-Drained u rs (ips ++ (b.entry r).raw_ip ∷ []) q.heap q.indexed
        (λ s. omega (arith, d s, q.same s)) in
    let joined = append-addresses t.heap b r rs ips q.kept in
    (
      c,
      n,
      rw (place_of, ran) (rw joined at rest),
      Removed-Drained t.heap b c r rs q w,
      omega (arith, more),
    )

-- How often a reference stands among the values of a map: once under its name, or not at all.
abbrev pub hits : Ref → Option Ref → ℕ
hits r none = 0
hits r (some s) = if r == s then 1 else 0

pub count-values :
    (m : Dict Ref) (name : Ref → Bytes)
    → IsMap m
    → ((k : Bytes) (r : Ref) → lookup k m ≡ some r → name r ≡ k)
    → (r : Ref) → count r (values m) ≡ hits r (lookup (name r) m)
unfolding count lookup
count-values [] name u h r = refl
count-values ((k, s) ∷ m) name (fresh, u) h r =
    let first : name s ≡ k = h k s (rw (bytes_eq_self k) refl) in
    let rest : (j : Bytes) (r : Ref) → lookup j m ≡ some r → name r ≡ j = λ j r e.
      h j r (elim (Bool-cases (bytes_eq k j)) [
        | inl same ↦ absurd (ground (arith, bytes_eq_iff k j, fresh, e))
        | inr other ↦ rw other e
      ]) in
    ground (
      arith,
      count-values m name u rest r,
      first,
      ap name,
      fresh,
      bytes_eq_iff k (name r),
      bytes_eq_self k,
    )

-- The addresses have the text exactly when a reference has it.
pub among-addresses_of :
    (h : EntryHeap) (rs : List Ref) (j : Bytes)
    → among (addresses h rs) j ≡ true
    → (r : Ref) × (0 < count r rs) × (ip_string (h.entry r).raw_ip ≡ j)
unfolding count
among-addresses_of h [] j e = absurd (ground arith)
among-addresses_of h (r ∷ rs) j e = elim (Bool-cases (bytes_eq (ip_string (h.entry r).raw_ip) j)) [
  | inl same ↦ (r, ground arith, (bytes_eq_iff (ip_string (h.entry r).raw_ip) j).0 same)
  | inr other ↦
      let (s, l, q) = among-addresses_of h rs j (ground (arith, other, e)) in
      (s, omega (arith, l), q)
]

pub among-addresses :
    (h : EntryHeap) (rs : List Ref) (r : Ref)
    → 0 < count r rs
    → among (addresses h rs) (ip_string (h.entry r).raw_ip) ≡ true
unfolding count
among-addresses h [] r l = absurd (omega arith)
among-addresses h (s ∷ rs) r l = elim (Bool-cases (r == s)) [
  | inl same ↦
      let e : r ≡ s = ground arith in
      rw e (ground (arith, bytes_eq_self (ip_string (h.entry s).raw_ip)))
  | inr other ↦ ground (arith, other, among-addresses h rs r)
]
