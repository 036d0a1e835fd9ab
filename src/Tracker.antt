-- ===== src/Tracker.antt =====
-- pkg/ttlcleaner/tracker.go: the tracker's state and its methods. The mutex makes each method one
-- step. A clock reading is an argument. A method that panics is `none`.
pub mod Refs
pub mod Orders
pub mod Queue
pub mod Heap
pub mod Find
pub mod Invariant
pub mod Renew
pub mod Track
pub mod Untrack
pub mod Methods
pub mod Batches
pub mod Expire
pub mod Drain
pub mod Flush
pub mod Calls
use opn_box.Base.{
  ℕ, zero, suc, ◌+◌, ◌*◌, ◌%◌, ◌^◌, Bool, true, false, Option, none, some, List, [], ◌∷◌, ◌++◌,
  Bytes, length, get_elem?, ltb, ◌==◌, if◌then◌else◌,
}
use opn_box.Base.Dict.{Dict, lookup, put, remove}
use opn_box.Net.{Ip}
use opn_box.Net.Text.{ip_string}
use opn_box.Tracker.Queue.{Entry, Index, place, popped, Ref, EntryHeap, update, ◌>>=◌}
use opn_box.Tracker.Heap.{heap_push, heap_pop, heap_remove, heap_fix}

-- `next` is the reference that the next allocated entry gets.
pub record Tracker : Type 0 where
  pub heap : EntryHeap
  pub tables : Dict (Dict Ref)
  pub next : Ref
  pub total_added : ℕ
  pub total_renewed : ℕ
  pub total_expired : ℕ
  pub total_deleted : ℕ

-- `x++` on a `uint64`
abbrev pub increment : ℕ → ℕ
increment x = (x + 1) % 2 ^ 64

abbrev blank : Entry
blank = record { table = []; ip_str = []; raw_ip = []; expire_at = 0; index = popped }

-- `NewTracker`
abbrev pub new_tracker : Tracker
new_tracker = record {
  heap = record { pq = []; entry = λ r. blank };
  tables = [];
  next = 0;
  total_added = 0;
  total_renewed = 0;
  total_expired = 0;
  total_deleted = 0;
}

-- An index used as a slice index: -1 is out of range.
abbrev pub as_place : Index → Option ℕ
as_place (place i) = some i
as_place popped = none

abbrev pub or_empty : Option (Dict Ref) → Dict Ref
or_empty (some m) = m
or_empty none = []

abbrev pub table_map : Dict (Dict Ref) → Bytes → Dict Ref
table_map tables table = or_empty (lookup table tables)

-- A table's map after a deletion from it; the table goes with its last entry.
unfoldable pub store_or_drop : Bytes → Dict Ref → Dict (Dict Ref) → Dict (Dict Ref)
store_or_drop table [] tables = remove table tables
store_or_drop table (x ∷ m) tables = put table (x ∷ m) tables

-- `delete(tableMap, ipStr)`, and the table's entry too if it was the last.
unfoldable pub forget : Bytes → Bytes → Dict (Dict Ref) → Dict (Dict Ref)
unfolding store_or_drop
forget table ip_str tables = elim (lookup table tables) [
  | none ↦ tables
  | some m ↦ store_or_drop table (remove ip_str m) tables
]

-- `entry.ExpireAt = newExpireAt`
unfoldable pub postponed : EntryHeap → Ref → ℕ → EntryHeap
postponed h r e = record h { entry = update h.entry r (record (h.entry r) { expire_at = e }) }

-- The branch of `AddOrRenew` for an entry that was found.
unfoldable pub renew : Tracker → Ref → ℕ → Option (Tracker × Bool)
renew t r new_expire_at = do
  let entry = t.heap.entry r
  heap ←
      if ltb entry.expire_at new_expire_at
      then (do i ← as_place entry.index; heap_fix (postponed t.heap r new_expire_at) i)
      else some t.heap
  some (record t { heap = heap; total_renewed = increment t.total_renewed }, false)

abbrev pub new_entry : Bytes → Ip → ℕ → Entry
new_entry table ip new_expire_at = record {
  table = table;
  ip_str = ip_string ip;
  raw_ip = ip;
  expire_at = new_expire_at;
  index = place 0;
}

-- `&Entry{…}`
unfoldable pub allocated : EntryHeap → Ref → Entry → EntryHeap
allocated h r made = record h { entry = update h.entry r made }

-- The branch of `AddOrRenew` for a new entry.
unfoldable pub track : Tracker → Bytes → Ip → ℕ → Option (Tracker × Bool)
track t table ip new_expire_at = do
  let r = t.next
  heap ← heap_push (allocated t.heap r (new_entry table ip new_expire_at)) r
  some (
    record t {
      heap = heap;
      tables = put table (put (ip_string ip) r (table_map t.tables table)) t.tables;
      next = r + 1;
      total_added = increment t.total_added;
    },
    true,
  )

abbrev pub find : Dict (Dict Ref) → Bytes → Bytes → Option Ref
find tables table ip_str = lookup ip_str (table_map tables table)

-- `AddOrRenew`
unfoldable pub add_or_renew : Tracker → Bytes → Ip → ℕ → ℕ → Option (Tracker × Bool)
add_or_renew t table ip ttl now = elim (find t.tables table (ip_string ip)) [
  | some r ↦ renew t r (now + ttl)
  | none ↦ track t table ip (now + ttl)
]

-- One round of the loop of `PopExpired`; `none` inside: the loop breaks.
unfoldable pub expire_one : Tracker → ℕ → Option (Option (Tracker × Entry))
expire_one t now = if length t.heap.pq == 0 then some none else do
  top ← get_elem? t.heap.pq 0
  if ltb now (t.heap.entry top).expire_at then some none else do
    (r, heap) ← heap_pop t.heap
    let expired = heap.entry r
    some (
        some (
          record t {
            heap = heap;
            tables = forget expired.table expired.ip_str t.tables;
            total_expired = increment t.total_expired;
          },
          expired,
        ))

abbrev pub or_nil : Option (List Ip) → List Ip
or_nil (some ips) = ips
or_nil none = []

-- `result[table]`, nil where it is missing.
abbrev pub collected : Dict (List Ip) → Bytes → List Ip
collected result table = or_nil (lookup table result)

-- The loop of `PopExpired`, with the rounds that `maxBatch` leaves.
unfoldable pub pop_loop : ℕ → Tracker → ℕ → Dict (List Ip) → Option (Tracker × Dict (List Ip))
pop_loop zero t now result = some (t, result)
pop_loop (suc left) t now result = do
  round ← expire_one t now
  elim round [
    | none ↦ some (t, result)
    | some (t', e) ↦
        pop_loop left t' now (put e.table (collected result e.table ++ e.raw_ip ∷ []) result)
  ]

-- `PopExpired`
unfoldable pub pop_expired : Tracker → ℕ → ℕ → Option (Tracker × Dict (List Ip))
pop_expired t now max_batch = pop_loop max_batch t now []

-- `Delete`
unfoldable pub delete : Tracker → Bytes → Ip → Option (Tracker × Bool)
delete t table ip = elim (find t.tables table (ip_string ip)) [
  | none ↦ some (t, false)
  | some r ↦ do
    i ← as_place (t.heap.entry r).index
    (_, heap) ← heap_remove t.heap i
    some (
      record t {
        heap = heap;
        tables = forget table (ip_string ip) t.tables;
        total_deleted = increment t.total_deleted;
      },
      true,
    )
]

-- The loop of `Flush` over the references of the table, in the order in which the map yields them.
unfoldable pub flush_loop : Tracker → List Ref → List Ip → Option (Tracker × List Ip)
flush_loop t [] ips = some (t, ips)
flush_loop t (r ∷ rs) ips = do
  i ← as_place (t.heap.entry r).index
  (_, heap) ← heap_remove t.heap i
  flush_loop (record t { heap = heap; total_deleted = increment t.total_deleted }) rs
      (ips ++ (heap.entry r).raw_ip ∷ [])

abbrev pub values : Dict Ref → List Ref
values [] = []
values ((k, r) ∷ m) = r ∷ values m

-- `Flush`; `order` is the order of a `range` over a map, which Go leaves open.
unfoldable pub flush : (List Ref → List Ref) → Tracker → Bytes → Option (Tracker × List Ip)
flush order t table = elim (lookup table t.tables) [
  | none ↦ some (t, [])
  | some m ↦ do
    (t', ips) ← flush_loop t (order (values m)) []
    some (record t' { tables = remove table t'.tables }, ips)
]

pub record Stats : Type 0 where
  pub active_entries : ℕ
  pub added : ℕ
  pub renewed : ℕ
  pub expired : ℕ
  pub deleted : ℕ

-- `Tracker.Stats`
unfoldable pub stats : Tracker → Stats
stats t = record {
  active_entries = length t.heap.pq;
  added = t.total_added;
  renewed = t.total_renewed;
  expired = t.total_expired;
  deleted = t.total_deleted;
}
