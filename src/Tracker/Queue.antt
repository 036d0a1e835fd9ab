-- ===== src/Tracker/Queue.antt =====
-- pkg/ttlcleaner/tracker.go: the entries and the methods of `entryHeap`. An `*Entry` is a reference
-- into a store of objects, since the queue and the tables share the entries. A step that panics (an
-- index out of range) is `none`. Times and durations are nanoseconds.
use opn_box.Base.{
  ℕ, ◌-◌, Bool, Option, none, some, List, [], ◌∷◌, ◌++◌, Bytes, length, get_elem?, set, take, ltb,
  ◌==◌, if◌then◌else◌,
}
use opn_box.Net.{Ip}

-- `index`: the place in the queue, or -1 after the entry was popped.
pub data Index : Type 0 where
  place : ℕ → Index
  popped : Index

pub record Entry : Type 0 where
  pub table : Bytes
  pub ip_str : Bytes
  pub raw_ip : Ip
  pub expire_at : ℕ
  pub index : Index

abbrev pub Ref : Type 0
Ref = ℕ

-- The queue, a slice of references, and the objects that they point to.
pub record EntryHeap : Type 0 where
  pub pq : List Ref
  pub entry : Ref → Entry

infixl 5 ◌>>=◌
abbrev pub ◌>>=◌ {ℓ κ} : {A : Type ℓ} {B : Type κ} → Option A → (A → Option B) → Option B
none >>= f = none
some a >>= f = f a

abbrev pub update {ℓ} : {A : Type ℓ} → (Ref → A) → Ref → A → Ref → A
update f r a s = if r == s then a else f s

abbrev pub set_index : (Ref → Entry) → Ref → Index → Ref → Entry
set_index f r i = update f r (record (f r) { index = i })

-- `entryHeap.Less`
unfoldable pub less : EntryHeap → ℕ → ℕ → Option Bool
less h i j = do
  a ← get_elem? h.pq i
  b ← get_elem? h.pq j
  some (ltb (h.entry a).expire_at (h.entry b).expire_at)

-- `entryHeap.Swap`
unfoldable pub swap : EntryHeap → ℕ → ℕ → Option EntryHeap
swap h i j = do
  x ← get_elem? h.pq i
  y ← get_elem? h.pq j
  some (record {
    pq = set (set h.pq i y) j x;
    entry = set_index (set_index h.entry y (place i)) x (place j);
  })

-- `entryHeap.Push`
unfoldable pub push : EntryHeap → Ref → EntryHeap
push h r = record { pq = h.pq ++ r ∷ []; entry = set_index h.entry r (place (length h.pq)) }

-- `entryHeap.Pop`
unfoldable pub pop : EntryHeap → Option (Ref × EntryHeap)
pop h =
    let n = length h.pq in
    if n == 0 then none else do
      item ← get_elem? h.pq (n - 1)
      some (item, record { pq = take (n - 1) h.pq; entry = set_index h.entry item popped })
