-- ===== src/Pf/Mock.antt =====
-- pkg/pf/pf_mock.go: the device that keeps its tables in memory. A set is a map into `struct{}`.
use opn_box.Base.{
  is_some, ℕ, ◌+◌, ◌≡◌, refl, ap, ◌∙◌, Bool, true, false, ◌&&◌, ◌||◌, Option, none, some, List, [],
  ◌∷◌, Bytes, arith, if◌then◌else◌, bytes_eq, bytes_eq_iff, bytes_eq_self, length,
}
use opn_box.Base.Dict.{Dict, lookup, put, remove, lookup-put, lookup-remove, lookup-nil}
use opn_box.Base.Outcome.{Result, ok, err}
use opn_box.Net.{Ip}
use opn_box.Net.Text.{ip_string, among}

pub data Failure : Type 0 where
  device_closed : Failure

abbrev pub TableSet : Type 0
TableSet = Dict (Unit {0})

pub record MockDevice : Type 0 where
  pub tables : Dict TableSet
  pub closed : Bool

-- `Open`
abbrev pub open_mock : MockDevice
open_mock = record { tables = []; closed = false }

-- The table's set, or a new one.
abbrev pub or_new : Option TableSet → TableSet
or_new (some tbl) = tbl
or_new none = []

-- `_, exists := tbl[s]`
abbrev pub has : TableSet → Bytes → Bool
has tbl s = is_some (lookup s tbl)

-- The loop of `AddAddresses`.
unfoldable pub add_loop : TableSet → ℕ → List Ip → TableSet × ℕ
add_loop tbl added [] = (tbl, added)
add_loop tbl added (ip ∷ ips) =
    let s = ip_string ip in
    add_loop (if has tbl s then tbl else put s tt tbl) (if has tbl s then added else added + 1) ips

-- `MockDevice.AddAddresses`
unfoldable pub add_addresses : MockDevice → Bytes → List Ip → MockDevice × Result Failure ℕ
add_addresses m table ips =
    if m.closed
    then (m, err device_closed)
    else let tbl = or_new (lookup table m.tables) in
      let (tbl', added) = add_loop tbl 0 ips in
      (record m { tables = put table tbl' m.tables }, ok added)

-- The loop of `DelAddresses`.
unfoldable pub del_loop : TableSet → ℕ → List Ip → TableSet × ℕ
del_loop tbl deleted [] = (tbl, deleted)
del_loop tbl deleted (ip ∷ ips) =
    let s = ip_string ip in
    del_loop (if has tbl s then remove s tbl else tbl) (if has tbl s then deleted + 1 else deleted)
      ips

-- `MockDevice.DelAddresses`
unfoldable pub del_addresses : MockDevice → Bytes → List Ip → MockDevice × Result Failure ℕ
del_addresses m table ips =
    if m.closed then (m, err device_closed) else elim (lookup table m.tables) [
      | none ↦ (m, ok 0)
      | some tbl ↦
          let (tbl', deleted) = del_loop tbl 0 ips in
          (record m { tables = put table tbl' m.tables }, ok deleted)
    ]

-- `MockDevice.Close`
unfoldable pub close : MockDevice → MockDevice
close m = record m { closed = true }

has-add_loop :
    (tbl : TableSet) (n : ℕ) (ips : List Ip) (s : Bytes)
    → has (add_loop tbl n ips).0 s ≡ (has tbl s || among ips s)
unfolding add_loop
has-add_loop tbl n [] s = ground arith
has-add_loop tbl n (ip ∷ ips) s =
    let k = ip_string ip in
    let next = if has tbl k then tbl else put k tt tbl in
    has-add_loop next (if has tbl k then n else n + 1) ips s
    ∙ ground (arith, lookup-put k s tt tbl, bytes_eq_iff k s)

has-del_loop :
    (tbl : TableSet) (n : ℕ) (ips : List Ip) (s : Bytes)
    → has (del_loop tbl n ips).0 s ≡ (if among ips s then false else has tbl s)
unfolding del_loop
has-del_loop tbl n [] s = refl
has-del_loop tbl n (ip ∷ ips) s =
    let k = ip_string ip in
    let next = if has tbl k then remove k tbl else tbl in
    has-del_loop next (if has tbl k then n + 1 else n) ips s
    ∙ ground (arith, lookup-remove k s tbl, bytes_eq_iff k s)

abbrev pub holds : MockDevice → Bytes → Bytes → Bool
holds m table s = has (or_new (lookup table m.tables)) s

length-put_new :
    (s : Bytes) (tbl : TableSet) → has tbl s ≡ false → length (put s tt tbl) ≡ length tbl + 1
unfolding put lookup
length-put_new s [] h = omega arith
length-put_new s ((k, u) ∷ tbl) h = ground (arith, length-put_new s tbl)

add_loop_count :
    (tbl : TableSet) (n : ℕ) (ips : List Ip)
    → length (add_loop tbl n ips).0 + n ≡ length tbl + (add_loop tbl n ips).1
unfolding add_loop
add_loop_count tbl n [] = refl
add_loop_count tbl n (ip ∷ ips) =
    let k = ip_string ip in
    let next = if has tbl k then tbl else put k tt tbl in
    let more = if has tbl k then n else n + 1 in
    ground (arith, add_loop_count next more ips, length-put_new k tbl)

-- On an open device `AddAddresses` puts exactly the given addresses into the one table, keeps every
-- other, returns by how many the table has grown, and leaves the device open.
pub add_addresses-holds :
    (m : MockDevice) (table : Bytes) (ips : List Ip)
    → m.closed ≡ false
    → (m' : MockDevice) × (n : ℕ) × (add_addresses m table ips ≡ (m', ok n))
      × (m'.closed ≡ false)
      × ((tb s : Bytes) → holds m' tb s ≡ (holds m tb s || (bytes_eq table tb && among ips s)))
      × (length (or_new (lookup table m'.tables)) ≡ length (or_new (lookup table m.tables)) + n)
unfolding add_addresses
add_addresses-holds m table ips o =
    let tbl = or_new (lookup table m.tables) in
    let (tbl', added) = add_loop tbl 0 ips in
    (
      record m { tables = put table tbl' m.tables },
      added,
      rw o refl,
      o,
      λ tb s. ground (
        arith,
        lookup-put table tb tbl' m.tables,
        bytes_eq_iff table tb,
        has-add_loop tbl 0 ips s,
      ),
      ground (
        arith,
        lookup-put table table tbl' m.tables,
        bytes_eq_self table,
        add_loop_count tbl 0 ips,
      ),
    )

-- On an open device `DelAddresses` takes exactly the given addresses out of the one table, and keeps
-- every other, and leaves the device open.
pub del_addresses-holds :
    (m : MockDevice) (table : Bytes) (ips : List Ip)
    → m.closed ≡ false
    → (m' : MockDevice) × (n : ℕ) × (del_addresses m table ips ≡ (m', ok n))
      × (m'.closed ≡ false)
      × ((tb s : Bytes)
          → holds m' tb s ≡ (if bytes_eq table tb && among ips s then false else holds m tb s))
unfolding del_addresses
del_addresses-holds m table ips o = go (lookup table m.tables) refl
  where
    go :
        (found : Option TableSet)
        → lookup table m.tables ≡ found
        → (m' : MockDevice) × (n : ℕ) × (del_addresses m table ips ≡ (m', ok n))
          × (m'.closed ≡ false)
          × ((tb s : Bytes)
              → holds m' tb s ≡ (if bytes_eq table tb && among ips s then false else holds m tb s))
    go none q = (
      m,
      0,
      ground (arith, o, q),
      o,
      λ tb s. ground (
        arith,
        q,
        ap (λ (k : Bytes). lookup k m.tables),
        bytes_eq_iff table tb,
        lookup-nil {V = Unit {0}} s,
      ),
    )
    go (some tbl) q =
        let (tbl', deleted) = del_loop tbl 0 ips in
        (
          record m { tables = put table tbl' m.tables },
          deleted,
          ground (arith, o, q),
          o,
          λ tb s. ground (
            arith,
            lookup-put table tb tbl' m.tables,
            bytes_eq_iff table tb,
            has-del_loop tbl 0 ips s,
            q,
            ap (λ (k : Bytes). lookup k m.tables),
          ),
        )
