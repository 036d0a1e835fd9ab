-- ===== src/Pf/Freebsd.antt =====
-- pkg/pf/pf_freebsd.go: the device that drives /dev/pf. The kernel is a parameter: `ioctl` on a
-- state of the kernel, with the file descriptor, the request and the argument with its addresses.
use mathlib.Core.Path.{subst}
use opn_box.Base.{
  ◌++◌, sym, ℕ, zero, suc, ◌≤◌, ◌<◌, ◌≡◌, refl, ap, ◌⊎◌, inl, inr, Option, none, some, List, [],
  ◌∷◌, Bytes, arith, take, length, ◌==◌, if◌then◌else◌,
}
use opn_box.Base.Outcome.{Result, ok, err, ◌>>=◌}
use opn_box.Net.{Ip, to4, to16}
use opn_box.Protocol.Addresses.{IsAddress, AllAddresses, length-to4, sixteen}

abbrev pub diocraddaddrs : ℕ
diocraddaddrs = 0xc4504443

abbrev pub diocrdeladdrs : ℕ
diocrdeladdrs = 0xc4504444

abbrev pub af_inet : ℕ
af_inet = 2

abbrev pub af_inet6 : ℕ
af_inet6 = 28

abbrev pub pfr_table_name_size : ℕ
pfr_table_name_size = 32

-- `pfrAddr`: the fields that the program writes, the others are zero.
pub record PfrAddr : Type 0 where
  pub addr : Bytes
  pub af : ℕ
  pub net : ℕ

-- `pfiocTable`: the name, and the array behind `buffer` and `size`.
pub record PfiocTable : Type 0 where
  pub name : Bytes
  pub buffer : List PfrAddr
  pub esize : ℕ
  pub size : ℕ

pub data Failure (Errno : Type 0) : Type 0 where
  device_closed : Failure Errno
  invalid_ip : Ip → Failure Errno
  ioctl_failed : Errno → Failure Errno

-- `copy(dst[:], src)` into a zeroed array of `n` bytes.
unfoldable pub copy_into : ℕ → Bytes → Bytes
copy_into zero src = []
copy_into (suc n) [] = 0 ∷ copy_into n []
copy_into (suc n) (b ∷ src) = b ∷ copy_into n src

module _ {Errno : Type 0} where
  -- One round of the loop that fills `addrs`.
  unfoldable pub pack_addr : Ip → Result (Failure Errno) PfrAddr
  unfolding copy_into
  pack_addr ip = elim (to4 ip) [
    | some ip4 ↦ ok (record { addr = copy_into 16 ip4; af = af_inet; net = 32 })
    | none ↦ elim (to16 ip) [
      | some ip6 ↦ ok (record { addr = copy_into 16 ip6; af = af_inet6; net = 128 })
      | none ↦ err (invalid_ip ip)
    ]
  ]

  unfoldable pub pack_addrs : List Ip → Result (Failure Errno) (List PfrAddr)
  pack_addrs [] = ok []
  pack_addrs (ip ∷ ips) = do a ← pack_addr ip; as' ← pack_addrs ips; ok (a ∷ as')

-- `BSDDevice`: the descriptor, `none` for the -1 of a closed device.
pub record BsdDevice : Type 0 where
  pub fd : Option ℕ

-- The counters that the kernel writes back.
pub record Counts : Type 0 where
  pub nadd : ℕ
  pub ndel : ℕ

module _ {Kernel Errno : Type 0}
    (ioctl : Kernel → ℕ → ℕ → PfiocTable → Kernel × Result Errno Counts) where
  -- The argument of the call; `esize` is the size of a `pfrAddr`.
  unfoldable pub request : Bytes → List PfrAddr → PfiocTable
  request table addrs = record {
    name = copy_into pfr_table_name_size table;
    buffer = addrs;
    esize = 24;
    size = length addrs;
  }

  unfoldable pub answer :
      (Counts → ℕ) → Kernel × Result Errno Counts → Kernel × Result (Failure Errno) ℕ
  answer field (k, ok c) = (k, ok (field c))
  answer field (k, err e) = (k, err (ioctl_failed e))

  unfoldable pub submit :
      ℕ
      → (Counts → ℕ)
      → Kernel
      → ℕ
      → Bytes
      → Result (Failure Errno) (List PfrAddr)
      → Kernel × Result (Failure Errno) ℕ
  unfolding request answer
  submit code field k fd table (err e) = (k, err e)
  submit code field k fd table (ok addrs) = answer field (ioctl k fd code (request table addrs))

  -- `BSDDevice.AddAddresses`
  unfoldable pub add_addresses :
      BsdDevice → Kernel → Bytes → List Ip → Kernel × Result (Failure Errno) ℕ
  unfolding submit
  add_addresses d k table ips = if length ips == 0 then (k, ok 0) else elim d.fd [
    | none ↦ (k, err device_closed)
    | some fd ↦ submit diocraddaddrs (λ c. c.nadd) k fd table (pack_addrs ips)
  ]

  -- `BSDDevice.DelAddresses`
  unfoldable pub del_addresses :
      BsdDevice → Kernel → Bytes → List Ip → Kernel × Result (Failure Errno) ℕ
  unfolding submit
  del_addresses d k table ips = if length ips == 0 then (k, ok 0) else elim d.fd [
    | none ↦ (k, err device_closed)
    | some fd ↦ submit diocrdeladdrs (λ c. c.ndel) k fd table (pack_addrs ips)
  ]

module _ {Kernel Errno : Type 0} (close_fd : Kernel → ℕ → Kernel × Option Errno) where
  -- `BSDDevice.Close`
  unfoldable pub close : BsdDevice → Kernel → BsdDevice × Kernel × Option Errno
  close d k = elim d.fd [
    | none ↦ (d, k, none)
    | some fd ↦ let (k', e) = close_fd k fd in (record { fd = none }, k', e)
  ]

pub length-copy_into : (n : ℕ) (src : Bytes) → length (copy_into n src) ≡ n
unfolding copy_into
length-copy_into zero src = refl
length-copy_into (suc n) [] = ap suc (length-copy_into n [])
length-copy_into (suc n) (b ∷ src) = ap suc (length-copy_into n src)

-- A source that fits stands at the front; of a longer one only the first bytes are copied.
pub take-copy_into :
    (n k : ℕ) (src : Bytes) → k ≤ n → k ≤ length src → take k (copy_into n src) ≡ take k src
unfolding copy_into
take-copy_into n zero src h l = refl
take-copy_into zero (suc k) src h l = absurd (omega arith)
take-copy_into (suc n) (suc k) [] h l = absurd (omega arith)
take-copy_into (suc n) (suc k) (b ∷ src) h l =
    ap (◌∷◌ b) (take-copy_into n k src (omega arith) (omega arith))

abbrev pub AllZero : Bytes → Type 0
AllZero [] = Unit {0}
AllZero (b ∷ bs) = (b ≡ 0) × AllZero bs

-- A source that fits is followed by zeros.
copy_into_padded :
    (n : ℕ) (src : Bytes)
    → length src ≤ n
    → (zeros : Bytes) × AllZero zeros × (copy_into n src ≡ src ++ zeros)
unfolding copy_into
copy_into_padded zero [] l = ([], tt, refl)
copy_into_padded zero (b ∷ src) l = absurd (omega arith)
copy_into_padded (suc n) [] l =
    let (zeros, z, e) = copy_into_padded n [] (omega arith) in (0 ∷ zeros, (refl, z), ap (◌∷◌ 0) e)
copy_into_padded (suc n) (b ∷ src) l =
    let (zeros, z, e) = copy_into_padded n src (omega arith) in (zeros, z, ap (◌∷◌ b) e)

copy_all : (src : Bytes) (n : ℕ) → length src ≡ n → copy_into n src ≡ src
unfolding copy_into
copy_all [] zero h = refl
copy_all [] (suc n) h = absurd (omega arith)
copy_all (b ∷ src) zero h = absurd (omega arith)
copy_all (b ∷ src) (suc n) h = ap (◌∷◌ b) (copy_all src n (omega arith))

first_four : (p : Ip) → length p ≡ 4 → take 4 (copy_into 16 p) ≡ p
unfolding copy_into
first_four (a ∷ b ∷ c ∷ d ∷ []) h = refl
first_four _ h = absurd (omega arith)

to16_lem : (ip : Ip) → length ip ≡ 16 → to16 ip ≡ some ip
unfolding to16
to16_lem ip h = ground arith

-- A packed address is the one given, an IPv4 address padded to sixteen bytes, with its family and
-- prefix length.
abbrev pub IsPacked : Ip → PfrAddr → Type 0
IsPacked ip a =
    (length a.addr ≡ 16)
    × ((to4 ip ≡ some (take 4 a.addr)) × (a.af ≡ af_inet) × (a.net ≡ 32)
        ⊎ (to4 ip ≡ none) × (a.addr ≡ ip) × (a.af ≡ af_inet6) × (a.net ≡ 128))

abbrev pub AllPacked : List Ip → List PfrAddr → Type 0
AllPacked [] [] = Unit {0}
AllPacked (ip ∷ ips) (a ∷ as') = IsPacked ip a × AllPacked ips as'
AllPacked _ _ = ⊥

module _ {Errno : Type 0} where
  pack_four :
      (ip p : Ip)
      → to4 ip ≡ some p
      → (a : PfrAddr) × (pack_addr {Errno = Errno} ip ≡ ok a) × IsPacked ip a
  unfolding pack_addr
  pack_four ip p e =
      let l = length-to4 ip p e in
      let front : take 4 (copy_into 16 p) ≡ p = first_four p l in
      (
        record { addr = copy_into 16 p; af = af_inet; net = 32 },
        rw (e, pack_addr) refl,
        (length-copy_into 16 p, inl (rw front e, refl, refl)),
      )

  pack_sixteen :
      (ip : Ip)
      → IsAddress ip
      → to4 ip ≡ none
      → (a : PfrAddr) × (pack_addr {Errno = Errno} ip ≡ ok a) × IsPacked ip a
  unfolding pack_addr
  pack_sixteen ip w e =
      let l = sixteen ip w e in
      (
        record { addr = copy_into 16 ip; af = af_inet6; net = 128 },
        ground (arith, e, to16_lem ip l),
        (length-copy_into 16 ip, inr (e, copy_all ip 16 l, refl, refl)),
      )

  pack_one :
      (ip : Ip)
      → IsAddress ip
      → (a : PfrAddr) × (pack_addr {Errno = Errno} ip ≡ ok a) × IsPacked ip a
  pack_one ip w = go (to4 ip) refl
    where
      go :
          (o : Option Ip)
          → to4 ip ≡ o
          → (a : PfrAddr) × (pack_addr {Errno = Errno} ip ≡ ok a) × IsPacked ip a
      go none e = pack_sixteen ip w e
      go (some p) e = pack_four ip p e

  pub pack_addrs-AllPacked :
      (ips : List Ip)
      → AllAddresses ips
      → (addrs : List PfrAddr) × (pack_addrs {Errno = Errno} ips ≡ ok addrs)
        × AllPacked ips addrs
        × (length addrs ≡ length ips)
  unfolding pack_addrs
  pack_addrs-AllPacked [] h = ([], refl, tt, refl)
  pack_addrs-AllPacked (ip ∷ ips) h =
      let (a, e, p) = pack_one ip h.0 in
      let (as', e', p', l) = pack_addrs-AllPacked ips h.1 in
      (a ∷ as', rw (e, e') refl, (p, p'), ap suc l)

module _ {Kernel Errno : Type 0}
    (ioctl : Kernel → ℕ → ℕ → PfiocTable → Kernel × Result Errno Counts) where
  -- What an addition hands back: the kernel's count of additions, or its error.
  abbrev pub Counted : Kernel × Result Errno Counts → Kernel × Result (Failure Errno) ℕ → Type 0
  Counted (k, r) back =
      ((c : Counts) × (r ≡ ok c) × (back ≡ (k, ok c.nadd)))
      ⊎ (e : Errno) × (r ≡ err e) × (back ≡ (k, err (ioctl_failed e)))

  -- The one call of the kernel: the argument holds the table's name in 32 bytes, padded with zeros, and
  -- an entry for each address, and gives their number and the size of an entry.
  abbrev pub Submits : ℕ → Kernel → Bytes → List Ip → Kernel × Result (Failure Errno) ℕ → Type 0
  Submits fd k table ips back =
      (arg : PfiocTable) × (length arg.name ≡ 32)
      × ((n : ℕ) → n ≤ 32 → n ≤ length table → take n arg.name ≡ take n table)
      × (length table ≤ 32 → (zeros : Bytes) × AllZero zeros × (arg.name ≡ table ++ zeros))
      × AllPacked ips arg.buffer
      × (length arg.buffer ≡ length ips)
      × (arg.size ≡ length ips)
      × (arg.esize ≡ 24)
      × Counted (ioctl k fd 0xc4504443 arg) back

  answered : (r : Kernel × Result Errno Counts) → Counted r (answer ioctl (λ c. c.nadd) r)
  unfolding answer
  answered (k, ok c) = inl (c, refl, refl)
  answered (k, err e) = inr (e, refl, refl)

  -- An addition of valid addresses, one at least, on an open device is one call of the kernel, DIOCRADDADDRS, whose
  -- argument has the table's name, cut or padded with zeros to 32 bytes, an entry for each address in
  -- the order given, their number, and 24 bytes as the size of an entry. Its result is the kernel's
  -- count of additions or its error.
  pub add_addresses-Submits :
      (fd : ℕ) (k : Kernel) (table : Bytes) (ips : List Ip)
      → AllAddresses ips
      → 0 < length ips
      → Submits fd k table ips (add_addresses ioctl (record { fd = some fd }) k table ips)
  unfolding add_addresses request submit
  add_addresses-Submits fd k table ips w l =
      let (addrs, e, p, n) = pack_addrs-AllPacked {Errno = Errno} ips w in
      let arg = request ioctl table addrs in
      let ran : add_addresses ioctl (record { fd = some fd }) k table ips
          ≡ answer ioctl (λ c. c.nadd) (ioctl k fd diocraddaddrs arg) =
        rw e (ground arith) in
      (
        arg,
        length-copy_into 32 table,
        λ i small short. take-copy_into 32 i table small short,
        λ short. copy_into_padded 32 table short,
        p,
        n,
        n,
        refl,
        subst (Counted (ioctl k fd diocraddaddrs arg)) (sym ran)
            (answered (ioctl k fd diocraddaddrs arg)),
      )
