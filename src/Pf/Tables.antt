-- ===== src/Pf/Tables.antt =====
-- pkg/pf: what the daemon relies on when a device works, and the device in memory as such a device.
use opn_box.Base.{ℕ, ◌≡◌, false, ◌&&◌, ◌||◌, Bool, if◌then◌else◌, List, [], ◌∷◌, Bytes, bytes_eq}
use opn_box.Base.Outcome.{ok}
use opn_box.Net.{Ip}
use opn_box.Net.Text.{among}
use opn_box.Pf.{Device}
use opn_box.Pf.Mock.{
  MockDevice, Failure, device_closed, holds, add_addresses-holds, del_addresses-holds,
}
use opn_box.Pf.Mock

-- The states in which the device answers, the addresses that its tables have then, by their texts, and
-- what the two operations make of them.
pub record Tables (dev : Device) : Type 1 where
  pub Works : dev.State → Type 0
  pub contains : dev.State → Bytes → Bytes → Bool
  pub adds :
      (s : dev.State) (table : Bytes) (ips : List Ip)
      → Works s
      → (s' : dev.State) × (n : ℕ) × (dev.add_addresses s table ips ≡ (s', ok n))
        × Works s'
        × ((tb j : Bytes)
            → contains s' tb j ≡ (contains s tb j || (bytes_eq table tb && among ips j)))
  pub deletes :
      (s : dev.State) (table : Bytes) (ips : List Ip)
      → Works s
      → (s' : dev.State) × (n : ℕ) × (dev.del_addresses s table ips ≡ (s', ok n))
        × Works s'
        × ((tb j : Bytes)
            → contains s' tb j
              ≡ (if bytes_eq table tb && among ips j then false else contains s tb j))

-- `ErrDeviceClosed.Error()`
abbrev pub error_text : Failure → Bytes
error_text device_closed =
    b'p' ∷ b'f' ∷ b' ' ∷ b'd' ∷ b'e' ∷ b'v' ∷ b'i' ∷ b'c' ∷ b'e' ∷ b' ' ∷ b'c' ∷ b'l' ∷ b'o' ∷ b's'
    ∷ b'e' ∷ b'd' ∷ []

-- `MockDevice` as a `Device`
abbrev pub mock : Device
mock = record {
  State = MockDevice;
  Failure = Failure;
  message = error_text;
  add_addresses = Mock.add_addresses;
  del_addresses = Mock.del_addresses;
}

pub mock_tables : Tables mock
mock_tables = record {
  Works = λ m. m.closed ≡ false;
  contains = holds;
  adds = λ m table ips o.
      let (m', n, ran, still, view, size) = add_addresses-holds m table ips o in
      (m', n, ran, still, view);
  deletes = λ m table ips o.
      let (m', n, ran, still, view) = del_addresses-holds m table ips o in
      (m', n, ran, still, view);
}

-- An open device works.
pub mock_tables-Works : (m : MockDevice) → m.closed ≡ false → mock_tables.Works m
unfolding mock_tables
mock_tables-Works m o = o
