-- ===== src/Daemon.antt =====
-- cmd/pf-aliasd/main.go: the daemon between the DNS plugin's packets, the tracker and the packet
-- filter. The device is a parameter. `now` gives the successive clock readings of one message, and
-- `order` the order of a `range` over a map. The tracker's panics are `none`.
pub mod Add
pub mod Packets
pub mod Views
pub mod Agreement
pub mod Service
pub mod Runs
pub mod Ending
pub mod Collector
pub mod Races
pub mod Delivery
use opn_box.Base.{
  ℕ, zero, suc, ◌+◌, ◌-◌, ◌*◌, Bool, true, false, Option, none, some, List, [], ◌∷◌, ◌++◌, Bytes,
  length, take, ltb, ◌==◌, if◌then◌else◌,
}
use opn_box.Base.Dict.{Dict}
use opn_box.Base.Outcome.{Result, ok, err}
use opn_box.Net.{Ip}
use opn_box.Protocol.{
  Error, Message, cmd_add, cmd_del, cmd_flush, status_ok, status_err, encode, decode,
  new_ack_message,
}
use opn_box.Tracker.{Tracker, add_or_renew, delete, flush, pop_expired}
use opn_box.Tracker.Queue.{Ref, ◌>>=◌}
use opn_box.Pf.{Device}

-- `make([]byte, 4096)` in `handleConnection`
abbrev pub buffer_size : ℕ
buffer_size = 4096

-- The loop over `msg.IPs` of an addition, and the new addresses in order.
unfoldable pub add_all :
    (ℕ → ℕ) → Tracker → Bytes → ℕ → List Ip → List Ip → Option (Tracker × List Ip)
add_all now t table ttl [] new_ips = some (t, new_ips)
add_all now t table ttl (ip ∷ ips) new_ips = do
  (t', is_new) ← add_or_renew t table ip ttl (now (length ips))
  add_all now t' table ttl ips (if is_new then new_ips ++ ip ∷ [] else new_ips)

-- The loop over `msg.IPs` of a deletion.
unfoldable pub delete_all : Tracker → Bytes → List Ip → Option Tracker
delete_all t table [] = some t
delete_all t table (ip ∷ ips) = do (t', found) ← delete t table ip; delete_all t' table ips

abbrev pub packets_of : {E : Type 0} → Result E Bytes → List Bytes
packets_of (ok packet) = packet ∷ []
packets_of (err e) = []

-- `ack.Encode()`, and the packet that is written if that succeeds.
unfoldable pub acknowledge : ℕ → ℕ → Bytes → List Bytes
acknowledge seq status text = packets_of (encode (new_ack_message seq status text))

abbrev pub nanoseconds : ℕ → ℕ
nanoseconds seconds = seconds * 1000000000

module _ (dev : Device) where
  open dev use {State, Failure, message, add_addresses, del_addresses}

  pub record Daemon : Type 0 where
    pub device : State
    pub tracker : Tracker

  abbrev pub status_of : Result Failure ℕ → ℕ
  status_of (ok n) = status_ok
  status_of (err e) = status_err

  abbrev pub text_of : Result Failure ℕ → Bytes
  text_of (ok n) = []
  text_of (err e) = message e

  abbrev pub Written : Type 0
  Written = Option (Daemon × List Bytes)

  -- The ioctl of an addition, left out where nothing is new.
  unfoldable pub inject : State → Bytes → List Ip → State × Result Failure ℕ
  inject s table [] = (s, ok 0)
  inject s table (ip ∷ ips) = add_addresses s table (ip ∷ ips)

  unfoldable pub on_add : (ℕ → ℕ) → Daemon → Message → Written
  unfolding inject
  on_add now d m = do
    (t, new_ips) ← add_all now d.tracker m.table (nanoseconds m.ttl) m.ips []
    let (s, r) = inject d.device m.table new_ips
    some (record { device = s; tracker = t }, acknowledge m.header.seq (status_of r) (text_of r))

  unfoldable pub on_del : Daemon → Message → Written
  on_del d m = do
    t ← delete_all d.tracker m.table m.ips
    let (s, r) = del_addresses d.device m.table m.ips
    some (record { device = s; tracker = t }, acknowledge m.header.seq (status_of r) (text_of r))

  -- The deletion of what a flush returned, left out where it is nothing.
  unfoldable pub evict : State → Bytes → List Ip → State
  evict s table [] = s
  evict s table (ip ∷ ips) = (del_addresses s table (ip ∷ ips)).0

  unfoldable pub on_flush : (List Ref → List Ref) → Daemon → Message → Written
  unfolding evict
  on_flush order d m = do
    (t, ips) ← flush order d.tracker m.table
    some (
      record { device = evict d.device m.table ips; tracker = t },
      acknowledge m.header.seq status_ok [],
    )

  -- `dispatchMessage`
  unfoldable pub dispatch_message : (ℕ → ℕ) → (List Ref → List Ref) → Daemon → Message → Written
  dispatch_message now order d m =
      if m.header.command == cmd_add
      then on_add now d m
      else if m.header.command == cmd_del
      then on_del d m
      else if m.header.command == cmd_flush
      then on_flush order d m
      else some (d, [])

  abbrev pub on_decoded : (ℕ → ℕ) → (List Ref → List Ref) → Daemon → Result Error Message → Written
  on_decoded now order d (ok m) = dispatch_message now order d m
  on_decoded now order d (err e) = some (d, [])

  -- One round of `handleConnection`: a packet that the socket cut to the buffer's size.
  unfoldable pub handle_packet : (ℕ → ℕ) → (List Ref → List Ref) → Daemon → Bytes → Written
  handle_packet now order d packet = on_decoded now order d (decode (take buffer_size packet))

  -- The deletions of a sweep, a call for each table in the order in which the map yields them.
  unfoldable pub evict_all : State → Dict (List Ip) → State
  evict_all s [] = s
  evict_all s ((table, ips) ∷ rest) = evict_all (del_addresses s table ips).0 rest

  -- One tick of `runGCLoop`.
  unfoldable pub sweep : (Dict (List Ip) → Dict (List Ip)) → ℕ → ℕ → Daemon → Option Daemon
  sweep tables now max_batch d = do
    (t, expired) ← pop_expired d.tracker now max_batch
    some (record { device = evict_all d.device (tables expired); tracker = t })
