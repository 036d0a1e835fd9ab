-- ===== src/Protocol.antt =====
-- pkg/protocol/protocol.go: the messages between the DNS plugin and the daemon, and their wire
-- format. `Encode` appends to a buffer; here the payload is a value that the header is put before.
-- `Decode` walks an offset; here the functions take the bytes from the offset on.
pub mod Addresses
pub mod RoundTrip
pub mod Accepted
pub mod Truncated
use opn_box.Base.{
  ℕ, zero, suc, ◌+◌, ◌*◌, ◌/◌, ◌%◌, ◌^◌, Bool, ◌&&◌, ◌||◌, not, none, some, List, [], ◌∷◌, ◌++◌,
  Bytes, length, take, drop, ltb, ◌==◌, if◌then◌else◌,
}
use opn_box.Base.Outcome.{Result, ok, err, ◌>>=◌}
use opn_box.Net.{Ip, to4, to16}

abbrev pub protocol_version : ℕ
protocol_version = 1

abbrev pub cmd_add : ℕ
cmd_add = 0x01

abbrev pub cmd_del : ℕ
cmd_del = 0x02

abbrev pub cmd_flush : ℕ
cmd_flush = 0x03

abbrev pub cmd_ack : ℕ
cmd_ack = 0x80

abbrev pub status_ok : ℕ
status_ok = 0

abbrev pub status_err : ℕ
status_err = 1

abbrev pub max_table_name_len : ℕ
max_table_name_len = 31

abbrev pub max_ips_per_packet : ℕ
max_ips_per_packet = 256

abbrev pub header_size : ℕ
header_size = 10

pub data Error : Type 0 where
  packet_too_short invalid_magic table_name_too_long too_many_ips invalid_ip : Error
  invalid_version unknown_command unsupported_family : ℕ → Error

pub record Header : Type 0 where
  pub magic : ℕ × ℕ
  pub version : ℕ
  pub command : ℕ
  pub seq : ℕ
  pub status : ℕ
  pub reserved : ℕ

pub record Message : Type 0 where
  pub header : Header
  pub table : Bytes
  pub ttl : ℕ
  pub ips : List Ip
  pub err_msg : Bytes

abbrev pub magic_bytes : ℕ × ℕ
magic_bytes = (b'P', b'F')

-- `binary.BigEndian.PutUint16` and `PutUint32`
unfoldable pub put_uint16 : ℕ → Bytes
put_uint16 n = (n / 256 % 256) ∷ (n % 256) ∷ []

unfoldable pub put_uint32 : ℕ → Bytes
put_uint32 n = (n / 16777216 % 256) ∷ (n / 65536 % 256) ∷ (n / 256 % 256) ∷ (n % 256) ∷ []

abbrev pub uint16 : ℕ → ℕ → ℕ
uint16 a b = a * 256 + b

abbrev pub uint32 : ℕ → ℕ → ℕ → ℕ → ℕ
uint32 a b c d = a * 16777216 + b * 65536 + c * 256 + d

-- One round of the loop over `m.IPs`: the family and the bytes.
unfoldable pub encode_ip : Ip → Result Error Bytes
encode_ip ip = elim (to4 ip) [
  | some ip4 ↦ ok (4 ∷ ip4)
  | none ↦ elim (to16 ip) [ some ip6 ↦ ok (6 ∷ ip6) | none ↦ err invalid_ip ]
]

unfoldable pub encode_ips : List Ip → Result Error Bytes
encode_ips [] = ok []
encode_ips (ip ∷ ips) = do bs ← encode_ip ip; rest ← encode_ips ips; ok (bs ++ rest)

unfoldable pub encode_payload : Message → Result Error Bytes
encode_payload m =
    let command = m.header.command in
    let named = (length m.table % 256) ∷ m.table in
    if command == cmd_add || command == cmd_del
    then (do
      ips ← encode_ips m.ips
      ok (named ++ (put_uint32 m.ttl ++ (put_uint16 (length m.ips % 65536) ++ ips))))
    else if command == cmd_flush
    then ok named
    else if command == cmd_ack
    then ok (put_uint16 (length m.err_msg % 65536) ++ m.err_msg)
    else err (unknown_command command)

unfoldable pub encode_header : Header → Bytes
encode_header h =
    b'P' ∷ b'F' ∷ protocol_version ∷ h.command ∷ (put_uint32 h.seq ++ h.status ∷ 0 ∷ [])

-- `Message.Encode`
unfoldable pub encode : Message → Result Error Bytes
encode m =
    if ltb max_table_name_len (length m.table)
    then err table_name_too_long
    else if ltb max_ips_per_packet (length m.ips)
    then err too_many_ips
    else do payload ← encode_payload m; ok (encode_header m.header ++ payload)

-- The first `n` bytes of the rest, and what follows them.
unfoldable pub read : ℕ → Bytes → Result Error (Bytes × Bytes)
read n rest = if ltb (length rest) n then err packet_too_short else ok (take n rest, drop n rest)

-- One round of the loop of `Decode`: an address and what follows it.
unfoldable pub decode_ip : Bytes → Result Error (Ip × Bytes)
decode_ip [] = err packet_too_short
decode_ip (family ∷ rest) =
    if family == 4
    then read 4 rest
    else if family == 6
    then read 16 rest
    else err (unsupported_family family)

unfoldable pub decode_ips : ℕ → Bytes → Result Error (List Ip)
decode_ips zero rest = ok []
decode_ips (suc n) rest = do (ip, rest') ← decode_ip rest; ips ← decode_ips n rest'; ok (ip ∷ ips)

-- The table's name and the bytes behind it, of which there must be `more`.
unfoldable pub decode_table : ℕ → Bytes → Result Error (Bytes × Bytes)
decode_table more [] = err packet_too_short
decode_table more (n ∷ rest) =
    if ltb (length rest) (n + more) then err packet_too_short else ok (take n rest, drop n rest)

-- The TTL, the count and the addresses.
unfoldable pub decode_entries : Bytes → Result Error (ℕ × List Ip)
decode_entries (t3 ∷ t2 ∷ t1 ∷ t0 ∷ c1 ∷ c0 ∷ rest) = do
  ips ← decode_ips (uint16 c1 c0) rest
  ok (uint32 t3 t2 t1 t0, ips)
decode_entries _ = err packet_too_short

-- The error text of an acknowledgment, empty where the packet is too short for it.
unfoldable pub decode_err_msg : Bytes → Bytes
decode_err_msg (e1 ∷ e0 ∷ rest) =
    let n = uint16 e1 e0 in if ltb (length rest) n then [] else take n rest
decode_err_msg _ = []

abbrev bare : Header → Message
bare h = record { header = h; table = []; ttl = 0; ips = []; err_msg = [] }

unfoldable pub decode_payload : Header → Bytes → Result Error Message
decode_payload h rest =
    if h.command == cmd_add || h.command == cmd_del
    then (do
      (table, rest') ← decode_table 6 rest
      (ttl, ips) ← decode_entries rest'
      ok (record { header = h; table = table; ttl = ttl; ips = ips; err_msg = [] }))
    else if h.command == cmd_flush
    then (do
      (table, rest') ← decode_table 0 rest
      ok (record { header = h; table = table; ttl = 0; ips = []; err_msg = [] }))
    else if h.command == cmd_ack
    then ok (record { header = h; table = []; ttl = 0; ips = []; err_msg = decode_err_msg rest })
    else err (unknown_command h.command)

-- `Decode`: the pattern is the test `len(data) < HeaderSize`.
unfoldable pub decode : Bytes → Result Error Message
decode (m0 ∷ m1 ∷ ver ∷ cmd ∷ s3 ∷ s2 ∷ s1 ∷ s0 ∷ status ∷ rsvd ∷ rest) =
    if not (m0 == b'P') || not (m1 == b'F')
    then err invalid_magic
    else if not (ver == protocol_version)
    then err (invalid_version ver)
    else decode_payload
        (record {
          magic = magic_bytes;
          version = ver;
          command = cmd;
          seq = uint32 s3 s2 s1 s0;
          status = status;
          reserved = rsvd;
        })
        rest
decode _ = err packet_too_short

abbrev header_of : ℕ → ℕ → ℕ → Header
header_of command seq status = record {
  magic = magic_bytes;
  version = protocol_version;
  command = command;
  seq = seq;
  status = status;
  reserved = 0;
}

-- `NewAddMessage`
unfoldable pub new_add_message : ℕ → Bytes → ℕ → List Ip → Message
new_add_message seq table ttl ips = record {
  header = header_of cmd_add seq 0;
  table = table;
  ttl = ttl;
  ips = ips;
  err_msg = [];
}

-- `NewDelMessage`
unfoldable pub new_del_message : ℕ → Bytes → List Ip → Message
new_del_message seq table ips = record {
  header = header_of cmd_del seq 0;
  table = table;
  ttl = 0;
  ips = ips;
  err_msg = [];
}

-- `NewAckMessage`
unfoldable pub new_ack_message : ℕ → ℕ → Bytes → Message
new_ack_message seq status err_msg = record {
  header = header_of cmd_ack seq status;
  table = [];
  ttl = 0;
  ips = [];
  err_msg = err_msg;
}
