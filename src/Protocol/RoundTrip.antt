-- ===== src/Protocol/RoundTrip.antt =====
-- pkg/protocol/protocol.go: what `Decode` makes of the bytes that `Encode` writes.
use opn_box.Base.{
  ℕ, ◌/◌, ◌%◌, ◌^◌, ◌≤◌, ◌<◌, ◌≡◌, ◌∙◌, ◌⊎◌, inl, inr, ◌||◌, List, [], ◌∷◌, ◌++◌, map, Bytes,
  length, ◌==◌, if◌then◌else◌, arith, take-append, drop-append, length-append,
}
use mathlib.Core.List.{append_assoc}
use opn_box.Base.Outcome.{ok}
use opn_box.Net.{Ip}
use opn_box.Protocol.{
  Header, Message, magic_bytes, protocol_version, cmd_add, cmd_del, cmd_flush, cmd_ack,
  max_table_name_len, max_ips_per_packet, put_uint16, put_uint32, uint16, uint32, encode,
  encode_payload, encode_header, decode, decode_payload, decode_table, decode_entries,
  decode_err_msg,
}
use opn_box.Protocol.Addresses.{
  AllAddresses, wire_ip, ips_bytes, encode_ips-eq, decode_ips-ips_bytes,
}

-- The fields that the message's command carries are in range for the wire.
abbrev pub Fits : Message → Type 0
Fits m =
    ((m.header.command ≡ cmd_add) ⊎ (m.header.command ≡ cmd_del))
      × AllAddresses m.ips
      × (m.ttl < 2 ^ 32)
    ⊎ ((m.header.command ≡ cmd_flush) ⊎ (m.header.command ≡ cmd_ack) × (length m.err_msg < 65536))

pub record IsEncodable (m : Message) : Type 0 where
  pub named : length m.table ≤ max_table_name_len
  pub counted : length m.ips ≤ max_ips_per_packet
  pub numbered : m.header.seq < 2 ^ 32
  pub fits : Fits m

abbrev pub wire_header : Header → Header
wire_header h = record h { magic = magic_bytes; version = protocol_version; reserved = 0 }

-- What the other end reads: the fixed header fields, and of the rest what the command carries.
abbrev pub received : Message → Message
received m =
    let h = wire_header m.header in
    if h.command == cmd_add || h.command == cmd_del
    then record m { header = h; ips = map wire_ip m.ips; err_msg = [] }
    else if h.command == cmd_flush
    then record m { header = h; ttl = 0; ips = []; err_msg = [] }
    else record m { header = h; table = []; ttl = 0; ips = [] }

pub uint32-put :
    (n : ℕ)
    → n < 2 ^ 32
    → uint32 (n / 16777216 % 256) (n / 65536 % 256) (n / 256 % 256) (n % 256) ≡ n
uint32-put n h = omega arith

pub uint16-put : (n : ℕ) → n < 65536 → uint16 (n % 65536 / 256 % 256) (n % 65536 % 256) ≡ n
uint16-put n h = omega arith

pub decode_table-append :
    (more : ℕ) (table tail : Bytes)
    → length table ≤ max_table_name_len
    → more ≤ length tail
    → decode_table more ((length table % 256) ∷ (table ++ tail)) ≡ ok (table, tail)
unfolding decode_table
decode_table-append more table tail h k =
    let fit : length table % 256 ≡ length table = omega arith in
    rw fit
      (ground (arith, length-append table tail, take-append table tail, drop-append table tail))

abbrev pub entries_bytes : ℕ → List Ip → Bytes
entries_bytes ttl ips = put_uint32 ttl ++ (put_uint16 (length ips % 65536) ++ ips_bytes ips)

decode_entries-append :
    (ttl : ℕ) (ips : List Ip) (rest : Bytes)
    → ttl < 2 ^ 32
    → length ips ≤ max_ips_per_packet
    → AllAddresses ips
    → decode_entries (entries_bytes ttl ips ++ rest) ≡ ok (ttl, map wire_ip ips)
unfolding decode_entries put_uint32 put_uint16
decode_entries-append ttl ips rest h k a =
    rw (uint32-put ttl h, uint16-put (length ips) (omega arith), decode_ips-ips_bytes ips rest a)

pub length-entries :
    (ttl : ℕ) (ips : List Ip) (rest : Bytes) → 6 ≤ length (entries_bytes ttl ips ++ rest)
unfolding put_uint32 put_uint16
length-entries ttl ips rest = omega arith

decode_err_msg-append :
    (text rest : Bytes)
    → length text < 65536
    → decode_err_msg (put_uint16 (length text % 65536) ++ (text ++ rest)) ≡ text
unfolding decode_err_msg put_uint16
decode_err_msg-append text rest h =
    rw (uint16-put (length text) h) (ground (arith, length-append text rest, take-append text rest))

module _ (m : Message) (rest : Bytes) where
  abbrev Travels : Type 0
  Travels =
      (p : Bytes) × (encode_payload m ≡ ok p)
      × (decode_payload (wire_header m.header) (p ++ rest) ≡ ok (received m))

  entries-Travels :
      (m.header.command ≡ cmd_add) ⊎ (m.header.command ≡ cmd_del)
      → IsEncodable m
      → AllAddresses m.ips
      → m.ttl < 2 ^ 32
      → Travels
  unfolding encode_payload decode_payload
  entries-Travels c v a t =
      let tail = entries_bytes m.ttl m.ips ++ rest in
      let room = length-entries m.ttl m.ips rest in
      (
        (length m.table % 256) ∷ (m.table ++ entries_bytes m.ttl m.ips),
        ground (arith, encode_ips-eq m.ips a),
        rw (append_assoc m.table (entries_bytes m.ttl m.ips) rest) (
            ground (
              arith,
              decode_table-append 6 m.table tail v.named room,
              decode_entries-append m.ttl m.ips rest t v.counted a,
            )),
      )

  flush-Travels : m.header.command ≡ cmd_flush → IsEncodable m → Travels
  unfolding encode_payload decode_payload
  flush-Travels c v = (
    (length m.table % 256) ∷ m.table,
    ground arith,
    ground (arith, decode_table-append 0 m.table rest v.named (omega arith)),
  )

  ack-Travels : m.header.command ≡ cmd_ack → length m.err_msg < 65536 → Travels
  unfolding encode_payload decode_payload
  ack-Travels c t = (
    put_uint16 (length m.err_msg % 65536) ++ m.err_msg,
    ground arith,
    rw (append_assoc (put_uint16 (length m.err_msg % 65536)) m.err_msg rest)
        (ground (arith, decode_err_msg-append m.err_msg rest t)),
  )

  payload-Travels : IsEncodable m → Travels
  payload-Travels v = elim v.fits [
    | inl (c, a, t) ↦ entries-Travels c v a t
    | inr (inl c) ↦ flush-Travels c v
    | inr (inr (c, t)) ↦ ack-Travels c t
  ]

  framed :
      (p : Bytes)
      → m.header.seq < 2 ^ 32
      → decode ((encode_header m.header ++ p) ++ rest)
        ≡ decode_payload (wire_header m.header) (p ++ rest)
  unfolding decode encode_header put_uint32
  framed p h = rw (uint32-put m.header.seq h)

-- A message whose fields fit their widths is encoded, and from the bytes, whatever follows them in
-- the buffer, `Decode` returns the message in wire form: magic, version and reserved byte fixed, an
-- IPv4 address in four bytes, and the fields that the command does not carry empty.
pub decode-encode :
    (m : Message) (rest : Bytes)
    → IsEncodable m
    → (bs : Bytes) × (encode m ≡ ok bs) × (decode (bs ++ rest) ≡ ok (received m))
unfolding encode
decode-encode m rest v =
    let (p, e, d) = payload-Travels m rest v in
    (
      encode_header m.header ++ p,
      ground (arith, v.named, v.counted, e),
      framed m rest p v.numbered ∙ d,
    )
