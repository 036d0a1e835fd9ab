-- ===== src/Protocol/Accepted.antt =====
-- pkg/protocol/protocol.go: which packets `Decode` accepts, and how large `Encode` makes one.
use opn_box.Base.{
  ℕ, ◌+◌, ◌*◌, ◌≤◌, ◌≡◌, refl, sym, ◌⊎◌, inl, inr, List, [], ◌∷◌, ◌++◌, Bytes, length, arith,
  length-append, Bool-cases, ◌||◌, ◌==◌, true, false, ◌≢◌, ◌%◌, ltb,
}
use mathlib.Core.Path.{subst}
use opn_box.Base.Outcome.{ok, >>=-eq-ok}
use opn_box.Net.{Ip, to16}
use opn_box.Protocol.{
  Message, Header, cmd_add, cmd_del, cmd_flush, cmd_ack, magic_bytes, protocol_version, encode_ip,
  encode_ips, encode_payload, encode_header, encode, decode, decode_payload, decode_entries,
  decode_ips, decode_table, put_uint16, put_uint32, uint32, max_table_name_len, max_ips_per_packet,
}
use opn_box.Protocol.Addresses.{AllAddresses, decode_ips-AllAddresses, length-to4}

-- What a decoded message is known to satisfy.
pub record IsAccepted (m : Message) : Type 0 where
  pub magic : m.header.magic ≡ magic_bytes
  pub version : m.header.version ≡ protocol_version
  pub command :
      (m.header.command ≡ cmd_add)
      ⊎ ((m.header.command ≡ cmd_del)
          ⊎ ((m.header.command ≡ cmd_flush) ⊎ (m.header.command ≡ cmd_ack)))
  pub addresses : AllAddresses m.ips

decode_entries-AllAddresses :
    (bs : Bytes) (ttl : ℕ) (ips : List Ip) → decode_entries bs ≡ ok (ttl, ips) → AllAddresses ips
unfolding decode_entries
decode_entries-AllAddresses (a ∷ b ∷ c ∷ d ∷ e ∷ f ∷ rest) ttl ips h =
    let (ips', e', k) = >>=-eq-ok (decode_ips (e * 256 + f) rest) _ h in
    let same : ips' ≡ ips = cc k in
    rw (← same) (decode_ips-AllAddresses (e * 256 + f) rest ips' e').0
decode_entries-AllAddresses _ ttl ips h = cc

module _ (h : Header) (bs : Bytes) (m : Message) (p : h.magic ≡ magic_bytes)
    (q : h.version ≡ protocol_version) where
  entries-IsAccepted :
      (h.command == cmd_add || h.command == cmd_del) ≡ true
      → decode_payload h bs ≡ ok m
      → IsAccepted m
  unfolding decode_payload
  entries-IsAccepted t e =
      let ((table, rest), e1, k1) = >>=-eq-ok (decode_table 6 bs) _ (rw t at e) in
      let ((ttl, ips), e2, k2) = >>=-eq-ok (decode_entries rest) _ k1 in
      let good = decode_entries-AllAddresses rest ttl ips e2 in
      let shape : record { header = h; table = table; ttl = ttl; ips = ips; err_msg = [] } ≡ m =
        cc k2 in
      rw (← shape) (record { magic = p; version = q; command = ground arith; addresses = good })

  named-IsAccepted :
      (h.command == cmd_add || h.command == cmd_del) ≡ false
      → decode_payload h bs ≡ ok m
      → IsAccepted m
  unfolding decode_payload
  named-IsAccepted t e =
      let no_addresses : m.ips ≡ [] = ground arith in
      record {
        magic = ground arith;
        version = ground arith;
        command = ground arith;
        addresses = subst AllAddresses (sym no_addresses) tt;
      }

  decode_payload-IsAccepted : decode_payload h bs ≡ ok m → IsAccepted m
  decode_payload-IsAccepted e = elim (Bool-cases (h.command == cmd_add || h.command == cmd_del)) [
    | inl t ↦ entries-IsAccepted t e
    | inr t ↦ named-IsAccepted t e
  ]

-- A packet that `Decode` accepts has the magic, the version and one of the four commands, and every
-- address of its message has four or sixteen bytes.
pub decode-IsAccepted : (bs : Bytes) (m : Message) → decode bs ≡ ok m → IsAccepted m
unfolding decode
decode-IsAccepted (m0 ∷ m1 ∷ ver ∷ cmd ∷ s3 ∷ s2 ∷ s1 ∷ s0 ∷ status ∷ rsvd ∷ rest) m h =
    let hd : Header = record {
      magic = magic_bytes;
      version = ver;
      command = cmd;
      seq = uint32 s3 s2 s1 s0;
      status = status;
      reserved = rsvd;
    } in
    decode_payload-IsAccepted hd rest m refl (ground arith) (ground arith)
decode-IsAccepted _ m h = cc

encode_ip-length : (ip : Ip) (bs : Bytes) → encode_ip ip ≡ ok bs → length bs ≤ 17
unfolding encode_ip to16
encode_ip-length ip bs h = grind (arith, length-to4)

encode_ips-length :
    (ips : List Ip) (bs : Bytes) → encode_ips ips ≡ ok bs → length bs ≤ 17 * length ips
unfolding encode_ips
encode_ips-length [] [] h = omega arith
encode_ips-length [] (b ∷ bs) h = cc
encode_ips-length (ip ∷ ips) bs h =
    let (a, e, k) = >>=-eq-ok (encode_ip ip) _ h in
    let (r, e', k') = >>=-eq-ok (encode_ips ips) _ k in
    let shape : a ++ r ≡ bs = cc k' in
    rw (← shape)
      (omega (arith, length-append a r, encode_ip-length ip a e, encode_ips-length ips r e'))

payload-length :
    (m : Message) (p : Bytes)
    → encode_payload m ≡ ok p
    → m.header.command ≢ cmd_ack
    → length p ≤ 7 + length m.table + 17 * length m.ips
unfolding encode_payload put_uint16 put_uint32
payload-length m p h n =
    elim (Bool-cases (m.header.command == cmd_add || m.header.command == cmd_del)) [
      | inl t ↦
          let (r, e, k) = >>=-eq-ok (encode_ips m.ips) _ (rw t at h) in
          ground (
            arith,
            encode_ips-length m.ips r e,
            length-append m.table (put_uint32 m.ttl ++ (put_uint16 (length m.ips % 65536) ++ r)),
          )
      | inr t ↦ ground arith
    ]

-- What a successful `Encode` has checked and built.
pub encode-eq-ok :
    (m : Message) (bs : Bytes)
    → encode m ≡ ok bs
    → (p : Bytes) × (encode_payload m ≡ ok p)
      × (encode_header m.header ++ p ≡ bs)
      × (length m.table ≤ max_table_name_len)
      × (length m.ips ≤ max_ips_per_packet)
unfolding encode
encode-eq-ok m bs h = elim (Bool-cases (ltb max_table_name_len (length m.table))) [
  | inl t ↦ absurd (ground arith)
  | inr t ↦ elim (Bool-cases (ltb max_ips_per_packet (length m.ips))) [
    | inl u ↦ absurd (ground arith)
    | inr u ↦
        let (p, e, k) = >>=-eq-ok (encode_payload m) _ (rw u at (rw t at h)) in
        (p, e, cc k, ground arith, ground arith)
  ]
]

-- Except for an acknowledgment, an encoded packet has at most 4400 bytes, and at most 48 besides
-- 17 for each address.
pub length-encode :
    (m : Message) (bs : Bytes)
    → encode m ≡ ok bs
    → m.header.command ≢ cmd_ack
    → (length bs ≤ 48 + 17 * length m.ips) × (length bs ≤ 4400)
unfolding encode_header put_uint32
length-encode m bs h n =
    let (p, e, k, t, l) = encode-eq-ok m bs h in rw (← k) (omega (arith, payload-length m p e n))
