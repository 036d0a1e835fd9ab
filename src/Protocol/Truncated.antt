-- ===== src/Protocol/Truncated.antt =====
-- pkg/protocol/protocol.go: `Decode` on a packet of which only the first bytes arrived, as when the
-- reader's buffer is too small.
use opn_box.Base.{
  ℕ, zero, suc, ◌+◌, ◌-◌, ◌%◌, ◌^◌, ◌≤◌, ◌<◌, ◌≡◌, refl, ap, ◌⊎◌, inl, inr, Option, none, some,
  List, [], ◌∷◌, ◌++◌, Bytes, length, take, ltb, ◌==◌, ◌||◌, arith, take-append_short,
  take-append_long, length-take, length-take-le, length-append, Bool-cases, true,
}
use opn_box.Base.Outcome.{ok, err, >>=-eq-ok}
use opn_box.Net.{Ip, to4}
use opn_box.Protocol.{
  Message, packet_too_short, cmd_add, cmd_del, max_table_name_len, max_ips_per_packet, header_size,
  encode, encode_header, encode_payload, encode_ips, put_uint16, put_uint32, decode, decode_payload,
  decode_table, decode_entries, decode_ip, decode_ips, read,
}
use opn_box.Protocol.Addresses.{
  IsAddress, AllAddresses, ip_bytes, ips_bytes, encode_ips-eq, decode_ip-ip_bytes, length-to4,
  packed, sixteen, encode_ips-AllAddresses,
}
use opn_box.Protocol.Accepted.{encode-eq-ok}
use opn_box.Protocol.RoundTrip.{
  wire_header, entries_bytes, uint16-put, uint32-put, decode_table-append,
}

read-short : (n : ℕ) (bs : Bytes) → length bs < n → read n bs ≡ err packet_too_short
unfolding read
read-short n bs h = ground arith

four_short :
    (p : Bytes) (k : ℕ) → length p ≡ 4 → k < 5 → decode_ip (take k (4 ∷ p)) ≡ err packet_too_short
unfolding decode_ip
four_short p zero l h = refl
four_short p (suc k) l h = read-short 4 (take k p) (omega (arith, length-take-le k p))

sixteen_short :
    (p : Bytes) (k : ℕ) → length p ≡ 16 → k < 17 → decode_ip (take k (6 ∷ p)) ≡ err packet_too_short
unfolding decode_ip
sixteen_short p zero l h = refl
sixteen_short p (suc k) l h = read-short 16 (take k p) (omega (arith, length-take-le k p))

packed_short :
    (ip : Ip) (o : Option Ip) (k : ℕ)
    → IsAddress ip
    → to4 ip ≡ o
    → k < length (packed ip o)
    → decode_ip (take k (packed ip o)) ≡ err packet_too_short
packed_short ip (some p) k a e h = let l = length-to4 ip p e in four_short p k l (omega arith)
packed_short ip none k a e h = let l = sixteen ip a e in sixteen_short ip k l (omega arith)

ip_bytes_short :
    (ip : Ip) (k : ℕ)
    → IsAddress ip
    → k < length (ip_bytes ip)
    → decode_ip (take k (ip_bytes ip)) ≡ err packet_too_short
unfolding ip_bytes
ip_bytes_short ip k a h = packed_short ip (to4 ip) k a refl h

decode_ips_short :
    (ips : List Ip) (k : ℕ)
    → AllAddresses ips
    → k < length (ips_bytes ips)
    → decode_ips (length ips) (take k (ips_bytes ips)) ≡ err packet_too_short
unfolding decode_ips ips_bytes
decode_ips_short [] k a h = absurd (omega arith)
decode_ips_short (ip ∷ ips) k a h = elim (Bool-cases (ltb k (length (ip_bytes ip)))) [
  | inl t ↦
      let inside : k < length (ip_bytes ip) = ground arith in
      rw (
        take-append_short k (ip_bytes ip) (ips_bytes ips) (omega arith),
        ip_bytes_short ip k a.0 inside,
      )
  | inr t ↦
      let past : length (ip_bytes ip) ≤ k = ground arith in
      let rest = k - length (ip_bytes ip) in
      let ih =
        decode_ips_short ips rest a.1
          (omega (arith, length-append (ip_bytes ip) (ips_bytes ips))) in
      rw (
        take-append_long k (ip_bytes ip) (ips_bytes ips) past,
        decode_ip-ip_bytes ip (take rest (ips_bytes ips)) a.0,
        ih,
      )
]

decode_entries_short :
    (ttl : ℕ) (ips : List Ip) (k : ℕ)
    → length ips ≤ max_ips_per_packet
    → AllAddresses ips
    → k < length (entries_bytes ttl ips)
    → decode_entries (take k (entries_bytes ttl ips)) ≡ err packet_too_short
unfolding decode_entries put_uint32 put_uint16
decode_entries_short ttl ips zero n a h = refl
decode_entries_short ttl ips (suc zero) n a h = refl
decode_entries_short ttl ips (suc (suc zero)) n a h = refl
decode_entries_short ttl ips (suc (suc (suc zero))) n a h = refl
decode_entries_short ttl ips (suc (suc (suc (suc zero)))) n a h = refl
decode_entries_short ttl ips (suc (suc (suc (suc (suc zero))))) n a h = refl
decode_entries_short ttl ips (suc (suc (suc (suc (suc (suc k)))))) n a h =
    rw (uint16-put (length ips) (omega arith), decode_ips_short ips k a (omega arith))

decode_table_short :
    (table tail : Bytes) (k : ℕ)
    → length table ≤ max_table_name_len
    → k < length table + 7
    → decode_table 6 (take k ((length table % 256) ∷ (table ++ tail))) ≡ err packet_too_short
unfolding decode_table
decode_table_short table tail zero n h = refl
decode_table_short table tail (suc k) n h =
    let fit : length table % 256 ≡ length table = omega arith in
    rw fit (ground (arith, length-take-le k (table ++ tail)))

decode_short : (bs : Bytes) → length bs < header_size → decode bs ≡ err packet_too_short
unfolding decode
decode_short (m0 ∷ m1 ∷ ver ∷ cmd ∷ s3 ∷ s2 ∷ s1 ∷ s0 ∷ status ∷ rsvd ∷ rest) h =
    absurd (omega arith)
decode_short _ h = refl

-- The payload of an addition or a deletion, as `Encode` writes it.
module _ (m : Message) (c : (m.header.command ≡ cmd_add) ⊎ (m.header.command ≡ cmd_del))
    (n : length m.table ≤ max_table_name_len) (l : length m.ips ≤ max_ips_per_packet)
    (a : AllAddresses m.ips) where
  abbrev payload : Bytes
  payload = (length m.table % 256) ∷ (m.table ++ entries_bytes m.ttl m.ips)

  payload-eq : encode_payload m ≡ ok payload
  unfolding encode_payload
  payload-eq = ground (arith, encode_ips-eq m.ips a)

  payload_short :
      (k : ℕ)
      → k < length payload
      → decode_payload (wire_header m.header) (take k payload) ≡ err packet_too_short
  unfolding decode_payload
  payload_short zero h = ground (arith, decode_table_short m.table [] zero n)
  payload_short (suc k) h = elim (Bool-cases (ltb k (length m.table + 6))) [
    | inl t ↦ ground (arith, decode_table_short m.table (entries_bytes m.ttl m.ips) (suc k) n)
    | inr t ↦
        let rest = k - length m.table in
        let short =
          decode_entries_short m.ttl m.ips rest l a
            (ground (arith, length-append m.table (entries_bytes m.ttl m.ips))) in
        rw (take-append_long k m.table (entries_bytes m.ttl m.ips) (ground arith)) (
          ground (
            arith,
            decode_table-append 6 m.table (take rest (entries_bytes m.ttl m.ips)) n (
                ground (
                  arith,
                  length-take rest (entries_bytes m.ttl m.ips),
                  length-append m.table (entries_bytes m.ttl m.ips),
                )),
            short,
          ))
  ]

  framed_short :
      (k : ℕ)
      → m.header.seq < 2 ^ 32
      → k < length (encode_header m.header ++ payload)
      → decode (take k (encode_header m.header ++ payload)) ≡ err packet_too_short
  unfolding encode_header put_uint32 decode
  framed_short (suc (suc (suc (suc (suc (suc (suc (suc (suc (suc k)))))))))) s h =
      rw (uint32-put m.header.seq s) (payload_short k (omega arith))
  framed_short k s h =
      decode_short (take k (encode_header m.header ++ payload))
        (omega (arith, length-take-le k (encode_header m.header ++ payload)))

payload-AllAddresses :
    (m : Message) (p : Bytes)
    → (m.header.command ≡ cmd_add) ⊎ (m.header.command ≡ cmd_del)
    → encode_payload m ≡ ok p
    → AllAddresses m.ips
unfolding encode_payload
payload-AllAddresses m p c h =
    let t : m.header.command == cmd_add || m.header.command == cmd_del ≡ true = ground arith in
    let (r, e, k) = >>=-eq-ok (encode_ips m.ips) _ (rw t at h) in encode_ips-AllAddresses m.ips r e

-- Of an encoded addition or deletion every strict prefix is refused as too short.
pub decode-take :
    (m : Message) (bs : Bytes) (k : ℕ)
    → (m.header.command ≡ cmd_add) ⊎ (m.header.command ≡ cmd_del)
    → m.header.seq < 2 ^ 32
    → encode m ≡ ok bs
    → k < length bs
    → decode (take k bs) ≡ err packet_too_short
decode-take m bs k c s e h =
    let (p, made, whole, t, l) = encode-eq-ok m bs e in
    let a = payload-AllAddresses m p c made in
    let same : payload m c t l a ≡ p = cc (payload-eq m c t l a, made) in
    let room = ap (λ (b : Bytes). length (encode_header m.header ++ b)) same in
    let size = ap (λ (b : Bytes). length b) whole in
    rw (← whole, ← same) (framed_short m c t l a k s (omega (arith, room, size)))
