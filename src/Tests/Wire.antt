-- ===== src/Tests/Wire.antt =====
-- pkg/protocol/protocol.go on small messages.
use opn_box.Base.{
  ◌*◌, ◌+◌, ◌^◌, ◌≤◌, ◌<◌, ◌≡◌, ◌≢◌, refl, inl, [], ◌∷◌, ◌++◌, Bytes, length, take, arith,
}
use opn_box.Base.Outcome.{ok, err}
use opn_box.Net.{to4}
use opn_box.Protocol.{
  Message, packet_too_short, cmd_ack, encode, encode_payload, encode_header, encode_ips, encode_ip,
  put_uint16, put_uint32, decode, decode_payload, decode_table, decode_entries, decode_ips,
  decode_ip, read, new_add_message,
}
use opn_box.Protocol.RoundTrip.{IsEncodable, received, decode-encode}
use opn_box.Protocol.Accepted.{IsAccepted, decode-IsAccepted, length-encode}
use opn_box.Protocol.Truncated.{decode-take}

abbrev addition : Message
addition = new_add_message 7 (b'l' ∷ b'a' ∷ b'n' ∷ []) 300 ((10 ∷ 0 ∷ 0 ∷ 1 ∷ []) ∷ [])

abbrev packet : Bytes
packet =
    b'P' ∷ b'F' ∷ 1 ∷ 1 ∷ 0 ∷ 0 ∷ 0 ∷ 7 ∷ 0 ∷ 0 ∷ 3 ∷ b'l' ∷ b'a' ∷ b'n' ∷ 0 ∷ 0 ∷ 1 ∷ 44 ∷ 0 ∷ 1
    ∷ 4 ∷ 10 ∷ 0 ∷ 0 ∷ 1 ∷ []

encode-addition : encode addition ≡ ok packet
unfolding encode encode_payload encode_header encode_ips encode_ip put_uint16 put_uint32
    new_add_message to4
encode-addition = refl

decode-packet : decode packet ≡ ok addition
unfolding decode decode_payload decode_table decode_entries decode_ips decode_ip read
    new_add_message
decode-packet = refl

addition-IsEncodable : IsEncodable addition
unfolding new_add_message
addition-IsEncodable = record {
  named = omega arith;
  counted = omega arith;
  numbered = omega arith;
  fits = inl (inl refl, (inl refl, tt), omega arith);
}

decode-encode_example :
    (bs : Bytes) × (encode addition ≡ ok bs) × (decode (bs ++ 0 ∷ 0 ∷ []) ≡ ok (received addition))
decode-encode_example = decode-encode addition (0 ∷ 0 ∷ []) addition-IsEncodable

decode-IsAccepted_example : IsAccepted addition
decode-IsAccepted_example = decode-IsAccepted packet addition decode-packet

add_not_ack : addition.header.command ≢ cmd_ack
unfolding new_add_message
add_not_ack = λ e. absurd (omega (arith, e))

length-encode_example : (length packet ≤ 48 + 17 * length addition.ips) × (length packet ≤ 4400)
length-encode_example = length-encode addition packet encode-addition add_not_ack

seq_in_range : addition.header.seq < 2 ^ 32
unfolding new_add_message
seq_in_range = omega arith

addition_command : addition.header.command ≡ 1
unfolding new_add_message
addition_command = refl

decode-take_example : decode (take 20 packet) ≡ err packet_too_short
decode-take_example =
    decode-take addition packet 20 (inl addition_command) seq_in_range encode-addition (omega arith)
