-- ===== src/Tests/Service.antt =====
-- cmd/pf-aliasd/main.go with the device in memory.
use opn_box.Base.{ℕ, ◌^◌, ◌<◌, ◌≡◌, refl, inl, zero, suc, some, List, [], ◌∷◌, Bytes, length, arith}
use opn_box.Base.Outcome.{Result, ok, err}
use opn_box.Net.{Ip, to4, to16}
use opn_box.Protocol.{
  Message, status_ok, encode, encode_payload, encode_header, encode_ips, encode_ip, put_uint16,
  put_uint32, new_add_message, cmd_add, Error,
}
use opn_box.Tracker.{Tracker, new_tracker}
use opn_box.Tracker.Invariant.{new_tracker-IsTracked}
use opn_box.Pf.Mock.{device_closed, open_mock}
use opn_box.Pf.Tables.{mock}
use opn_box.Daemon
use opn_box.Daemon.{acknowledge, buffer_size, on_add, on_del, handle_packet}
use opn_box.Daemon.Packets.{
  Adds, HasShortTexts, on_add-Answered, on_add_again, handle_packet-oversized,
}

mock-HasShortTexts : HasShortTexts mock
mock-HasShortTexts device_closed = omega arith

abbrev started : Daemon.Daemon mock
started = record { device = open_mock; tracker = new_tracker }

abbrev lan : Bytes
lan = b'l' ∷ b'a' ∷ b'n' ∷ []

abbrev now : ℕ → ℕ
now left = 1000

abbrev addition : Message
addition = new_add_message 7 lan 300 ((10 ∷ 0 ∷ 0 ∷ 1 ∷ []) ∷ (10 ∷ 0 ∷ 0 ∷ 2 ∷ []) ∷ [])

addition_seq : addition.header.seq < 2 ^ 32
unfolding new_add_message
addition_seq = omega arith

on_add-Answered_example : Adds mock now started addition
on_add-Answered_example =
    on_add-Answered mock now started addition mock-HasShortTexts addition_seq new_tracker-IsTracked

on_add_again_example :
    (d' : Daemon.Daemon mock) × (packets : List Bytes) × (t : Tracker) × (on_add mock now started
        addition
      ≡ some (d', packets))
    × (on_add mock now d' addition
        ≡ some (
          record { device = d'.device; tracker = t },
          acknowledge addition.header.seq status_ok [],
        ))
on_add_again_example = on_add_again mock now now started addition new_tracker-IsTracked

abbrev repeated : ℕ → List Ip
repeated zero = []
repeated (suc n) =
    (32 ∷ 1 ∷ 13 ∷ 184 ∷ 0 ∷ 0 ∷ 0 ∷ 0 ∷ 0 ∷ 0 ∷ 0 ∷ 0 ∷ 0 ∷ 0 ∷ 0 ∷ 1 ∷ []) ∷ repeated n

-- An addition of 256 IPv6 addresses.
abbrev large : Message
large = new_add_message 9 lan 300 (repeated 256)

abbrev bytes_of : Result Error Bytes → Bytes
bytes_of (ok bs) = bs
bytes_of (err e) = []

abbrev large_packet : Bytes
large_packet = bytes_of (encode large)

encode-large : encode large ≡ ok large_packet
unfolding encode encode_payload encode_header encode_ips encode_ip put_uint16 put_uint32
    new_add_message to4 to16
encode-large = refl

large_size : length large_packet ≡ 4372
unfolding encode encode_payload encode_header encode_ips encode_ip put_uint16 put_uint32
    new_add_message to4 to16
large_size = refl

large_command : large.header.command ≡ cmd_add
unfolding new_add_message
large_command = refl

large_seq : large.header.seq < 2 ^ 32
unfolding new_add_message
large_seq = omega arith

handle_packet-oversized_example :
    handle_packet mock now (λ rs. rs) started large_packet ≡ some (started, [])
handle_packet-oversized_example =
    handle_packet-oversized mock now (λ rs. rs) started large large_packet (inl large_command)
      large_seq encode-large (omega (arith, large_size))
