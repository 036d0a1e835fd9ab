-- ===== src/Tests/Loops.antt =====
-- cmd/pf-aliasd/main.go: the loops of the daemon with the device in memory.
use opn_box.Base.{
  ℕ, ◌≡◌, refl, sym, ap, ◌∙◌, Option, none, true, some, List, [], ◌∷◌, Bytes, length, arith,
}
use opn_box.Base.Dict.{Dict}
use mathlib.Core.List.Perm
use opn_box.Net.{Ip}
use opn_box.Base.Outcome.{Result, ok, err}
use opn_box.Protocol.{
  Message, Error, encode, new_add_message, decode, encode_payload, encode_ips, encode_ip,
  encode_header, put_uint32, put_uint16, decode_payload, decode_table, decode_entries, decode_ips,
  decode_ip, read, new_ack_message,
}
use opn_box.Net.{to4, to16}
use opn_box.Net.Text.{digit, numeral, ip_string}
use opn_box.Tracker.Heap.{down, down_loop, heap_push, rises, settle, sinks, up, up_loop}
use opn_box.Tracker.Queue.{less, pop, push, swap}
use opn_box.Tracker.{add_or_renew, allocated, track}
use opn_box.Daemon.{dispatch_message, acknowledge, add_all, inject}
use opn_box.Base.{bytes_eq}
use opn_box.Base.Dict.{lookup, put, remove}
use opn_box.Tracker.Queue.{Ref}
use opn_box.Tracker.Orders.{IsRange}
use opn_box.Pf.Mock.{open_mock}
use opn_box.Pf.Tables.{mock, mock_tables, mock_tables-Works}
use opn_box.Daemon.{Daemon, handle_packet, sweep, on_add}
use opn_box.Daemon.Agreement.{Agrees, handle_packet-Keeps}
use opn_box.Daemon.Service.{Service, Step, Runs, started, accept_connection, shut_down, is_over}
use opn_box.Daemon.Runs.{Runs-Agrees}
use opn_box.Daemon.Ending.{Ends, Runs-Ends}
use opn_box.Net.Text.{among}
use opn_box.Base.{false}
use opn_box.Daemon.Views.{tracked}
use opn_box.Daemon.Races.{deleted_between, Stays, deleted_between-Stays}
use opn_box.Daemon.Collector.{Expires, collect-Expires}

abbrev same_refs : List Ref → List Ref
same_refs rs = rs

same_refs-IsRange : IsRange same_refs
same_refs-IsRange rs = Perm.rfl

abbrev same_tables : Dict (List Ip) → Dict (List Ip)
same_tables ts = ts

same_tables-IsRange : IsRange same_tables
same_tables-IsRange ts = Perm.rfl

abbrev lan : Bytes
lan = b'l' ∷ b'a' ∷ b'n' ∷ []

abbrev first : Service mock
first = started mock open_mock

abbrev connected : Service mock
connected = accept_connection mock 3 first

connected-Runs : Runs mock 256 first 1 connected
unfolding started
connected-Runs = Runs.later Runs.stay (Step.connects 3 refl refl refl)

abbrev addition : Message
addition = new_add_message 7 lan 300 ((10 ∷ 0 ∷ 0 ∷ 1 ∷ []) ∷ (10 ∷ 0 ∷ 0 ∷ 2 ∷ []) ∷ [])

abbrev bytes_of : Result Error Bytes → Bytes
bytes_of (ok bs) = bs
bytes_of (err e) = []

abbrev packet : Bytes
packet = bytes_of (encode addition)

abbrev clock : ℕ → ℕ
clock left = 1000

open_works : mock_tables.Works open_mock
open_works = mock_tables-Works open_mock refl

connected-Agrees : Agrees mock mock_tables open_mock connected.daemon
connected-Agrees =
    (Runs-Agrees mock mock_tables open_mock open_works 256 1 connected same_refs same_tables
      connected-Runs same_refs-IsRange same_tables-IsRange).0

added :
    (d : Daemon mock) × (acks : List Bytes) × (handle_packet mock clock same_refs connected.daemon
        packet
      ≡ some (d, acks))
    × Agrees mock mock_tables open_mock d
added =
    handle_packet-Keeps mock mock_tables open_mock clock same_refs connected.daemon packet
      same_refs-IsRange connected-Agrees

abbrev filled : Service mock
filled = record connected { daemon = added.0 }

filled-Runs : Runs mock 256 first 2 filled
unfolding accept_connection
filled-Runs =
    Runs.later connected-Runs
      (Step.reads 3 clock same_refs packet added.0 added.1 refl same_refs-IsRange added.2)

Runs-Agrees_example :
    Agrees mock mock_tables open_mock filled.daemon
    × ((now : ℕ → ℕ) (packet : Bytes)
        → (d : Daemon mock) × (acks : List Bytes) × (handle_packet mock now same_refs filled.daemon
              packet
            ≡ some (d, acks)))
    × ((now : ℕ) → (d : Daemon mock) × (sweep mock same_tables now 256 filled.daemon ≡ some d))
Runs-Agrees_example =
    Runs-Agrees mock mock_tables open_mock open_works 256 2 filled same_refs same_tables filled-Runs
      same_refs-IsRange same_tables-IsRange

abbrev leaving : Service mock
leaving = shut_down mock filled

leaving-Runs : Runs mock 256 first 3 leaving
unfolding started accept_connection
leaving-Runs = Runs.later filled-Runs (Step.signalled refl)

Runs-Ends_example :
    (is_over mock leaving ≡ true → (leaving.quit ≡ true) × (leaving.listening ≡ false))
    × (leaving.quit ≡ true → Ends mock 256 leaving)
Runs-Ends_example = Runs-Ends mock mock_tables open_mock open_works 256 3 leaving leaving-Runs

abbrev queued : Option (Daemon mock × List Bytes) → ℕ
queued none = 0
queued (some (d, acks)) = length d.tracker.heap.pq

two_queued : queued (handle_packet mock clock same_refs connected.daemon packet) ≡ 2
unfolding handle_packet decode encode encode_payload encode_ips encode_ip to4 encode_header
    put_uint32 put_uint16 decode_payload decode_table decode_entries decode_ips decode_ip read
    new_add_message dispatch_message lookup put remove bytes_eq acknowledge add_all inject on_add
    digit ip_string numeral to16 new_ack_message down down_loop heap_push rises settle sinks up
    up_loop less pop push swap add_or_renew allocated track started accept_connection
two_queued = refl

filled_size : length filled.daemon.tracker.heap.pq ≡ 2
filled_size = sym (ap queued added.2) ∙ two_queued

-- Two ticks behind the expiry, of one entry each.
collect-Expires_example :
    Expires mock same_tables 1 mock_tables open_mock same_tables-IsRange 400000000000 500000000000
      (400000000000 ∷ 500000000000 ∷ [])
      filled.daemon
collect-Expires_example =
    collect-Expires mock same_tables 1 mock_tables open_mock same_tables-IsRange 400000000000
      500000000000 (400000000000 ∷ 500000000000 ∷ []) filled.daemon added.3
      (omega arith, omega arith, (omega arith, omega arith, tt)) (omega (arith, filled_size))

deleted_between-Stays_example :
    (d' : Daemon mock) × (deleted_between mock clock connected.daemon addition ≡ some d')
    × ((j : Bytes)
        → among addition.ips j ≡ true
        → tracked connected.daemon.tracker addition.table j ≡ false
        → Stays mock mock_tables open_mock addition.table j d')
deleted_between-Stays_example =
    deleted_between-Stays mock mock_tables open_mock clock connected.daemon addition
      connected-Agrees
