-- ===== src/Tests/Delivery.antt =====
-- A dispatch of the plugin to the daemon with the device in memory.
use opn_box.Base.{ℕ, refl, inl, inr, true, false, List, [], ◌∷◌, Bytes, arith}
use opn_box.Net.{Ip, to4}
use opn_box.Base.Outcome.{Result, ok, err}
use opn_box.Protocol.{
  Error, encode, new_add_message, encode_payload, encode_ips, encode_ip, encode_header, put_uint16,
  put_uint32,
}
use opn_box.Base.{◌≡◌, length}
use opn_box.Plugin.{Plugin, send_to_add_daemon, default_socket}
use opn_box.Pf.Mock.{open_mock}
use opn_box.Pf.Tables.{mock, mock_tables, mock_tables-Works}
use mathlib.Core.List.Perm
use opn_box.Daemon.Agreement.{Agrees}
use opn_box.Daemon.Service.{Service, started, Runs}
use opn_box.Daemon.Runs.{Runs-Agrees}
use opn_box.Daemon.Delivery.{wire, Delivers, send_to_add_daemon-Delivers}

abbrev lan : Bytes
lan = b'l' ∷ b'a' ∷ b'n' ∷ []

abbrev plugin : Plugin (Unit {0})
plugin = record {
  cfg = record {
    socket_path = default_socket;
    table = lan;
    min_ttl = 60;
    max_ttl = 86400;
    timeout = [];
    sync = true;
  };
  timeout = 100;
  local_cache = [];
  conn_pool = [];
  seq = 6;
  closed = false;
}

abbrev addresses : List Ip
addresses =
    (10 ∷ 0 ∷ 0 ∷ 1 ∷ [])
    ∷ (0 ∷ 0 ∷ 0 ∷ 0 ∷ 0 ∷ 0 ∷ 0 ∷ 0 ∷ 0 ∷ 0 ∷ 255 ∷ 255 ∷ 10 ∷ 0 ∷ 0 ∷ 2 ∷ [])
    ∷ []

abbrev bytes_of : Result Error Bytes → Bytes
bytes_of (ok bs) = bs
bytes_of (err e) = []

abbrev packet : Bytes
packet = bytes_of (encode (new_add_message 7 lan 300 addresses))

packet_made : encode (new_add_message 7 lan 300 addresses) ≡ ok packet
unfolding encode new_add_message encode_payload encode_ips encode_ip to4
packet_made = refl

packet_length : length packet ≡ 30
unfolding encode new_add_message encode_payload encode_ips encode_ip to4 encode_header put_uint16
    put_uint32
packet_length = refl

abbrev clock : ℕ → ℕ
clock left = 1000

abbrev fresh : Service mock
fresh = started mock open_mock

fresh-Agrees : Agrees mock mock_tables open_mock fresh.daemon
fresh-Agrees =
    (Runs-Agrees mock mock_tables open_mock (mock_tables-Works open_mock refl) 256 0 fresh
      (λ rs. rs) (λ ts. ts) Runs.stay (λ rs. Perm.rfl) (λ ts. Perm.rfl)).0

send_to_add_daemon-Delivers_example :
    Delivers mock clock
      (λ rs. rs)
      mock_tables
      open_mock
      plugin
      fresh.daemon
      addresses
      (send_to_add_daemon (wire mock clock (λ rs. rs)) plugin (fresh.daemon, []) addresses 300)
send_to_add_daemon-Delivers_example =
    send_to_add_daemon-Delivers mock clock (λ rs. rs) mock_tables open_mock plugin fresh.daemon
      addresses 300 fresh-Agrees refl refl (omega arith) (inl refl, (inr refl, tt)) (omega arith)
      (omega arith) packet packet_made (omega (arith, packet_length))
