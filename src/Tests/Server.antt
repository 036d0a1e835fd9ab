-- ===== src/Tests/Server.antt =====
-- pkg/httpserver/server.go with a listener whose clients all send the same byte, or none.
use opn_box.Base.{
  ℕ, ◌+◌, ◌≡◌, refl, true, false, ◌&&◌, ◌==◌, if◌then◌else◌, Option, some, [], ◌∷◌, Bytes,
}
use opn_box.Base.Outcome.{Result, ok}
use opn_box.Httpserver.{
  Network, PeekConn, secure, plain, client_hello, dual_accept, CertManager, get_certificate,
}
use opn_box.Httpserver.Connections.{Replays, dual_accept-Replays}
use opn_box.Httpserver.Certificates.{Refreshes, Shows, get_certificate-Refreshes}
use opn_box.Base.{none, ◌≢◌, is_some}
use opn_box.Text.{text}
use opn_box.Httpserver.Start.{
  Writer, Crypto, Config, wrapped_handler, manager, generate_self_signed_cert,
}
use opn_box.Httpserver.Opening.{
  Opened, Disk, AllServed, handshakes, wrapped_handler-Opened, manager-AllServed,
}

-- Connections are numbered; the world counts the operations.
abbrev clients : Result (Unit {0}) Bytes → Network
clients sent = record {
  World = ℕ;
  Raw = ℕ;
  Failure = Unit {0};
  accept = λ w. (w + 1, ok w);
  set_read_deadline = λ w c t. w + 1;
  read = λ w c n. (w + 1, sent);
  close = λ w c. w + 1;
  temporary = λ e. false;
}

dual_accept-Replays_example :
    (pc : PeekConn ℕ) × (dual_accept (clients (ok (22 ∷ []))) true 0
      ≡ (4, ok (if 22 == client_hello && true then secure pc else plain pc)))
    × (pc.raw ≡ 0)
    × Replays (clients (ok (22 ∷ []))) pc 22
dual_accept-Replays_example = dual_accept-Replays (clients (ok (22 ∷ []))) true 0 1 3 0 22 refl refl

abbrev modified_at : Bytes → Option ℕ
modified_at path = some 5

abbrev loading : Bytes → Bytes → Option ℕ
loading cert key = some 9

abbrev stale : CertManager ℕ
stale = record {
  cert_file = b'c' ∷ [];
  key_file = [];
  last_mod = 3;
  cached = some 8;
  fallback = some 1;
}

get_certificate-Refreshes_example :
    Refreshes modified_at modified_at loading stale
      (get_certificate modified_at modified_at loading stale).0
    × Shows modified_at modified_at loading
        (get_certificate modified_at modified_at loading stale).0
        (get_certificate modified_at modified_at loading stale).1
get_certificate-Refreshes_example = get_certificate-Refreshes modified_at modified_at loading stale

-- A handler that answers every request, with requests that are their methods.
abbrev handler : Writer → Bytes → ℕ → Writer × ℕ
handler w r seen = (record w { status = some 404 }, seen + 1)

abbrev blank : Writer
blank = record { header = (text "X-Frame-Options", text "DENY" ∷ []) ∷ []; status = none }

wrapped_handler-Opened_example :
    (w' : Writer) × Opened blank w'
    × (text "GET" ≡ text "OPTIONS"
        → wrapped_handler (λ r. r) handler blank (text "GET") 0
          ≡ (record w' { status = some 200 }, 0))
    × (text "GET" ≢ text "OPTIONS"
        → wrapped_handler (λ r. r) handler blank (text "GET") 0 ≡ handler w' (text "GET") 0)
wrapped_handler-Opened_example = wrapped_handler-Opened (λ r. r) handler blank (text "GET") 0

-- Keys and certificates are numbers.
abbrev toy : Crypto
toy = record {
  Key = ℕ;
  Cert = ℕ;
  generate_key = some 1;
  serial = 77;
  create_certificate = λ t k. some (1 ∷ []);
  marshal_key = λ k. some (k ∷ []);
  pem_block = λ kind der. der;
  key_pair = λ cert key. some 7;
}

abbrev no_files : Disk ℕ
no_files = record { stat = λ path. none; restat = λ path. none; load = λ cert key. none }

abbrev new_files : Disk ℕ
new_files = record { stat = modified_at; restat = modified_at; load = loading }

abbrev plain_config : Config
plain_config = record {
  listen_addr = text ":8443";
  tls_cert_file = text "/etc/cert.pem";
  tls_key_file = [];
  service_name = [];
}

toy-made : is_some (generate_self_signed_cert toy 9000000000000 none) ≡ true
unfolding generate_self_signed_cert
toy-made = refl

manager-AllServed_example : AllServed (
    handshakes
      (manager toy no_files.stat no_files.load 9000000000000 none plain_config)
      (no_files ∷ new_files ∷ no_files ∷ []))
manager-AllServed_example =
    manager-AllServed toy no_files 9000000000000 none plain_config
      (no_files ∷ new_files ∷ no_files ∷ []) toy-made
