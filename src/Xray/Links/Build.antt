-- ===== src/Xray/Links/Build.antt =====
-- What the parsers of node links of cmd/xray-controller/main.go build: nodes and their outbounds.
use opn_box.Base.{ℕ, ◌%◌, Option, none, some, [], ◌∷◌, ◌++◌, Bytes, if◌then◌else◌, bytes_eq}
use opn_box.Base.Dict.{Dict}
use opn_box.Base.Integers.{ℤ, pos}
use opn_box.Text.{text}
use opn_box.Text.Numbers.{show}
use opn_box.Text.Escapes.{path_unescape}
use opn_box.Xray.{Node}
use opn_box.Xray.Json.{Json, string, number, object, Fields, no_field, field, one_object}

abbrev pub or_else : Bytes → Bytes → Bytes
or_else [] default = default
or_else (b ∷ s) default = b ∷ s

-- `u.User.Username()`
abbrev pub username : Option Bytes → Bytes
username none = []
username (some name) = name

abbrev pub or_empty : Option Bytes → Bytes
or_empty none = []
or_empty (some s) = s

-- A field that is written where it is not empty.
abbrev pub unless_empty : Bytes → Bytes → Fields → Fields
unless_empty key [] rest = rest
unless_empty key (b ∷ s) rest = field key (string (b ∷ s)) rest

-- `fmt.Sprintf("node-%d", time.Now().UnixNano()%1000000)`
abbrev pub new_tag : ℕ → Bytes
new_tag now = text "node-" ++ show (pos (now % 1000000))

-- The fragment is unescaped once more; it is empty where that fails.
abbrev pub display_name : Bytes → Bytes → Bytes
display_name [] default = default
display_name (b ∷ fragment) default = or_empty (path_unescape (b ∷ fragment))

abbrev pub address_text : Bytes → ℤ → Bytes
address_text host port = host ++ (b':' ∷ show port)

-- The fields of a node that every parser sets.
abbrev pub node : ℕ → Bytes → Bytes → Bytes → Bytes → ℤ → Bytes → Bytes → Dict Json → Node Json
node now sub name protocol address port network security outbound = record {
  id = new_tag now;
  tag = new_tag now;
  name = name;
  protocol = protocol;
  address = address;
  port = port;
  network = network;
  security = security;
  sni = [];
  path = [];
  xhttp_mode = [];
  sub_id = sub;
  ping_rtt = pos 0;
  raw_outbound = some outbound;
}

abbrev pub vnext : Bytes → ℤ → Fields → Json
vnext host port user = object (
    field (text "vnext")
      (one_object (
        field (text "address") (string host)
          (field (text "port") (number port) (field (text "users") (one_object user) no_field))))
      no_field)

abbrev pub servers : Bytes → ℤ → Fields → Json
servers host port rest = object (
    field (text "servers")
      (one_object (field (text "address") (string host) (field (text "port") (number port) rest)))
      no_field)

abbrev pub tls_settings : Bytes → Fields → Fields
tls_settings sni rest =
    field (text "tlsSettings") (object (field (text "serverName") (string sni) no_field)) rest

-- The settings for TLS and for reality.
abbrev pub security_settings : (Bytes → Bytes) → Bytes → Bytes → Fields → Fields
security_settings q security sni rest =
    if bytes_eq security (text "tls")
    then tls_settings sni rest
    else if bytes_eq security (text "reality")
    then field (text "realitySettings")
        (object (
          field (text "serverName") (string sni) (
            field (text "fingerprint") (string (q (text "fp"))) (
              field (text "publicKey") (string (q (text "pbk")))
                (field (text "shortId") (string (q (text "sid"))) no_field)))))
        rest
    else rest

abbrev pub host_header : Bytes → Fields
host_header [] = no_field
host_header (b ∷ host) =
    field (text "headers") (object (field (text "Host") (string (b ∷ host)) no_field)) no_field

-- The settings of the network.
abbrev pub network_settings : (Bytes → Bytes) → Bytes → Bytes → Bytes → Fields
network_settings q network path mode =
    if bytes_eq network (text "xhttp")
    then field (text "xhttpSettings")
        (object (unless_empty (text "path") path (unless_empty (text "mode") mode no_field)))
        no_field
    else if bytes_eq network (text "ws")
    then field (text "wsSettings")
        (object (unless_empty (text "path") path (host_header (q (text "host"))))) no_field
    else if bytes_eq network (text "grpc")
    then field (text "grpcSettings")
        (object (field (text "serviceName") (string (q (text "serviceName"))) no_field)) no_field
    else no_field

abbrev pub stream : Bytes → Bytes → Fields → Json
stream network security rest =
    object
      (field (text "network") (string network) (field (text "security") (string security) rest))

abbrev pub outbound_map : ℕ → Bytes → Json → Dict Json → Dict Json
outbound_map now protocol settings rest =
    (text "tag", string (new_tag now))
    ∷ (text "protocol", string protocol)
    ∷ (text "settings", settings)
    ∷ rest
