-- ===== src/Httpserver/Start.antt =====
-- pkg/httpserver/server.go: `ListenAndServeDual`: the paths of the certificate, the certificate that is
-- made when none is there, the handler with its headers, and the server on its listener. Cryptography
-- is a parameter, and so is the handler.
use opn_box.Base.{
  ℕ, ◌+◌, ◌-◌, ◌*◌, Bool, true, false, Option, none, some, is_some, List, [], ◌∷◌, ◌++◌, Bytes,
  length, ◌==◌, bytes_eq, if◌then◌else◌,
}
use opn_box.Base.Dict.{Dict, put, remove}
use opn_box.Net.{Ip, to4, v4_in_v6_prefix}
use opn_box.Text.{text}
use opn_box.Httpserver.{Network, Accepted, CertManager, new_cert_manager, Served, serve}

pub record Config : Type 0 where
  pub listen_addr : Bytes
  pub tls_cert_file : Bytes
  pub tls_key_file : Bytes
  pub service_name : Bytes

abbrev pub opnsense_cert : Bytes
opnsense_cert = text "/var/etc/cert.pem"

-- The default paths; `exists` is a call of `os.Stat` without an error.
unfoldable pub with_default_paths : (Bytes → Bool) → Config → Config
with_default_paths exists cfg =
    if length cfg.tls_cert_file == 0
    then if exists opnsense_cert
      then record cfg {
        tls_cert_file = opnsense_cert;
        tls_key_file = if length cfg.tls_key_file == 0 then opnsense_cert else cfg.tls_key_file;
      }
      else cfg
    else cfg

-- `x509.Certificate`, in the fields that the source sets to a value of its own.
pub record Template : Type 0 where
  pub serial_number : ℕ
  pub common_name : Bytes
  pub organization : List Bytes
  pub not_before : ℕ
  pub not_after : ℕ
  pub dns_names : List Bytes
  pub ip_addresses : List Ip

-- `net.Addr`: a `*net.IPNet` with its address, or another.
pub data InterfaceAddr : Type 0 where
  ip_net : Ip → InterfaceAddr
  other_addr : InterfaceAddr

abbrev is_127 : Ip → Bool
is_127 [] = false
is_127 (b ∷ bs) = b == 127

abbrev ipv6_loopback : Ip
ipv6_loopback = 0 ∷ 0 ∷ 0 ∷ 0 ∷ 0 ∷ 0 ∷ 0 ∷ 0 ∷ 0 ∷ 0 ∷ 0 ∷ 0 ∷ 0 ∷ 0 ∷ 0 ∷ 1 ∷ []

-- `IP.IsLoopback`
unfoldable pub is_loopback : Ip → Bool
is_loopback ip = elim (to4 ip) [ some p4 ↦ is_127 p4 | none ↦ bytes_eq ip ipv6_loopback ]

-- The loop over the interfaces' addresses.
unfoldable pub local_ips : List InterfaceAddr → List Ip
local_ips [] = []
local_ips (other_addr ∷ addrs) = local_ips addrs
local_ips (ip_net ip ∷ addrs) =
    let rest = local_ips addrs in if is_loopback ip then rest else ip ∷ rest

abbrev addrs_or_none : Option (List InterfaceAddr) → List InterfaceAddr
addrs_or_none none = []
addrs_or_none (some addrs) = addrs

abbrev hour : ℕ
hour = 3600 * 1000000000

-- The template; `now` is a clock reading, later than the first hour.
unfoldable pub template_of : ℕ → ℕ → Option (List InterfaceAddr) → Template
template_of serial now addrs = record {
  serial_number = serial;
  common_name = text "opn-box-internal";
  organization = text "OPN-Box Project" ∷ [];
  not_before = now - hour;
  not_after = now + 10 * 365 * 24 * hour;
  dns_names = text "localhost" ∷ text "opnsense.local" ∷ text "router.local" ∷ [];
  ip_addresses =
      (v4_in_v6_prefix ++ 127 ∷ 0 ∷ 0 ∷ 1 ∷ []) ∷ ipv6_loopback ∷ local_ips (addrs_or_none addrs);
}

-- Go's crypto packages, as far as the source calls them.
pub record Crypto : Type 1 where
  pub Key : Type 0
  pub Cert : Type 0
  pub generate_key : Option Key
  pub serial : ℕ
  pub create_certificate : Template → Key → Option Bytes
  pub marshal_key : Key → Option Bytes
  pub pem_block : Bytes → Bytes → Bytes
  pub key_pair : Bytes → Bytes → Option Cert

module _ (crypto : Crypto) where
  open crypto use {
    Key, Cert, generate_key, serial, create_certificate, marshal_key, pem_block, key_pair,
  }

  abbrev paired : Bytes → Option Bytes → Option Cert
  paired der none = none
  paired der (some key_bytes) =
      key_pair (pem_block (text "CERTIFICATE") der) (pem_block (text "EC PRIVATE KEY") key_bytes)

  abbrev signed : Key → Option Bytes → Option Cert
  signed priv none = none
  signed priv (some der) = paired der (marshal_key priv)

  abbrev made_with : ℕ → Option (List InterfaceAddr) → Option Key → Option Cert
  made_with now addrs none = none
  made_with now addrs (some priv) =
      signed priv (create_certificate (template_of serial now addrs) priv)

  -- `generateSelfSignedCert`
  unfoldable pub generate_self_signed_cert : ℕ → Option (List InterfaceAddr) → Option Cert
  generate_self_signed_cert now addrs = made_with now addrs generate_key

-- `http.ResponseWriter`: the header, and the status once it is written.
pub record Writer : Type 0 where
  pub header : Dict (List Bytes)
  pub status : Option ℕ

-- `Header.Set`, on a name in its canonical form
abbrev set_header : Bytes → Bytes → Writer → Writer
set_header name value w = record w { header = put name (value ∷ []) w.header }

-- The headers that the wrapping handler sets.
unfoldable pub with_headers : Writer → Writer
with_headers w =
    set_header (text "Access-Control-Allow-Headers")
      (text "Content-Type, Authorization, X-Requested-With")
      (set_header (text "Access-Control-Allow-Methods") (text "GET, POST, OPTIONS, PUT, DELETE") (
        set_header (text "Access-Control-Allow-Origin") (text "*")
          (record w { header = remove (text "X-Frame-Options") w.header })))

module _ {Request World : Type 0} (method : Request → Bytes)
    (handler : Writer → Request → World → Writer × World) where
  -- `wrappedHandler`
  unfoldable pub wrapped_handler : Writer → Request → World → Writer × World
  wrapped_handler w r world =
      if bytes_eq (method r) (text "OPTIONS")
      then (record (with_headers w) { status = some 200 }, world)
      else handler (with_headers w) r world

module _ (crypto : Crypto) (stat : Bytes → Option ℕ)
    (load : Bytes → Bytes → Option crypto.Cert) where
  -- The certificate manager that the server starts with.
  unfoldable pub manager : ℕ → Option (List InterfaceAddr) → Config → CertManager crypto.Cert
  manager now addrs cfg =
      let cfg' = with_default_paths (λ path. is_some (stat path)) cfg in
      new_cert_manager stat load (generate_self_signed_cert crypto now addrs) cfg'.tls_cert_file
        cfg'.tls_key_file

module _ (net : Network) (listen : Bytes → net.World → net.World × Option net.Failure) where
  pub data ServeError : Type 0 where
    not_listening stopped : net.Failure → ServeError

  abbrev stopped_with : Option net.Failure → Option ServeError
  stopped_with none = none
  stopped_with (some e) = some (stopped e)

  abbrev served : Served net → net.World × List (Accepted net.Raw) × Option ServeError
  served (w, cs, e) = (w, cs, stopped_with e)

  abbrev on_listener :
      ℕ → net.World × Option net.Failure → net.World × List (Accepted net.Raw) × Option ServeError
  on_listener n (w, some e) = (w, [], some (not_listening e))
  on_listener n (w, none) = served (serve net n true w)

  -- `ListenAndServeDual` from `net.Listen` on, over `n` rounds of `Accept`, with TLS always configured.
  unfoldable pub listen_and_serve_dual :
      ℕ → Config → net.World → net.World × List (Accepted net.Raw) × Option ServeError
  listen_and_serve_dual n cfg w = on_listener n (listen cfg.listen_addr w)
