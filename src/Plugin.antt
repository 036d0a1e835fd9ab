-- ===== src/Plugin.antt =====
-- pkg/plugin/pf_alias.go: the DNS plugin that sends resolved addresses to the daemon.
-- The socket is a parameter, a record of operations on a world. `parse_duration` stands for
-- `time.ParseDuration`. Times and durations are nanoseconds.
pub mod Settings
pub mod Cache
pub mod Pool
pub mod Repeat
use opn_box.Base.{
  ℕ, zero, suc, ◌+◌, ◌-◌, ◌*◌, ◌/◌, ◌%◌, ◌^◌, Bool, true, false, not, ◌||◌, Option, none, some,
  List, [], ◌∷◌, ◌++◌, Bytes, length, take, ltb, ◌==◌, if◌then◌else◌,
}
use opn_box.Base.Dict.{Dict, lookup, put}
use opn_box.Base.Outcome.{Result, ok, err}
use opn_box.Net.{Ip, to4, to16}
use opn_box.Net.Text.{ip_string}
use opn_box.Protocol.{
  Message, Error, status_ok, max_table_name_len, encode, decode, new_add_message,
}

-- `Args`
pub record Args : Type 0 where
  pub socket_path : Bytes
  pub table : Bytes
  pub min_ttl : ℕ
  pub max_ttl : ℕ
  pub timeout : Bytes
  pub sync : Bool

-- /var/run/pf-aliasd.sock
abbrev pub default_socket : Bytes
default_socket =
    b'/' ∷ b'v' ∷ b'a' ∷ b'r' ∷ b'/' ∷ b'r' ∷ b'u' ∷ b'n' ∷ b'/' ∷ b'p' ∷ b'f' ∷ b'-' ∷ b'a' ∷ b'l'
    ∷ b'i' ∷ b'a' ∷ b's' ∷ b'd' ∷ b'.' ∷ b's' ∷ b'o' ∷ b'c' ∷ b'k' ∷ []

pub data SetupError : Type 0 where
  empty_quick_setup empty_table table_too_long : SetupError

abbrev pub or_default : Bytes → Bytes → Bytes
or_default [] fallback = fallback
or_default (b ∷ bs) fallback = b ∷ bs

abbrev pub or_number : ℕ → ℕ → ℕ
or_number n fallback = if n == 0 then fallback else n

-- The defaults that `newPluginFromArgs` writes into the configuration.
unfoldable pub with_defaults : Args → Args
with_defaults cfg =
    let low = or_number cfg.min_ttl 60 in
    let high = or_number cfg.max_ttl 86400 in
    record cfg {
      socket_path = or_default cfg.socket_path default_socket;
      min_ttl = if ltb high low then high else low;
      max_ttl = high;
    }

abbrev pub default_timeout : ℕ
default_timeout = 100000000

-- A positive parsed timeout, else 100 ms. `parse_duration` gives nanoseconds, 0 for a negative value.
abbrev pub timeout_of : (Bytes → Option ℕ) → Bytes → ℕ
timeout_of parse_duration [] = default_timeout
timeout_of parse_duration (b ∷ bs) = elim (parse_duration (b ∷ bs)) [
  | some t ↦ if ltb 0 t then t else default_timeout
  | none ↦ default_timeout
]

abbrev pub pool_size : ℕ
pool_size = 16

-- `PFAliasPlugin`; `conn_pool` is the channel's content, the oldest connection first.
pub record Plugin (Conn : Type 0) : Type 0 where
  pub cfg : Args
  pub timeout : ℕ
  pub local_cache : Dict ℕ
  pub conn_pool : List Conn
  pub seq : ℕ
  pub closed : Bool

module _ {Conn : Type 0} (parse_duration : Bytes → Option ℕ) where
  -- `newPluginFromArgs`
  unfoldable pub new_plugin_from_args : Args → Result SetupError (Plugin Conn)
  new_plugin_from_args cfg =
      if length cfg.table == 0
      then err empty_table
      else if ltb max_table_name_len (length cfg.table)
      then err table_too_long
      else ok (record {
        cfg = with_defaults cfg;
        timeout = timeout_of parse_duration cfg.timeout;
        local_cache = [];
        conn_pool = [];
        seq = 0;
        closed = false;
      })

  -- `QuickSetup`; the timeout's text is 100ms.
  unfoldable pub quick_setup : Bytes → Result SetupError (Plugin Conn)
  quick_setup s =
      if length s == 0
      then err empty_quick_setup
      else new_plugin_from_args (record {
        socket_path = default_socket;
        table = s;
        min_ttl = 60;
        max_ttl = 86400;
        timeout = b'1' ∷ b'0' ∷ b'0' ∷ b'm' ∷ b's' ∷ [];
        sync = true;
      })

-- The answer section: the records' TTLs and, of A and AAAA records, the address.
pub data Rdata : Type 0 where
  a aaaa : Ip → Rdata
  other : Rdata

pub record Answer : Type 0 where
  pub ttl : ℕ
  pub rdata : Rdata

abbrev pub no_ttl : ℕ
no_ttl = 0xFFFFFFFF

abbrev pub appended : List Ip → Option Ip → List Ip
appended ips (some ip) = ips ++ ip ∷ []
appended ips none = ips

-- The `switch` on the record's type.
abbrev pub collect : List Ip → Rdata → List Ip
collect ips (a ip) = appended ips (to4 ip)
collect ips (aaaa ip) = appended ips (to16 ip)
collect ips other = ips

-- The first loop of `Exec`: the addresses and the least TTL.
unfoldable pub extract : List Answer → List Ip → ℕ → List Ip × ℕ
extract [] ips min_ttl = (ips, min_ttl)
extract (rr ∷ rest) ips min_ttl =
    extract rest (collect ips rr.rdata) (if ltb rr.ttl min_ttl then rr.ttl else min_ttl)

-- The clamp of `Exec`.
unfoldable pub clamp_ttl : Args → ℕ → ℕ
clamp_ttl cfg ttl =
    if ltb ttl cfg.min_ttl then cfg.min_ttl else if ltb cfg.max_ttl ttl then cfg.max_ttl else ttl

abbrev pub ttl_duration : ℕ → ℕ
ttl_duration seconds = seconds * 1000000000

-- `!ok || exp.Sub(now) < ttlDuration/5`
abbrev pub is_stale : ℕ → ℕ → Option ℕ → Bool
is_stale now duration none = true
is_stale now duration (some exp) = ltb exp (now + duration / 5)

-- The second loop of `Exec`: the addresses to dispatch.
unfoldable pub uncached : Dict ℕ → ℕ → ℕ → List Ip → List Ip
uncached cache now duration [] = []
uncached cache now duration (ip ∷ ips) =
    let rest = uncached cache now duration ips in
    if is_stale now duration (lookup (ip_string ip) cache) then ip ∷ rest else rest

-- The loop that writes the new expiry.
unfoldable pub remember : Dict ℕ → ℕ → List Ip → Dict ℕ
remember cache exp [] = cache
remember cache exp (ip ∷ ips) = remember (put (ip_string ip) exp cache) exp ips

-- `delete(p.localCache, k)` for every value before `now`.
unfoldable pub drop_before : ℕ → Dict ℕ → Dict ℕ
drop_before now [] = []
drop_before now ((k, v) ∷ cache) =
    let rest = drop_before now cache in if ltb v now then rest else (k, v) ∷ rest

abbrev pub cache_limit : ℕ
cache_limit = 10000

-- The update of the cache behind a successful dispatch.
unfoldable pub update_cache : Dict ℕ → ℕ → ℕ → List Ip → Dict ℕ
update_cache cache now duration ips =
    let cache' = remember cache (now + duration) ips in
    if ltb cache_limit (length cache') then drop_before now cache' else cache'

-- The socket operations; `none` and `false` report an error. A read fills at most 256 bytes.
pub record Socket : Type 1 where
  pub World : Type 0
  pub Conn : Type 0
  pub dial : World → Bytes → World × Option Conn
  pub write : World → Conn → Bytes → World × Bool
  pub read : World → Conn → World × Option Bytes
  pub close : World → Conn → World

pub data SendError : Type 0 where
  plugin_closed dial_failed write_failed read_failed : SendError
  encode_failed decode_failed : Error → SendError
  daemon_error : ℕ → Bytes → SendError

module _ (net : Socket) where
  open net use {World, Conn, dial, write, read, close}

  -- `getConn`
  unfoldable pub get_conn : Plugin Conn → World → Plugin Conn × World × Result SendError Conn
  get_conn p w = if p.closed then (p, w, err plugin_closed) else elim p.conn_pool [
    | c ∷ rest ↦ (record p { conn_pool = rest }, w, ok c)
    | [] ↦
        let (w', c) = dial w p.cfg.socket_path in
        (p, w', elim c [ some conn ↦ ok conn | none ↦ err dial_failed ])
  ]

  -- `putConn`
  unfoldable pub put_conn : Plugin Conn → World → Conn → Bool → Plugin Conn × World
  put_conn p w c healthy =
      if not healthy || p.closed
      then (p, close w c)
      else if ltb (length p.conn_pool) pool_size
      then (record p { conn_pool = p.conn_pool ++ c ∷ [] }, w)
      else (p, close w c)

  abbrev pub Sent : Type 0
  Sent = Plugin Conn × World × Result SendError (Unit {0})

  abbrev pub finish : Plugin Conn × World → Result SendError (Unit {0}) → Sent
  finish (p, w) r = (p, w, r)

  -- What `sendToAddDaemon` makes of a decoded acknowledgment.
  unfoldable pub on_status : Plugin Conn → World → Conn → Result Error Message → Sent
  on_status p w c (err e) = finish (put_conn p w c false) (err (decode_failed e))
  on_status p w c (ok m) =
      finish (put_conn p w c true)
        (if m.header.status == status_ok then ok tt else err (daemon_error m.header.seq m.err_msg))

  -- What it makes of the read.
  unfoldable pub on_ack : Plugin Conn → World → Conn → Option Bytes → Sent
  on_ack p w c none = finish (put_conn p w c false) (err read_failed)
  on_ack p w c (some packet) = on_status p w c (decode (take 256 packet))

  -- The write, and the wait for the acknowledgment if the plugin is synchronous.
  unfoldable pub transmit : Plugin Conn → World → Conn → Bytes → Sent
  transmit p w c packet =
      let (w', written) = write w c packet in
      if not written
      then finish (put_conn p w' c false) (err write_failed)
      else if p.cfg.sync
      then (let (w'', ack) = read w' c in on_ack p w'' c ack)
      else finish (put_conn p w' c true) (ok tt)

  unfoldable pub on_encoded : Plugin Conn → World → Conn → Result Error Bytes → Sent
  on_encoded p w c (err e) = finish (put_conn p w c false) (err (encode_failed e))
  on_encoded p w c (ok packet) = transmit p w c packet

  -- `p.seq.Add(1)`
  unfoldable pub numbered : Plugin Conn → Plugin Conn
  numbered p = record p { seq = (p.seq + 1) % 2 ^ 32 }

  -- The message for a connection that was acquired.
  unfoldable pub dispatch : Plugin Conn → World → Conn → List Ip → ℕ → Sent
  dispatch p w c ips ttl =
      let p' = numbered p in on_encoded p' w c (encode (new_add_message p'.seq p.cfg.table ttl ips))

  abbrev pub with_conn : List Ip → ℕ → Plugin Conn × World × Result SendError Conn → Sent
  with_conn ips ttl (p, w, ok c) = dispatch p w c ips ttl
  with_conn ips ttl (p, w, err e) = (p, w, err e)

  -- `sendToAddDaemon`
  unfoldable pub send_to_add_daemon : Plugin Conn → World → List Ip → ℕ → Sent
  send_to_add_daemon p w ips ttl = with_conn ips ttl (get_conn p w)

  -- The end of `Exec`: only a successful dispatch changes the cache, and the query never fails.
  abbrev pub settle : ℕ → ℕ → List Ip → Sent → Plugin Conn × World
  settle now duration ips (p, w, ok u) =
      (record p { local_cache = update_cache p.local_cache now duration ips }, w)
  settle now duration ips (p, w, err e) = (p, w)

  abbrev pub send_stale : Plugin Conn → World → ℕ → ℕ → List Ip → Plugin Conn × World
  send_stale p w now ttl [] = (p, w)
  send_stale p w now ttl (ip ∷ ips) =
      settle now (ttl_duration ttl) (ip ∷ ips) (send_to_add_daemon p w (ip ∷ ips) ttl)

  -- `Exec` on the answer section of the response, empty where there is no response. Its error result
  -- is always nil.
  unfoldable pub exec : Plugin Conn → World → ℕ → List Answer → Plugin Conn × World
  exec p w now answers =
      let (ips, least) = extract answers [] no_ttl in
      let ttl = clamp_ttl p.cfg least in
      send_stale p w now ttl (uncached p.local_cache now (ttl_duration ttl) ips)

  -- `Close` closes what the pool holds; closing a closed channel panics.
  unfoldable pub close_all : World → List Conn → World
  close_all w [] = w
  close_all w (c ∷ cs) = close_all (close w c) cs

  unfoldable pub close_plugin : Plugin Conn → World → Option (Plugin Conn × World)
  close_plugin p w =
      if p.closed
      then none
      else some (record p { closed = true; conn_pool = [] }, close_all w p.conn_pool)
