-- ===== src/PluginX.antt =====
-- pkg/plugin_mosdns_x/pf_alias.go: the plugin for mosdns-x. Its types, its loops over addresses and
-- its cache are the code of pkg/plugin/pf_alias.go, and are taken from there. What differs: `Exec`
-- hands over to the next node of the chain, which is a parameter.
pub mod Same
use opn_box.Base.{
  ℕ, ◌+◌, Bool, true, false, not, ◌||◌, Option, none, some, List, [], ◌∷◌, ◌++◌, Bytes, length,
  take, ltb, ◌==◌, if◌then◌else◌,
}
use opn_box.Base.Outcome.{Result, ok, err}
use opn_box.Net.{Ip}
use opn_box.Protocol.{
  Error, Message, status_ok, max_table_name_len, encode, decode, new_add_message,
}
use opn_box.Plugin.{
  Args, Plugin, Socket, SetupError, empty_table, table_too_long, default_socket, default_timeout,
  or_default, or_number, pool_size, Answer, no_ttl, extract, ttl_duration, uncached, remember,
  drop_before, cache_limit, SendError, plugin_closed, dial_failed, write_failed, read_failed,
  encode_failed, decode_failed, daemon_error, numbered,
}

-- A timeout that was parsed and is positive, else 100 ms.
abbrev pub positive_or_default : Option ℕ → ℕ
positive_or_default none = default_timeout
positive_or_default (some t) = if ltb 0 t then t else default_timeout

module _ {Conn : Type 0} (parse_duration : Bytes → Option ℕ) where
  -- `newPluginFromArgs`
  unfoldable pub new_plugin_from_args : Args → Result SetupError (Plugin Conn)
  new_plugin_from_args cfg =
      let low = or_number cfg.min_ttl 60 in
      let high = or_number cfg.max_ttl 86400 in
      if length cfg.table == 0
      then err empty_table
      else if ltb max_table_name_len (length cfg.table)
      then err table_too_long
      else ok (record {
        cfg = record cfg {
          socket_path = or_default cfg.socket_path default_socket;
          min_ttl = if ltb high low then high else low;
          max_ttl = high;
        };
        timeout =
            if length cfg.timeout == 0
            then default_timeout
            else positive_or_default (parse_duration cfg.timeout);
        local_cache = [];
        conn_pool = [];
        seq = 0;
        closed = false;
      })

module _ (net : Socket) where
  open net use {World, Conn, dial, write, read, close}

  abbrev pub Outcome : Type 0
  Outcome = Plugin Conn × World × Result SendError (Unit {0})

  abbrev pub dialled :
      Plugin Conn → World × Option Conn → Plugin Conn × World × Result SendError Conn
  dialled p (w, some c) = (p, w, ok c)
  dialled p (w, none) = (p, w, err dial_failed)

  -- `getConn`
  unfoldable pub get_conn : Plugin Conn → World → Plugin Conn × World × Result SendError Conn
  get_conn p w = if p.closed then (p, w, err plugin_closed) else elim p.conn_pool [
    | [] ↦ dialled p (dial w p.cfg.socket_path)
    | c ∷ rest ↦ (record p { conn_pool = rest }, w, ok c)
  ]

  -- `putConn`
  unfoldable pub put_conn : Plugin Conn → World → Conn → Bool → Plugin Conn × World
  put_conn p w c healthy =
      if not healthy || p.closed || not (ltb (length p.conn_pool) pool_size)
      then (p, close w c)
      else (record p { conn_pool = p.conn_pool ++ c ∷ [] }, w)

  -- A connection goes back, and the call returns.
  abbrev pub returned : Plugin Conn → World → Conn → Bool → Result SendError (Unit {0}) → Outcome
  returned p w c healthy r = let (p', w') = put_conn p w c healthy in (p', w', r)

  abbrev pub acknowledged : Plugin Conn → World → Conn → Result Error Message → Outcome
  acknowledged p w c (err e) = returned p w c false (err (decode_failed e))
  acknowledged p w c (ok m) =
      returned p w c true
        (if m.header.status == status_ok then ok tt else err (daemon_error m.header.seq m.err_msg))

  abbrev pub awaited : Plugin Conn → Conn → World × Option Bytes → Outcome
  awaited p c (w, none) = returned p w c false (err read_failed)
  awaited p c (w, some packet) = acknowledged p w c (decode (take 256 packet))

  abbrev pub written : Plugin Conn → Conn → World × Bool → Outcome
  written p c (w, false) = returned p w c false (err write_failed)
  written p c (w, true) = if p.cfg.sync then awaited p c (read w c) else returned p w c true (ok tt)

  abbrev pub sent_on : Plugin Conn → World → Conn → Result Error Bytes → Outcome
  sent_on p w c (err e) = returned p w c false (err (encode_failed e))
  sent_on p w c (ok packet) = written p c (write w c packet)

  abbrev pub over : List Ip → ℕ → Plugin Conn × World × Result SendError Conn → Outcome
  over ips ttl (p, w, err e) = (p, w, err e)
  over ips ttl (p, w, ok c) =
      let p' = numbered net p in
      sent_on p' w c (encode (new_add_message p'.seq p.cfg.table ttl ips))

  -- `sendToAddDaemon`
  unfoldable pub send_to_add_daemon : Plugin Conn → World → List Ip → ℕ → Outcome
  send_to_add_daemon p w ips ttl = over ips ttl (get_conn p w)

  -- The clamp of `processResponse`.
  abbrev pub clamped : Args → ℕ → ℕ
  clamped cfg ttl =
      if ltb ttl cfg.min_ttl then cfg.min_ttl else if ltb cfg.max_ttl ttl then cfg.max_ttl else ttl

  abbrev pub cached_behind : ℕ → ℕ → List Ip → Outcome → Plugin Conn × World
  cached_behind now duration ips (p, w, err e) = (p, w)
  cached_behind now duration ips (p, w, ok u) =
      let cache = remember p.local_cache (now + duration) ips in
      (
        record p {
          local_cache = if ltb cache_limit (length cache) then drop_before now cache else cache;
        },
        w,
      )

  abbrev pub sent_stale : Plugin Conn → World → ℕ → ℕ → List Ip → Plugin Conn × World
  sent_stale p w now ttl [] = (p, w)
  sent_stale p w now ttl (ip ∷ ips) =
      cached_behind now (ttl_duration ttl) (ip ∷ ips) (send_to_add_daemon p w (ip ∷ ips) ttl)

  abbrev pub resolved : Plugin Conn → World → ℕ → List Ip × ℕ → Plugin Conn × World
  resolved p w now ([], least) = (p, w)
  resolved p w now (ip ∷ ips, least) =
      let ttl = clamped p.cfg least in
      sent_stale p w now ttl (uncached p.local_cache now (ttl_duration ttl) (ip ∷ ips))

  -- `processResponse`
  unfoldable pub process_response : Plugin Conn → World → ℕ → List Answer → Plugin Conn × World
  process_response p w now answers = resolved p w now (extract answers [] no_ttl)

  -- `Exec`: `none` where the query has no response; `next` is the rest of the chain.
  unfoldable pub exec {κ} :
      {R : Type κ}
      → (World → World × R)
      → Plugin Conn
      → World
      → ℕ
      → Option (List Answer)
      → Plugin Conn × World × R
  exec next p w now none = let (w', r) = next w in (p, w', r)
  exec next p w now (some []) = let (w', r) = next w in (p, w', r)
  exec next p w now (some (rr ∷ rest)) =
      let (p', w') = process_response p w now (rr ∷ rest) in let (w'', r) = next w' in (p', w'', r)

  -- The loop of `Close`.
  unfoldable pub close_each : World → List Conn → World
  close_each w [] = w
  close_each w (c ∷ cs) = close_each (close w c) cs

  -- `Close`; a second call panics.
  unfoldable pub close_plugin : Plugin Conn → World → Option (Plugin Conn × World)
  close_plugin p w =
      if p.closed
      then none
      else some (record p { closed = true; conn_pool = [] }, close_each w p.conn_pool)
