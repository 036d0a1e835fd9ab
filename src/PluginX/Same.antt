-- ===== src/PluginX/Same.antt =====
-- pkg/plugin_mosdns_x/pf_alias.go against pkg/plugin/pf_alias.go.
use opn_box.Base.{
  ℕ, ◌≡◌, refl, ap, ◌∙◌, Bool, true, false, not, Option, none, some, List, [], ◌∷◌, Bytes, length,
  take, arith, ltb, ◌==◌, if◌then◌else◌,
}
use opn_box.Base.Outcome.{Result, ok, err}
use opn_box.Net.{Ip}
use opn_box.Protocol.{status_ok, Error, Message, decode, encode, new_add_message}
use opn_box.Plugin.{
  Plugin, Socket, Answer, SendError, extract, no_ttl, clamp_ttl, uncached, ttl_duration,
  update_cache, dial_failed, plugin_closed, decode_failed, daemon_error, read_failed, write_failed,
  encode_failed,
}
use opn_box.Plugin
use opn_box.PluginX

module _ (net : Socket) where
  open net use {World, Conn, dial, write, read, close}

  dialled_same :
      (p : Plugin Conn) (x : World × Option Conn)
      → PluginX.dialled net p x
        ≡ (p, x.0, elim x.1 [ some conn ↦ ok conn | none ↦ err dial_failed ])
  dialled_same p (w, some c) = refl
  dialled_same p (w, none) = refl

  get_conn_same : (p : Plugin Conn) (w : World) → PluginX.get_conn net p w ≡ Plugin.get_conn net p w
  unfolding PluginX.get_conn Plugin.get_conn
  get_conn_same p w =
      ap
        (λ (got : Plugin Conn × World × Result SendError Conn).
          if p.closed
          then (p, w, err plugin_closed)
          else elim p.conn_pool [ [] ↦ got | c ∷ rest ↦ (record p { conn_pool = rest }, w, ok c) ])
        (dialled_same p (dial w p.cfg.socket_path))

  put_conn_same :
      (p : Plugin Conn) (w : World) (c : Conn) (healthy : Bool)
      → PluginX.put_conn net p w c healthy ≡ Plugin.put_conn net p w c healthy
  unfolding PluginX.put_conn Plugin.put_conn
  put_conn_same p w c healthy = ground arith

  returned_same :
      (p : Plugin Conn) (w : World) (c : Conn) (healthy : Bool) (r : Result SendError (Unit {0}))
      → PluginX.returned net p w c healthy r
        ≡ Plugin.finish net (Plugin.put_conn net p w c healthy) r
  returned_same p w c healthy r = ap (λ q. Plugin.finish net q r) (put_conn_same p w c healthy)

  acknowledged_same :
      (p : Plugin Conn) (w : World) (c : Conn) (r : Result Error Message)
      → PluginX.acknowledged net p w c r ≡ Plugin.on_status net p w c r
  unfolding Plugin.on_status
  acknowledged_same p w c (err e) = returned_same p w c false (err (decode_failed e))
  acknowledged_same p w c (ok m) =
      returned_same p w c true
        (if m.header.status == status_ok then ok tt else err (daemon_error m.header.seq m.err_msg))

  awaited_same :
      (p : Plugin Conn) (c : Conn) (x : World × Option Bytes)
      → PluginX.awaited net p c x ≡ Plugin.on_ack net p x.0 c x.1
  unfolding Plugin.on_ack
  awaited_same p c (w, none) = returned_same p w c false (err read_failed)
  awaited_same p c (w, some packet) = acknowledged_same p w c (decode (take 256 packet))

  abbrev transmitted : Plugin Conn → Conn → World × Bool → Plugin.Sent net
  transmitted p c x =
      if not x.1
      then Plugin.finish net (Plugin.put_conn net p x.0 c false) (err write_failed)
      else if p.cfg.sync
      then Plugin.on_ack net p (read x.0 c).0 c (read x.0 c).1
      else Plugin.finish net (Plugin.put_conn net p x.0 c true) (ok tt)

  written_same :
      (p : Plugin Conn) (c : Conn) (x : World × Bool)
      → PluginX.written net p c x ≡ transmitted p c x
  written_same p c (w, false) = returned_same p w c false (err write_failed)
  written_same p c (w, true) =
      ap (λ r. if p.cfg.sync then r else PluginX.returned net p w c true (ok tt))
        (awaited_same p c (read w c))
      ∙ ap (λ r. if p.cfg.sync then Plugin.on_ack net p (read w c).0 c (read w c).1 else r)
          (returned_same p w c true (ok tt))

  sent_on_same :
      (p : Plugin Conn) (w : World) (c : Conn) (r : Result Error Bytes)
      → PluginX.sent_on net p w c r ≡ Plugin.on_encoded net p w c r
  unfolding Plugin.on_encoded Plugin.transmit
  sent_on_same p w c (err e) = returned_same p w c false (err (encode_failed e))
  sent_on_same p w c (ok packet) = written_same p c (write w c packet)

  over_same :
      (ips : List Ip) (ttl : ℕ) (x : Plugin Conn × World × Result SendError Conn)
      → PluginX.over net ips ttl x ≡ Plugin.with_conn net ips ttl x
  unfolding Plugin.dispatch
  over_same ips ttl (p, w, err e) = refl
  over_same ips ttl (p, w, ok c) =
      let p' = Plugin.numbered net p in
      sent_on_same p' w c (encode (new_add_message p'.seq p.cfg.table ttl ips))

  send_same :
      (p : Plugin Conn) (w : World) (ips : List Ip) (ttl : ℕ)
      → PluginX.send_to_add_daemon net p w ips ttl ≡ Plugin.send_to_add_daemon net p w ips ttl
  unfolding PluginX.send_to_add_daemon Plugin.send_to_add_daemon
  send_same p w ips ttl =
      ap (PluginX.over net ips ttl) (get_conn_same p w)
      ∙ over_same ips ttl (Plugin.get_conn net p w)

  cached_same :
      (now duration : ℕ) (ips : List Ip) (x : Plugin.Sent net)
      → PluginX.cached_behind net now duration ips x ≡ Plugin.settle net now duration ips x
  unfolding update_cache
  cached_same now duration ips (p, w, err e) = refl
  cached_same now duration ips (p, w, ok u) = refl

  stale_same :
      (p : Plugin Conn) (w : World) (now ttl : ℕ) (ips : List Ip)
      → PluginX.sent_stale net p w now ttl ips ≡ Plugin.send_stale net p w now ttl ips
  stale_same p w now ttl [] = refl
  stale_same p w now ttl (ip ∷ ips) =
      ap (PluginX.cached_behind net now (ttl_duration ttl) (ip ∷ ips))
        (send_same p w (ip ∷ ips) ttl)
      ∙ cached_same now (ttl_duration ttl) (ip ∷ ips)
          (Plugin.send_to_add_daemon net p w (ip ∷ ips) ttl)

  abbrev dispatched : Plugin Conn → World → ℕ → List Ip × ℕ → Plugin Conn × World
  dispatched p w now (ips, least) =
      let ttl = clamp_ttl p.cfg least in
      Plugin.send_stale net p w now ttl (uncached p.local_cache now (ttl_duration ttl) ips)

  resolved_same :
      (p : Plugin Conn) (w : World) (now : ℕ) (x : List Ip × ℕ)
      → PluginX.resolved net p w now x ≡ dispatched p w now x
  unfolding uncached clamp_ttl
  resolved_same p w now ([], least) = refl
  resolved_same p w now (ip ∷ ips, least) =
      let ttl = clamp_ttl p.cfg least in
      stale_same p w now ttl (uncached p.local_cache now (ttl_duration ttl) (ip ∷ ips))

  response_same :
      (p : Plugin Conn) (w : World) (now : ℕ) (answers : List Answer)
      → PluginX.process_response net p w now answers ≡ Plugin.exec net p w now answers
  unfolding PluginX.process_response Plugin.exec
  response_same p w now answers = resolved_same p w now (extract answers [] no_ttl)

  -- The answers of a response, none where there is none.
  abbrev pub answers_of : Option (List Answer) → List Answer
  answers_of none = []
  answers_of (some answers) = answers

  -- `Exec` of the plugin for mosdns-x does to the plugin and the world what `Exec` of the plugin for
  -- mosdns does, whatever the socket does, and then hands the world to the next node of the chain and
  -- returns what that returns. A query without a response is one without answers.
  pub exec_same {κ} :
      {R : Type κ} (next : World → World × R) (p : Plugin Conn) (w : World) (now : ℕ)
      (response : Option (List Answer))
      → PluginX.exec net next p w now response ≡ (
          let (p', w') = Plugin.exec net p w now (answers_of response) in
          (p', (next w').0, (next w').1))
  unfolding PluginX.exec Plugin.exec extract uncached
  exec_same next p w now none = refl
  exec_same next p w now (some []) = refl
  exec_same next p w now (some (rr ∷ rest)) =
      ap (λ (x : Plugin Conn × World). (x.0, (next x.1).0, (next x.1).1))
        (response_same p w now (rr ∷ rest))

parsed_same :
    (r : Option ℕ)
    → PluginX.positive_or_default r ≡ elim r [
      | some t ↦ if ltb 0 t then t else Plugin.default_timeout
      | none ↦ Plugin.default_timeout
    ]
parsed_same none = refl
parsed_same (some t) = refl

timeout_same :
    (parse_duration : Bytes → Option ℕ) (s : Bytes)
    → (if length s == 0
        then Plugin.default_timeout
        else PluginX.positive_or_default (parse_duration s))
      ≡ Plugin.timeout_of parse_duration s
timeout_same parse_duration [] = refl
timeout_same parse_duration (b ∷ bs) = rw (parsed_same (parse_duration (b ∷ bs))) (ground arith)

module _ {Conn : Type 0} (parse_duration : Bytes → Option ℕ) where
  -- Both plugins refuse the same configurations and complete the others in the same way.
  pub new_plugin_same :
      (cfg : Plugin.Args)
      → PluginX.new_plugin_from_args {Conn = Conn} parse_duration cfg
        ≡ Plugin.new_plugin_from_args {Conn = Conn} parse_duration cfg
  unfolding PluginX.new_plugin_from_args Plugin.new_plugin_from_args Plugin.with_defaults
  new_plugin_same cfg = rw (timeout_same parse_duration cfg.timeout) refl
