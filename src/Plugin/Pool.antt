-- ===== src/Plugin/Pool.antt =====
-- pkg/plugin/pf_alias.go: the connection pool, and `Exec` as a whole.
use opn_box.Base.{
  ℕ, ◌≤◌, ◌≡◌, refl, ap, ◌∙◌, Bool, true, false, not, Option, none, some, List, [], ◌∷◌, Bytes,
  length, take, arith, if◌then◌else◌, length-append,
}
use opn_box.Base.Outcome.{Result, ok, err}
use opn_box.Net.{Ip}
use opn_box.Protocol.{Error, Message, encode, decode, new_add_message}
use opn_box.Plugin.{
  Plugin, Socket, Answer, SendError, pool_size, get_conn, put_conn, Sent, finish, on_status, on_ack,
  on_encoded, numbered, transmit, dispatch, with_conn, send_to_add_daemon, settle, send_stale, exec,
  extract, clamp_ttl, ttl_duration, uncached, no_ttl, close_plugin, close_all, write_failed,
  plugin_closed,
}

-- At most sixteen connections are pooled, and none after `Close`.
pub record IsPooled (Conn : Type 0) (p : Plugin Conn) : Type 0 where
  pub bounded : length p.conn_pool ≤ pool_size
  pub drained : p.closed ≡ true → p.conn_pool ≡ []

-- A step that changes the pool and the sequence number alone, and keeps the pool valid.
pub record Keeps (Conn : Type 0) (p p' : Plugin Conn) : Type 0 where
  pub cfg : p'.cfg ≡ p.cfg
  pub cache : p'.local_cache ≡ p.local_cache
  pub closed : p'.closed ≡ p.closed
  pub pooled : IsPooled Conn p → IsPooled Conn p'

Keeps-trans :
    (Conn : Type 0) (p q r : Plugin Conn) → Keeps Conn p q → Keeps Conn q r → Keeps Conn p r
Keeps-trans Conn p q r h k = record {
  cfg = k.cfg ∙ h.cfg;
  cache = k.cache ∙ h.cache;
  closed = k.closed ∙ h.closed;
  pooled = λ v. k.pooled (h.pooled v);
}

module _ (net : Socket) where
  open net use {World, Conn, dial, write, read, close}

  put_conn-Keeps :
      (p : Plugin Conn) (w : World) (c : Conn) (healthy : Bool)
      → Keeps Conn p (put_conn net p w c healthy).0
  unfolding put_conn
  put_conn-Keeps p w c healthy = record {
    cfg = ground arith;
    cache = ground arith;
    closed = ground arith;
    pooled = λ v. record {
      bounded = ground (arith, v.bounded, length-append p.conn_pool (c ∷ []));
      drained = λ h. ground (arith, v.drained, h);
    };
  }

  get_conn-Keeps : (p : Plugin Conn) (w : World) → Keeps Conn p (get_conn net p w).0
  unfolding get_conn
  get_conn-Keeps p w = record {
    cfg = ground arith;
    cache = ground arith;
    closed = ground arith;
    pooled = λ v. record {
      bounded = ground (arith, v.bounded);
      drained = λ h. ground (arith, v.drained, h);
    };
  }

  on_status-Keeps :
      (p : Plugin Conn) (w : World) (c : Conn) (r : Result Error Message)
      → Keeps Conn p (on_status net p w c r).0
  unfolding on_status
  on_status-Keeps p w c (err e) = put_conn-Keeps p w c false
  on_status-Keeps p w c (ok m) = put_conn-Keeps p w c true

  on_ack-Keeps :
      (p : Plugin Conn) (w : World) (c : Conn) (a : Option Bytes)
      → Keeps Conn p (on_ack net p w c a).0
  unfolding on_ack
  on_ack-Keeps p w c none = put_conn-Keeps p w c false
  on_ack-Keeps p w c (some packet) = on_status-Keeps p w c (decode (take 256 packet))

  either-Keeps :
      (p : Plugin Conn) (b : Bool) (x y : Sent net)
      → Keeps Conn p x.0
      → Keeps Conn p y.0
      → Keeps Conn p (if b then x else y).0
  either-Keeps p true x y h k = h
  either-Keeps p false x y h k = k

  transmit-Keeps :
      (p : Plugin Conn) (w : World) (c : Conn) (packet : Bytes)
      → Keeps Conn p (transmit net p w c packet).0
  unfolding transmit
  transmit-Keeps p w c packet =
      let (w', written) = write w c packet in
      let (w'', ack) = read w' c in
      let waited = on_ack net p w'' c ack in
      let unsynced = finish net (put_conn net p w' c true) (ok tt) in
      either-Keeps p (not written) (finish net (put_conn net p w' c false) (err write_failed))
        (if p.cfg.sync then waited else unsynced) (put_conn-Keeps p w' c false)
        (either-Keeps p p.cfg.sync waited unsynced (on_ack-Keeps p w'' c ack)
          (put_conn-Keeps p w' c true))

  numbered-Keeps : (p : Plugin Conn) → Keeps Conn p (numbered net p)
  unfolding numbered
  numbered-Keeps p = record {
    cfg = refl;
    cache = refl;
    closed = refl;
    pooled = λ v. record { bounded = v.bounded; drained = v.drained };
  }

  on_encoded-Keeps :
      (p : Plugin Conn) (w : World) (c : Conn) (r : Result Error Bytes)
      → Keeps Conn p (on_encoded net p w c r).0
  unfolding on_encoded
  on_encoded-Keeps p w c (err e) = put_conn-Keeps p w c false
  on_encoded-Keeps p w c (ok packet) = transmit-Keeps p w c packet

  with_conn-Keeps :
      (p q : Plugin Conn) (w : World) (ips : List Ip) (ttl : ℕ) (r : Result SendError Conn)
      → Keeps Conn p q
      → Keeps Conn p (with_conn net ips ttl (q, w, r)).0
  unfolding dispatch
  with_conn-Keeps p q w ips ttl (err e) k = k
  with_conn-Keeps p q w ips ttl (ok c) k =
      let n = numbered net q in
      let made = encode (new_add_message n.seq q.cfg.table ttl ips) in
      Keeps-trans Conn p n (on_encoded net n w c made).0
        (Keeps-trans Conn p q n k (numbered-Keeps q)) (on_encoded-Keeps n w c made)

  -- Sending an addition, whatever the socket does, leaves the configuration and the cache alone and
  -- keeps the pool valid.
  pub send-Keeps :
      (p : Plugin Conn) (w : World) (ips : List Ip) (ttl : ℕ)
      → Keeps Conn p (send_to_add_daemon net p w ips ttl).0
  unfolding send_to_add_daemon
  send-Keeps p w ips ttl =
      let (q, w', r) = get_conn net p w in with_conn-Keeps p q w' ips ttl r (get_conn-Keeps p w)

  closed_get_conn :
      (p : Plugin Conn) (w : World) → p.closed ≡ true → get_conn net p w ≡ (p, w, err plugin_closed)
  unfolding get_conn
  closed_get_conn p w h = ground (arith, h)

  closed_send_stale :
      (p : Plugin Conn) (w : World) (now ttl : ℕ) (ips : List Ip)
      → p.closed ≡ true
      → send_stale net p w now ttl ips ≡ (p, w)
  unfolding send_to_add_daemon
  closed_send_stale p w now ttl [] h = refl
  closed_send_stale p w now ttl (ip ∷ ips) h =
      ap (λ got. settle net now (ttl_duration ttl) (ip ∷ ips) (with_conn net (ip ∷ ips) ttl got))
        (closed_get_conn p w h)

  -- Closing an open plugin empties the pool and closes its connections in order, and every query
  -- behind it changes neither the plugin nor the world.
  pub exec-close_plugin :
      (p p' : Plugin Conn) (w w' w'' : World) (now : ℕ) (answers : List Answer)
      → close_plugin net p w ≡ some (p', w')
      → IsPooled Conn p'
        × w' ≡ close_all net w p.conn_pool
        × exec net p' w'' now answers ≡ (p', w'')
  unfolding exec close_plugin
  exec-close_plugin p p' w w' w'' now answers h =
      let (ips, least) = extract answers [] no_ttl in
      let ttl = clamp_ttl p'.cfg least in
      let shut : p'.closed ≡ true = ground (arith, h) in
      let empty : p'.conn_pool ≡ [] = ground (arith, h) in
      (
        record { bounded = ground (arith, empty); drained = λ _. empty },
        ground (arith, h),
        closed_send_stale p' w'' now ttl (uncached p'.local_cache now (ttl_duration ttl) ips) shut,
      )
