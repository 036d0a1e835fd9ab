-- ===== src/Daemon/Delivery.antt =====
-- pkg/plugin/pf_alias.go and cmd/pf-aliasd/main.go: a dispatch of the plugin through the daemon to the
-- packet filter's table.
use opn_box.Base.{
  not, ltb, Bool-cases, zero, suc, ◌^◌, ◌%◌, ℕ, ◌+◌, ◌≤◌, ◌<◌, ◌≡◌, refl, sym, ap, ◌∙◌, Bool, true,
  false, ◌&&◌, ◌||◌, Option, none, some, List, [], ◌∷◌, ◌++◌, map, Bytes, length, take, arith,
  if◌then◌else◌, bytes_eq, bytes_eq_self, inl, inr,
}
use mathlib.Core.List.{append-nil}
use opn_box.Base.Outcome.{Result, ok, err}
use opn_box.Net.{Ip, to4}
use opn_box.Net.Text.{ip_string, among}
use opn_box.Protocol.{
  encode_payload, encode_header, put_uint16, put_uint32, Error, status_ok, encode, decode,
  new_add_message, new_ack_message, max_table_name_len, max_ips_per_packet,
}
use opn_box.Protocol.Addresses.{AllAddresses, wire_ip, wired, length-to4}
use opn_box.Protocol.RoundTrip.{decode-encode, IsEncodable, received}
use opn_box.Plugin.{
  Plugin, Args, Socket, dispatch, on_encoded, transmit, numbered, on_ack, on_status, pool_size,
  put_conn, get_conn, send_to_add_daemon,
}
use opn_box.Plugin
use opn_box.Pf.{Device}
use opn_box.Pf.Tables.{Tables}
use opn_box.Tracker.Queue.{Ref}
use opn_box.Daemon.{Daemon, handle_packet, dispatch_message, acknowledge, buffer_size}
use opn_box.Daemon.Views.{tracked}
use opn_box.Daemon.Agreement.{Agrees, on_add-Tracks}

ip_string-wired : (ip : Ip) (o : Option Ip) → to4 ip ≡ o → ip_string (wired ip o) ≡ ip_string ip
unfolding ip_string to4
ip_string-wired ip none e = refl
ip_string-wired ip (some p) e = ground (arith, length-to4 ip p e, e)

among-wire_ip : (ips : List Ip) (j : Bytes) → among (map wire_ip ips) j ≡ among ips j
unfolding wire_ip
among-wire_ip [] j = refl
among-wire_ip (ip ∷ ips) j = rw (ip_string-wired ip (to4 ip) refl, among-wire_ip ips j) refl

taken_if {ℓ} : {A : Type ℓ} (b : Bool) → b ≡ true → (x y : A) → (if b then x else y) ≡ x
taken_if true e x y = refl
taken_if false e x y = absurd (ground arith)

untaken_if {ℓ} : {A : Type ℓ} (b : Bool) → b ≡ false → (x y : A) → (if b then x else y) ≡ y
untaken_if false e x y = refl
untaken_if true e x y = absurd (ground arith)

take_all : (n : ℕ) (xs : Bytes) → length xs ≤ n → take n xs ≡ xs
take_all zero [] l = refl
take_all (suc n) [] l = refl
take_all zero (x ∷ xs) l = absurd (omega arith)
take_all (suc n) (x ∷ xs) l = ap (λ ys. x ∷ ys) (take_all n xs (omega arith))

abbrev size_of : Result Error Bytes → ℕ
size_of (ok bs) = length bs
size_of (err e) = 0

ack_size : (seq : ℕ) → size_of (encode (new_ack_message seq status_ok [])) ≡ 12
unfolding encode new_ack_message encode_payload encode_header put_uint16 put_uint32
ack_size seq = refl

-- The acknowledgment of a success is short enough for the plugin's buffer.
read_ack :
    (seq : ℕ)
    → seq < 2 ^ 32
    → (packet : Bytes) × (acknowledge seq status_ok [] ≡ packet ∷ [])
      × (decode (take 256 packet) ≡ ok (new_ack_message seq status_ok []))
unfolding acknowledge new_ack_message
read_ack seq s =
    let m = new_ack_message seq status_ok [] in
    let v : IsEncodable m = record {
      named = omega arith;
      counted = omega arith;
      numbered = s;
      fits = inr (inr (refl, omega arith));
    } in
    let (packet, e, back) = decode-encode m [] v in
    let size : length packet ≡ 12 = sym (ap size_of e) ∙ ack_size seq in
    let whole : take 256 packet ≡ packet = take_all 256 packet (omega arith) in
    (packet, rw e refl, rw whole (rw (append-nil packet) at back))

module _ (dev : Device) (laws : Tables dev) (start : dev.State) where
  -- The daemon on the packet of an addition that fits its buffer.
  addition_handled :
      (now : ℕ → ℕ) (order : List Ref → List Ref) (d : Daemon dev) (seq : ℕ) (table : Bytes)
      (ttl : ℕ) (ips : List Ip)
      → Agrees dev laws start d
      → IsEncodable (new_add_message seq table ttl ips)
      → (packet : Bytes) → encode (new_add_message seq table ttl ips) ≡ ok packet
      → length packet ≤ buffer_size
      → (d' : Daemon dev) × (handle_packet dev now order d packet
          ≡ some (d', acknowledge seq status_ok []))
        × Agrees dev laws start d'
        × ((tb j : Bytes)
            → tracked d'.tracker tb j
              ≡ (tracked d.tracker tb j || (bytes_eq table tb && among ips j)))
  unfolding handle_packet new_add_message dispatch_message
  addition_handled now order d seq table ttl ips a v packet made short =
      let m = new_add_message seq table ttl ips in
      let (bs, e, back) = decode-encode m [] v in
      let same : bs ≡ packet = cc (e, made) in
      let whole : take buffer_size packet ≡ packet = take_all buffer_size packet short in
      let back' : decode packet ≡ ok (received m) = rw (append-nil bs, same) at back in
      let (d', ran, b, view) = on_add-Tracks dev laws start now d (received m) a in
      (d', rw (whole, back') ran, b, λ tb j. view tb j ∙ rw (among-wire_ip ips j) refl)

-- The plugin's socket, wired to the daemon: a write is a packet that the daemon handles, and a read takes
-- the next of the daemon's packets. There is one connection.
module _ (dev : Device) (now : ℕ → ℕ) (order : List Ref → List Ref) where
  abbrev written_to :
      Option (Daemon dev × List Bytes) → Daemon dev × List Bytes → (Daemon dev × List Bytes) × Bool
  written_to (some (d, acks)) (_, waiting) = ((d, waiting ++ acks), true)
  written_to none w = (w, false)

  abbrev read_from : Daemon dev → List Bytes → (Daemon dev × List Bytes) × Option Bytes
  read_from d [] = ((d, []), none)
  read_from d (packet ∷ rest) = ((d, rest), some packet)

  abbrev pub wire : Socket
  wire = record {
    World = Daemon dev × List Bytes;
    Conn = Unit {0};
    dial = λ w path. (w, some tt);
    write = λ w c packet. written_to (handle_packet dev now order w.0 packet) w;
    read = λ w c. read_from w.0 w.1;
    close = λ w c. w;
  }

  module _ (laws : Tables dev) (start : dev.State) where
    -- The call succeeds, and the daemon tracks the addresses, has them in the device's table and is
    -- ready for the next packet.
    abbrev pub Delivers : Plugin (Unit {0}) → Daemon dev → List Ip → Plugin.Sent wire → Type 0
    Delivers p d ips r =
        (p' : Plugin (Unit {0})) × (d' : Daemon dev) × (r ≡ (p', (d', []), ok tt))
        × Agrees dev laws start d'
        × ((j : Bytes)
            → among ips j ≡ true
            → (tracked d'.tracker p.cfg.table j ≡ true)
              × (laws.contains d'.device p.cfg.table j ≡ true))

    put_conn_world :
        (p : Plugin (Unit {0})) (w : Daemon dev × List Bytes) (healthy : Bool)
        → put_conn wire p w tt healthy ≡ ((put_conn wire p w tt healthy).0, w)
    unfolding put_conn
    put_conn_world p w healthy = elim (Bool-cases (not healthy || p.closed)) [
      | inl e ↦ rw e refl
      | inr e ↦ elim (Bool-cases (ltb (length p.conn_pool) pool_size)) [
        | inl f ↦ rw (e, f) refl
        | inr f ↦ rw (e, f) refl
      ]
    ]

    dispatch-Delivers :
        (p : Plugin (Unit {0})) (d : Daemon dev) (ips : List Ip) (ttl : ℕ)
        → Agrees dev laws start d
        → p.cfg.sync ≡ true
        → length p.cfg.table ≤ max_table_name_len
        → AllAddresses ips
        → ttl < 2 ^ 32
        → length ips ≤ max_ips_per_packet
        → (packet : Bytes)
        → encode (new_add_message ((p.seq + 1) % 2 ^ 32) p.cfg.table ttl ips) ≡ ok packet
        → length packet ≤ buffer_size
        → Delivers p d ips (dispatch wire p (d, []) tt ips ttl)
    unfolding dispatch new_add_message on_encoded transmit numbered on_ack on_status new_ack_message
    dispatch-Delivers p d ips ttl a sync named addrs t few packet e short =
        let seq = (p.seq + 1) % 2 ^ 32 in
        let v : IsEncodable (new_add_message seq p.cfg.table ttl ips) = record {
          named = named;
          counted = few;
          numbered = omega arith;
          fits = inl (inl refl, addrs, t);
        } in
        let (d', ran, b, view) =
          addition_handled dev laws start now order d seq p.cfg.table ttl ips a v packet e short in
        let (ack, only, back) = read_ack seq (omega arith) in
        let answered : handle_packet dev now order d packet ≡ some (d', ack ∷ []) =
          rw only at ran in
        let kept = put_conn_world (numbered wire p) (d', []) true in
        (
          (put_conn wire (numbered wire p) (d', []) tt true).0,
          d',
          rw (e, answered)
              (taken_if p.cfg.sync sync _ _ ∙ rw back (ap (λ x. (x.0, x.1, ok tt)) kept)),
          b,
          λ j inside.
              let is_tracked : tracked d'.tracker p.cfg.table j ≡ true =
                ground (arith, view p.cfg.table j, bytes_eq_self p.cfg.table, inside) in
              (is_tracked, b.present p.cfg.table j is_tracked),
        )

    -- A connection, from the pool or a new one.
    connected :
        (p : Plugin (Unit {0})) (w : Daemon dev × List Bytes)
        → p.closed ≡ false
        → (p' : Plugin (Unit {0})) × (get_conn wire p w ≡ (p', w, ok tt))
          × (p'.cfg ≡ p.cfg)
          × (p'.seq ≡ p.seq)
    unfolding get_conn
    connected p w opened = by p.conn_pool refl
      where
        by :
            (pool : List (Unit {0}))
            → p.conn_pool ≡ pool
            → (p' : Plugin (Unit {0})) × (get_conn wire p w ≡ (p', w, ok tt))
              × (p'.cfg ≡ p.cfg)
              × (p'.seq ≡ p.seq)
        by [] e = (p, untaken_if p.closed opened _ _ ∙ simp e, refl, refl)
        by (c ∷ rest) e =
            (record p { conn_pool = rest }, untaken_if p.closed opened _ _ ∙ rw e refl, refl, refl)

    -- Where the device works and the daemon's tracker and tables agree, a synchronous plugin that is
    -- open, whose table name has at most 31 bytes, sends at most 256 valid addresses with a TTL of 32
    -- bits, whose encoded packet fits the daemon's buffer of 4096 bytes, over a socket wired to the daemon, on which no packet
    -- waits: the call succeeds, each address is then in the device's table and tracked, and the tracker
    -- and the tables agree.
    pub send_to_add_daemon-Delivers :
        (p : Plugin (Unit {0})) (d : Daemon dev) (ips : List Ip) (ttl : ℕ)
        → Agrees dev laws start d
        → p.closed ≡ false
        → p.cfg.sync ≡ true
        → length p.cfg.table ≤ max_table_name_len
        → AllAddresses ips
        → ttl < 2 ^ 32
        → length ips ≤ max_ips_per_packet
        → (packet : Bytes)
        → encode (new_add_message ((p.seq + 1) % 2 ^ 32) p.cfg.table ttl ips) ≡ ok packet
        → length packet ≤ buffer_size
        → Delivers p d ips (send_to_add_daemon wire p (d, []) ips ttl)
    unfolding send_to_add_daemon
    send_to_add_daemon-Delivers p d ips ttl a opened sync named addrs t few packet e short =
        let (p', got, same, counter) = connected p (d, []) opened in
        let (q, d', ran, b, view) =
          dispatch-Delivers p' d ips ttl a (ap (λ (c : Args). c.sync) same ∙ sync) (rw same named)
            addrs t few packet (rw (same, counter) e) short in
        (q, d', rw got ran, b, rw same at view)
