-- ===== src/Daemon/Agreement.antt =====
-- cmd/pf-aliasd/main.go: the tracker and the packet filter's tables agree.
use opn_box.Base.{
  ℕ, ◌≡◌, refl, true, false, ◌&&◌, ◌||◌, is_some, Option, none, some, List, [], ◌∷◌, Bytes, take,
  arith, if◌then◌else◌, bytes_eq, bytes_eq_iff, ◌==◌, inl, inr, Bool-cases,
}
use opn_box.Base.Dict.{Dict}
use opn_box.Base.Outcome.{Result, ok, err}
use opn_box.Net.{Ip}
use opn_box.Net.Text.{among}
use opn_box.Protocol.{Error, Message, cmd_add, cmd_del, cmd_flush, decode, status_ok}
use opn_box.Pf.{Device}
use opn_box.Pf.Tables.{Tables}
use opn_box.Tracker.Queue.{Ref}
use opn_box.Tracker.Orders.{IsRange}
use opn_box.Tracker.Invariant.{IsTracked, expiry}
use opn_box.Tracker.Flush.{flush-Flushes}
use opn_box.Tracker.Batches.{batches, batches-Perm}
use opn_box.Tracker.Expire.{Swept, pop_expired-Sweeps}
use opn_box.Daemon.{
  Daemon, inject, evict, evict_all, on_add, on_del, on_flush, dispatch_message, on_decoded,
  handle_packet, sweep, nanoseconds, buffer_size, acknowledge,
}
use opn_box.Daemon.Views.{tracked, add_all-AddsAll, delete_all-DeletesAll}

pub old_some :
    (o p : Option ℕ) → ((e : ℕ) → o ≡ some e → p ≡ some e) → is_some o ≡ true → is_some p ≡ true
old_some none p k h = absurd (ground arith)
old_some (some e) p k h = rw (k e refl) refl

module _ (dev : Device) (laws : Tables dev) (start : dev.State) where
  -- The device works, what is tracked is in its tables, and what is in its tables is tracked, or was
  -- in them at the start.
  pub record Agrees (d : Daemon dev) : Type 0 where
    pub valid : IsTracked d.tracker
    pub works : laws.Works d.device
    pub present :
        (tb j : Bytes) → tracked d.tracker tb j ≡ true → laws.contains d.device tb j ≡ true
    pub known :
        (tb j : Bytes)
        → laws.contains d.device tb j ≡ true
        → (tracked d.tracker tb j || laws.contains start tb j) ≡ true

  -- The call returns a daemon that agrees, and packets.
  abbrev pub Keeps : Option (Daemon dev × List Bytes) → Type 0
  Keeps r = (d' : Daemon dev) × (packets : List Bytes) × (r ≡ some (d', packets)) × Agrees d'

  -- The ioctl of an addition, also where it is left out.
  pub inject-adds :
      (s : dev.State) (table : Bytes) (ips : List Ip)
      → laws.Works s
      → (n : ℕ) × ((inject dev s table ips).1 ≡ ok n)
        × laws.Works (inject dev s table ips).0
        × ((tb j : Bytes)
            → laws.contains (inject dev s table ips).0 tb j
              ≡ (laws.contains s tb j || (bytes_eq table tb && among ips j)))
  unfolding inject
  inject-adds s table [] o = (0, refl, o, λ tb j. ground arith)
  inject-adds s table (ip ∷ ips) o =
      let (s', n, ran, still, view) = laws.adds s table (ip ∷ ips) o in
      (n, rw ran refl, rw ran still, λ tb j. rw ran (view tb j))

  evict-deletes :
      (s : dev.State) (table : Bytes) (ips : List Ip)
      → laws.Works s
      → laws.Works (evict dev s table ips)
        × ((tb j : Bytes)
            → laws.contains (evict dev s table ips) tb j
              ≡ (if bytes_eq table tb && among ips j then false else laws.contains s tb j))
  unfolding evict
  evict-deletes s table [] o = (o, λ tb j. ground arith)
  evict-deletes s table (ip ∷ ips) o =
      let (s', n, ran, still, view) = laws.deletes s table (ip ∷ ips) o in
      (rw (ran, evict) still, λ tb j. rw (ran, evict) (view tb j))

  pub evict_all-deletes :
      (s : dev.State) (batch : Dict (List Ip))
      → laws.Works s
      → laws.Works (evict_all dev s batch)
        × ((tb j : Bytes)
            → laws.contains (evict_all dev s batch) tb j
              ≡ (if batches batch tb j then false else laws.contains s tb j))
  unfolding evict_all
  evict_all-deletes s [] o = (o, λ tb j. ground arith)
  evict_all-deletes s ((table, ips) ∷ rest) o =
      let (s', n, ran, still, view) = laws.deletes s table ips o in
      let (still', view') = evict_all-deletes s' rest still in
      (rw ran still', λ tb j. rw ran (ground (arith, view tb j, view' tb j)))

  -- An addition on a device that works is acknowledged as done, and tracks what the message names.
  pub on_add-Tracks :
      (now : ℕ → ℕ) (d : Daemon dev) (m : Message)
      → Agrees d
      → (d' : Daemon dev) × (on_add dev now d m ≡ some (d', acknowledge m.header.seq status_ok []))
        × Agrees d'
        × ((tb j : Bytes)
            → tracked d'.tracker tb j
              ≡ (tracked d.tracker tb j || (bytes_eq m.table tb && among m.ips j)))
  unfolding on_add
  on_add-Tracks now d m a =
      let (t, new_ips, ran, w, view, fresh) =
        add_all-AddsAll now d.tracker m.table (nanoseconds m.ttl) m.ips [] a.valid in
      let (n, done, still, seen) = inject-adds d.device m.table new_ips a.works in
      (
        record { device = (inject dev d.device m.table new_ips).0; tracker = t },
        rw (ran, done) refl,
        record {
          valid = w;
          works = still;
          present = λ tb j h.
              ground
                (arith, view tb j, seen tb j, fresh j, a.present tb j, h, bytes_eq_iff m.table tb);
          known = λ tb j h. ground (arith, view tb j, seen tb j, fresh j, a.known tb j, h);
        },
        view,
      )

  on_add-Keeps :
      (now : ℕ → ℕ) (d : Daemon dev) (m : Message) → Agrees d → Keeps (on_add dev now d m)
  on_add-Keeps now d m a =
      let (d', ran, b, _) = on_add-Tracks now d m a in
      (d', acknowledge m.header.seq status_ok [], ran, b)

  on_del-Keeps : (d : Daemon dev) (m : Message) → Agrees d → Keeps (on_del dev d m)
  unfolding on_del
  on_del-Keeps d m a =
      let (t, ran, w, view) = delete_all-DeletesAll d.tracker m.table m.ips a.valid in
      let (s, n, done, still, seen) = laws.deletes d.device m.table m.ips a.works in
      (
        record { device = s; tracker = t },
        acknowledge m.header.seq status_ok [],
        rw (ran, done) refl,
        record {
          valid = w;
          works = still;
          present = λ tb j h. ground (arith, view tb j, seen tb j, a.present tb j, h);
          known = λ tb j h. ground (arith, view tb j, seen tb j, a.known tb j, h);
        },
      )

  on_flush-Keeps :
      (order : List Ref → List Ref) (d : Daemon dev) (m : Message)
      → IsRange order
      → Agrees d
      → Keeps (on_flush dev order d m)
  unfolding on_flush
  on_flush-Keeps order d m o a =
      let (t, ips, ran, w, view, text, size) = flush-Flushes order d.tracker m.table o a.valid in
      let (still, seen) = evict-deletes d.device m.table ips a.works in
      (
        record { device = evict dev d.device m.table ips; tracker = t },
        acknowledge m.header.seq status_ok [],
        rw ran refl,
        record {
          valid = w;
          works = still;
          present = λ tb j h. ground (arith, view tb j, seen tb j, a.present tb j, h);
          known = λ tb j h.
              ground
                (arith, view tb j, seen tb j, text j, a.known tb j, h, bytes_eq_iff m.table tb);
        },
      )

  -- Whatever the message says.
  dispatch_message-Keeps :
      (now : ℕ → ℕ) (order : List Ref → List Ref) (d : Daemon dev) (m : Message)
      → IsRange order
      → Agrees d
      → Keeps (dispatch_message dev now order d m)
  unfolding dispatch_message
  dispatch_message-Keeps now order d m o a = elim (Bool-cases (m.header.command == cmd_add)) [
    | inl is_add ↦ rw is_add (on_add-Keeps now d m a)
    | inr not_add ↦ elim (Bool-cases (m.header.command == cmd_del)) [
      | inl is_del ↦ rw (not_add, is_del) (on_del-Keeps d m a)
      | inr not_del ↦ elim (Bool-cases (m.header.command == cmd_flush)) [
        | inl is_flush ↦ rw (not_add, not_del, is_flush) (on_flush-Keeps order d m o a)
        | inr other ↦ rw (not_add, not_del, other) (d, [], refl, a)
      ]
    ]
  ]

  -- A packet, whatever its bytes, is handled without a panic, and the tracker and the tables agree
  -- afterwards.
  pub handle_packet-Keeps :
      (now : ℕ → ℕ) (order : List Ref → List Ref) (d : Daemon dev) (packet : Bytes)
      → IsRange order
      → Agrees d
      → Keeps (handle_packet dev now order d packet)
  unfolding handle_packet
  handle_packet-Keeps now order d packet o a = by (decode (take buffer_size packet))
    where
      by : (r : Result Error Message) → Keeps (on_decoded dev now order d r)
      by (ok m) = dispatch_message-Keeps now order d m o a
      by (err e) = (d, [], refl, a)

  -- A tick of the collector does not panic either, and the tracker and the tables agree afterwards.
  pub sweep-Keeps :
      (tables : Dict (List Ip) → Dict (List Ip)) (now max_batch : ℕ) (d : Daemon dev)
      → IsRange tables
      → Agrees d
      → (d' : Daemon dev) × (expired : Dict (List Ip)) × (sweep dev tables now max_batch d
          ≡ some d')
        × Agrees d'
        × Swept d.tracker now max_batch [] d'.tracker expired
  unfolding sweep
  sweep-Keeps tables now max_batch d o a =
      let (t, expired, ran, s) = pop_expired-Sweeps d.tracker now max_batch a.valid in
      let (still, seen) = evict_all-deletes d.device (tables expired) a.works in
      let same : (tb j : Bytes) → batches (tables expired) tb j ≡ batches expired tb j =
        λ tb j. batches-Perm (tables expired) expired tb j (o expired) in
      let old : (tb j : Bytes) → tracked t tb j ≡ true → tracked d.tracker tb j ≡ true =
        λ tb j. old_some (expiry t tb j) (expiry d.tracker tb j) (s.old tb j) in
      (
        record { device = evict_all dev d.device (tables expired); tracker = t },
        expired,
        rw ran refl,
        record {
          valid = s.valid;
          works = still;
          present = λ tb j h.
              ground (arith, seen tb j, same tb j, s.batched tb j, old tb j, a.present tb j, h);
          known = λ tb j h.
              ground (arith, seen tb j, same tb j, s.batched tb j, old tb j, a.known tb j, h);
        },
        s,
      )
