-- ===== src/Daemon/Packets.antt =====
-- cmd/pf-aliasd/main.go: the packets that the daemon writes, and those that it drops.
use opn_box.Base.{ℕ, ◌^◌, ◌<◌, ◌≡◌, refl, ◌⊎◌, inr, some, List, [], ◌∷◌, ◌++◌, Bytes, length, arith}
use mathlib.Core.Path.{subst}
use opn_box.Base.Outcome.{Result, ok, err}
use opn_box.Net.{Ip}
use opn_box.Protocol.{
  Message, cmd_add, cmd_del, status_ok, status_err, encode, decode, new_ack_message,
}
use opn_box.Protocol.RoundTrip.{decode-encode, IsEncodable}
use opn_box.Protocol.Truncated.{decode-take}
use opn_box.Tracker.Queue.{Ref}
use opn_box.Tracker.Invariant.{IsTracked}
use opn_box.Tracker.{Tracker}
use opn_box.Pf.{Device}
use opn_box.Daemon
use opn_box.Daemon.{
  acknowledge, buffer_size, on_add, dispatch_message, handle_packet, inject, nanoseconds,
}
use opn_box.Daemon.Add.{AllHeld, add_all-AllHeld, add_all-none_new}
use opn_box.Daemon.Views.{tracked, add_all-AddsAll}
use opn_box.Net.Text.{among}
use opn_box.Base.{not, ◌&&◌, ◌||◌, inl, ◌≢◌, bytes_eq}

-- The packets are one acknowledgment, which decodes, also in a larger buffer, to the sequence number,
-- the status and the text.
pub record Acks (seq status : ℕ) (text : Bytes) (packets : List Bytes) : Type 0 where
  pub packet : Bytes
  pub only : packets ≡ packet ∷ []
  pub decodes : (rest : Bytes) → decode (packet ++ rest) ≡ ok (new_ack_message seq status text)

acknowledge-Acks :
    (seq status : ℕ) (text : Bytes)
    → seq < 2 ^ 32
    → length text < 65536
    → Acks seq status text (acknowledge seq status text)
unfolding acknowledge new_ack_message
acknowledge-Acks seq status text s l =
    let m = new_ack_message seq status text in
    let v : IsEncodable m = record {
      named = omega arith;
      counted = omega arith;
      numbered = s;
      fits = inr (inr (refl, l));
    } in
    let (packet, e, d) = decode-encode m [] v in
    record {
      packet = packet;
      only = rw e refl;
      decodes = λ rest.
          let (other, e', d') = decode-encode m rest v in
          let same : other ≡ packet = cc (e, e') in subst (λ p. decode (p ++ rest) ≡ ok m) same d';
    }

module _ (dev : Device) where
  open dev use {State, Failure, message, add_addresses, del_addresses}

  -- The device's error texts fit a packet.
  abbrev pub HasShortTexts : Type 0
  HasShortTexts = (e : Failure) → length (message e) < 65536

  -- What became of an addition whose new addresses are given: without any the device is left alone
  -- and a success is acknowledged; otherwise the device is called with them, and a success, or the
  -- error's text, is acknowledged.
  abbrev pub Injects :
      Daemon.Daemon dev → Message → List Ip → Daemon.Daemon dev → List Bytes → Type 0
  Injects d m new_ips d' packets =
      (new_ips ≡ []) × (d'.device ≡ d.device) × Acks m.header.seq status_ok [] packets
      ⊎ ((n : ℕ) × (new_ips ≢ [])
          × (add_addresses d.device m.table new_ips ≡ (d'.device, ok n))
          × Acks m.header.seq status_ok [] packets)
      ⊎ (e : Failure) × (new_ips ≢ [])
        × (add_addresses d.device m.table new_ips ≡ (d'.device, err e))
        × Acks m.header.seq status_err (message e) packets

  -- What an addition does: the addresses it finds new are those of the message that were not tracked,
  -- and afterwards tracked is what was, and the message's addresses under its table.
  abbrev pub Adds : (ℕ → ℕ) → Daemon.Daemon dev → Message → Type 0
  Adds now d m =
      (d' : Daemon.Daemon dev) × (packets : List Bytes) × (new_ips : List Ip) × (on_add dev now d m
        ≡ some (d', packets))
      × IsTracked d'.tracker
      × ((tb j : Bytes)
          → tracked d'.tracker tb j
            ≡ (tracked d.tracker tb j || (bytes_eq m.table tb && among m.ips j)))
      × ((j : Bytes) → among new_ips j ≡ (among m.ips j && not (tracked d.tracker m.table j)))
      × Injects d m new_ips d' packets

  called :
      (d : Daemon.Daemon dev) (m : Message) (ip : Ip) (ips : List Ip) (t : Tracker) (s : State)
      (r : Result Failure ℕ)
      → HasShortTexts
      → m.header.seq < 2 ^ 32
      → add_addresses d.device m.table (ip ∷ ips) ≡ (s, r)
      → Injects d m
          (ip ∷ ips)
          (record { device = s; tracker = t })
          (acknowledge m.header.seq (Daemon.status_of dev r) (Daemon.text_of dev r))
  called d m ip ips t s (ok n) h q e = inr (
      inl (
        n,
        λ nil. absurd (ground (arith, nil)),
        e,
        acknowledge-Acks m.header.seq status_ok [] q (omega arith),
      ))
  called d m ip ips t s (err e') h q e = inr (
      inr (
        e',
        λ nil. absurd (ground (arith, nil)),
        e,
        acknowledge-Acks m.header.seq status_err (message e') q (h e'),
      ))

  injected :
      (d : Daemon.Daemon dev) (m : Message) (t : Tracker) (new_ips : List Ip)
      → HasShortTexts
      → m.header.seq < 2 ^ 32
      → Injects d m new_ips
          (record { device = (inject dev d.device m.table new_ips).0; tracker = t })
          (acknowledge m.header.seq
            (Daemon.status_of dev (inject dev d.device m.table new_ips).1)
            (Daemon.text_of dev (inject dev d.device m.table new_ips).1))
  unfolding inject
  injected d m t [] h q =
      inl (refl, refl, acknowledge-Acks m.header.seq status_ok [] q (omega arith))
  injected d m t (ip ∷ ips) h q =
      let (s, r) = add_addresses d.device m.table (ip ∷ ips) in called d m ip ips t s r h q refl

  -- Where the device's error texts have fewer than 65536 bytes, the sequence number 32 bits and the
  -- tracker is consistent, an addition never panics and keeps the tracker consistent: afterwards
  -- tracked is what was tracked, and each address of the message under its table. If the message has
  -- no address that was not tracked, the device is left as it is and a success is acknowledged.
  -- Otherwise the device's state is that of one call, with exactly these addresses, and the one
  -- acknowledgment decodes to the message's sequence number and a success or that call's error.
  pub on_add-Answered :
      (now : ℕ → ℕ) (d : Daemon.Daemon dev) (m : Message)
      → HasShortTexts
      → m.header.seq < 2 ^ 32
      → IsTracked d.tracker
      → Adds now d m
  unfolding on_add
  on_add-Answered now d m h s v =
      let (t, new_ips, ran, w, view, fresh) =
        add_all-AddsAll now d.tracker m.table (nanoseconds m.ttl) m.ips [] v in
      let r = (inject dev d.device m.table new_ips).1 in
      (
        record { device = (inject dev d.device m.table new_ips).0; tracker = t },
        acknowledge m.header.seq (Daemon.status_of dev r) (Daemon.text_of dev r),
        new_ips,
        rw ran refl,
        w,
        view,
        fresh,
        injected d m t new_ips h s,
      )

  -- An addition of addresses that are all tracked calls no device.
  on_add_held :
      (now : ℕ → ℕ) (d : Daemon.Daemon dev) (m : Message)
      → IsTracked d.tracker
      → AllHeld d.tracker m.table m.ips
      → (t : Tracker) × (on_add dev now d m
          ≡ some (record { device = d.device; tracker = t }, acknowledge m.header.seq status_ok []))
  unfolding on_add inject
  on_add_held now d m v held =
      let (t, ran, w) =
        add_all-none_new now d.tracker m.table (nanoseconds m.ttl) m.ips [] v held in
      (t, rw ran refl)

  -- The same addition sent again, whatever the device made of it the first time, is acknowledged as
  -- done, and the device is not called.
  pub on_add_again :
      (now now' : ℕ → ℕ) (d : Daemon.Daemon dev) (m : Message)
      → IsTracked d.tracker
      → (d' : Daemon.Daemon dev) × (packets : List Bytes) × (t : Tracker) × (on_add dev now d m
          ≡ some (d', packets))
        × (on_add dev now' d' m
            ≡ some
                (record { device = d'.device; tracker = t }, acknowledge m.header.seq status_ok []))
  unfolding on_add
  on_add_again now now' d m v =
      let (t, new_ips, ran, w, g, held) =
        add_all-AllHeld now d.tracker m.table (nanoseconds m.ttl) m.ips [] v in
      let r = (inject dev d.device m.table new_ips).1 in
      let d' : Daemon.Daemon dev = record {
        device = (inject dev d.device m.table new_ips).0;
        tracker = t;
      } in
      let (t', again) = on_add_held now' d' m w held in
      (
        d',
        acknowledge m.header.seq (Daemon.status_of dev r) (Daemon.text_of dev r),
        t',
        rw ran refl,
        again,
      )

  -- An encoded addition or deletion that is larger than the read buffer is dropped: nothing changes,
  -- and no acknowledgment is written.
  pub handle_packet-oversized :
      (now : ℕ → ℕ) (order : List Ref → List Ref) (d : Daemon.Daemon dev) (m : Message) (bs : Bytes)
      → (m.header.command ≡ cmd_add) ⊎ (m.header.command ≡ cmd_del)
      → m.header.seq < 2 ^ 32
      → encode m ≡ ok bs
      → buffer_size < length bs
      → handle_packet dev now order d bs ≡ some (d, [])
  unfolding handle_packet
  handle_packet-oversized now order d m bs c s e l = rw (decode-take m bs buffer_size c s e l) refl
