-- ===== src/Daemon/Runs.antt =====
-- cmd/pf-aliasd/main.go: what holds in every state that the daemon's goroutines reach.
use opn_box.Base.{ℕ, true, false, ◌≡◌, refl, ap, sym, ◌∙◌, some, List, Bytes, arith}
use mathlib.Core.Path.{subst}
use mathlib.Core.Option.{some_inj}
use opn_box.Base.Dict.{Dict}
use opn_box.Net.{Ip}
use opn_box.Pf.{Device}
use opn_box.Pf.Tables.{Tables}
use opn_box.Tracker.Queue.{Ref}
use opn_box.Tracker.Orders.{IsRange}
use opn_box.Tracker.Invariant.{new_tracker-IsTracked, find-nil}
use opn_box.Daemon.{Daemon, handle_packet, sweep}
use opn_box.Daemon.Agreement.{Agrees, handle_packet-Keeps, sweep-Keeps}
use opn_box.Daemon.Service.{
  Service, started, accept_connection, accept_error, read_error, shut_down, close_listener,
  stop_collector, Certain, Step, Runs,
}

module _ (dev : Device) (laws : Tables dev) (device : dev.State) (o : laws.Works device) where
  -- The tracker and the tables agree, and no loop has returned, and the listener is open, before `quit`
  -- was closed.
  pub record Holds (s : Service dev) : Type 0 where
    pub agrees : Agrees dev laws device s.daemon
    pub listens : s.quit ≡ false → s.listening ≡ true
    pub accepts : s.quit ≡ false → s.accepting ≡ true
    pub collects : s.quit ≡ false → s.collecting ≡ true

  started-Holds : Holds (started dev device)
  unfolding started
  started-Holds = record {
    agrees = record {
      valid = new_tracker-IsTracked;
      works = o;
      present = λ tb j h. absurd (ground (arith, find-nil tb j, h));
      known = λ tb j h. ground (arith, h);
    };
    listens = λ h. refl;
    accepts = λ h. refl;
    collects = λ h. refl;
  }

  with_daemon :
      (s : Service dev) (d : Daemon dev)
      → Holds s
      → Agrees dev laws device d
      → Holds (record s { daemon = d })
  with_daemon s d h a = record {
    agrees = a;
    listens = h.listens;
    accepts = h.accepts;
    collects = h.collects;
  }

  Step-Holds : (max_batch : ℕ) (s s' : Service dev) → Holds s → Step dev max_batch s s' → Holds s'
  unfolding accept_connection accept_error read_error shut_down close_listener stop_collector
  Step-Holds max_batch s _ h (Step.connects i a l b) = record {
    agrees = h.agrees;
    listens = h.listens;
    accepts = h.accepts;
    collects = h.collects;
  }
  Step-Holds max_batch s _ h (Step.accept_fails a l) = record {
    agrees = h.agrees;
    listens = λ q. l;
    accepts = λ q. rw q a;
    collects = h.collects;
  }
  Step-Holds max_batch s _ h (Step.reads i now order packet d acks p r ran) =
      let (d', acks', ran', a) =
        handle_packet-Keeps dev laws device now order s.daemon packet r h.agrees in
      let same : some (d', acks') ≡ some (d, acks) = sym ran' ∙ ran in
      with_daemon s d h (subst (Agrees dev laws device) (ap (λ r. r.0) (some_inj.0 same)) a)
  Step-Holds max_batch s _ h (Step.read_fails i p) = record {
    agrees = h.agrees;
    listens = h.listens;
    accepts = h.accepts;
    collects = h.collects;
  }
  Step-Holds max_batch s _ h (Step.ticks tables now d p r ran) =
      let (d', expired, ran', a, _) =
        sweep-Keeps dev laws device tables now max_batch s.daemon r h.agrees in
      let same : some d' ≡ some d = sym ran' ∙ ran in
      with_daemon s d h (subst (Agrees dev laws device) (some_inj.0 same) a)
  Step-Holds max_batch s _ h (Step.proceeds (Certain.closes q l)) = record {
    agrees = h.agrees;
    listens = λ n. absurd (cc (n, q));
    accepts = h.accepts;
    collects = h.collects;
  }
  Step-Holds max_batch s _ h (Step.proceeds (Certain.accept_closed a l)) = record {
    agrees = h.agrees;
    listens = h.listens;
    accepts = λ n. absurd (ground (arith, h.listens n, l));
    collects = h.collects;
  }
  Step-Holds max_batch s _ h (Step.proceeds (Certain.stops c q)) = record {
    agrees = h.agrees;
    listens = h.listens;
    accepts = h.accepts;
    collects = λ n. absurd (cc (n, q));
  }
  Step-Holds max_batch s _ h (Step.signalled q) = record {
    agrees = h.agrees;
    listens = λ n. absurd (cc n);
    accepts = λ n. absurd (cc n);
    collects = λ n. absurd (cc n);
  }

  pub Runs-Holds :
      (max_batch n : ℕ) (s : Service dev) → Runs dev max_batch (started dev device) n s → Holds s
  Runs-Holds max_batch _ _ Runs.stay = started-Holds
  Runs-Holds max_batch _ s (Runs.later {n} {s'} r step) =
      Step-Holds max_batch s' s (Runs-Holds max_batch n s' r) step

  -- On a device that works, in every state that the daemon's loops reach, in whatever order their
  -- rounds come, with a packet and a tick one step each, the tracker is consistent, each tracked address
  -- is in the device's table, and each address in a table is tracked or was there when the daemon
  -- started. In no such state does a packet, whatever its bytes, or a tick make the daemon panic.
  pub Runs-Agrees :
      (max_batch n : ℕ) (s : Service dev) (order : List Ref → List Ref)
      (tables : Dict (List Ip) → Dict (List Ip))
      → Runs dev max_batch (started dev device) n s
      → IsRange order
      → IsRange tables
      → Agrees dev laws device s.daemon
        × ((now : ℕ → ℕ) (packet : Bytes)
            → (d : Daemon dev) × (acks : List Bytes) × (handle_packet dev now order s.daemon packet
                ≡ some (d, acks)))
        × ((now : ℕ) → (d : Daemon dev) × (sweep dev tables now max_batch s.daemon ≡ some d))
  Runs-Agrees max_batch n s order tables r o p =
      let a = (Runs-Holds max_batch n s r).agrees in
      (
        a,
        λ now packet.
            let (d, acks, ran, _) =
              handle_packet-Keeps dev laws device now order s.daemon packet o a in
            (d, acks, ran),
        λ now.
            let (d, expired, ran, _, _) =
              sweep-Keeps dev laws device tables now max_batch s.daemon p a in
            (d, ran),
      )
