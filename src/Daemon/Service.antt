-- ===== src/Daemon/Service.antt =====
-- cmd/pf-aliasd/main.go: the daemon's goroutines, one step for each round of a loop. The steps of the
-- accepting loop, of a connection, of the collector and of `main` come in any order; a packet and a
-- tick are one step each.
use opn_box.Base.{ℕ, suc, Bool, true, false, ◌≡◌, some, List, Bytes, ◌==◌, if◌then◌else◌}
use opn_box.Base.Dict.{Dict}
use opn_box.Net.{Ip}
use opn_box.Pf.{Device}
use opn_box.Tracker.{new_tracker}
use opn_box.Tracker.Queue.{Ref}
use opn_box.Tracker.Orders.{IsRange}
use opn_box.Daemon.{Daemon, handle_packet, sweep}

module _ (dev : Device) where
  -- The daemon, whether `quit` is closed and the listener is open, which loops run, and which
  -- connections are open.
  pub record Service : Type 0 where
    pub daemon : Daemon dev
    pub quit : Bool
    pub listening : Bool
    pub accepting : Bool
    pub collecting : Bool
    pub is_open : ℕ → Bool

  abbrev set_open : (ℕ → Bool) → ℕ → Bool → ℕ → Bool
  set_open is_open i b j = if i == j then b else is_open j

  -- `main` up to its wait for a signal, on the device that `pf.Open` returns.
  unfoldable pub started : dev.State → Service
  started device = record {
    daemon = record { device = device; tracker = new_tracker };
    quit = false;
    listening = true;
    accepting = true;
    collecting = true;
    is_open = λ i. false;
  }

  -- `Accept` returned a connection.
  unfoldable pub accept_connection : ℕ → Service → Service
  accept_connection i s = record s { is_open = set_open s.is_open i true }

  -- `Accept` failed: the loop returns if `quit` is closed, and goes on otherwise.
  unfoldable pub accept_error : Service → Service
  accept_error s = record s { accepting = if s.quit then false else s.accepting }

  -- `conn.Read` failed, by the end of the stream or otherwise: the connection is closed.
  unfoldable pub read_error : ℕ → Service → Service
  read_error i s = record s { is_open = set_open s.is_open i false }

  -- `close(d.quit)`, after a signal
  unfoldable pub shut_down : Service → Service
  shut_down s = record s { quit = true }

  -- `listener.Close()`, behind it
  unfoldable pub close_listener : Service → Service
  close_listener s = record s { listening = false }

  -- The collector's `select` found `quit` closed.
  unfoldable pub stop_collector : Service → Service
  stop_collector s = record s { collecting = false }

  -- `main` has closed the listener, `d.wg.Wait()` returns, and `main` behind it.
  unfoldable pub is_over : Service → Bool
  is_over s =
      if s.listening
      then false
      else if s.accepting
      then false
      else if s.collecting
      then false
      else true

  -- The rounds that come for certain, whatever the clients, the clock and the network do: `main` goes on
  -- behind `close(d.quit)`, `Accept` on a closed listener fails, and `quit` is closed in the collector's
  -- `select`.
  pub data Certain (s : Service) : Service → Type 0 where
    closes : s.quit ≡ true → s.listening ≡ true → Certain s (close_listener s)
    accept_closed : s.accepting ≡ true → s.listening ≡ false → Certain s (accept_error s)
    stops : s.collecting ≡ true → s.quit ≡ true → Certain s (stop_collector s)

  pub data Step (max_batch : ℕ) (s : Service) : Service → Type 0 where
    connects :
        (i : ℕ)
        → s.accepting ≡ true
        → s.listening ≡ true
        → s.is_open i ≡ false
        → Step max_batch s (accept_connection i s)
    accept_fails : s.accepting ≡ true → s.listening ≡ true → Step max_batch s (accept_error s)
    reads :
        (i : ℕ) (now : ℕ → ℕ) (order : List Ref → List Ref) (packet : Bytes) (d : Daemon dev)
        (acks : List Bytes)
        → s.is_open i ≡ true
        → IsRange order
        → handle_packet dev now order s.daemon packet ≡ some (d, acks)
        → Step max_batch s (record s { daemon = d })
    read_fails : (i : ℕ) → s.is_open i ≡ true → Step max_batch s (read_error i s)
    ticks :
        (tables : Dict (List Ip) → Dict (List Ip)) (now : ℕ) (d : Daemon dev)
        → s.collecting ≡ true
        → IsRange tables
        → sweep dev tables now max_batch s.daemon ≡ some d
        → Step max_batch s (record s { daemon = d })
    proceeds : {s' : Service} → Certain s s' → Step max_batch s s'
    signalled : s.quit ≡ false → Step max_batch s (shut_down s)

  -- `n` steps lead from the one state to the other.
  pub data Runs (max_batch : ℕ) (s : Service) : ℕ → Service → Type 0 where
    stay : Runs max_batch s 0 s
    later :
        {n : ℕ} {s' s'' : Service}
        → Runs max_batch s n s'
        → Step max_batch s' s''
        → Runs max_batch s (suc n) s''

  -- A run that counts the certain rounds alone; any others may come between them.
  pub data Winds (max_batch : ℕ) (s : Service) : ℕ → Service → Type 0 where
    here : Winds max_batch s 0 s
    surely :
        {n : ℕ} {s' s'' : Service}
        → Winds max_batch s n s'
        → Certain s' s''
        → Winds max_batch s (suc n) s''
    between :
        {n : ℕ} {s' s'' : Service}
        → Winds max_batch s n s'
        → Step max_batch s' s''
        → Winds max_batch s n s''
