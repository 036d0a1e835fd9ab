-- ===== src/Daemon/Ending.antt =====
-- cmd/pf-aliasd/main.go: what `main` waits for after a signal.
use opn_box.Base.{ℕ, ◌+◌, ◌≤◌, ◌<◌, ◌⊎◌, Bool, true, false, ◌≡◌, refl, arith, inl, inr, Bool-cases}
use opn_box.Pf.{Device}
use opn_box.Pf.Tables.{Tables}
use opn_box.Daemon.Service.{
  Service, started, accept_connection, accept_error, read_error, shut_down, close_listener,
  stop_collector, is_over, Certain, Step, Runs, Winds,
}
use opn_box.Daemon.Runs.{Holds, Runs-Holds}

abbrev bit : Bool → ℕ
bit true = 1
bit false = 0

module _ (dev : Device) where
  -- How many of the listener and the two loops are left.
  abbrev pending : Service dev → ℕ
  pending s = bit s.listening + bit s.accepting + bit s.collecting

  none_left : (s : Service dev) → pending s ≡ 0 → is_over dev s ≡ true
  unfolding is_over
  none_left s h = ground (arith, h)

  bounded : (b : Bool) → bit b ≤ 1
  bounded true = omega arith
  bounded false = omega arith

  at_most : (s : Service dev) → pending s ≤ 3
  at_most s = omega (arith, bounded s.listening, bounded s.accepting, bounded s.collecting)

  Certain-lowers :
      (s s' : Service dev)
      → s.quit ≡ true
      → Certain dev s s'
      → (s'.quit ≡ true) × (pending s' < pending s)
  unfolding close_listener accept_error stop_collector
  Certain-lowers s _ q (Certain.closes _ l) = (q, rw l (omega arith))
  Certain-lowers s _ q (Certain.accept_closed a l) = (q, rw (q, a) (omega arith))
  Certain-lowers s _ q (Certain.stops c _) = (q, rw c (omega arith))

  Step-keeps :
      (max_batch : ℕ) (s s' : Service dev)
      → s.quit ≡ true
      → Step dev max_batch s s'
      → (s'.quit ≡ true) × (pending s' ≤ pending s)
  unfolding accept_connection accept_error read_error shut_down
  Step-keeps max_batch s _ q (Step.connects i a l b) = (q, omega arith)
  Step-keeps max_batch s _ q (Step.accept_fails a l) = (q, rw (q, a) (omega arith))
  Step-keeps max_batch s _ q (Step.reads i now order packet d acks p r ran) = (q, omega arith)
  Step-keeps max_batch s _ q (Step.read_fails i p) = (q, omega arith)
  Step-keeps max_batch s _ q (Step.ticks tables now d p r ran) = (q, omega arith)
  Step-keeps max_batch s _ q (Step.signalled n) = (refl, omega arith)
  Step-keeps max_batch s s' q (Step.proceeds c) =
      let (q', l) = Certain-lowers s s' q c in (q', omega arith)

  Winds-lowers :
      (max_batch : ℕ) (s : Service dev) (n : ℕ) (s2 : Service dev)
      → s.quit ≡ true
      → Winds dev max_batch s n s2
      → (s2.quit ≡ true) × (n + pending s2 ≤ pending s)
  Winds-lowers max_batch s _ _ q Winds.here = (q, omega arith)
  Winds-lowers max_batch s _ s2 q (Winds.surely {n} {s'} w c) =
      let (q1, l) = Winds-lowers max_batch s n s' q w in
      let (q2, l') = Certain-lowers s' s2 q1 c in (q2, omega arith)
  Winds-lowers max_batch s n s2 q (Winds.between {s' = s'} w step) =
      let (q1, l) = Winds-lowers max_batch s n s' q w in
      let (q2, l') = Step-keeps max_batch s' s2 q1 step in (q2, omega arith)

  -- `main` is over, or there is a certain round.
  abbrev pub GoesOn : Service dev → Type 0
  GoesOn s = (is_over dev s ≡ true) ⊎ ((s' : Service dev) × Certain dev s s')

  goes_on : (s : Service dev) → s.quit ≡ true → GoesOn s
  unfolding is_over
  goes_on s q = elim (Bool-cases s.listening) [
    | inl l ↦ inr (close_listener dev s, Certain.closes q l)
    | inr l ↦ elim (Bool-cases s.accepting) [
      | inl a ↦ inr (accept_error dev s, Certain.accept_closed a l)
      | inr a ↦ elim (Bool-cases s.collecting) [
        | inl c ↦ inr (stop_collector dev s, Certain.stops c q)
        | inr c ↦ inl (rw (l, a, c) refl)
      ]
    ]
  ]

  -- Whatever comes between them, there are at most three certain rounds, `main` is over behind the
  -- third, and as long as it is not over there is one.
  abbrev pub Ends : ℕ → Service dev → Type 0
  Ends max_batch s =
      (n : ℕ) (s' : Service dev)
      → Winds dev max_batch s n s'
      → (n ≤ 3) × (n ≡ 3 → is_over dev s' ≡ true) × GoesOn s'

  quit-Ends : (max_batch : ℕ) (s : Service dev) → s.quit ≡ true → Ends max_batch s
  quit-Ends max_batch s q n s' w =
      let (q', l) = Winds-lowers max_batch s n s' q w in
      let three = at_most s in (omega arith, λ e. none_left s' (omega arith), goes_on s' q')

module _ (dev : Device) (laws : Tables dev) (device : dev.State) (o : laws.Works device) where
  -- On a device that works, `main` is over only after a signal and with the listener closed. From the
  -- moment the signal has closed `quit`, whatever packets, ticks, connections and errors come between,
  -- at most three rounds that come for certain end it: `main` closes the listener, `Accept` fails on
  -- it, and the collector finds `quit` closed. As long as `main` is not over, one of these can come.
  pub Runs-Ends :
      (max_batch n : ℕ) (s : Service dev)
      → Runs dev max_batch (started dev device) n s
      → (is_over dev s ≡ true → (s.quit ≡ true) × (s.listening ≡ false))
        × (s.quit ≡ true → Ends dev max_batch s)
  unfolding is_over
  Runs-Ends max_batch n s r =
      let h = Runs-Holds dev laws device o max_batch n s r in
      (λ over. by h over (Bool-cases s.quit), quit-Ends dev max_batch s)
    where
      by :
          Holds dev laws device o s
          → is_over dev s ≡ true
          → (s.quit ≡ true) ⊎ (s.quit ≡ false)
          → (s.quit ≡ true) × (s.listening ≡ false)
      by h over (inl q) = (q, ground (arith, over))
      by h over (inr q) = absurd (ground (arith, h.accepts q, over))
