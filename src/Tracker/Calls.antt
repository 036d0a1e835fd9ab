-- ===== src/Tracker/Calls.antt =====
-- pkg/ttlcleaner/tracker.go: the calls of the methods, in any order. Each locks, so that goroutines that
-- share the tracker make one sequence of calls.
use opn_box.Base.{ℕ, ◌+◌, ◌%◌, ◌^◌, ◌≡◌, refl, Option, some, List, [], ◌∷◌, Bytes}
use opn_box.Net.{Ip}
use opn_box.Tracker.Orders.{IsRange}
use opn_box.Tracker.Queue.{Ref, ◌>>=◌}
use opn_box.Tracker.{Tracker, new_tracker, add_or_renew, pop_expired, delete, flush, stats}
use opn_box.Tracker.Invariant.{IsTracked, new_tracker-IsTracked}
use opn_box.Tracker.Methods.{add_or_renew-Writes, delete-Writes}
use opn_box.Tracker.Expire.{pop_expired-Sweeps}
use opn_box.Tracker.Flush.{flush-Flushes}

-- A call with its arguments, the clock's reading among them.
pub data Call : Type 0 where
  adding : Bytes → Ip → (ttl now : ℕ) → Call
  popping : (now max_batch : ℕ) → Call
  deleting : Bytes → Ip → Call
  flushing : Bytes → Call

module _ (order : List Ref → List Ref) where
  -- The tracker behind a call.
  unfoldable pub called : Call → Tracker → Option Tracker
  called (Call.adding table ip ttl now) t = do
    (t', is_new) ← add_or_renew t table ip ttl now
    some t'
  called (Call.popping now max_batch) t = do (t', expired) ← pop_expired t now max_batch; some t'
  called (Call.deleting table ip) t = do (t', found) ← delete t table ip; some t'
  called (Call.flushing table) t = do (t', ips) ← flush order t table; some t'

  unfoldable pub run : List Call → Tracker → Option Tracker
  run [] t = some t
  run (c ∷ cs) t = do t' ← called c t; run cs t'

  called-IsTracked :
      (c : Call) (t : Tracker)
      → IsRange order
      → IsTracked t
      → (t' : Tracker) × (called c t ≡ some t') × IsTracked t'
  unfolding called
  called-IsTracked (Call.adding table ip ttl now) t o v =
      let (t', ran, w, _) = add_or_renew-Writes t table ip ttl now v in (t', rw ran refl, w)
  called-IsTracked (Call.popping now max_batch) t o v =
      let (t', expired, ran, s) = pop_expired-Sweeps t now max_batch v in (t', rw ran refl, s.valid)
  called-IsTracked (Call.deleting table ip) t o v =
      let (t', ran, w, _) = delete-Writes t table ip v in (t', rw ran refl, w)
  called-IsTracked (Call.flushing table) t o v =
      let (t', ips, ran, w, _, _, _) = flush-Flushes order t table o v in (t', rw ran refl, w)

  run-IsTracked :
      (cs : List Call) (t : Tracker)
      → IsRange order
      → IsTracked t
      → (t' : Tracker) × (run cs t ≡ some t') × IsTracked t'
  unfolding run
  run-IsTracked [] t o v = (t, refl, v)
  run-IsTracked (c ∷ cs) t o v =
      let (t1, ran, w) = called-IsTracked c t o v in
      let (t2, rest, w') = run-IsTracked cs t1 o w in (t2, rw ran rest, w')

  -- Whatever the calls and however they interleave, from a new tracker none panics, the tables and the
  -- queue name the same entries, and the statistics account for them: up to the wrap-around of 64 bits
  -- as many were added as are active, have expired or were deleted.
  pub run-Accounts :
      (cs : List Call)
      → IsRange order
      → (t : Tracker) × (run cs new_tracker ≡ some t)
        × IsTracked t
        × ((stats t).added
            ≡ ((stats t).active_entries + (stats t).expired + (stats t).deleted) % 2 ^ 64)
  unfolding stats
  run-Accounts cs o =
      let (t, ran, w) = run-IsTracked cs new_tracker o new_tracker-IsTracked in
      (t, ran, w, w.counted)
