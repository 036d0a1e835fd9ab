-- ===== src/Tests/Queue.antt =====
-- pkg/ttlcleaner/tracker.go on a tracker of two addresses.
use opn_box.Base.{is_some, ℕ, ◌+◌, refl, zero, suc, none, some, [], ◌∷◌, Bytes, arith}
use opn_box.Net.{Ip}
use opn_box.Net.Text.{ip_string}
use opn_box.Tracker.Refs.{ref_at}
use opn_box.Tracker.Queue.{Entry, EntryHeap, Ref, place}
use opn_box.Tracker.Heap.Swap.{IsIndexed}
use opn_box.Tracker.Heap.Order.{IsHeap}
use opn_box.Tracker.{flush, Tracker, new_tracker, add_or_renew, delete, pop_expired}
use opn_box.Tracker.Invariant.{expiry, new_tracker-IsTracked}
use opn_box.Tracker.Methods.{Writes, later, is_none, add_or_renew-Writes, delete-Writes}
use mathlib.Core.List.Perm
use opn_box.Tracker.Flush.{Flushes, flush-Flushes}
use opn_box.Base.{List, ◌+◌, ◌%◌, ◌^◌, ◌≡◌}
use opn_box.Tracker.{stats}
use opn_box.Tracker.Invariant.{IsTracked}
use opn_box.Tracker.Calls.{Call, run, run-Accounts}
use opn_box.Tracker.Expire.{Sweeps, pop_expired-Sweeps}

abbrev lan : Bytes
lan = b'l' ∷ b'a' ∷ b'n' ∷ []

abbrev first : Ip
first = 10 ∷ 0 ∷ 0 ∷ 1 ∷ []

abbrev second : Ip
second = 10 ∷ 0 ∷ 0 ∷ 2 ∷ []

one :
    Writes new_tracker lan
      (ip_string first)
      (some (later (expiry new_tracker lan (ip_string first)) (100 + 60)))
      (is_none (expiry new_tracker lan (ip_string first)))
      (add_or_renew new_tracker lan first 60 100)
one = add_or_renew-Writes new_tracker lan first 60 100 new_tracker-IsTracked

abbrev held : Tracker
held = one.0

add_or_renew-Writes_example :
    Writes held lan
      (ip_string second)
      (some (later (expiry held lan (ip_string second)) (100 + 30)))
      (is_none (expiry held lan (ip_string second)))
      (add_or_renew held lan second 30 100)
add_or_renew-Writes_example = add_or_renew-Writes held lan second 30 100 one.2

delete-Writes_example :
    Writes held lan
      (ip_string first)
      none
      (is_some (expiry held lan (ip_string first)))
      (delete held lan first)
delete-Writes_example = delete-Writes held lan first one.2

pop_expired-Sweeps_example : Sweeps held 200 10 [] (pop_expired held 200 10)
pop_expired-Sweeps_example = pop_expired-Sweeps held 200 10 one.2

abbrev entry_at : ℕ → Ref → Entry
entry_at e r = record { table = lan; ip_str = []; raw_ip = []; expire_at = e; index = place r }

-- Two entries in order, the reference being the place.
abbrev pair : EntryHeap
pair = record { pq = 0 ∷ 1 ∷ []; entry = λ r. entry_at (100 + r) r }

pair-IsHeap : IsHeap pair
unfolding ref_at
pair-IsHeap (suc zero) p q = omega arith
pair-IsHeap _ p q = absurd (omega arith)

pair-IsIndexed : IsIndexed pair
unfolding ref_at
pair-IsIndexed zero p = refl
pair-IsIndexed (suc zero) p = refl
pair-IsIndexed _ p = absurd (omega arith)

flush-Flushes_example : Flushes held lan (flush (λ rs. rs) held lan)
flush-Flushes_example = flush-Flushes (λ rs. rs) held lan (λ rs. Perm.rfl) one.2

abbrev calls : List Call
calls =
    Call.adding lan first 60 100
    ∷ Call.adding lan second 30 100
    ∷ Call.deleting lan first
    ∷ Call.popping 200 10
    ∷ Call.flushing lan
    ∷ []

run-Accounts_example :
    (t : Tracker) × (run (λ rs. rs) calls new_tracker ≡ some t)
    × IsTracked t
    × ((stats t).added
        ≡ ((stats t).active_entries + (stats t).expired + (stats t).deleted) % 2 ^ 64)
run-Accounts_example = run-Accounts (λ rs. rs) calls (λ rs. Perm.rfl)
