-- ===== src/Daemon/Races.antt =====
-- cmd/pf-aliasd/main.go: an addition and a deletion on two connections. Each call of the tracker and of
-- the device locks on its own, so that the deletion may come between the two calls of the addition.
use opn_box.Base.{ℕ, ◌≡◌, refl, true, false, Option, some, List, [], Bytes, arith, bytes_eq_self}
use opn_box.Base.Dict.{Dict}
use opn_box.Net.{Ip}
use opn_box.Net.Text.{among}
use opn_box.Protocol.{Message}
use opn_box.Pf.{Device}
use opn_box.Pf.Tables.{Tables}
use opn_box.Tracker.Queue.{◌>>=◌}
use opn_box.Tracker.Orders.{IsRange}
use opn_box.Daemon.{Daemon, add_all, delete_all, inject, sweep, nanoseconds}
use opn_box.Daemon.Views.{tracked, add_all-AddsAll, delete_all-DeletesAll}
use opn_box.Tracker.Batches.{batches-Perm}
use opn_box.Tracker.Expire.{pop_expired-Sweeps}
use opn_box.Tracker.Invariant.{IsTracked, expiry}
use opn_box.Daemon.{evict_all}
use opn_box.Daemon.Agreement.{Agrees, inject-adds, evict_all-deletes, old_some}

module _ (dev : Device) where
  -- The loop of the addition `m`, all of the deletion of the same addresses, and the addition's ioctl.
  unfoldable pub deleted_between : (ℕ → ℕ) → Daemon dev → Message → Option (Daemon dev)
  deleted_between now d m = do
    (t, new_ips) ← add_all now d.tracker m.table (nanoseconds m.ttl) m.ips []
    t' ← delete_all t m.table m.ips
    let s = (dev.del_addresses d.device m.table m.ips).0
    some (record { device = (inject dev s m.table new_ips).0; tracker = t' })

module _ (dev : Device) (laws : Tables dev) (start : dev.State) where
  -- The address stays in the device's table though it is not tracked, and no tick takes it out.
  abbrev pub Stays : Bytes → Bytes → Daemon dev → Type 0
  Stays tb j d =
      (tracked d.tracker tb j ≡ false)
      × (laws.contains d.device tb j ≡ true)
      × ((tables : Dict (List Ip) → Dict (List Ip)) (now max_batch : ℕ)
          → IsRange tables
          → (d' : Daemon dev) × (sweep dev tables now max_batch d ≡ some d')
            × (tracked d'.tracker tb j ≡ false)
            × (laws.contains d'.device tb j ≡ true))

  untracked-Stays :
      (d : Daemon dev) (tb j : Bytes)
      → IsTracked d.tracker
      → laws.Works d.device
      → tracked d.tracker tb j ≡ false
      → laws.contains d.device tb j ≡ true
      → Stays tb j d
  unfolding sweep
  untracked-Stays d tb j v o gone here = (
    gone,
    here,
    λ tables now max_batch r.
        let (t, expired, ran, s) = pop_expired-Sweeps d.tracker now max_batch v in
        let (_, seen) = evict_all-deletes dev laws start d.device (tables expired) o in
        let same = batches-Perm (tables expired) expired tb j (r expired) in
        let old = old_some (expiry t tb j) (expiry d.tracker tb j) (s.old tb j) in
        (
          record { device = evict_all dev d.device (tables expired); tracker = t },
          rw ran refl,
          ground (arith, old, gone),
          ground (arith, seen tb j, same, s.batched tb j, gone, here),
        ),
  )

  -- Where the device works and the tracker and the tables agree: if the addition's addresses are all
  -- deleted between its loop and its ioctl, each of them that was not tracked before is in the table and
  -- not tracked, so that no tick takes it out.
  pub deleted_between-Stays :
      (now : ℕ → ℕ) (d : Daemon dev) (m : Message)
      → Agrees dev laws start d
      → (d' : Daemon dev) × (deleted_between dev now d m ≡ some d')
        × ((j : Bytes)
            → among m.ips j ≡ true
            → tracked d.tracker m.table j ≡ false
            → Stays m.table j d')
  unfolding deleted_between
  deleted_between-Stays now d m a =
      let (t, new_ips, ran, w, view, fresh) =
        add_all-AddsAll now d.tracker m.table (nanoseconds m.ttl) m.ips [] a.valid in
      let (t', ran', w', view') = delete_all-DeletesAll t m.table m.ips w in
      let (s, n, done, still, seen) = laws.deletes d.device m.table m.ips a.works in
      let (n', done', still', seen') = inject-adds dev laws start s m.table new_ips still in
      (
        record { device = (inject dev s m.table new_ips).0; tracker = t' },
        rw (ran, ran', done) refl,
        λ j inside gone.
            untracked-Stays _ m.table j w' still'
              (ground (arith, view' m.table j, bytes_eq_self m.table, inside))
              (ground (arith, seen' m.table j, bytes_eq_self m.table, fresh j, inside, gone)),
      )
