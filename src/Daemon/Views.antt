-- ===== src/Daemon/Views.antt =====
-- cmd/pf-aliasd/main.go: the loops over a message's addresses, against what the tracker holds.
use opn_box.Base.{
  ℕ, ◌≡◌, refl, Bool, false, not, ◌&&◌, ◌||◌, is_some, Option, some, List, [], ◌∷◌, ◌++◌, Bytes,
  length, arith, if◌then◌else◌, bytes_eq, bytes_eq_iff, bytes_eq_self,
}
use opn_box.Net.{Ip}
use opn_box.Net.Text.{ip_string, among, among-append}
use opn_box.Tracker.{Tracker}
use opn_box.Tracker.Invariant.{IsTracked, expiry}
use opn_box.Tracker.Methods.{is_none, add_or_renew-Writes, delete-Writes}
use opn_box.Daemon.{add_all, delete_all}

-- An address text is tracked under the table.
abbrev pub tracked : Tracker → Bytes → Bytes → Bool
tracked t tb j = is_some (expiry t tb j)

-- What the loop of an addition makes of the tracker, and the addresses that it finds new.
abbrev pub AddsAll : Tracker → Bytes → List Ip → List Ip → Option (Tracker × List Ip) → Type 0
AddsAll t table ips acc r =
    (t' : Tracker) × (new_ips : List Ip) × (r ≡ some (t', new_ips))
    × IsTracked t'
    × ((tb j : Bytes) → tracked t' tb j ≡ (tracked t tb j || (bytes_eq table tb && among ips j)))
    × ((j : Bytes) → among new_ips j ≡ (among acc j || (among ips j && not (tracked t table j))))

pub add_all-AddsAll :
    (now : ℕ → ℕ) (t : Tracker) (table : Bytes) (ttl : ℕ) (ips acc : List Ip)
    → IsTracked t
    → AddsAll t table ips acc (add_all now t table ttl ips acc)
unfolding add_all
add_all-AddsAll now t table ttl [] acc v =
    (t, acc, refl, v, λ tb j. ground arith, λ j. ground arith)
add_all-AddsAll now t table ttl (ip ∷ ips) acc v =
    let (t1, ran, w, view) = add_or_renew-Writes t table ip ttl (now (length ips)) v in
    let next = if is_none (expiry t table (ip_string ip)) then acc ++ ip ∷ [] else acc in
    let (t2, new_ips, rest, w', view', fresh) = add_all-AddsAll now t1 table ttl ips next w in
    (
      t2,
      new_ips,
      rw ran rest,
      w',
      λ tb j. ground (arith, view tb j, view' tb j),
      λ j. ground (
        arith,
        view table j,
        fresh j,
        bytes_eq_self table,
        bytes_eq_iff (ip_string ip) j,
        among-append acc (ip ∷ []) j,
      ),
    )

abbrev pub DeletesAll : Tracker → Bytes → List Ip → Option Tracker → Type 0
DeletesAll t table ips r =
    (t' : Tracker) × (r ≡ some t')
    × IsTracked t'
    × ((tb j : Bytes)
        → tracked t' tb j ≡ (if bytes_eq table tb && among ips j then false else tracked t tb j))

pub delete_all-DeletesAll :
    (t : Tracker) (table : Bytes) (ips : List Ip)
    → IsTracked t
    → DeletesAll t table ips (delete_all t table ips)
unfolding delete_all
delete_all-DeletesAll t table [] v = (t, refl, v, λ tb j. ground arith)
delete_all-DeletesAll t table (ip ∷ ips) v =
    let (t1, ran, w, view) = delete-Writes t table ip v in
    let (t2, rest, w', view') = delete_all-DeletesAll t1 table ips w in
    (t2, rw ran rest, w', λ tb j. ground (arith, view tb j, view' tb j))
