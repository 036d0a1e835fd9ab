-- ===== src/Tracker/Methods.antt =====
-- pkg/ttlcleaner/tracker.go: the methods against the client's view, a finite map from a table and an
-- address text to an expiry.
use opn_box.Base.{
  is_some, ℕ, ◌+◌, ◌≡◌, refl, sym, ap, ◌∙◌, Bool, true, false, ◌&&◌, Option, none, some, Bytes,
  arith, ltb, if◌then◌else◌, bytes_eq, bytes_eq_iff,
}
use opn_box.Net.{Ip}
use opn_box.Net.Text.{ip_string}
use opn_box.Tracker.Refs.{count}
use opn_box.Tracker.Queue.{Ref}
use opn_box.Tracker.{Tracker, find, add_or_renew, delete, renew, track}
use opn_box.Tracker.Invariant.{IsTracked, expiry, expiry_of}
use opn_box.Tracker.Renew.{Renewed, renew-Renewed}
use opn_box.Tracker.Track.{Added, track-Added}
use opn_box.Tracker.Untrack.{Dropped, delete-Dropped}

-- The later of two expiries, of which the first may be missing.
abbrev pub later : Option ℕ → ℕ → ℕ
later none e = e
later (some d) e = if ltb d e then e else d

abbrev pub is_none {ℓ} : {A : Type ℓ} → Option A → Bool
is_none none = true
is_none (some a) = false

-- The call returns a consistent tracker and the flag, and has written `o` for the one address.
abbrev pub Writes : Tracker → Bytes → Bytes → Option ℕ → Bool → Option (Tracker × Bool) → Type 0
Writes t table k o flag r =
    (t' : Tracker) × (r ≡ some (t', flag))
    × IsTracked t'
    × ((tb j : Bytes)
        → expiry t' tb j ≡ (if bytes_eq table tb && bytes_eq k j then o else expiry t tb j))

module _ (t : Tracker) (table : Bytes) (ip : Ip) (e : ℕ) (v : IsTracked t) where
  abbrev text : Bytes
  text = ip_string ip

  -- No other name finds the entry of this one.
  only :
      (r : Ref)
      → find t.tables table text ≡ some r
      → (tb j : Bytes) → find t.tables tb j ≡ some r
      → (bytes_eq table tb && bytes_eq text j) ≡ true
  only r found tb j again =
      let f = v.linked table text r found in
      let g = v.linked tb j r again in
      ground (arith, f, g, bytes_eq_iff table tb, bytes_eq_iff text j)

  same_names :
      (tb j : Bytes)
      → (bytes_eq table tb && bytes_eq text j) ≡ true
      → find t.tables tb j ≡ find t.tables table text
  same_names tb j h =
      let p : table ≡ tb = ground (arith, bytes_eq_iff table tb) in
      let q : text ≡ j = ground (arith, bytes_eq_iff text j) in rw (p, q) refl

  module _ (r : Ref) (found : find t.tables table text ≡ some r) (t' : Tracker)
      (w : Renewed t r e t') where
    renewed_at :
        (tb j : Bytes) (o : Option Ref)
        → find t.tables tb j ≡ o
        → expiry_of t'.heap o ≡ (
            if bytes_eq table tb && bytes_eq text j
            then some (later (some (t.heap.entry r).expire_at) e)
            else expiry_of t.heap o)
    renewed_at tb j none q = ground (arith, same_names tb j, found, q)
    renewed_at tb j (some s) q =
        let one : r ≡ s → (bytes_eq table tb && bytes_eq text j) ≡ true =
          λ m. only r found tb j (q ∙ ap some (sym m)) in
        ground (arith, same_names tb j, found, q, one, w.expires s)

    renewed_view :
        (tb j : Bytes)
        → expiry t' tb j ≡ (
            if bytes_eq table tb && bytes_eq text j
            then some (later (expiry t table text) e)
            else expiry t tb j)
    renewed_view tb j = rw (w.tables, found) (renewed_at tb j (find t.tables tb j) refl)

  module _ (t' : Tracker) (w : Added t table text e t') where
    added_at :
        (tb j : Bytes) (o : Option Ref)
        → find t.tables tb j ≡ o
        → expiry t' tb j
          ≡ (if bytes_eq table tb && bytes_eq text j then some e else expiry_of t.heap o)
    added_at tb j none q = rw (w.finds tb j, q) (ground (arith, w.expires t.next))
    added_at tb j (some s) q =
        let c = (v.linked tb j s q).0 in
        rw (w.finds tb j, q)
          (ground (
            arith,
            w.expires t.next,
            w.expires s,
            c,
            v.fresh t.next (omega arith),
            ap (λ (u : ℕ). count u t.heap.pq),
          ))

  -- `AddOrRenew` on either branch.
  add_by :
      (o : Option Ref)
      → find t.tables table text ≡ o
      → Writes t table text
          (some (later (expiry_of t.heap o) e))
          (is_none (expiry_of t.heap o))
          (elim o [ some r ↦ renew t r e | none ↦ track t table ip e ])
  add_by none q =
      let (t', ran, w) = track-Added t table ip e v q in
      (t', ran, w.valid, λ tb j. added_at t' w tb j (find t.tables tb j) refl)
  add_by (some r) q =
      let c = (v.linked table text r q).0 in
      let (t', ran, w) = renew-Renewed t r e v (omega (arith, c)) in
      (t', ran, w.valid, λ tb j. rw q at (renewed_view r q t' w tb j))

-- `AddOrRenew` never panics and keeps the tracker consistent. It writes the later of the old and the
-- new expiry for the one address of the one table, changes no other, and returns true exactly when
-- the address was not tracked.
pub add_or_renew-Writes :
    (t : Tracker) (table : Bytes) (ip : Ip) (ttl now : ℕ)
    → IsTracked t
    → Writes t table
        (ip_string ip)
        (some (later (expiry t table (ip_string ip)) (now + ttl)))
        (is_none (expiry t table (ip_string ip)))
        (add_or_renew t table ip ttl now)
unfolding add_or_renew
add_or_renew-Writes t table ip ttl now v =
    add_by t table ip (now + ttl) v (find t.tables table (ip_string ip)) refl

pub Dropped-view :
    (t t' : Tracker) (table k tb j : Bytes)
    → Dropped t table k t'
    → expiry t' tb j ≡ (if bytes_eq table tb && bytes_eq k j then none else expiry t tb j)
Dropped-view t t' table k tb j w = go (find t.tables tb j) refl
  where
    go :
        (o : Option Ref)
        → find t.tables tb j ≡ o
        → expiry t' tb j ≡ (if bytes_eq table tb && bytes_eq k j then none else expiry t tb j)
    go none q = rw (w.finds tb j, q) (ground arith)
    go (some s) q = rw (w.finds tb j, q) (ground (arith, w.expires s))

delete_by :
    (t : Tracker) (table : Bytes) (ip : Ip) (o : Option Ref)
    → IsTracked t
    → find t.tables table (ip_string ip) ≡ o
    → Writes t table (ip_string ip) none (is_some (expiry_of t.heap o)) (delete t table ip)
unfolding delete
delete_by t table ip none v q = (
  t,
  rw (q, delete) refl,
  v,
  λ tb j.
      ground
        (arith, same_names t table ip 0 v tb j, q, ap (λ (o : Option Ref). expiry_of t.heap o)),
)
delete_by t table ip (some r) v q =
    let (t', ran, w) = delete-Dropped t table ip r v q in
    (t', ran, w.valid, λ tb j. Dropped-view t t' table (ip_string ip) tb j w)

-- `Delete` never panics and keeps the tracker consistent. It removes the one address of the one
-- table, changes no other, and returns true exactly when the address was tracked.
pub delete-Writes :
    (t : Tracker) (table : Bytes) (ip : Ip)
    → IsTracked t
    → Writes t table
        (ip_string ip)
        none
        (is_some (expiry t table (ip_string ip)))
        (delete t table ip)
delete-Writes t table ip v = delete_by t table ip (find t.tables table (ip_string ip)) v refl
