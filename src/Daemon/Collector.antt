-- ===== src/Daemon/Collector.antt =====
-- cmd/pf-aliasd/main.go: several ticks of the collector.
use opn_box.Base.{
  ℕ, ◌+◌, ◌*◌, ◌≤◌, ◌<◌, ◌≡◌, refl, true, false, ◌||◌, ◌⊎◌, inl, inr, Option, none, some, List, [],
  ◌∷◌, Bytes, length, arith,
}
use opn_box.Base.Dict.{Dict}
use opn_box.Net.{Ip}
use opn_box.Pf.{Device}
use opn_box.Pf.Tables.{Tables}
use opn_box.Tracker.{Tracker, find}
use opn_box.Tracker.Queue.{◌>>=◌, Ref}
use opn_box.Tracker.Refs.{position}
use opn_box.Tracker.Orders.{IsRange}
use opn_box.Tracker.Invariant.{IsTracked, expiry}
use opn_box.Daemon.{Daemon, sweep}
use opn_box.Daemon.Views.{tracked}
use opn_box.Daemon.Agreement.{Agrees, sweep-Keeps}

-- Every time lies between the two.
abbrev pub AllWithin : ℕ → ℕ → List ℕ → Type 0
AllWithin t0 t1 [] = Unit {0}
AllWithin t0 t1 (now ∷ times) = (t0 ≤ now) × (now ≤ t1) × AllWithin t0 t1 times

-- Nothing tracked expires by `t0`.
abbrev pub AllAfter : Tracker → ℕ → Type 0
AllAfter t t0 = (tb j : Bytes) (e : ℕ) → expiry t tb j ≡ some e → t0 < e

-- What was tracked and is not expired by `t1` is tracked, and no more than was tracked.
abbrev pub Between : Tracker → ℕ → Tracker → Type 0
Between t t1 t' =
    (tb j : Bytes) (e : ℕ)
    → (expiry t' tb j ≡ some e → expiry t tb j ≡ some e)
      × (expiry t tb j ≡ some e → t1 < e → expiry t' tb j ≡ some e)

-- `n` entries have left the queue, or nothing in it has expired.
abbrev Progress : Tracker → ℕ → ℕ → Tracker → Type 0
Progress t t0 n t' = (n + length t'.heap.pq ≤ length t.heap.pq) ⊎ AllAfter t' t0

-- An empty queue tracks nothing.
empty_queue : (t : Tracker) (t0 : ℕ) → IsTracked t → length t.heap.pq ≡ 0 → AllAfter t t0
empty_queue t t0 v l tb j e h = go (find t.tables tb j) refl
  where
    go : (o : Option Ref) → find t.tables tb j ≡ o → t0 < e
    go none q = absurd (cc (q, h))
    go (some r) q =
        let (i, inside, _) = position r t.heap.pq (omega (arith, (v.linked tb j r q).0)) in
        absurd (omega arith)

module _ (dev : Device) (tables : Dict (List Ip) → Dict (List Ip)) (max_batch : ℕ) where
  -- The ticks at the times, one after the other.
  unfoldable pub collect : List ℕ → Daemon dev → Option (Daemon dev)
  collect [] d = some d
  collect (now ∷ times) d = do d' ← sweep dev tables now max_batch d; collect times d'

  module _ (laws : Tables dev) (start : dev.State) (order : IsRange tables) (t0 t1 : ℕ) where
    collect-Progress :
        (times : List ℕ) (d : Daemon dev)
        → Agrees dev laws start d
        → AllWithin t0 t1 times
        → (d' : Daemon dev) × (collect times d ≡ some d')
          × Agrees dev laws start d'
          × Between d.tracker t1 d'.tracker
          × Progress d.tracker t0 (length times * max_batch) d'.tracker
    unfolding collect
    collect-Progress [] d a w = (d, refl, a, λ tb j e. (λ h. h, λ h l. h), inl (omega arith))
    collect-Progress (now ∷ times) d a (from, until, w) =
        let (d1, expired, ran, a1, s) = sweep-Keeps dev laws start tables now max_batch d order a in
        let (d2, rest, a2, b, p) = collect-Progress times d1 a1 w in
        (
          d2,
          rw ran rest,
          a2,
          λ tb j e. (
            λ h. s.old tb j e ((b tb j e).0 h),
            λ h l. (b tb j e).1 (s.live tb j e h (omega arith)) l,
          ),
          elim p [
            | inr after ↦ inr after
            | inl fewer ↦ elim s.full [
              | inl full ↦ inl (ground arith)
              | inr live ↦ inr (λ tb j e h. omega (arith, live tb j e ((b tb j e).0 h)))
            ]
          ],
        )

    abbrev pub Expires : List ℕ → Daemon dev → Type 0
    Expires times d =
        (d' : Daemon dev) × (collect times d ≡ some d')
        × Between d.tracker t1 d'.tracker
        × AllAfter d'.tracker t0
        × ((tb j : Bytes)
            → laws.contains d'.device tb j ≡ true
            → laws.contains start tb j ≡ false
            → (e : ℕ) × (expiry d.tracker tb j ≡ some e) × (t0 < e))

    -- Where the device works and the tracker and the tables agree: if the ticks, each between `t0` and
    -- `t1`, with no packet between them, may take as many entries as there are, they take every entry
    -- that has expired by `t0` out of the tracker and, unless it had the address at the start, out of the
    -- device's tables. They take no entry that expires after `t1` out of the tracker, and do not panic.
    pub collect-Expires :
        (times : List ℕ) (d : Daemon dev)
        → Agrees dev laws start d
        → AllWithin t0 t1 times
        → length d.tracker.heap.pq ≤ length times * max_batch
        → Expires times d
    collect-Expires times d a w enough =
        let (d', ran, a', b, p) = collect-Progress times d a w in
        let after : AllAfter d'.tracker t0 = elim p [
          | inl fewer ↦ empty_queue d'.tracker t0 a'.valid (omega arith)
          | inr after ↦ after
        ] in
        (
          d',
          ran,
          b,
          after,
          λ tb j here fresh.
              by d' a' b after tb j (expiry d'.tracker tb j) refl (a'.known tb j here) fresh,
        )
      where
        by :
            (d' : Daemon dev)
            → Agrees dev laws start d'
            → Between d.tracker t1 d'.tracker
            → AllAfter d'.tracker t0
            → (tb j : Bytes) (o : Option ℕ) → expiry d'.tracker tb j ≡ o
            → (tracked d'.tracker tb j || laws.contains start tb j) ≡ true
            → laws.contains start tb j ≡ false
            → (e : ℕ) × (expiry d.tracker tb j ≡ some e) × (t0 < e)
        by d' a' b after tb j (some e) q k fresh = (e, (b tb j e).0 q, after tb j e q)
        by d' a' b after tb j none q k fresh = absurd (ground (arith, q, k, fresh))
