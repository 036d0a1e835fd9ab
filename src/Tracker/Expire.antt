-- ===== src/Tracker/Expire.antt =====
-- pkg/ttlcleaner/tracker.go: `PopExpired` against the client's view.
use opn_box.Base.{
  ℕ, zero, suc, ◌+◌, ◌≤◌, ◌<◌, ◌≡◌, refl, ap, ◌∙◌, ◌⊎◌, Bool, true, false, not, is_some, ◌&&◌, ◌||◌,
  Option, none, some, [], ◌∷◌, ◌++◌, List, Bytes, length, arith, ltb, ◌==◌, if◌then◌else◌, inl, inr,
  Bool-cases, bytes_eq, bytes_eq_iff,
}
use opn_box.Base.Dict.{Dict, put}
use mathlib.Core.Path.{subst}
use opn_box.Net.{Ip}
use opn_box.Net.Text.{ip_string}
use opn_box.Tracker.Batches.{batch_size, batch_size-collect, batches, batches-collect}
use opn_box.Tracker.Refs.{ref_at, get_elem?-ref_at, position}
use opn_box.Tracker.Queue.{Entry, Ref}
use opn_box.Tracker.Heap.Swap.{key}
use opn_box.Tracker.Heap.Order.{root_least}
use opn_box.Tracker.{Tracker, find, expire_one, pop_loop, pop_expired, collected}
use opn_box.Tracker.Invariant.{IsTracked, expiry, expiry_of}
use opn_box.Tracker.Untrack.{Dropped, expire_one-Dropped}
use opn_box.Tracker.Methods.{Dropped-view}

-- Whether `PopExpired` stops before its next round.
abbrev pub is_done : Tracker → ℕ → Bool
is_done t now = if length t.heap.pq == 0 then true else ltb now (key t.heap 0)

expire_one_done : (t : Tracker) (now : ℕ) → is_done t now ≡ true → expire_one t now ≡ some none
unfolding expire_one
expire_one_done t now h = ground (arith, get_elem?-ref_at t.heap.pq 0)

-- Nothing that is tracked has expired.
abbrev pub AllLive : Tracker → ℕ → Type 0
AllLive t now = (tb j : Bytes) (e : ℕ) → expiry t tb j ≡ some e → now < e

done-AllLive : (t : Tracker) (now : ℕ) → IsTracked t → is_done t now ≡ true → AllLive t now
done-AllLive t now v d tb j e h = go (find t.tables tb j) refl
  where
    go : (o : Option Ref) → find t.tables tb j ≡ o → now < e
    go none q = absurd (cc (q, h))
    go (some r) q =
        let c = (v.linked tb j r q).0 in
        let (i, l, at) = position r t.heap.pq (omega (arith, c)) in
        let least = root_least (length t.heap.pq) t.heap i v.heap l in
        let same = ap (λ (s : ℕ). (t.heap.entry s).expire_at) at in
        let shown : expiry_of t.heap (some r) ≡ some e = rw q at h in
        ground (arith, least, same, shown)

-- What a sweep at `now` of at most `n` entries does, from the batch `before` to the batch `after`.
pub record Swept (t : Tracker) (now n : ℕ) (before : Dict (List Ip)) (t' : Tracker)
    (after : Dict (List Ip)) : Type 0 where
  pub valid : IsTracked t'
  pub live : (tb j : Bytes) (e : ℕ) → expiry t tb j ≡ some e → now < e → expiry t' tb j ≡ some e
  pub old : (tb j : Bytes) (e : ℕ) → expiry t' tb j ≡ some e → expiry t tb j ≡ some e
  pub full : (length t.heap.pq ≡ n + length t'.heap.pq) ⊎ AllLive t' now
  pub counted : batch_size after + length t'.heap.pq ≡ batch_size before + length t.heap.pq
  pub batched :
      (tb j : Bytes)
      → batches after tb j
        ≡ (batches before tb j || (is_some (expiry t tb j) && not (is_some (expiry t' tb j))))

abbrev pub Sweeps : Tracker → ℕ → ℕ → Dict (List Ip) → Option (Tracker × Dict (List Ip)) → Type 0
Sweeps t now n before r =
    (t' : Tracker) × (after : Dict (List Ip)) × (r ≡ some (t', after))
    × Swept t now n before t' after

Dropped-expiry :
    (t t' : Tracker) (e : Entry) (r : Ref)
    → Dropped t e.table e.ip_str t'
    → find t.tables e.table e.ip_str ≡ some r
    → (tb j : Bytes) (d : ℕ) → expiry t tb j ≡ some d
    → (expiry t' tb j ≡ some d) ⊎ (d ≡ (t.heap.entry r).expire_at)
Dropped-expiry t t' e r w found tb j d h =
    elim (Bool-cases (bytes_eq e.table tb && bytes_eq e.ip_str j)) [
      | inl same ↦
          let p : e.table ≡ tb = ground (arith, bytes_eq_iff e.table tb) in
          let q : e.ip_str ≡ j = ground (arith, bytes_eq_iff e.ip_str j) in
          let k : expiry t e.table e.ip_str ≡ some d = rw (p, q) h in
          let shown : expiry_of t.heap (some r) ≡ some d = rw found at k in
          inr (ground (arith, shown))
      | inr other ↦ inl (Dropped-view t t' e.table e.ip_str tb j w ∙ rw other h)
    ]

Dropped-old :
    (t t' : Tracker) (table k tb j : Bytes) (d : ℕ)
    → Dropped t table k t'
    → expiry t' tb j ≡ some d
    → expiry t tb j ≡ some d
Dropped-old t t' table k tb j d w h = ground (arith, Dropped-view t t' table k tb j w, h)

still_none : (o p : Option ℕ) → ((d : ℕ) → o ≡ some d → p ≡ some d) → p ≡ none → is_some o ≡ false
still_none none p k gone = refl
still_none (some d) p k gone = absurd (cc (k d refl, gone))

-- The batch behind a round and the rounds behind it.
batched-step :
    (t t' u : Tracker) (e : Entry) (r : Ref) (before after : Dict (List Ip))
    → Dropped t e.table e.ip_str t'
    → find t.tables e.table e.ip_str ≡ some r
    → ip_string e.raw_ip ≡ e.ip_str
    → ((tb j : Bytes) (d : ℕ) → expiry u tb j ≡ some d → expiry t' tb j ≡ some d)
    → ((tb j : Bytes)
        → batches after tb j ≡ (
            batches (put e.table (collected before e.table ++ e.raw_ip ∷ []) before) tb j
            || (is_some (expiry t' tb j) && not (is_some (expiry u tb j)))))
    → (tb j : Bytes)
    → batches after tb j
      ≡ (batches before tb j || (is_some (expiry t tb j) && not (is_some (expiry u tb j))))
batched-step t t' u e r before after w found named old k tb j =
    let view = Dropped-view t t' e.table e.ip_str tb j w in
    let collect = batches-collect e.table e.raw_ip before tb j in
    k tb j ∙ collect_or (Bool-cases (bytes_eq e.table tb && bytes_eq e.ip_str j)) view collect
  where
    collect_or :
        ((bytes_eq e.table tb && bytes_eq e.ip_str j) ≡ true)
          ⊎ ((bytes_eq e.table tb && bytes_eq e.ip_str j) ≡ false)
        → expiry t' tb j
          ≡ (if bytes_eq e.table tb && bytes_eq e.ip_str j then none else expiry t tb j)
        → batches (put e.table (collected before e.table ++ e.raw_ip ∷ []) before) tb j
          ≡ (batches before tb j || (bytes_eq e.table tb && bytes_eq (ip_string e.raw_ip) j))
        → (batches (put e.table (collected before e.table ++ e.raw_ip ∷ []) before) tb j
            || (is_some (expiry t' tb j) && not (is_some (expiry u tb j))))
          ≡ (batches before tb j || (is_some (expiry t tb j) && not (is_some (expiry u tb j))))
    collect_or (inr other) view collect = rw (collect, named, other, view) (rw other (ground arith))
    collect_or (inl same) view collect =
        let p : e.table ≡ tb = ground (arith, bytes_eq_iff e.table tb) in
        let q : e.ip_str ≡ j = ground (arith, bytes_eq_iff e.ip_str j) in
        let was : expiry t tb j ≡ some (t.heap.entry r).expire_at =
          subst (λ x. expiry t x j ≡ some (t.heap.entry r).expire_at) p
            (subst (λ y. expiry t e.table y ≡ some (t.heap.entry r).expire_at) q (rw found refl)) in
        let gone : expiry t' tb j ≡ none = view ∙ rw same refl in
        let after_u : is_some (expiry u tb j) ≡ false =
          still_none (expiry u tb j) (expiry t' tb j) (old tb j) gone in
        rw (collect, named, same, was, gone, after_u) (ground arith)

-- One round, and the rounds behind it.
Swept-step :
    (n now : ℕ) (t t' : Tracker) (e : Entry) (r : Ref) (before after : Dict (List Ip)) (u : Tracker)
    → Dropped t e.table e.ip_str t'
    → find t.tables e.table e.ip_str ≡ some r
    → (t.heap.entry r).expire_at ≤ now
    → ip_string e.raw_ip ≡ e.ip_str
    → Swept t' now n (put e.table (collected before e.table ++ e.raw_ip ∷ []) before) u after
    → Swept t now (suc n) before u after
Swept-step n now t t' e r before after u w found due named s = record {
  valid = s.valid;
  live = λ tb j d h l. elim (Dropped-expiry t t' e r w found tb j d h) [
    | inl kept ↦ s.live tb j d kept l
    | inr gone ↦ absurd (omega arith)
  ];
  old = λ tb j d h. Dropped-old t t' e.table e.ip_str tb j d w (s.old tb j d h);
  full = elim s.full [ inl f ↦ inl (omega (arith, w.size)) | inr g ↦ inr g ];
  counted = omega (arith, s.counted, w.size, batch_size-collect e.table e.raw_ip before);
  batched = batched-step t t' u e r before after w found named s.old s.batched;
}

-- The loop on a tracker of which nothing is due.
swept_done :
    (n now : ℕ) (t : Tracker) (before : Dict (List Ip))
    → IsTracked t
    → is_done t now ≡ true
    → Sweeps t now (suc n) before (pop_loop (suc n) t now before)
unfolding pop_loop
swept_done n now t before v d = (
  t,
  before,
  rw (expire_one_done t now d) refl,
  record {
    valid = v;
    live = λ tb j e h l. h;
    old = λ tb j e h. h;
    full = inr (done-AllLive t now v d);
    counted = refl;
    batched = λ tb j. ground arith;
  },
)

pop_loop-Sweeps :
    (n now : ℕ) (t : Tracker) (before : Dict (List Ip))
    → IsTracked t
    → Sweeps t now n before (pop_loop n t now before)
unfolding pop_loop
pop_loop-Sweeps zero now t before v = (
  t,
  before,
  refl,
  record {
    valid = v;
    live = λ tb j e h l. h;
    old = λ tb j e h. h;
    full = inl (omega arith);
    counted = refl;
    batched = λ tb j. ground arith;
  },
)
pop_loop-Sweeps (suc n) now t before v = elim (Bool-cases (is_done t now)) [
  | inl d ↦ swept_done n now t before v d
  | inr more ↦
      let (t', e, ran, w, found, exp, raw) =
        expire_one-Dropped t now v (ground arith) (ground arith) in
      let (u, after, rest, s) =
        pop_loop-Sweeps n now t' (put e.table (collected before e.table ++ e.raw_ip ∷ []) before)
          w.valid in
      let root = ref_at t.heap.pq 0 in
      let (once, table, text) = v.linked e.table e.ip_str root found in
      let named : ip_string e.raw_ip ≡ e.ip_str =
        rw raw (v.named root (omega (arith, once)) ∙ text) in
      (
        u,
        after,
        rw ran rest,
        Swept-step n now t t' e root before after u w found (ground arith) named s,
      )
]

-- `PopExpired` never panics and keeps the tracker consistent. It takes out expired entries only,
-- changes no other, and returns the addresses that it takes out, each under its table, and as many;
-- unless it took out `max_batch`, no entry that is left has expired.
pub pop_expired-Sweeps :
    (t : Tracker) (now max_batch : ℕ)
    → IsTracked t
    → Sweeps t now max_batch [] (pop_expired t now max_batch)
unfolding pop_expired
pop_expired-Sweeps t now max_batch v = pop_loop-Sweeps max_batch now t [] v
