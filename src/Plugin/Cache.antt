-- ===== src/Plugin/Cache.antt =====
-- pkg/plugin/pf_alias.go: the local cache, which spares the daemon addresses that are fresh.
use opn_box.Base.{
  ℕ, ◌+◌, ◌/◌, ◌≤◌, ◌≡◌, refl, ap, ◌∙◌, Bool, true, false, ◌||◌, Option, none, some, List, [], ◌∷◌,
  Bytes, length, arith, ltb, if◌then◌else◌, bytes_eq, bytes_eq_iff, bytes_eq_self, inl, inr,
  Bool-cases,
}
use opn_box.Base.Dict.{Dict, lookup, put, lookup-put}
use opn_box.Net.{Ip}
use opn_box.Net.Text.{ip_string}
use opn_box.Plugin.{is_stale, uncached, remember, drop_before, update_cache, cache_limit}

abbrev listed : List Ip → Bytes → Bool
listed [] s = false
listed (ip ∷ ips) s = bytes_eq (ip_string ip) s || listed ips s

lookup-remember :
    (cache : Dict ℕ) (exp : ℕ) (ips : List Ip) (k : Bytes)
    → lookup k (remember cache exp ips) ≡ (if listed ips k then some exp else lookup k cache)
unfolding remember
lookup-remember cache exp [] k = refl
lookup-remember cache exp (ip ∷ ips) k =
    lookup-remember (put (ip_string ip) exp cache) exp ips k
    ∙ ground (arith, lookup-put (ip_string ip) k exp cache)

-- What has not expired survives the collection.
lookup-drop_before :
    (now v : ℕ) (cache : Dict ℕ) (k : Bytes)
    → lookup k cache ≡ some v
    → now ≤ v
    → lookup k (drop_before now cache) ≡ some v
unfolding drop_before lookup
lookup-drop_before now v [] k h l = h
lookup-drop_before now v ((j, w) ∷ cache) k h l = ground (arith, lookup-drop_before now v cache k)

module _ (cache : Dict ℕ) (now duration : ℕ) where
  abbrev IsFresh : Dict ℕ → Ip → Type 0
  IsFresh c ip = is_stale now duration (lookup (ip_string ip) c) ≡ false

  abbrev pub AllFresh : Dict ℕ → List Ip → Type 0
  AllFresh c [] = Unit {0}
  AllFresh c (ip ∷ ips) = IsFresh c ip × AllFresh c ips

  uncached-nil : (ips : List Ip) → AllFresh cache ips → uncached cache now duration ips ≡ []
  unfolding uncached
  uncached-nil [] h = refl
  uncached-nil (ip ∷ ips) h = rw h.0 (uncached-nil ips h.1)

  -- A stale address of the list is dispatched.
  stale_listed :
      (ips : List Ip) (ip : Ip)
      → listed ips (ip_string ip) ≡ true
      → is_stale now duration (lookup (ip_string ip) cache) ≡ true
      → listed (uncached cache now duration ips) (ip_string ip) ≡ true
  unfolding uncached
  stale_listed [] ip h s = h
  stale_listed (x ∷ ips) ip h s = ground (
    arith,
    stale_listed ips ip,
    bytes_eq_iff (ip_string x) (ip_string ip),
    ap (λ (k : Bytes). lookup k cache),
  )

  kept_fresh :
      (c : Dict ℕ) (k : Bytes) (v : ℕ)
      → lookup k c ≡ some v
      → now + duration / 5 ≤ v
      → is_stale now duration
          (lookup k (if ltb cache_limit (length c) then drop_before now c else c))
        ≡ false
  kept_fresh c k v h l = elim (Bool-cases (ltb cache_limit (length c))) [
    | inl e ↦ rw (e, lookup-drop_before now v c k h (omega arith)) (ground arith)
    | inr e ↦ rw (e, h) (ground arith)
  ]

  -- The expiry of an address that was not dispatched.
  fresh_expiry :
      (o : Option ℕ)
      → is_stale now duration o ≡ false
      → (v : ℕ) × (o ≡ some v) × (now + duration / 5 ≤ v)
  fresh_expiry none h = cc
  fresh_expiry (some v) h = (v, refl, ground arith)

  update-IsFresh :
      (ips : List Ip) (ip : Ip)
      → listed ips (ip_string ip) ≡ true
      → IsFresh (update_cache cache now duration (uncached cache now duration ips)) ip
  unfolding update_cache
  update-IsFresh ips ip h =
      let k = ip_string ip in
      let sent = uncached cache now duration ips in
      let c = remember cache (now + duration) sent in
      elim (Bool-cases (listed sent k)) [
        | inl e ↦
            let at : lookup k c ≡ some (now + duration) =
              lookup-remember cache (now + duration) sent k ∙ rw e refl in
            kept_fresh c k (now + duration) at (omega arith)
        | inr e ↦
            let quiet : is_stale now duration (lookup k cache) ≡ false =
              ground (arith, stale_listed ips ip h, e) in
            let (v, at, l) = fresh_expiry (lookup k cache) quiet in
            let at' : lookup k c ≡ some v =
              lookup-remember cache (now + duration) sent k ∙ rw e at in
            kept_fresh c k v at' l
      ]

  update-AllFresh :
      (all ips : List Ip)
      → ((ip : Ip) → listed ips (ip_string ip) ≡ true → listed all (ip_string ip) ≡ true)
      → AllFresh (update_cache cache now duration (uncached cache now duration all)) ips
  update-AllFresh all [] sub = tt
  update-AllFresh all (ip ∷ ips) sub = (
    update-IsFresh all ip (sub ip (ground (arith, bytes_eq_self (ip_string ip)))),
    update-AllFresh all ips (λ x h. sub x (ground (arith, h))),
  )

  pub update-fresh_all :
      (ips : List Ip)
      → AllFresh (update_cache cache now duration (uncached cache now duration ips)) ips
  update-fresh_all ips = update-AllFresh ips ips (λ ip h. h)

-- Once the stale addresses of a response were dispatched and cached, also if the cache was collected,
-- the same addresses at the same time leave nothing to dispatch.
pub uncached-update_cache :
    (cache : Dict ℕ) (now duration : ℕ) (ips : List Ip)
    → uncached (update_cache cache now duration (uncached cache now duration ips)) now duration ips
      ≡ []
uncached-update_cache cache now duration ips =
    let c = update_cache cache now duration (uncached cache now duration ips) in
    uncached-nil c now duration ips (update-fresh_all cache now duration ips)
