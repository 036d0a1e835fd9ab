-- ===== src/Daemon/Add.antt =====
-- cmd/pf-aliasd/main.go: what an addition or a deletion does to the tracker.
use opn_box.Base.{
  is_some, ℕ, ◌≡◌, refl, Bool, true, false, some, List, [], ◌∷◌, ◌++◌, Bytes, length, arith,
  if◌then◌else◌, bytes_eq_self,
}
use opn_box.Net.{Ip}
use opn_box.Net.Text.{ip_string}
use opn_box.Tracker.{Tracker, add_or_renew}
use opn_box.Tracker.Invariant.{IsTracked, expiry}
use opn_box.Tracker.Methods.{is_none, add_or_renew-Writes}
use opn_box.Daemon.{add_all}

-- The address is tracked under the table.
abbrev pub holds : Tracker → Bytes → Ip → Bool
holds t table ip = is_some (expiry t table (ip_string ip))

abbrev pub AllHeld : Tracker → Bytes → List Ip → Type 0
AllHeld t table [] = Unit {0}
AllHeld t table (ip ∷ ips) = (holds t table ip ≡ true) × AllHeld t table ips

-- What was tracked stays tracked.
abbrev Grows : Tracker → Tracker → Type 0
Grows t t' = (tb j : Bytes) → is_some (expiry t tb j) ≡ true → is_some (expiry t' tb j) ≡ true

AllHeld-Grows :
    (t t' : Tracker) (table : Bytes) (ips : List Ip)
    → Grows t t'
    → AllHeld t table ips
    → AllHeld t' table ips
AllHeld-Grows t t' table [] g h = tt
AllHeld-Grows t t' table (ip ∷ ips) g h =
    (g table (ip_string ip) h.0, AllHeld-Grows t t' table ips g h.1)

-- One round: the address is tracked afterwards.
module _ (t : Tracker) (table : Bytes) (ip : Ip) (ttl now : ℕ) (v : IsTracked t) where
  abbrev Added : Tracker → Type 0
  Added t' =
      (add_or_renew t table ip ttl now ≡ some (t', is_none (expiry t table (ip_string ip))))
      × IsTracked t'
      × Grows t t'
      × (holds t' table ip ≡ true)

  add_one : (t' : Tracker) × Added t'
  add_one =
      let (t', ran, w, view) = add_or_renew-Writes t table ip ttl now v in
      (
        t',
        (
          ran,
          w,
          λ tb j h. ground (arith, view tb j, h),
          ground
              (arith, view table (ip_string ip), bytes_eq_self table, bytes_eq_self (ip_string ip)),
        ),
      )

-- After the loop of an addition every address of the message is tracked.
pub add_all-AllHeld :
    (now : ℕ → ℕ) (t : Tracker) (table : Bytes) (ttl : ℕ) (ips acc : List Ip)
    → IsTracked t
    → (t' : Tracker) × (new_ips : List Ip) × (add_all now t table ttl ips acc ≡ some (t', new_ips))
      × IsTracked t'
      × Grows t t'
      × AllHeld t' table ips
unfolding add_all
add_all-AllHeld now t table ttl [] acc v = (t, acc, refl, v, λ tb j h. h, tt)
add_all-AllHeld now t table ttl (ip ∷ ips) acc v =
    let (t1, (ran, w, g, held)) = add_one t table ip ttl (now (length ips)) v in
    let next = if is_none (expiry t table (ip_string ip)) then acc ++ ip ∷ [] else acc in
    let (t2, new_ips, rest, w', g', all) = add_all-AllHeld now t1 table ttl ips next w in
    (
      t2,
      new_ips,
      rw ran rest,
      w',
      λ tb j h. g' tb j (g tb j h),
      (g' table (ip_string ip) held, all),
    )

-- If every address is tracked already, the loop finds nothing new.
pub add_all-none_new :
    (now : ℕ → ℕ) (t : Tracker) (table : Bytes) (ttl : ℕ) (ips acc : List Ip)
    → IsTracked t
    → AllHeld t table ips
    → (t' : Tracker) × (add_all now t table ttl ips acc ≡ some (t', acc)) × IsTracked t'
unfolding add_all
add_all-none_new now t table ttl [] acc v h = (t, refl, v)
add_all-none_new now t table ttl (ip ∷ ips) acc v h =
    let (t1, (ran, w, g, held)) = add_one t table ip ttl (now (length ips)) v in
    let old : is_none (expiry t table (ip_string ip)) ≡ false = ground (arith, h.0) in
    let (t2, rest, w') =
      add_all-none_new now t1 table ttl ips acc w (AllHeld-Grows t t1 table ips g h.1) in
    (t2, rw (ran, old) rest, w')
