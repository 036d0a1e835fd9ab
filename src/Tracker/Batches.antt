-- ===== src/Tracker/Batches.antt =====
-- pkg/ttlcleaner/tracker.go: the batches of `PopExpired`.
use opn_box.Base.{
  ℕ, ◌+◌, ◌≡◌, refl, sym, ap, ◌∙◌, Bool, false, ◌&&◌, ◌||◌, [], ◌∷◌, ◌++◌, List, Bytes, length,
  arith, bytes_eq, bytes_eq_iff, length-append,
}
use opn_box.Base.Dict.{Dict, put, lookup}
use mathlib.Core.List.{Perm, foldr}
use mathlib.Core.List.Perm
use mathlib.Core.Bool.{Bool-set}
use opn_box.Net.{Ip}
use opn_box.Net.Text.{ip_string, among, among-append}
use opn_box.Tracker.{collected}

-- How many addresses a batch holds.
pub batch_size : Dict (List Ip) → ℕ
batch_size [] = 0
batch_size ((k, ips) ∷ m) = length ips + batch_size m

pub batch_size-put :
    (k : Bytes) (ips : List Ip) (m : Dict (List Ip))
    → batch_size (put k ips m) + length (collected m k) ≡ batch_size m + length ips
unfolding batch_size put lookup
batch_size-put k ips [] = omega arith
batch_size-put k ips ((j, w) ∷ m) = ground (arith, batch_size-put k ips m)

pub batch_size-collect :
    (k : Bytes) (ip : Ip) (m : Dict (List Ip))
    → batch_size (put k (collected m k ++ ip ∷ []) m) ≡ batch_size m + 1
batch_size-collect k ip m =
    omega (
      arith,
      batch_size-put k (collected m k ++ ip ∷ []) m,
      length-append (collected m k) (ip ∷ []),
    )

-- The batch has an address with the text under the table.
abbrev pub batches : Dict (List Ip) → Bytes → Bytes → Bool
batches [] tb j = false
batches ((k, ips) ∷ m) tb j = (bytes_eq k tb && among ips j) || batches m tb j

pub batches-collect :
    (k : Bytes) (ip : Ip) (m : Dict (List Ip)) (tb j : Bytes)
    → batches (put k (collected m k ++ ip ∷ []) m) tb j
      ≡ (batches m tb j || (bytes_eq k tb && bytes_eq (ip_string ip) j))
unfolding put lookup
batches-collect k ip [] tb j = ground arith
batches-collect k ip ((i, ips) ∷ m) tb j = ground (
  arith,
  bytes_eq_iff i k,
  bytes_eq_iff i tb,
  bytes_eq_iff k tb,
  among-append ips (ip ∷ []) j,
  batches-collect k ip m tb j,
)

batches-foldr :
    (m : Dict (List Ip)) (tb j : Bytes)
    → batches m tb j
      ≡ foldr (λ (x : Bytes × List Ip) found. (bytes_eq x.0 tb && among x.1 j) || found) false m
batches-foldr [] tb j = refl
batches-foldr ((k, ips) ∷ m) tb j =
    ap (λ found. (bytes_eq k tb && among ips j) || found) (batches-foldr m tb j)

pub batches-Perm :
    (xs ys : Dict (List Ip)) (tb j : Bytes) → Perm xs ys → batches xs tb j ≡ batches ys tb j
batches-Perm xs ys tb j p =
    batches-foldr xs tb j
    ∙ Perm.foldr-eq Bool-set
        (λ (x : Bytes × List Ip) found. (bytes_eq x.0 tb && among x.1 j) || found)
        (λ a b found. ground arith) p false
    ∙ sym (batches-foldr ys tb j)
