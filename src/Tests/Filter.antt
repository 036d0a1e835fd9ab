-- ===== src/Tests/Filter.antt =====
-- pkg/pf on one table: the device in memory, and the calls of a kernel that counts.
use opn_box.Base.{ℕ, List, [], ◌∷◌, some, Bytes, ◌+◌, inl, refl, arith}
use opn_box.Base.Outcome.{Result, ok}
use opn_box.Net.{Ip}
use opn_box.Pf.Freebsd.{PfiocTable, Counts, Submits, add_addresses-Submits}
use opn_box.Pf.Freebsd

abbrev lan : Bytes
lan = b'l' ∷ b'a' ∷ b'n' ∷ []

abbrev addresses : List Ip
addresses = (10 ∷ 0 ∷ 0 ∷ 1 ∷ []) ∷ (10 ∷ 0 ∷ 0 ∷ 2 ∷ []) ∷ (10 ∷ 0 ∷ 0 ∷ 1 ∷ []) ∷ []

-- A kernel that counts the addresses of the calls and accepts them all.
abbrev counting : ℕ → ℕ → ℕ → PfiocTable → ℕ × Result (Unit {0}) Counts
counting k fd code t = (k + t.size, ok (record { nadd = t.size; ndel = 0 }))

add_addresses-Submits_example :
    Submits counting 3 0 lan addresses
      (Freebsd.add_addresses counting (record { fd = some 3 }) 0 lan addresses)
add_addresses-Submits_example =
    add_addresses-Submits counting 3 0 lan addresses (inl refl, (inl refl, (inl refl, tt)))
      (omega arith)
