-- ===== src/Tracker/Orders.antt =====
-- pkg/ttlcleaner/tracker.go: what does not depend on the order of a `range` over a map.
use opn_box.Base.{ℕ, ◌+◌, ◌≡◌, refl, sym, ◌∙◌, List, [], ◌∷◌, arith, ◌==◌, if◌then◌else◌}
use mathlib.Core.List.{Perm, foldr}
use mathlib.Core.List.Perm
use native.Mathlib.Nat.{ℕ_set}
use opn_box.Tracker.Refs.{count}

-- The order of a `range`: every entry once.
abbrev pub IsRange {ℓ} : {A : Type ℓ} → (List A → List A) → Type ℓ
IsRange {A = A} order = (xs : List A) → Perm (order xs) xs

count-foldr : (r : ℕ) (xs : List ℕ) → count r xs ≡ foldr (λ x n. (if r == x then 1 else 0) + n) 0 xs
unfolding count
count-foldr r [] = refl
count-foldr r (x ∷ xs) = omega (arith, count-foldr r xs)

pub count-Perm : (r : ℕ) (xs ys : List ℕ) → Perm xs ys → count r xs ≡ count r ys
count-Perm r xs ys p =
    count-foldr r xs
    ∙ Perm.foldr-eq ℕ_set (λ x n. (if r == x then 1 else 0) + n) (λ a b n. omega arith) p 0
    ∙ sym (count-foldr r ys)
