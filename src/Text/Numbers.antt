-- ===== src/Text/Numbers.antt =====
-- `strconv.Atoi`, and `%d` of package fmt.
use opn_box.Base.{
  ℕ, zero, suc, ◌+◌, ◌*◌, ◌-◌, ◌^◌, Bool, true, false, ◌&&◌, ◌||◌, Option, none, some, [], ◌∷◌,
  Bytes, ltb, ◌==◌, if◌then◌else◌,
}
use opn_box.Base.Integers.{ℤ, pos, negsuc}
use opn_box.Net.Text.{digit, numeral}

unfoldable pub digits : Bytes → ℕ → Option ℕ
digits [] n = some n
digits (c ∷ s) n =
    let rest = digits s (n * 10 + (c - b'0')) in if ltb c b'0' || ltb b'9' c then none else rest

abbrev pub nonempty_digits : Bytes → Option ℕ
nonempty_digits [] = none
nonempty_digits (c ∷ s) = digits (c ∷ s) 0

-- A sign and a magnitude; an `int` has 64 bits.
abbrev pub in_range : Bool → Option ℕ → Option (Bool × ℕ)
in_range negative none = none
in_range negative (some n) =
    if ltb n (2 ^ 63) || negative && n == 2 ^ 63 then some (negative, n) else none

-- The sign, true for a minus, and the magnitude, or `none` for an error.
unfoldable pub atoi : Bytes → Option (Bool × ℕ)
unfolding digits
atoi [] = none
atoi (c ∷ s) =
    if c == b'-'
    then in_range true (nonempty_digits s)
    else if c == b'+'
    then in_range false (nonempty_digits s)
    else in_range false (nonempty_digits (c ∷ s))

abbrev pub positive_of : Option (Bool × ℕ) → Option ℕ
positive_of none = none
positive_of (some (true, n)) = none
positive_of (some (false, n)) = if n == 0 then none else some n

-- `if n, err := strconv.Atoi(s); err == nil && n > 0`
abbrev pub positive : Bytes → Option ℕ
positive s = positive_of (atoi s)

abbrev signed : Bool → ℕ → ℤ
signed true zero = pos zero
signed true (suc n) = negsuc n
signed false n = pos n

-- A number out of range becomes the nearest `int`, and what is no number becomes 0.
abbrev nearest : Bool → Option ℕ → ℤ
nearest negative none = pos 0
nearest true (some n) = if ltb (2 ^ 63) n then signed true (2 ^ 63) else signed true n
nearest false (some n) = if ltb n (2 ^ 63) then pos n else pos (2 ^ 63 - 1)

-- `n, _ := strconv.Atoi(s)`
unfoldable pub atoi_or_zero : Bytes → ℤ
unfolding digits
atoi_or_zero [] = pos 0
atoi_or_zero (c ∷ s) =
    if c == b'-'
    then nearest true (nonempty_digits s)
    else if c == b'+'
    then nearest false (nonempty_digits s)
    else nearest false (nonempty_digits (c ∷ s))

-- `%d` of an `int`, which has at most 19 digits.
unfoldable pub show : ℤ → Bytes
unfolding digit numeral
show (pos n) = numeral 19 10 n
show (negsuc n) = b'-' ∷ numeral 19 10 (suc n)
