-- ===== src/Text/Escapes.antt =====
-- `url.PathUnescape`, and `strings.SplitN` at a colon into two parts.
use opn_box.Base.{
  ℕ, ◌+◌, ◌*◌, ◌-◌, ◌&&◌, Option, none, some, [], ◌∷◌, Bytes, leb, ◌==◌, if◌then◌else◌,
}

abbrev hex_digit : ℕ → Option ℕ
hex_digit c =
    if leb b'0' c && leb c b'9'
    then some (c - b'0')
    else if leb b'a' c && leb c b'f'
    then some (c - b'a' + 10)
    else if leb b'A' c && leb c b'F'
    then some (c - b'A' + 10)
    else none

abbrev hex_byte : Option ℕ → Option ℕ → Option ℕ
hex_byte (some a) (some b) = some (a * 16 + b)
hex_byte (some a) none = none
hex_byte none b = none

abbrev consed : Option ℕ → Option Bytes → Option Bytes
consed (some c) (some s) = some (c ∷ s)
consed (some c) none = none
consed none s = none

-- A percent sign stands before two hexadecimal digits, or the text is rejected.
unfoldable pub path_unescape : Bytes → Option Bytes
path_unescape [] = some []
path_unescape (c ∷ a ∷ b ∷ s) =
    let literal = path_unescape (a ∷ b ∷ s) in
    let escaped = path_unescape s in
    if c == b'%'
    then consed (hex_byte (hex_digit a) (hex_digit b)) escaped
    else consed (some c) literal
path_unescape (c ∷ s) =
    let literal = path_unescape s in if c == b'%' then none else consed (some c) literal

abbrev before_first : ℕ → Option (Bytes × Bytes) → Option (Bytes × Bytes)
before_first c (some (left, right)) = some (c ∷ left, right)
before_first c none = none

-- The two parts around the first colon, `none` where there is no colon.
unfoldable pub split_colon : Bytes → Option (Bytes × Bytes)
split_colon [] = none
split_colon (c ∷ s) =
    let rest = split_colon s in if c == b':' then some ([], s) else before_first c rest
