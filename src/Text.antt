-- ===== src/Text.antt =====
-- The parts of Go's packages strings, bufio and strconv that the controllers call, on byte strings.
pub mod Lines
pub mod Numbers
pub mod Escapes
use Prim.Native.Char.{code}
use Prim.Native.String.{String}
use opn_box.Base.{
  ℕ, zero, suc, ◌+◌, ◌*◌, ◌/◌, ◌%◌, Bool, true, false, ◌&&◌, ◌||◌, Option, none, some, List, [],
  ◌∷◌, ◌++◌, Bytes, length, drop, take, ltb, leb, ◌==◌, if◌then◌else◌, bytes_eq, ◌-◌, not,
}
use mathlib.Core.List.{reverse}

-- The bytes of a code point below 2^16 in UTF-8.
abbrev pub rune_bytes : ℕ → Bytes
rune_bytes c =
    if ltb c 0x80
    then c ∷ []
    else if ltb c 0x800
    then (0xc0 + c / 64) ∷ (0x80 + c % 64) ∷ []
    else (0xe0 + c / 4096) ∷ (0x80 + c / 64 % 64) ∷ (0x80 + c % 64) ∷ []

-- The bytes of a literal.
abbrev pub text : String → Bytes
text String.[] = []
text (String.◌∷◌ c s) = rune_bytes (code c) ++ text s

-- `strings.HasPrefix`
unfoldable pub has_prefix : Bytes → Bytes → Bool
has_prefix s [] = true
has_prefix [] (p ∷ ps) = false
has_prefix (b ∷ s) (p ∷ ps) = b == p && has_prefix s ps

-- `strings.TrimPrefix`
unfoldable pub trim_prefix : Bytes → Bytes → Bytes
trim_prefix s p = if has_prefix s p then drop (length p) s else s

-- `strings.HasSuffix`
unfoldable pub has_suffix : Bytes → Bytes → Bool
has_suffix s p = leb (length p) (length s) && bytes_eq (drop (length s - length p) s) p

-- `strings.TrimSuffix`
unfoldable pub trim_suffix : Bytes → Bytes → Bytes
unfolding has_suffix
trim_suffix s p = if has_suffix s p then take (length s - length p) s else s

-- What stands before the first `c`, or all: a cut at `strings.Index`.
unfoldable pub before : ℕ → Bytes → Bytes
before c [] = []
before c (b ∷ s) = let rest = before c s in if b == c then [] else b ∷ rest

abbrev ascii_space : ℕ → Bool
ascii_space b = ltb 8 b && ltb b 14 || b == 32

-- U+0085 and U+00A0
abbrev space_of_two : ℕ → ℕ → Bool
space_of_two a b = a == 0xc2 && (b == 0x85 || b == 0xa0)

-- U+1680, U+2000 to U+200A, U+2028, U+2029, U+202F, U+205F and U+3000
abbrev space_of_three : ℕ → ℕ → ℕ → Bool
space_of_three a b c =
    a == 0xe1 && b == 0x9a && c == 0x80
    || a == 0xe2 && b == 0x80 && (leb 0x80 c && leb c 0x8a || c == 0xa8 || c == 0xa9 || c == 0xaf)
    || a == 0xe2 && b == 0x81 && c == 0x9f
    || a == 0xe3 && b == 0x80 && c == 0x80

abbrev width_of_two : ℕ → ℕ → Bool → ℕ
width_of_two a b ends = if ends then 1 else if space_of_two a b then 2 else 0

-- The length of the white space rune that a text begins with, 0 if there is none.
unfoldable pub space_width : Bytes → ℕ
space_width [] = 0
space_width (a ∷ []) = if ascii_space a then 1 else 0
space_width (a ∷ b ∷ []) = width_of_two a b (ascii_space a)
space_width (a ∷ b ∷ c ∷ s) =
    if not (ascii_space a) && space_of_three a b c then 3 else width_of_two a b (ascii_space a)

-- The same for the end of a text, which is given in reverse.
unfoldable pub space_width_back : Bytes → ℕ
space_width_back [] = 0
space_width_back (a ∷ []) = if ascii_space a then 1 else 0
space_width_back (b ∷ a ∷ []) = width_of_two a b (ascii_space b)
space_width_back (c ∷ b ∷ a ∷ s) =
    if not (ascii_space c) && space_of_three a b c then 3 else width_of_two b c (ascii_space c)

-- Runes are dropped as long as there is one; each has a byte, so the length is fuel enough.
unfoldable pub trim_by : (Bytes → ℕ) → ℕ → Bytes → Bytes
trim_by width zero s = s
trim_by width (suc n) s =
    let rest = trim_by width n (drop (width s) s) in if width s == 0 then s else rest

-- `strings.TrimSpace`
unfoldable pub trim_space : Bytes → Bytes
unfolding trim_by
trim_space s =
    let front = trim_by space_width (length s) s in
    reverse (trim_by space_width_back (length front) (reverse front))
