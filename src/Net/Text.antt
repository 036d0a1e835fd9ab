-- ===== src/Net/Text.antt =====
-- `IP.String` of Go's package `net`: dotted decimal, or hexadecimal groups with the longest run of
-- zero groups written `::`.
use opn_box.Base.{
  ℕ, Bool, false, ◌||◌, arith, bytes_eq, zero, suc, ◌+◌, ◌-◌, ◌*◌, ◌/◌, ◌%◌, ◌&&◌, none, some, List,
  [], ◌∷◌, ◌++◌, Bytes, length, drop, ltb, leb, ◌==◌, if◌then◌else◌, ◌≡◌, refl,
}
use opn_box.Net.{Ip, to4}

unfoldable pub digit : ℕ → ℕ
digit d = if ltb d 10 then b'0' + d else b'a' + (d - 10)

-- The numeral of `n` in base `b`, by at most `fuel` digits.
unfoldable pub numeral : ℕ → ℕ → ℕ → Bytes
unfolding digit
numeral zero b n = []
numeral (suc fuel) b n =
    let front = numeral fuel b (n / b) in
    if ltb n b then digit n ∷ [] else front ++ digit (n % b) ∷ []

dotted : Bytes → Bytes
unfolding numeral
dotted [] = []
dotted (b ∷ []) = numeral 3 10 b
dotted (b ∷ c ∷ r) = numeral 3 10 b ++ b'.' ∷ dotted (c ∷ r)

groups : Bytes → List ℕ
groups (hi ∷ lo ∷ r) = (hi * 256 + lo) ∷ groups r
groups _ = []

zero_run : List ℕ → ℕ
zero_run [] = 0
zero_run (g ∷ gs) = if g == 0 then zero_run gs + 1 else 0

record Run : Type 0 where
  start : ℕ
  size : ℕ

-- The first longest run of at least two zero groups; `best` is the longest so far.
longest : ℕ → List ℕ → Run → Run
unfolding zero_run
longest i [] best = best
longest i (g ∷ gs) best =
    let l = zero_run (g ∷ gs) in
    longest (i + 1) gs (if leb 2 l && ltb best.size l then record { start = i; size = l } else best)

joined : List ℕ → Bytes
unfolding numeral
joined [] = []
joined (g ∷ []) = numeral 4 16 g
joined (g ∷ h ∷ r) = numeral 4 16 g ++ b':' ∷ joined (h ∷ r)

heads : ℕ → List ℕ → List ℕ
heads zero gs = []
heads (suc n) [] = []
heads (suc n) (g ∷ gs) = g ∷ heads n gs

colons : List ℕ → Bytes
unfolding longest joined heads
colons gs =
    let best = longest 0 gs (record { start = 255; size = 0 }) in
    if best.size == 0
    then joined gs
    else joined (heads best.start gs) ++ b':' ∷ b':' ∷ joined (drop (best.start + best.size) gs)

hex_bytes : Bytes → Bytes
unfolding digit
hex_bytes [] = []
hex_bytes (b ∷ r) = digit (b / 16) ∷ digit (b % 16) ∷ hex_bytes r

-- `IP.String`
unfoldable pub ip_string : Ip → Bytes
unfolding to4 dotted groups colons hex_bytes
ip_string ip = if length ip == 0 then b'<' ∷ b'n' ∷ b'i' ∷ b'l' ∷ b'>' ∷ [] else elim (to4 ip) [
  | some p4 ↦ dotted p4
  | none ↦ if length ip == 16 then colons (groups ip) else b'?' ∷ hex_bytes ip
]

-- 2001:db8::1:0:0:1
compressed :
    ip_string (32 ∷ 1 ∷ 13 ∷ 184 ∷ 0 ∷ 0 ∷ 0 ∷ 0 ∷ 0 ∷ 1 ∷ 0 ∷ 0 ∷ 0 ∷ 0 ∷ 0 ∷ 1 ∷ [])
    ≡ b'2' ∷ b'0' ∷ b'0' ∷ b'1' ∷ b':' ∷ b'd' ∷ b'b' ∷ b'8' ∷ b':' ∷ b':' ∷ b'1' ∷ b':' ∷ b'0'
      ∷ b':' ∷ b'0' ∷ b':' ∷ b'1' ∷ []
unfolding ip_string
compressed = refl

mapped :
    ip_string (0 ∷ 0 ∷ 0 ∷ 0 ∷ 0 ∷ 0 ∷ 0 ∷ 0 ∷ 0 ∷ 0 ∷ 255 ∷ 255 ∷ 10 ∷ 0 ∷ 0 ∷ 200 ∷ [])
    ≡ ip_string (10 ∷ 0 ∷ 0 ∷ 200 ∷ [])
unfolding ip_string
mapped = refl

-- An address of the list has the text.
abbrev pub among : List Ip → Bytes → Bool
among [] s = false
among (ip ∷ ips) s = bytes_eq (ip_string ip) s || among ips s

pub among-append : (xs ys : List Ip) (s : Bytes) → among (xs ++ ys) s ≡ (among xs s || among ys s)
among-append [] ys s = refl
among-append (x ∷ xs) ys s = ground (arith, among-append xs ys s)
