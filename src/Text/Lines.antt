-- ===== src/Text/Lines.antt =====
-- `strings.Split`, `strings.Join`, `strings.ReplaceAll` of line ends, and the lines of `bufio.Scanner`.
use opn_box.Base.{ℕ, Bool, false, List, [], ◌∷◌, ◌++◌, Bytes, length, leb, ◌==◌, if◌then◌else◌}

-- The first piece and the further ones.
unfoldable pub pieces : ℕ → Bytes → Bytes × List Bytes
pieces c [] = ([], [])
pieces c (b ∷ s) =
    let (piece, rest) = pieces c s in if b == c then ([], piece ∷ rest) else (b ∷ piece, rest)

-- `strings.Split` at a byte
unfoldable pub split : ℕ → Bytes → List Bytes
split c s = let (piece, rest) = pieces c s in piece ∷ rest

-- `strings.Join` with a separator
unfoldable pub join : Bytes → List Bytes → Bytes
join sep [] = []
join sep (s ∷ []) = s
join sep (s ∷ t ∷ rest) = s ++ (sep ++ join sep (t ∷ rest))

-- `strings.ReplaceAll(s, "\\r\\n", "\\n")`; `pending` is a return that was read and not written.
unfoldable pub crlf_loop : Bool → Bytes → Bytes
crlf_loop pending [] = if pending then 13 ∷ [] else []
crlf_loop pending (b ∷ s) =
    let rest = crlf_loop (b == 13) s in
    let written = if b == 13 then rest else b ∷ rest in
    if pending then (if b == 10 then 10 ∷ rest else 13 ∷ written) else written

unfoldable pub replace_crlf : Bytes → Bytes
unfolding crlf_loop
replace_crlf s = crlf_loop false s

-- The scanner gives no line behind the last line end.
unfoldable pub without_last_empty : List Bytes → List Bytes
without_last_empty [] = []
without_last_empty ([] ∷ []) = []
without_last_empty ((b ∷ l) ∷ []) = (b ∷ l) ∷ []
without_last_empty (l ∷ m ∷ ls) = l ∷ without_last_empty (m ∷ ls)

-- A line without a return at its end.
unfoldable pub drop_cr : Bytes → Bytes
drop_cr [] = []
drop_cr (b ∷ []) = if b == 13 then [] else b ∷ []
drop_cr (b ∷ c ∷ s) = b ∷ drop_cr (c ∷ s)

-- `bufio.MaxScanTokenSize`: the scanner stops at a line that does not fit, with its end, in 64 KiB.
abbrev pub max_scan_token_size : ℕ
max_scan_token_size = 65536

unfoldable pub fitting : List Bytes → List Bytes
unfolding drop_cr
fitting [] = []
fitting (l ∷ ls) =
    let rest = fitting ls in if leb max_scan_token_size (length l) then [] else drop_cr l ∷ rest

-- The texts of a `bufio.Scanner`.
unfoldable pub scan_lines : Bytes → List Bytes
unfolding fitting without_last_empty split pieces
scan_lines s = fitting (without_last_empty (split 10 s))
