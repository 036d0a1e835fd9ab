-- ===== src/Controller/Reading.antt =====
-- cmd/mosdns-controller/main.go: what is read from rule files and log files.
use opn_box.Base.{
  ℕ, ◌+◌, ◌-◌, ◌*◌, Bool, not, ◌&&◌, ◌||◌, Option, none, some, List, [], ◌∷◌, ◌++◌, Bytes, length,
  drop, ltb, leb, ◌==◌, if◌then◌else◌, bytes_eq,
}
use opn_box.Text.{text, has_prefix, has_suffix, trim_prefix, trim_space, before}
use opn_box.Text.Lines.{scan_lines}

-- `lines[len(lines)-max_lines:]`
abbrev pub last : {A : Type 0} → ℕ → List A → List A
last max_lines lines = drop (length lines - max_lines) lines

-- The loop of `readLastLines`: the buffer is cut when it holds more than twice the limit.
unfoldable pub scan_loop : ℕ → List Bytes → List Bytes → List Bytes
scan_loop max_lines lines [] = lines
scan_loop max_lines lines (text ∷ rest) =
    let longer = lines ++ text ∷ [] in
    scan_loop max_lines
      (if ltb (max_lines * 2) (length longer) then last max_lines longer else longer) rest

-- `readLastLines` on the lines of the file; `missing` is the text for a file that cannot be opened.
unfoldable pub read_last_lines : Bytes → Option (List Bytes) → ℕ → List Bytes
read_last_lines missing none max_lines = missing ∷ []
read_last_lines missing (some texts) max_lines =
    let lines = scan_loop max_lines [] texts in
    if ltb max_lines (length lines) then last max_lines lines else lines

-- The number of lines that `handleLogs` reads, by the query's parameter.
unfoldable pub lines_to_read : ℕ → Option ℕ → ℕ
lines_to_read default none = default
lines_to_read default (some n) = if leb n 500 then n else default

-- A line that is neither empty nor a comment.
abbrev pub is_entry : Bytes → Bool
is_entry line = not (length line == 0 || has_prefix line (text "#"))

-- The loop of `countFileLines`
unfoldable pub count_entries : List Bytes → ℕ
count_entries [] = 0
count_entries (line ∷ rest) =
    let cnt = count_entries rest in if is_entry (trim_space line) then cnt + 1 else cnt

abbrev pub count_in : Option Bytes → ℕ
count_in none = 0
count_in (some content) = count_entries (scan_lines content)

-- `to_lower` stands for `strings.ToLower`, which goes by the tables of Unicode.
module _ (to_lower : Bytes → Bytes) where
  -- The domain that `matchDomainInFile` looks for.
  unfoldable pub clean_domain : Bytes → Bytes
  clean_domain domain =
      let lowered = to_lower (trim_space domain) in
      let bare = trim_prefix (trim_prefix lowered (text "http://")) (text "https://") in
      before b':' (before b'/' bare)

  -- `domain == target || strings.HasSuffix(domain, "."+target)`
  abbrev pub is_within : Bytes → Bytes → Bool
  is_within domain target = bytes_eq domain target || has_suffix domain (b'.' ∷ target)

  -- The test of a line that is an entry.
  unfoldable pub matches_line : Bytes → Bytes → Bool
  matches_line domain line =
      if has_prefix line (text "full:")
      then bytes_eq domain (trim_prefix line (text "full:"))
      else is_within domain (trim_prefix line (text "domain:"))

  -- The loop of `matchDomainInFile`: the pattern of the first line that matches.
  unfoldable pub first_match : Bytes → List Bytes → Option Bytes
  unfolding matches_line
  first_match domain [] = none
  first_match domain (raw ∷ rest) =
      let line = to_lower (trim_space raw) in
      let later = first_match domain rest in
      if is_entry line && matches_line domain line then some line else later

  -- `matchDomainInFile` on the file's content, `none` where it cannot be opened.
  abbrev pub match_domain_in_file : Option Bytes → Bytes → Option Bytes
  match_domain_in_file none domain = none
  match_domain_in_file (some content) domain =
      first_match (clean_domain domain) (scan_lines content)
