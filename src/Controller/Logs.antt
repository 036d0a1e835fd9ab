-- ===== src/Controller/Logs.antt =====
-- `readLastLines` of cmd/mosdns-controller/main.go.
use opn_box.Base.{
  ℕ, zero, suc, ◌+◌, ◌-◌, ◌*◌, ◌≤◌, ◌≡◌, refl, ap, sym, ◌∙◌, some, List, [], ◌∷◌, ◌++◌, Bytes,
  length, drop, ltb, arith, length-append, length-drop, Bool-cases, inl, inr,
}
use mathlib.Core.List.{append_assoc, append-nil}
use opn_box.Base.{◌<◌, leb, true, false, map}
use opn_box.Text.Lines.{
  split, without_last_empty, fitting, scan_lines, drop_cr, max_scan_token_size,
}
use opn_box.Controller.Reading.{last, scan_loop, read_last_lines}

drop-append_short :
    {A : Type 0} (k : ℕ) (xs ys : List A) → k ≤ length xs → drop k (xs ++ ys) ≡ drop k xs ++ ys
drop-append_short zero xs ys h = refl
drop-append_short (suc k) [] ys h = absurd (omega arith)
drop-append_short (suc k) (x ∷ xs) ys h = drop-append_short k xs ys (omega arith)

drop_nil : {A : Type 0} (i : ℕ) → drop {A = A} i [] ≡ []
drop_nil zero = refl
drop_nil (suc i) = refl

drop-drop : {A : Type 0} (k i j : ℕ) (xs : List A) → j ≡ k + i → drop i (drop k xs) ≡ drop j xs
drop-drop zero i j xs e = let same : i ≡ j = omega arith in ap (λ n. drop n xs) same
drop-drop (suc k) i zero xs e = absurd (omega arith)
drop-drop (suc k) i (suc j) [] e = drop_nil i
drop-drop (suc k) i (suc j) (x ∷ xs) e = drop-drop k i j xs (omega arith)

-- Of lines that are continued, all but the last may be dropped before.
last-append : {A : Type 0} (m : ℕ) (xs ys : List A) → last m (last m xs ++ ys) ≡ last m (xs ++ ys)
last-append m xs ys =
    let k = length xs - m in
    let cut : drop k (xs ++ ys) ≡ drop k xs ++ ys = drop-append_short k xs ys (omega arith) in
    let size = length-append xs ys in
    let left = length-append (drop k xs) ys in
    let rest = length-drop k xs in
    ap (drop (length (drop k xs ++ ys) - m)) (sym cut)
    ∙ drop-drop k (length (drop k xs ++ ys) - m) (length (xs ++ ys) - m) (xs ++ ys)
        (omega (arith, size, left, rest))

last_short : {A : Type 0} (m : ℕ) (xs : List A) → length xs ≤ m → last m xs ≡ xs
last_short m xs h = let none_over : length xs - m ≡ 0 = omega arith in ap (λ i. drop i xs) none_over

last-scan_loop :
    (m : ℕ) (lines texts : List Bytes) → last m (scan_loop m lines texts) ≡ last m (lines ++ texts)
unfolding scan_loop
last-scan_loop m lines [] = ap (last m) (sym (append-nil lines))
last-scan_loop m lines (text ∷ rest) =
    let longer = lines ++ text ∷ [] in
    let joined : longer ++ rest ≡ lines ++ text ∷ rest = append_assoc lines (text ∷ []) rest in
    elim (Bool-cases (ltb (m * 2) (length longer))) [
      | inl cut ↦
          rw cut
            (last-scan_loop m (last m longer) rest ∙ last-append m longer rest ∙ ap (last m) joined)
      | inr kept ↦ rw kept (last-scan_loop m longer rest ∙ ap (last m) joined)
    ]

scanned-last :
    (missing : Bytes) (texts : List Bytes) (max_lines : ℕ)
    → read_last_lines missing (some texts) max_lines ≡ last max_lines texts
unfolding read_last_lines
scanned-last missing texts max_lines =
    let lines = scan_loop max_lines [] texts in
    let final = last-scan_loop max_lines [] texts in
    elim (Bool-cases (ltb max_lines (length lines))) [
      | inl longer ↦ rw longer final
      | inr short ↦ rw short (sym (last_short max_lines lines (ground arith)) ∙ final)
    ]

-- Every line has fewer than 64 KiB.
abbrev pub AllShort : List Bytes → Type 0
AllShort [] = Unit {0}
AllShort (l ∷ ls) = (length l < 65536) × AllShort ls

fitting-AllShort : (ls : List Bytes) → AllShort ls → fitting ls ≡ map drop_cr ls
unfolding fitting
fitting-AllShort [] h = refl
fitting-AllShort (l ∷ ls) h =
    let fits : leb max_scan_token_size (length l) ≡ false = ground (arith, h.0) in
    rw (fits, fitting-AllShort ls h.1) refl

fitting_stops :
    (ls : List Bytes) (long : Bytes) (after : List Bytes)
    → AllShort ls
    → 65536 ≤ length long
    → fitting (ls ++ long ∷ after) ≡ map drop_cr ls
unfolding fitting
fitting_stops [] long after h n =
    let full : leb max_scan_token_size (length long) ≡ true = ground (arith, n) in rw full refl
fitting_stops (l ∷ ls) long after h n =
    let fits : leb max_scan_token_size (length l) ≡ false = ground (arith, h.0) in
    rw (fits, fitting_stops ls long after h.1 n) refl

-- What stands between the line ends of a file; a line end at its end opens no further line.
abbrev pub lines_in : Bytes → List Bytes
lines_in content = without_last_empty (split 10 content)

-- Of a file that can be read `readLastLines` gives the last lines, without their carriage returns, as
-- many as asked for, or all if there are fewer, though it cuts its buffer while it reads: the last of
-- all lines where each has fewer than 64 KiB, and otherwise the last of those before the first line
-- that has 64 KiB or more.
pub read_last_lines-last :
    (missing content : Bytes) (max_lines : ℕ)
    → (AllShort (lines_in content)
        → read_last_lines missing (some (scan_lines content)) max_lines
          ≡ last max_lines (map drop_cr (lines_in content)))
      × ((ls : List Bytes) (long : Bytes) (after : List Bytes)
          → lines_in content ≡ ls ++ long ∷ after
          → AllShort ls
          → 65536 ≤ length long
          → read_last_lines missing (some (scan_lines content)) max_lines
            ≡ last max_lines (map drop_cr ls))
unfolding scan_lines
read_last_lines-last missing content max_lines =
    let found = scanned-last missing (scan_lines content) max_lines in
    (
      λ short. found ∙ ap (last max_lines) (fitting-AllShort (lines_in content) short),
      λ ls long after e short full.
          found ∙ ap (last max_lines) (ap fitting e ∙ fitting_stops ls long after short full),
    )
