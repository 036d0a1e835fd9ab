-- ===== src/Tests/Log.antt =====
-- `readLastLines` of cmd/mosdns-controller/main.go on a file of four lines.
use opn_box.Base.{◌≡◌, ◌≤◌, some, List, ◌∷◌, [], ◌++◌, Bytes, map, length}
use opn_box.Text.{text}
use opn_box.Text.Lines.{scan_lines, drop_cr}
use opn_box.Controller.Reading.{last, read_last_lines}
use opn_box.Controller.Logs.{AllShort, lines_in, read_last_lines-last}

abbrev content : Bytes
content = text "a\r\nb\nc\nd\n"

read_last_lines-last_example :
    (AllShort (lines_in content)
      → read_last_lines [] (some (scan_lines content)) 2 ≡ last 2 (map drop_cr (lines_in content)))
    × ((ls : List Bytes) (long : Bytes) (after : List Bytes)
        → lines_in content ≡ ls ++ long ∷ after
        → AllShort ls
        → 65536 ≤ length long
        → read_last_lines [] (some (scan_lines content)) 2 ≡ last 2 (map drop_cr ls))
read_last_lines-last_example = read_last_lines-last [] content 2
