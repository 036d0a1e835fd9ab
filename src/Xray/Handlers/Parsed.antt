-- ===== src/Xray/Handlers/Parsed.antt =====
-- cmd/xray-controller/main.go: the nodes that lines of links give, and the changes of a list of nodes
-- that keep what their outbounds carry.
use opn_box.Base.{
  Bool-cases, inl, inr, Option, none, some, List, [], ◌∷◌, ◌++◌, Bytes, length, ◌==◌, bytes_eq,
}
use opn_box.Base.Dict.{Dict, lookup}
use opn_box.Base.Integers.{ℤ}
use opn_box.Text.{text, trim_space}
use opn_box.Controller.{Host}
use opn_box.Xray.{Node, untagged, with_ping, pinged}
use opn_box.Xray.Json.{Json}
use opn_box.Xray.Links.Carried.{Every, IsCarrying, parsed-IsCarrying}
use opn_box.Xray.Config.Named.{AllCarrying}
use opn_box.Xray.Handlers.{Flags, Codec, with_node, parse_lines, import_lines}

pub append-AllCarrying :
    (ns ms : List (Node Json)) → AllCarrying ns → AllCarrying ms → AllCarrying (ns ++ ms)
append-AllCarrying [] ms h k = k
append-AllCarrying (n ∷ ns) ms (c, cs) k = (c, append-AllCarrying ns ms cs k)

pub untagged-AllCarrying :
    (tag : Bytes) (ns : List (Node Json)) → AllCarrying ns → AllCarrying (untagged tag ns)
unfolding untagged
untagged-AllCarrying tag [] h = tt
untagged-AllCarrying tag (n ∷ ns) (c, cs) = elim (Bool-cases (bytes_eq n.tag tag)) [
  | inl e ↦ rw e (untagged-AllCarrying tag ns cs)
  | inr e ↦ rw e (c, untagged-AllCarrying tag ns cs)
]

with_ping-IsCarrying :
    (n : Node Json) (rtt : Option ℤ) → IsCarrying n → IsCarrying (with_ping n rtt)
with_ping-IsCarrying n none c = c
with_ping-IsCarrying n (some rtt) c = c

pub pinged-AllCarrying :
    (results : Dict ℤ) (ns : List (Node Json)) → AllCarrying ns → AllCarrying (pinged results ns)
unfolding pinged
pinged-AllCarrying results [] h = tt
pinged-AllCarrying results (n ∷ ns) (c, cs) =
    (with_ping-IsCarrying n (lookup n.tag results) c, pinged-AllCarrying results ns cs)

module _ (host : Host) (flags : Flags) (codec : Codec) where
  with_node-AllCarrying :
      (o : Option (Node Json)) (ns : List (Node Json))
      → Every IsCarrying o
      → AllCarrying ns
      → AllCarrying (with_node host flags codec o ns)
  with_node-AllCarrying none ns h cs = cs
  with_node-AllCarrying (some n) ns h cs = (h, cs)

  pub parse_lines-AllCarrying :
      (id : Bytes) (lines : List Bytes) → AllCarrying (parse_lines host flags codec id lines)
  unfolding parse_lines
  parse_lines-AllCarrying id [] = tt
  parse_lines-AllCarrying id (line ∷ rest) =
      let cs = parse_lines-AllCarrying id rest in
      let c = parsed-IsCarrying codec.library (codec.clock (length rest)) id (trim_space line) in
      elim (Bool-cases (length (trim_space line) == 0)) [
        | inl e ↦ rw e cs
        | inr e ↦ rw e (with_node-AllCarrying _ _ c cs)
      ]

  pub import_lines-AllCarrying :
      (lines : List Bytes) → AllCarrying (import_lines host flags codec lines)
  unfolding import_lines
  import_lines-AllCarrying [] = tt
  import_lines-AllCarrying (line ∷ rest) =
      with_node-AllCarrying _ _
        (parsed-IsCarrying codec.library (codec.clock (length rest)) (text "manual")
          (trim_space line))
        (import_lines-AllCarrying rest)
