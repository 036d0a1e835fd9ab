-- ===== src/Controller/Verdict/Rules.antt =====
-- The lines of the rule files, as `matchDomainInFile` of cmd/mosdns-controller/main.go and as mosdns reads
-- them. A line's match is mosdns's, and a parameter.
use opn_box.Base.{
  ◌≡◌, refl, sym, Bool, true, false, ◌&&◌, ◌||◌, ◌==◌, Option, none, some, List, [], ◌∷◌, ◌++◌,
  Bytes, is_some, if◌then◌else◌, bytes_eq, arith, Bool-cases, inl, inr,
}
use opn_box.Web.Files.{IsReadable}
use opn_box.Text.{text, has_prefix, has_suffix, trim_prefix, trim_space}
use opn_box.Text.Lines.{scan_lines}
use opn_box.Controller.{Settings, Host, join_path}
use opn_box.Controller.Reading.{
  is_entry, matches_line, first_match, clean_domain, match_domain_in_file,
}
use opn_box.Controller.Config.{
  qname, has_resp, direct_domain_set, proxy_domain_set, block_domain_set, config_of,
}
use opn_box.Controller.Config.Pipeline.{Sequence, IsSequence, IsAnswering}
use opn_box.Controller.Verdict.{verdict}
use opn_box.Controller.Verdict.Prediction.{outcome, sequence_rules, IsMatching, matched-verdict}

abbrev pub has_colon : Bytes → Bool
has_colon [] = false
has_colon (b ∷ s) = b == b':' || has_colon s

-- A line with the prefix `full:` or `domain:`, or without any.
pub data IsRule : Bytes → Type 0 where
  full_rule : (t : Bytes) → IsRule (text "full:" ++ t)
  domain_rule : (t : Bytes) → IsRule (text "domain:" ++ t)
  plain_rule : (t : Bytes) → has_colon t ≡ false → IsRule t

-- What the documentation says of these lines: `full:` takes the name alone, `domain:` and a line
-- without a prefix the name and the names below it.
pub record IsDocumented (rule : Bytes → Bytes → Bool) : Type 0 where
  pub full : (t name : Bytes) → rule (text "full:" ++ t) name ≡ bytes_eq name t
  pub below :
      (t name : Bytes)
      → rule (text "domain:" ++ t) name ≡ (bytes_eq name t || has_suffix name (b'.' ∷ t))
  pub plain :
      (t name : Bytes)
      → has_colon t ≡ false
      → rule t name ≡ (bytes_eq name t || has_suffix name (b'.' ∷ t))

prefix_colon : (s p : Bytes) → has_prefix s p ≡ true → has_colon p ≡ true → has_colon s ≡ true
unfolding has_prefix
prefix_colon s [] h c = absurd (ground (arith, c))
prefix_colon [] (x ∷ p) h c = absurd (ground (arith, h))
prefix_colon (b ∷ s) (x ∷ p) h c = elim (Bool-cases (has_colon p)) [
  | inl e ↦ ground (arith, prefix_colon s p (ground (arith, h)) e)
  | inr e ↦ ground (arith, h, c, e)
]

pub unprefixed : (s p : Bytes) → has_colon s ≡ false → has_colon p ≡ true → has_prefix s p ≡ false
unprefixed s p h c = elim (Bool-cases (has_prefix s p)) [
  | inl e ↦ absurd (ground (arith, prefix_colon s p e c, h))
  | inr e ↦ e
]

module _ (rule : Bytes → Bytes → Bool) (law : IsDocumented rule) (to_lower : Bytes → Bytes) where
  matches_line-IsRule :
      (name line : Bytes) → IsRule line → matches_line to_lower name line ≡ rule line name
  unfolding matches_line has_prefix trim_prefix
  matches_line-IsRule name _ (full_rule t) = sym (law.full t name)
  matches_line-IsRule name _ (domain_rule t) = sym (law.below t name)
  matches_line-IsRule name _ (plain_rule t c) =
      rw (unprefixed t (text "full:") c refl, unprefixed t (text "domain:") c refl)
        (sym (law.plain t name c))

module _ (rule : Bytes → Bytes → Bool) (to_lower : Bytes → Bytes) where
  -- One of the lines that are not empty and no comment takes the name.
  abbrev pub is_listed : Bytes → List Bytes → Bool
  is_listed name [] = false
  is_listed name (raw ∷ rest) =
      let line = to_lower (trim_space raw) in
      (is_entry line && rule line name) || is_listed name rest

  abbrev pub in_file : Bytes → Option Bytes → Bool
  in_file name none = false
  in_file name (some content) = is_listed name (scan_lines content)

  abbrev pub AllRules : List Bytes → Type 0
  AllRules [] = Unit {0}
  AllRules (raw ∷ rest) =
      (is_entry (to_lower (trim_space raw)) ≡ true → IsRule (to_lower (trim_space raw)))
      × AllRules rest

  -- Every entry of the file is such a line; none has another prefix, as `keyword:` is.
  abbrev pub IsRuleFile : Option Bytes → Type 0
  IsRuleFile none = Unit {0}
  IsRuleFile (some content) = AllRules (scan_lines content)

  first_match-is_listed :
      IsDocumented rule
      → (name : Bytes) (raws : List Bytes) → AllRules raws
      → is_some (first_match to_lower name raws) ≡ is_listed name raws
  unfolding first_match
  first_match-is_listed law name [] h = refl
  first_match-is_listed law name (raw ∷ rest) h =
      let line = to_lower (trim_space raw) in
      let later = first_match-is_listed law name rest h.1 in
      elim (Bool-cases (is_entry line)) [
        | inr e ↦ rw e later
        | inl e ↦
            let m = matches_line-IsRule rule law to_lower name line (h.0 e) in
            rw (e, m) (taken (rule line name) line _ _ later)
      ]
    where
      taken :
          (b : Bool) (line : Bytes) (o : Option Bytes) (c : Bool)
          → is_some o ≡ c
          → is_some (if b then some line else o) ≡ (b || c)
      taken true line o c k = refl
      taken false line o c k = k

  match-in_file :
      IsDocumented rule
      → (o : Option Bytes) (name : Bytes) → IsRuleFile o
      → is_some (match_domain_in_file to_lower o name) ≡ in_file (clean_domain to_lower name) o
  match-in_file law none name h = refl
  match-in_file law (some content) name h =
      first_match-is_listed law (clean_domain to_lower name) (scan_lines content) h

  module _ (host : Host) (rule_dir : Bytes) where
    open host use {World, read}

    abbrev listed_in : World → Bytes → Bytes → Bool
    listed_in w file name = in_file (clean_domain to_lower name) (read w (join_path rule_dir file))

    -- A set of mosdns takes a name by the lines of its files.
    pub record IsReading (mosdns : Sequence) (q : mosdns.Query) (w : World) (name : Bytes)
        : Type 0 where
      pub block_set :
          mosdns.accepts q (qname block_domain_set) ≡ listed_in w (text "custom-block.txt") name
      pub direct_set :
          mosdns.accepts q (qname direct_domain_set)
          ≡ (listed_in w (text "custom-direct.txt") name || listed_in w (text "cn.txt") name)
      pub proxy_set :
          mosdns.accepts q (qname proxy_domain_set)
          ≡ (listed_in w (text "custom-proxy.txt") name || listed_in w (text "gfw.txt") name)

    pub record AreRuleFiles (w : World) : Type 0 where
      pub custom_block : IsRuleFile (read w (join_path rule_dir (text "custom-block.txt")))
      pub custom_direct : IsRuleFile (read w (join_path rule_dir (text "custom-direct.txt")))
      pub cn : IsRuleFile (read w (join_path rule_dir (text "cn.txt")))
      pub custom_proxy : IsRuleFile (read w (join_path rule_dir (text "custom-proxy.txt")))
      pub gfw : IsRuleFile (read w (join_path rule_dir (text "gfw.txt")))

    IsReading-IsMatching :
        IsDocumented rule
        → (mosdns : Sequence) (q : mosdns.Query) (w : World) (name : Bytes) → AreRuleFiles w
        → IsReading mosdns q w name
        → IsMatching to_lower host rule_dir mosdns q w name
    IsReading-IsMatching law mosdns q w name f r =
        let m = λ (file : Bytes) (h : IsRuleFile (read w (join_path rule_dir file))).
          match-in_file law (read w (join_path rule_dir file)) name h in
        record {
          block_set = rw (m (text "custom-block.txt") f.custom_block) r.block_set;
          direct_set =
              rw (m (text "custom-direct.txt") f.custom_direct, m (text "cn.txt") f.cn)
                r.direct_set;
          proxy_set =
              rw (m (text "custom-proxy.txt") f.custom_proxy, m (text "gfw.txt") f.gfw) r.proxy_set;
        }

    -- The web page's answer is what mosdns does, as long as the rule files hold no lines but those with
    -- the prefix full: or domain: and those without a prefix. Where a file that
    -- can be read exists, mosdns runs a sequence rule by rule, its forwarders always answer, a plugin keeps the name, `sync_to_pf` keeps the response, a set takes
    -- a name if a line of one of its files does, and such a line takes the names that the documentation
    -- says, a query without a response that runs through the generated sequence ends as the answer's
    -- action says: rejected, answered by the local servers, or answered by the remote servers and passed
    -- to the packet filter.
    pub sequence-verdict :
        IsReadable host
        → IsDocumented rule
        → (mosdns : Sequence) (s : Settings) (w : World) (name : Bytes) (q : mosdns.Query)
        → IsSequence mosdns
        → IsAnswering mosdns
        → AreRuleFiles w
        → IsReading mosdns q w name
        → mosdns.accepts q has_resp ≡ false
        → mosdns.run (sequence_rules (config_of host rule_dir s w).plugins) q
          ≡ outcome mosdns q (verdict to_lower host rule_dir s w name).action
    sequence-verdict readable law mosdns s w name q steps net files r fresh =
        matched-verdict to_lower host rule_dir readable mosdns s w name q steps net
          (IsReading-IsMatching law mosdns q w name files r) fresh
