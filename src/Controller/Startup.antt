-- ===== src/Controller/Startup.antt =====
-- cmd/mosdns-controller/main.go: `initDirectories`, and `main` up to the server.
use opn_box.Base.{List, [], ◌∷◌, ◌++◌, Bytes, length, ◌==◌, if◌then◌else◌}
use opn_box.Text.{text}
use opn_box.Controller.{Host, Settings, file_exists, join_path}
use opn_box.Controller.Handlers.{Flags, Codec, load_settings, generate}

-- A rule file of the user's own, as it is created.
pub record CustomFile : Type 0 where
  pub name : Bytes
  pub header : List Bytes
  pub samples : List Bytes

abbrev pub custom_direct : CustomFile
custom_direct = record {
  name = text "custom-direct.txt";
  header =
      text "# 用户自定义直连白名单 (域名直接走国内 DNS 解析，不入 PF 代理表)"
      ∷ text "# 支持格式: domain:example.com 或 full:example.com 或直接写 example.com"
      ∷ [];
  samples = text "domain:apple.com" ∷ text "domain:icloud.com" ∷ text "domain:microsoft.com" ∷ [];
}

abbrev pub custom_proxy : CustomFile
custom_proxy = record {
  name = text "custom-proxy.txt";
  header =
      text "# 用户自定义出海代理名单 (域名走海外防污染 DoH，并自动注入 PF 代理表)"
      ∷ text "# 支持格式: domain:example.com 或 full:example.com 或直接写 example.com"
      ∷ [];
  samples =
      text "domain:openai.com"
      ∷ text "domain:chatgpt.com"
      ∷ text "domain:claude.ai"
      ∷ text "domain:github.com"
      ∷ [];
}

abbrev pub custom_block : CustomFile
custom_block = record {
  name = text "custom-block.txt";
  header =
      text "# 用户自定义拦截阻止名单 (域名直接阻断/拒答)"
      ∷ text "# 支持格式: domain:ad.example.com 或 full:bad.example.com"
      ∷ [];
  samples = text "# domain:ads.example.com" ∷ [];
}

-- The loop that writes a line and its end.
unfoldable pub lines_of : List Bytes → Bytes
lines_of [] = []
lines_of (l ∷ ls) = l ++ (10 ∷ lines_of ls)

abbrev pub content_of : CustomFile → Bytes
content_of f = lines_of f.header ++ lines_of f.samples

module _ (host : Host) (config_dir : Bytes) (flags : Flags) (codec : Codec) where
  open host use {World, read, write, make_dir}

  -- A directory, unless its path is empty.
  unfoldable pub ensure_dir : Bytes → World → World
  ensure_dir dir w = if length dir == 0 then w else make_dir w dir

  -- A file is written where it is missing; whether that fails is not looked at.
  unfoldable pub ensure_file : Bytes → Bytes → World → World
  ensure_file path content w = if file_exists host w path then w else (write w path content).0

  -- The loop over the custom files.
  unfoldable pub ensure_files : List CustomFile → World → World
  ensure_files [] w = w
  ensure_files (f ∷ fs) w =
      ensure_files fs (ensure_file (join_path flags.rule_dir f.name) (content_of f) w)

  -- `initDirectories`
  unfoldable pub init_directories : World → World
  init_directories w =
      ensure_files (custom_direct ∷ custom_proxy ∷ custom_block ∷ [])
        (ensure_dir flags.rule_dir (ensure_dir config_dir w))

  abbrev pub configured : World × Settings → World
  configured (w, s) =
      if file_exists host w flags.config_file then w else (generate host flags codec s w).0

  -- `main` up to the server: the world that the first request finds.
  unfoldable pub start_up : World → World
  start_up w = configured (load_settings host flags codec (init_directories w))
