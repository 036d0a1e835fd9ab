-- ===== src/Controller.antt =====
-- cmd/mosdns-controller/main.go: the web service that keeps the settings of mosdns, generates its
-- configuration and edits its rule files. The host is a parameter: files by their paths, directories,
-- and commands.
pub mod Reading
pub mod Logs
pub mod Config
pub mod Verdict
pub mod Handlers
pub mod Startup
pub mod Started
pub mod Ready
use opn_box.Base.{not, ℕ, Bool, true, false, ◌||◌, Option, none, some, List, [], ◌∷◌, ◌++◌, Bytes}
use opn_box.Base.Integers.{ℤ, pos}
use opn_box.Text.{text, has_prefix, trim_prefix}

-- `ControllerSettings`
pub record Settings : Type 0 where
  pub mode : Bytes
  pub custom_default_route : Bytes
  pub local_dns : List Bytes
  pub remote_dns : List Bytes
  pub remote_socks5 : Bytes
  pub listen_addr : Bytes
  pub pf_table : Bytes
  pub min_ttl : ℤ
  pub max_ttl : ℤ
  pub pf_socket : Bytes
  pub block_enabled : Bool
  pub concurrent : ℤ
  pub log_level : Bytes

-- `defaultSettings`
abbrev pub default_settings : Settings
default_settings = record {
  mode = text "whitelist";
  custom_default_route = text "proxy";
  local_dns = text "223.5.5.5" ∷ text "119.29.29.29" ∷ [];
  remote_dns =
      text "tcp://1.1.1.1:53" ∷ text "tcp://8.8.8.8:53" ∷ text "https://1.1.1.1/dns-query" ∷ [];
  remote_socks5 = text "127.0.0.1:10808";
  listen_addr = text "127.0.0.1:5353";
  pf_table = text "GFW_Proxy";
  min_ttl = pos 60;
  max_ttl = pos 86400;
  pf_socket = text "/var/run/pf-aliasd.sock";
  block_enabled = true;
  concurrent = pos 2;
  log_level = text "info";
}

-- What the controllers use of the system. `write` and `command` tell whether they succeeded; `exists`
-- looks at a path without following links, `stat` tells whether what it finds is a directory.
pub record Host : Type 1 where
  pub World : Type 0
  pub read : World → Bytes → Option Bytes
  pub write : World → Bytes → Bytes → World × Bool
  pub make_dir : World → Bytes → World
  pub exists : World → Bytes → Bool
  pub stat : World → Bytes → Option Bool
  pub remove : World → Bytes → World
  pub link : World → Bytes → Bytes → World
  pub command : World → List Bytes → World × Bool × Bytes
  pub sleep : World → ℕ → World

module _ (host : Host) where
  open host use {World, stat}

  abbrev regular : Option Bool → Bool
  regular none = false
  regular (some is_dir) = not is_dir

  -- `fileExists`
  abbrev pub file_exists : World → Bytes → Bool
  file_exists w p = regular (stat w p)

-- `isLoopbackAddr`
unfoldable pub is_loopback_addr : Bytes → Bool
is_loopback_addr addr =
    let clean =
      trim_prefix (trim_prefix (trim_prefix addr (text "tcp://")) (text "udp://"))
        (text "https://") in
    has_prefix clean (text "127.0.0.1")
    || has_prefix clean (text "localhost")
    || has_prefix clean (text "[::1]")

-- `filepath.Join` of a clean directory and a file name
abbrev pub join_path : Bytes → Bytes → Bytes
join_path dir name = dir ++ (b'/' ∷ name)
