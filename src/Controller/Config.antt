-- ===== src/Controller/Config.antt =====
-- `generateMosdnsConfig` of cmd/mosdns-controller/main.go. The configuration's maps have fixed keys and
-- are records and constructors here; `yaml.Marshal` and the clock's text are parameters.
pub mod References
pub mod Pipeline
use Prim.Native.String.{String}
use opn_box.Base.{
  ℕ, ◌+◌, Bool, true, false, not, ◌&&◌, Option, none, some, List, [], ◌∷◌, ◌++◌, Bytes, length,
  ◌==◌, if◌then◌else◌, bytes_eq,
}
use opn_box.Base.Integers.{positive_or}
use opn_box.Text.{text, trim_space}
use opn_box.Controller.{Settings, Host, file_exists, is_loopback_addr, join_path}

-- The tags of the generated plugins.
pub data Tag : Type 0 where
  forward_remote forward_local direct_domain_set proxy_domain_set block_domain_set sync_to_pf
        main_sequence udp_server tcp_server :
      Tag

abbrev pub tag_text : Tag → Bytes
tag_text forward_remote = text "forward_remote"
tag_text forward_local = text "forward_local"
tag_text direct_domain_set = text "direct_domain_set"
tag_text proxy_domain_set = text "proxy_domain_set"
tag_text block_domain_set = text "block_domain_set"
tag_text sync_to_pf = text "sync_to_pf"
tag_text main_sequence = text "main_sequence"
tag_text udp_server = text "udp_server"
tag_text tcp_server = text "tcp_server"

pub data Match : Type 0 where
  qname : Tag → Match
  has_resp : Match

pub data Exec : Type 0 where
  plugin : Tag → Exec
  reject : ℕ → Exec
  leave : Exec

-- The texts of a rule. The only code is 3.
abbrev pub match_text : Match → Bytes
match_text (qname t) = text "qname $" ++ tag_text t
match_text has_resp = text "has_resp"

abbrev pub exec_text : Exec → Bytes
exec_text (plugin t) = b'$' ∷ tag_text t
exec_text (reject n) = text "reject " ++ (b'0' + n) ∷ []
exec_text leave = text "return"

-- A rule of the sequence; without a key `matches` the list is empty.
pub record Rule : Type 0 where
  pub matches : List Match
  pub exec : Exec

-- With `socks5` the upstream has `enable_pipeline` too.
pub record Upstream : Type 0 where
  pub addr : Bytes
  pub socks5 : Option Bytes

pub record AliasArgs : Type 0 where
  pub socket_path : Bytes
  pub table : Bytes
  pub min_ttl : ℕ
  pub max_ttl : ℕ
  pub timeout : Bytes
  pub sync : Bool

-- The types of plugins with their arguments; a `forward` may have no key `concurrent`.
pub data PluginArgs : Type 0 where
  forward : Option ℕ → List Upstream → PluginArgs
  domain_set : List Bytes → PluginArgs
  pf_alias : AliasArgs → PluginArgs
  sequence : List Rule → PluginArgs
  server : Tag → Bytes → PluginArgs

-- `MosdnsPlugin`; the type of a server is its tag.
pub record MosdnsPlugin : Type 0 where
  pub tag : Tag
  pub args : PluginArgs

-- `MosdnsYAML`
pub record MosdnsYaml : Type 0 where
  pub level : Bytes
  pub plugins : List MosdnsPlugin

-- The loop over `RemoteDNS`.
unfoldable pub remote_upstreams : Bytes → List Bytes → List Upstream
remote_upstreams socks5 [] = []
remote_upstreams socks5 (raw ∷ rest) =
    let addr = trim_space raw in
    let more = remote_upstreams socks5 rest in
    let proxied = not (length socks5 == 0) && not (is_loopback_addr addr) in
    if length addr == 0
    then more
    else record { addr = addr; socks5 = if proxied then some socks5 else none } ∷ more

-- The loop over `LocalDNS`.
unfoldable pub local_upstreams : List Bytes → List Upstream
local_upstreams [] = []
local_upstreams (raw ∷ rest) =
    let addr = trim_space raw in
    let more = local_upstreams rest in
    if length addr == 0 then more else record { addr = addr; socks5 = none } ∷ more

abbrev pub or_text : Bytes → Bytes → Bytes
or_text s default = if length s == 0 then default else s

-- The arguments of `sync_to_pf`.
unfoldable pub alias_args : Settings → AliasArgs
alias_args s = record {
  socket_path = or_text s.pf_socket (text "/var/run/pf-aliasd.sock");
  table = or_text s.pf_table (text "GFW_Proxy");
  min_ttl = positive_or 60 s.min_ttl;
  max_ttl = positive_or 86400 s.max_ttl;
  timeout = text "100ms";
  sync = true;
}

abbrev pub on : List Match → Exec → Rule
on matches exec = record { matches = matches; exec = exec }

abbrev pub block_rules : Bool → List Rule
block_rules false = []
block_rules true = on (qname block_domain_set ∷ []) (reject 3) ∷ on (has_resp ∷ []) leave ∷ []

abbrev pub direct_rules : Bool → List Rule
direct_rules false = []
direct_rules true =
    on (qname direct_domain_set ∷ []) (plugin forward_local) ∷ on (has_resp ∷ []) leave ∷ []

abbrev pub proxy_rules : Bool → List Rule
proxy_rules false = []
proxy_rules true =
    on (qname proxy_domain_set ∷ []) (plugin forward_remote)
    ∷ on (qname proxy_domain_set ∷ []) (plugin sync_to_pf)
    ∷ on (has_resp ∷ []) leave
    ∷ []

abbrev pub all_local : List Rule
all_local = on [] (plugin forward_local) ∷ []

abbrev pub all_remote : List Rule
all_remote = on [] (plugin forward_remote) ∷ on [] (plugin sync_to_pf) ∷ []

-- The `switch` on the mode, from whether there are files for the direct and for the proxy set.
unfoldable pub mode_rules : Settings → Bool → Bool → List Rule
mode_rules s has_direct has_proxy =
    if bytes_eq s.mode (text "blacklist")
    then proxy_rules has_proxy ++ all_local
    else if bytes_eq s.mode (text "custom")
    then direct_rules has_direct
      ++ (proxy_rules has_proxy
          ++ (if bytes_eq s.custom_default_route (text "proxy") then all_remote else all_local))
    else direct_rules has_direct ++ all_remote

unfoldable pub main_rules : Settings → Bool → Bool → Bool → List Rule
main_rules s has_block has_direct has_proxy =
    block_rules has_block ++ mode_rules s has_direct has_proxy

-- `len(files) > 0`
abbrev pub nonempty : List Bytes → Bool
nonempty [] = false
nonempty (file ∷ files) = true

-- A domain set with its files, left out where there is none.
abbrev pub set_of : Tag → List Bytes → List MosdnsPlugin
set_of tag [] = []
set_of tag (file ∷ files) = record { tag = tag; args = domain_set (file ∷ files) } ∷ []

-- The plugins in order, from the files of the three sets.
unfoldable pub plugins_of : Settings → List Bytes → List Bytes → List Bytes → List MosdnsPlugin
plugins_of s direct_files proxy_files block_files =
    record {
      tag = forward_remote;
      args =
          forward (some (positive_or 2 s.concurrent))
            (remote_upstreams s.remote_socks5 s.remote_dns);
    }
    ∷ record { tag = forward_local; args = forward none (local_upstreams s.local_dns) }
    ∷ (set_of direct_domain_set direct_files
        ++ (set_of proxy_domain_set proxy_files
            ++ (set_of block_domain_set block_files
                ++ (record { tag = sync_to_pf; args = pf_alias (alias_args s) }
                    ∷ record {
                      tag = main_sequence;
                      args = sequence (
                          main_rules s (nonempty block_files) (nonempty direct_files)
                            (nonempty proxy_files));
                    }
                    ∷ record {
                      tag = udp_server;
                      args = server main_sequence (or_text s.listen_addr (text "127.0.0.1:5353"));
                    }
                    ∷ record {
                      tag = tcp_server;
                      args = server main_sequence (or_text s.listen_addr (text "127.0.0.1:5353"));
                    }
                    ∷ []))))

module _ (host : Host) (rule_dir : Bytes) where
  open host use {World}

  -- The files of a set that exist, by their paths.
  unfoldable pub existing : World → List Bytes → List Bytes
  existing w [] = []
  existing w (name ∷ names) =
      let path = join_path rule_dir name in
      let more = existing w names in if file_exists host w path then path ∷ more else more

  abbrev pub block_files : Settings → World → List Bytes
  block_files s w = if s.block_enabled then existing w (text "custom-block.txt" ∷ []) else []

  -- The configuration that `generateMosdnsConfig` builds.
  unfoldable pub config_of : Settings → World → MosdnsYaml
  config_of s w = record {
    level = s.log_level;
    plugins =
        plugins_of s (existing w (text "cn.txt" ∷ text "custom-direct.txt" ∷ []))
          (existing w (text "gfw.txt" ∷ text "custom-proxy.txt" ∷ [])) (block_files s w);
  }

module _ (host : Host) (rule_dir config_file : Bytes) (marshal : MosdnsYaml → Option Bytes)
    (header : Settings → Bytes) where
  open host use {World, write}

  abbrev pub written : World → Settings → Option Bytes → World × Bool
  written w s none = (w, false)
  written w s (some out) = write w config_file (header s ++ out)

  -- `generateMosdnsConfig`, with whether it succeeded.
  unfoldable pub generate_mosdns_config : Settings → World → World × Bool
  generate_mosdns_config s w = written w s (marshal (config_of host rule_dir s w))
