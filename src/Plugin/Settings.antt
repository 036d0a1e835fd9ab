-- ===== src/Plugin/Settings.antt =====
-- pkg/plugin/pf_alias.go: the configuration that `newPluginFromArgs` accepts, and the TTL clamp.
use opn_box.Base.{
  ℕ, ◌≤◌, ◌<◌, ◌≡◌, refl, false, Option, [], ◌∷◌, Bytes, length, arith, ltb, ◌==◌, ◌⊎◌, inl, inr,
  Bool-cases,
}
use opn_box.Base.Outcome.{ok, err}
use opn_box.Protocol.{max_table_name_len}
use opn_box.Plugin.{
  Args, Plugin, new_plugin_from_args, with_defaults, timeout_of, clamp_ttl, empty_table,
  table_too_long,
}

-- What the other operations rely on.
pub record IsConfigured (Conn : Type 0) (p : Plugin Conn) : Type 0 where
  pub named : 0 < length p.cfg.table
  pub short : length p.cfg.table ≤ max_table_name_len
  pub ordered : p.cfg.min_ttl ≤ p.cfg.max_ttl
  pub positive : 0 < p.cfg.min_ttl
  pub waits : 0 < p.timeout
  pub empty : p.conn_pool ≡ []

timeout_pos : (parse_duration : Bytes → Option ℕ) (s : Bytes) → 0 < timeout_of parse_duration s
timeout_pos parse_duration [] = omega arith
timeout_pos parse_duration (b ∷ bs) = ground arith

module _ (Conn : Type 0) (parse_duration : Bytes → Option ℕ) (cfg : Args) where
  refused_empty :
      length cfg.table ≡ 0 → new_plugin_from_args {Conn = Conn} parse_duration cfg ≡ err empty_table
  unfolding new_plugin_from_args
  refused_empty h = ground arith

  refused_long :
      max_table_name_len < length cfg.table
      → new_plugin_from_args {Conn = Conn} parse_duration cfg ≡ err table_too_long
  unfolding new_plugin_from_args
  refused_long h = ground arith

  accepted :
      0 < length cfg.table
      → length cfg.table ≤ max_table_name_len
      → (p : Plugin Conn) × (new_plugin_from_args {Conn = Conn} parse_duration cfg ≡ ok p)
        × IsConfigured Conn p
  unfolding new_plugin_from_args with_defaults
  accepted l s = (
    record {
      cfg = with_defaults cfg;
      timeout = timeout_of parse_duration cfg.timeout;
      local_cache = [];
      conn_pool = [];
      seq = 0;
      closed = false;
    },
    ground arith,
    record {
      named = l;
      short = s;
      ordered = ground arith;
      positive = ground arith;
      waits = timeout_pos parse_duration cfg.timeout;
      empty = refl;
    },
  )

-- `newPluginFromArgs` refuses an empty table name and one of more than 31 bytes. Any other gives a
-- plugin with an empty pool, a positive timeout and TTL bounds that are positive and in order.
pub new_plugin_from_args-IsConfigured :
    (Conn : Type 0) (parse_duration : Bytes → Option ℕ) (cfg : Args)
    → (length cfg.table ≡ 0)
        × (new_plugin_from_args {Conn = Conn} parse_duration cfg ≡ err empty_table)
      ⊎ ((max_table_name_len < length cfg.table)
            × (new_plugin_from_args {Conn = Conn} parse_duration cfg ≡ err table_too_long)
          ⊎ (p : Plugin Conn) × (new_plugin_from_args {Conn = Conn} parse_duration cfg ≡ ok p)
            × IsConfigured Conn p)
new_plugin_from_args-IsConfigured Conn parse_duration cfg =
    let n = length cfg.table in
    elim (Bool-cases (n == 0)) [
      | inl e ↦ inl (ground arith, refused_empty Conn parse_duration cfg (ground arith))
      | inr e ↦ elim (Bool-cases (ltb max_table_name_len n)) [
        | inl l ↦ inr (inl (ground arith, refused_long Conn parse_duration cfg (ground arith)))
        | inr l ↦ inr (inr (accepted Conn parse_duration cfg (ground arith) (ground arith)))
      ]
    ]

-- With bounds in order the clamped TTL lies between them, and clamping it again changes nothing; a
-- TTL that is changed lay outside of them.
pub clamp_ttl_bounds :
    (cfg : Args) (ttl : ℕ)
    → cfg.min_ttl ≤ cfg.max_ttl
    → (cfg.min_ttl ≤ clamp_ttl cfg ttl)
      × (clamp_ttl cfg ttl ≤ cfg.max_ttl)
      × (clamp_ttl cfg (clamp_ttl cfg ttl) ≡ clamp_ttl cfg ttl)
      × ((clamp_ttl cfg ttl ≡ ttl) ⊎ ((ttl < cfg.min_ttl) ⊎ (cfg.max_ttl < ttl)))
unfolding clamp_ttl
clamp_ttl_bounds cfg ttl h = (ground arith, ground arith, ground arith, ground arith)
