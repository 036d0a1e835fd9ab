-- ===== src/Tests/Dns.antt =====
-- pkg/plugin/pf_alias.go with a socket that accepts every packet.
use opn_box.Base.{
  ℕ, ◌+◌, ◌<◌, ◌≡◌, Bool, ◌==◌, refl, ◌⊎◌, true, false, Option, none, some, List, [], ◌∷◌, Bytes,
  length, arith,
}
use opn_box.Base.Outcome.{ok, err}
use opn_box.Protocol.{max_table_name_len, status_ok}
use opn_box.Daemon.{acknowledge}
use opn_box.Plugin.{
  Args, Plugin, Socket, Answer, a, empty_table, table_too_long, default_socket,
  new_plugin_from_args, exec, close_plugin, close_all,
}
use opn_box.Plugin.Settings.{IsConfigured, new_plugin_from_args-IsConfigured}
use opn_box.PluginX
use opn_box.PluginX.Same.{exec_same}
use opn_box.Plugin.Repeat.{Fails, exec_again}
use opn_box.Plugin.Pool.{IsPooled, exec-close_plugin}

abbrev lan : Bytes
lan = b'l' ∷ b'a' ∷ b'n' ∷ []

abbrev settings : Args
settings = record {
  socket_path = default_socket;
  table = lan;
  min_ttl = 60;
  max_ttl = 86400;
  timeout = [];
  sync = true;
}

-- A parser that rejects every text.
abbrev no_duration : Bytes → Option ℕ
no_duration s = none

new_plugin_from_args-IsConfigured_example :
    (length settings.table ≡ 0)
      × (new_plugin_from_args {Conn = ℕ} no_duration settings ≡ err empty_table)
    ⊎ ((max_table_name_len < length settings.table)
          × (new_plugin_from_args {Conn = ℕ} no_duration settings ≡ err table_too_long)
        ⊎ (p : Plugin ℕ) × (new_plugin_from_args {Conn = ℕ} no_duration settings ≡ ok p)
          × IsConfigured ℕ p)
new_plugin_from_args-IsConfigured_example = new_plugin_from_args-IsConfigured ℕ no_duration settings

abbrev first_packet : List Bytes → Option Bytes
first_packet (bs ∷ rest) = some bs
first_packet [] = none

-- A world that counts its operations; connections are numbered, and every acknowledgment is positive.
abbrev obliging : Socket
obliging = record {
  World = ℕ;
  Conn = ℕ;
  dial = λ w path. (w + 1, some w);
  write = λ w c bs. (w + 1, true);
  read = λ w c. (w + 1, first_packet (acknowledge 1 status_ok []));
  close = λ w c. w + 1;
}

abbrev plugin : Plugin ℕ
plugin = record {
  cfg = settings;
  timeout = 100;
  local_cache = [];
  conn_pool = 4 ∷ [];
  seq = 0;
  closed = false;
}

plugin-IsPooled : IsPooled ℕ plugin
plugin-IsPooled = record { bounded = omega arith; drained = λ h. cc }

abbrev answers : List Answer
answers = record { ttl = 300; rdata = a (10 ∷ 0 ∷ 0 ∷ 1 ∷ []) } ∷ []

abbrev shut : Plugin ℕ
shut = record plugin { closed = true; conn_pool = [] }

close-plugin : close_plugin obliging plugin 0 ≡ some (shut, close_all obliging 0 (4 ∷ []))
unfolding close_plugin
close-plugin = refl

exec-close_plugin_example :
    IsPooled ℕ shut
    × (close_all obliging 0 (4 ∷ []) ≡ close_all obliging 0 (4 ∷ []))
    × (exec obliging shut 9 5000 answers ≡ (shut, 9))
exec-close_plugin_example =
    exec-close_plugin obliging plugin shut 0 (close_all obliging 0 (4 ∷ [])) 9 5000 answers
      close-plugin

exec_again_example :
    Fails obliging 5000 answers plugin 0
    ⊎ (exec obliging (exec obliging plugin 0 5000 answers).0 9 5000 answers
        ≡ ((exec obliging plugin 0 5000 answers).0, 9))
exec_again_example = exec_again obliging 5000 answers plugin 0 9

-- The next node of the chain tells whether anything was sent.
abbrev next_node : ℕ → ℕ × Bool
next_node w = (w + 1, w == 0)

exec_same_example : PluginX.exec obliging next_node plugin 0 5000 (some answers) ≡ (
  (exec obliging plugin 0 5000 answers).0,
  (next_node (exec obliging plugin 0 5000 answers).1).0,
  (next_node (exec obliging plugin 0 5000 answers).1).1,
)
exec_same_example = exec_same obliging next_node plugin 0 5000 (some answers)
