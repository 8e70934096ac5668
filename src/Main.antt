-- ===== src/Main.antt =====
-- The main process (src/main-auth.c, src/main-worker-cmd.c, src/main-sec-mod-cmd.c, src/main-proc.c): it
-- takes the messages of the workers and of the security module, asks the latter for the session of
-- a cookie, and keeps a `proc_st` for each worker.
--
-- A pointer to a `proc_st` is its number `id`. A function gets the state and the `proc_st` it works on,
-- and gives its result, what it sends or starts, and both as it leaves them; `put_proc` writes the
-- latter back. Sockets, logs, control groups and routes of the system are left out; what they answer,
-- and what the security module and the scripts answer, are arguments.
pub mod Config
pub mod Stats
pub mod Session
pub mod Users
pub mod Login
pub mod Commands
pub mod Remove
mod Tests
use ocserv_ppa.Base.{
  ℕ, ◌-◌, Bool, true, false, ◌&&◌, not, List, [], ◌∷◌, Option, none, some, ◌==◌, if◌then◌else◌,
}
use ocserv_ppa.Base.Index.{Index}
use ocserv_ppa.Base.Table.{Table}
use ocserv_ppa.Ban.{BanConfig, BanEntry}
use ocserv_ppa.IpLease.{IpLease}
use ocserv_ppa.SecMod.{AuthStatus}
use ocserv_ppa.ProcTable.{ProcEntry, ProcTable}
use ocserv_ppa.Main.Config.{GroupCfg}

-- What a worker tells of its session, for reports only.
pub record SessionInfo : Type 0 where
  pub tls_ciphersuite : List ℕ
  pub dtls_ciphersuite : List ℕ
  pub cstp_compr : List ℕ
  pub dtls_compr : List ℕ
  pub user_agent : List ℕ
  pub hostname : List ℕ

-- `proc_st`. A `pid` of -1 is `none`; `tun` says that `tun_lease` has a name; `vhost` is the name of the
-- virtual host whose use is counted (`config_usage_count`), and `stats_reset_time` its setting.
pub record ProcSt : Type 0 where
  pub id : ℕ
  pub pid : Option ℕ
  pub pid_killed : Bool
  pub entry : ProcEntry
  pub active_sid : Bool
  pub username : List ℕ
  pub groupname : List ℕ
  pub ipv4_seed : ℕ
  pub ipv4 : Option IpLease
  pub ipv6 : Option IpLease
  pub tun : Bool
  pub status : AuthStatus
  pub config : Option GroupCfg
  pub vhost : Option (List ℕ)
  pub stats_reset_time : ℕ
  pub conn_time : ℕ
  pub mtu : ℕ
  pub bytes_in : ℕ
  pub bytes_out : ℕ
  pub discon_reason : ℕ
  pub host_updated : Bool
  pub info : SessionInfo

-- `main_stats_st`
pub record MainStats : Type 0 where
  pub session_timeouts : ℕ
  pub session_idle_timeouts : ℕ
  pub session_errors : ℕ
  pub sessions_closed : ℕ
  pub kbytes_in : ℕ
  pub kbytes_out : ℕ
  pub min_mtu : ℕ
  pub max_mtu : ℕ
  pub active_clients : ℕ
  pub secmod_client_entries : ℕ
  pub tlsdb_entries : ℕ
  pub last_reset : ℕ
  pub avg_auth_time : ℕ
  pub max_auth_time : ℕ
  pub avg_session_mins : ℕ
  pub max_session_mins : ℕ
  pub auth_failures : ℕ
  pub total_auth_failures : ℕ
  pub total_sessions_closed : ℕ

-- What goes out: messages to the security module and to the worker, signals and scripts.
pub data MainEffect : Type 0 where
  secm_session_open : List ℕ → MainEffect
  secm_session_close : List ℕ → ℕ → ℕ → ℕ → MainEffect
  secm_ban_reply : List ℕ → Bool → MainEffect
  cookie_reply : Bool → MainEffect
  ban_reply : Bool → MainEffect
  kill_pid : Option ℕ → MainEffect
  set_tun_mtu : ℕ → MainEffect
  hostname_update : MainEffect
  user_connected : MainEffect
  user_disconnected : MainEffect

module _ (I : Index) (B : Table BanEntry) (L : Table IpLease) where
  -- `main_server_st`: the workers in the order of the list, the tables, and how many configurations of
  -- a virtual host are in use. `scripts` are the workers whose connect script runs, with its `pid`.
  pub record Server : Type 0 where
    pub procs : List ProcSt
    pub table : ProcTable I
    pub ban_db : Option B.Rep
    pub ban_config : BanConfig
    pub ip_leases : L.Rep
    pub usage_count : List ℕ → ℕ
    pub scripts : List (ℕ × ℕ)
    pub stats : MainStats

-- A worker is written back.
pub put_proc : ProcSt → List ProcSt → List ProcSt
put_proc p [] = []
put_proc p (q ∷ ps) = (if q.id == p.id then p else q) ∷ put_proc p ps

unfoldable pub find_proc : ℕ → List ProcSt → Option ProcSt
find_proc id [] = none
find_proc id (q ∷ ps) = if q.id == id then some q else find_proc id ps

-- `pid > 0`
abbrev pub is_running : Option ℕ → Bool
is_running none = false
is_running (some pid) = not (pid == 0)
