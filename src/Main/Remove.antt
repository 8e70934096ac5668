-- ===== src/Main/Remove.antt =====
-- The beginning and the end of a worker: new_proc and remove_proc of src/main-proc.c, and
-- script_child_watcher_cb of src/main.c, for the end of a connect script.
pub mod Closing
pub mod LoggedIn
pub mod Gaps
pub mod Sessions
use ocserv_ppa.Base.{
  ℕ, ◌+◌, ◌-◌, ◌%◌, ◌^◌, Bool, true, false, ◌&&◌, ◌||◌, not, List, [], ◌∷◌, ◌++◌, Option, none,
  some, ltb, ◌==◌, if◌then◌else◌,
}
use ocserv_ppa.Base.Int.{ℤ, pos, negsuc, is_neg}
use ocserv_ppa.Base.Bytes.{bytes_eq}
use ocserv_ppa.Base.Index.{Index}
use ocserv_ppa.Base.Table.{Table}
use ocserv_ppa.Ban.{BanEntry}
use ocserv_ppa.IpLease.{IpLease}
use ocserv_ppa.IpLease.Leases.{remove_ip_lease}
use ocserv_ppa.SecMod.{AuthStatus, is_completed}
use ocserv_ppa.ProcTable.{Sockaddr, ProcEntry, proc_table_del}
use ocserv_ppa.Main.{
  ProcSt, SessionInfo, MainStats, Server, MainEffect, kill_pid, user_disconnected,
}
use ocserv_ppa.Main.Session.{Answer, CliStats, session_close}
use ocserv_ppa.Main.Login.{LoginEnv, handle_script_exit}

abbrev pub no_info : SessionInfo
no_info = record {
  tls_ciphersuite = [];
  dtls_ciphersuite = [];
  cstp_compr = [];
  dtls_compr = [];
  user_agent = [];
  hostname = [];
}

-- `talloc_zero` and the settings; the SID is that of `sid_size` zeros.
unfoldable pub new_proc_st : ℕ → ℕ → ℕ → List ℕ → Sockaddr → ProcSt
new_proc_st now id pid zeros remote_addr = record {
  id = id;
  pid = some pid;
  pid_killed = false;
  entry = record {
    remote_addr = remote_addr;
    dtls_remote_addr = none;
    dtls_session_id = [];
    sid = zeros;
  };
  active_sid = false;
  username = [];
  groupname = [];
  ipv4_seed = 0;
  ipv4 = none;
  ipv6 = none;
  tun = false;
  status = AuthStatus.inactive;
  config = none;
  vhost = none;
  stats_reset_time = 0;
  conn_time = now;
  mtu = 0;
  bytes_in = 0;
  bytes_out = 0;
  discon_reason = 0;
  host_updated = false;
  info = no_info;
}

abbrev pub add_clients : ℕ → MainStats → MainStats
add_clients d s = record s { active_clients = (s.active_clients + d) % 2 ^ 32 }

-- The script of a worker, and the list without it.
unfoldable pub find_script : ℕ → List (ℕ × ℕ) → Option ℕ
find_script id [] = none
find_script id ((owner, pid) ∷ scripts) = if owner == id then some pid else find_script id scripts

unfoldable pub drop_script : ℕ → List (ℕ × ℕ) → List (ℕ × ℕ)
drop_script id [] = []
drop_script id ((owner, pid) ∷ scripts) =
    if owner == id then scripts else (owner, pid) ∷ drop_script id scripts

-- `list_del`
pub drop_proc : ℕ → List ProcSt → List ProcSt
drop_proc id [] = []
drop_proc id (q ∷ ps) = if q.id == id then ps else q ∷ drop_proc id ps

-- The flags of `remove_proc`.
pub record Flags : Type 0 where
  pub kill : Bool
  pub quit : Bool

-- The use of a configuration ends.
abbrev pub drop_use : Option (List ℕ) → (List ℕ → ℕ) → List ℕ → ℕ
drop_use none usage name = usage name
drop_use (some vhost) usage name = if bytes_eq vhost name then usage name - 1 else usage name

-- `pid` is the connect script that still runs, if any; `exited` is its exit status when it was waited for.
abbrev pub is_connected : Option ℕ → Option ℕ → AuthStatus → Bool
is_connected none exited status = is_completed status
is_connected (some pid) none status = if ltb 0 pid then false else is_completed status
is_connected (some pid) (some code) status = if ltb 0 pid then code == 0 else is_completed status

abbrev pub kill_running : Flags → Option ℕ → List MainEffect
kill_running flags none = []
kill_running flags (some pid) =
    if flags.kill && not (pid == 0) then kill_pid (some pid) ∷ [] else []

-- `remove_from_script_list` ends a connect script that still runs; then comes the disconnect script.
abbrev pub take_down : Option ℕ → Bool → List MainEffect
take_down none connected = if connected then user_disconnected ∷ [] else []
take_down (some pid) connected =
    (if ltb 0 pid then kill_pid (some pid) ∷ [] else [])
    ++ (if connected then user_disconnected ∷ [] else [])

-- The end of a session that is open.
unfoldable pub close_active :
    {I : Index} {B : Table BanEntry} {L : Table IpLease}
    → ℕ
    → Flags
    → Answer CliStats
    → Server I B L
    → ProcSt
    → ℤ × List MainEffect × Server I B L × ProcSt
close_active now flags answer s p =
    let closed = session_close now answer s p in
    if p.active_sid && not flags.quit then closed else (pos 0, [], s, p)

module _ {I : Index} {B : Table BanEntry} {L : Table IpLease} where
  pub new_proc : ℕ → ℕ → ℕ → List ℕ → Sockaddr → Server I B L → Server I B L
  new_proc now id pid zeros remote_addr s = record s {
    procs = new_proc_st now id pid zeros remote_addr ∷ s.procs;
    stats = add_clients 1 s.stats;
  }

  -- What is left of a worker's traces once its session is closed.
  pub forget_proc : Server I B L → ProcSt → Server I B L
  forget_proc s p = record s {
    procs = drop_proc p.id s.procs;
    stats = add_clients (2 ^ 32 - 1) s.stats;
    scripts = drop_script p.id s.scripts;
    ip_leases = remove_ip_lease L (remove_ip_lease L s.ip_leases p.ipv4) p.ipv6;
    table = proc_table_del I s.table p.id p.entry;
    usage_count = drop_use p.vhost s.usage_count;
  }

  -- `none` where the process ends because the security module cannot be reached.
  unfoldable pub remove_proc :
      ℕ
      → Flags
      → Answer CliStats
      → Option ℕ
      → Server I B L
      → ProcSt
      → Option (List MainEffect × Server I B L)
  remove_proc now flags answer exited s p =
      let (ret, out, s', p') = close_active now flags answer s p in
      let killed = kill_running flags p.pid in
      let script = find_script p.id s.scripts in
      let down = take_down script (is_connected script exited p.status) in
      if is_neg ret then none else some (killed ++ (out ++ down), forget_proc s' p')

  -- The connect script of a worker has ended with this code.
  unfoldable pub script_child_watcher_cb :
      LoginEnv L
      → ℕ
      → Answer CliStats
      → ℤ
      → Server I B L
      → ProcSt
      → Option (List MainEffect × Server I B L × Option ProcSt)
  script_child_watcher_cb env now answer code s p =
      let s1 = record s { scripts = drop_script p.id s.scripts } in
      let (ret, out, p1) = handle_script_exit env p code in
      if is_neg ret
      then elim (remove_proc now (record { kill = true; quit = false }) answer none s1 p1) [
        | none ↦ none
        | some (out', s2) ↦ some (out ++ out', s2, none)
      ]
      else some (out, s1, some p1)
