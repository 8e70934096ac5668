-- ===== src/Main/Commands.antt =====
-- handle_worker_commands of src/main-worker-cmd.c and handle_sec_mod_commands of
-- src/main-sec-mod-cmd.c: the messages of a worker and of the security module. A message that cannot be
-- read or unpacked, or has an unknown command, is `malformed`;
-- `terminated` is the end of the worker's socket. Our own address, which a worker behind
-- a proxy reports, is left out.
pub mod Once
pub mod Bans
use ocserv_ppa.Base.{
  ℕ, ◌+◌, ◌-◌, Bool, true, false, ◌&&◌, ◌||◌, not, List, [], ◌∷◌, ◌++◌, Option, none, some, ◌==◌,
  if◌then◌else◌,
}
use ocserv_ppa.Base.Int.{ℤ, pos, negsuc, is_neg, is_zero, err_bad_command}
use ocserv_ppa.Base.Index.{Index}
use ocserv_ppa.Base.Table.{Table}
use ocserv_ppa.Ban.{BanEntry, add_str_ip_to_ban_list, check_if_banned}
use ocserv_ppa.IpLease.{IpLease}
use ocserv_ppa.SecMod.{AuthStatus, is_completed, strlcpy, copy_field, max_username_size}
use ocserv_ppa.ProcTable.{Sockaddr, ProcEntry, proc_table_update_ip}
use ocserv_ppa.Main.{
  ProcSt, SessionInfo, MainStats, Server, MainEffect, ban_reply, set_tun_mtu, hostname_update,
  kill_pid, secm_ban_reply, is_running, put_proc,
}
use ocserv_ppa.Main.Stats.{update_auth_failures}
use ocserv_ppa.Main.Login.{LoginEnv, is_inactive, log_in}
use ocserv_ppa.Main.Session.{Answer, CliStats}
use ocserv_ppa.Main.Remove.{Flags, remove_proc}

-- `SessionInfoMsg`
pub record SessionInfoMsg : Type 0 where
  pub tls_ciphersuite : Option (List ℕ)
  pub dtls_ciphersuite : Option (List ℕ)
  pub cstp_compr : Option (List ℕ)
  pub dtls_compr : Option (List ℕ)
  pub user_agent : Option (List ℕ)
  pub device_type : Option (List ℕ)
  pub hostname : Option (List ℕ)
  pub remote_addr : Option Sockaddr

pub data WorkerMsg : Type 0 where
  ban_ip : List ℕ → ℕ → WorkerMsg
  tun_mtu : ℕ → WorkerMsg
  session_info : SessionInfoMsg → WorkerMsg
  auth_cookie : List ℕ → WorkerMsg
  malformed : WorkerMsg
  terminated : WorkerMsg

-- `SecmStatsMsg`
pub record SecmStats : Type 0 where
  pub client_entries : ℕ
  pub tlsdb_entries : ℕ
  pub max_auth_time : ℕ
  pub avg_auth_time : ℕ
  pub auth_failures : ℕ

pub data SecModMsg : Type 0 where
  secm_ban_ip : List ℕ → ℕ → List ℕ → SecModMsg
  secm_stats : SecmStats → SecModMsg
  secm_malformed : SecModMsg

-- The clock, the parsers of addresses, whether the proxy protocol is on, and what `send_msg` returns
-- for the reply to a ban and `ioctl` for the new MTU.
pub record CmdEnv : Type 0 where
  pub now : ℕ
  pub inet_pton6 : List ℕ → Option (List ℕ)
  pub inet_pton4 : List ℕ → Option (List ℕ)
  pub listen_proxy_proto : Bool
  pub sent : ℤ
  pub ioctl : ℤ

-- `"%s / %s"`
pub new_agent : Option (List ℕ) → Option (List ℕ) → List ℕ → List ℕ
new_agent none device old = old
new_agent (some agent) none old = strlcpy max_username_size agent
new_agent (some agent) (some device) old =
    strlcpy max_username_size (agent ++ (b' ' ∷ b'/' ∷ b' ' ∷ device))

pub new_info : SessionInfoMsg → SessionInfo → SessionInfo
new_info m i = record {
  tls_ciphersuite = copy_field 64 m.tls_ciphersuite i.tls_ciphersuite;
  dtls_ciphersuite = copy_field 64 m.dtls_ciphersuite i.dtls_ciphersuite;
  cstp_compr = copy_field 8 m.cstp_compr i.cstp_compr;
  dtls_compr = copy_field 8 m.dtls_compr i.dtls_compr;
  user_agent = new_agent m.user_agent m.device_type i.user_agent;
  hostname = copy_field max_username_size m.hostname i.hostname;
}

-- `user_hostname_update`: the script runs once.
abbrev pub host_update : Option (List ℕ) → Bool → List MainEffect × Bool
host_update none updated = ([], updated)
host_update (some name) updated = if updated then ([], true) else (hostname_update ∷ [], true)

-- `set_tun_mtu`
pub with_mtu : CmdEnv → ProcSt → ℕ → List MainEffect × ProcSt
with_mtu env p mtu =
    if not p.tun
    then ([], p)
    else (set_tun_mtu mtu ∷ [], if is_zero env.ioctl then record p { mtu = mtu } else p)

abbrev pub err_worker_terminated : ℤ
err_worker_terminated = negsuc 10

abbrev pub is_worker_terminated : ℤ → Bool
is_worker_terminated (pos n) = false
is_worker_terminated (negsuc n) = n == 10

-- `kill_proc`, of a worker that has a process.
abbrev pub killed : ProcSt → List MainEffect × ProcSt
killed p =
    if is_running p.pid then (kill_pid p.pid ∷ [], record p { pid_killed = true }) else ([], p)

-- The statistics of the security module.
pub take_stats : MainStats → SecmStats → MainStats
take_stats st m =
    update_auth_failures
      (record st {
        secmod_client_entries = m.client_entries;
        tlsdb_entries = m.tlsdb_entries;
        max_auth_time = m.max_auth_time;
        avg_auth_time = m.avg_auth_time;
      })
      m.auth_failures

module _ {I : Index} {B : Table BanEntry} {L : Table IpLease} (env : CmdEnv) where
  -- The address of the client behind a proxy; a banned one is cut off.
  pub proxy_address :
      Server I B L → ProcSt → Option Sockaddr → List MainEffect × Server I B L × ProcSt
  proxy_address s p none = ([], s, p)
  proxy_address s p (some addr) =
      let (ret, entry, table) = proc_table_update_ip I s.table p.id p.entry addr in
      let p1 = record p { entry = entry } in
      let (banned, bans) =
        check_if_banned B s.ban_config env.now env.now s.ban_db entry.remote_addr.ip in
      let (out, p2) = if banned then killed p1 else ([], p1) in
      if env.listen_proxy_proto
      then (out, record s { table = table; ban_db = bans }, p2)
      else ([], s, p)

  pub handle_session_info :
      Server I B L → ProcSt → SessionInfoMsg → ℤ × List MainEffect × Server I B L × ProcSt
  handle_session_info s p m =
      let (out, updated) = host_update m.hostname p.host_updated in
      let (out', s', p') =
        proxy_address s (record p { info = new_info m p.info; host_updated = updated })
          m.remote_addr in
      (pos 0, out ++ out', s', p')

  pub handle_ban_ip :
      Server I B L → ProcSt → List ℕ → ℕ → ℤ × List MainEffect × Server I B L × ProcSt
  handle_ban_ip s p ip score =
      let (ret, bans) =
        add_str_ip_to_ban_list B s.ban_config env.inet_pton6 env.inet_pton4 env.now s.ban_db ip
          score in
      (
        if is_neg env.sent then err_bad_command else pos 0,
        ban_reply (not (is_neg ret)) ∷ [],
        record s { ban_db = bans },
        p,
      )

  pub handle_worker_commands :
      LoginEnv L → Server I B L → ProcSt → WorkerMsg → ℤ × List MainEffect × Server I B L × ProcSt
  handle_worker_commands login s p (ban_ip ip score) = handle_ban_ip s p ip score
  handle_worker_commands login s p (tun_mtu mtu) =
      let (out, p') = with_mtu env p mtu in
      if is_completed p.status then (pos 0, out, s, p') else (err_bad_command, [], s, p)
  handle_worker_commands login s p (session_info m) = handle_session_info s p m
  handle_worker_commands login s p (auth_cookie cookie) =
      let (ret, out, s', p') = log_in login s p cookie in
      if is_inactive p.status
      then (if is_neg ret then ret else pos 0, out, s', p')
      else (err_bad_command, [], s, p)
  handle_worker_commands login s p malformed = (err_bad_command, [], s, p)
  handle_worker_commands login s p terminated = (err_worker_terminated, [], s, p)

  -- The worker's socket has a message: a worker whose message fails is removed.
  pub cmd_watcher_cb :
      LoginEnv L
      → Answer CliStats
      → Option ℕ
      → Server I B L
      → ProcSt
      → WorkerMsg
      → Option (List MainEffect × Server I B L)
  cmd_watcher_cb login answer exited s p m =
      let (ret, out, s1, p1) = handle_worker_commands login s p m in
      let flags : Flags = record { kill = not (is_worker_terminated ret); quit = false } in
      if is_neg ret
      then elim (remove_proc env.now flags answer exited s1 p1) [
        | none ↦ none
        | some (out', s2) ↦ some (out ++ out', s2)
      ]
      else some (out, record s1 { procs = put_proc p1 s1.procs })

  -- Only a ban is answered.
  pub handle_sec_mod_commands : Server I B L → SecModMsg → ℤ × List MainEffect × Server I B L
  handle_sec_mod_commands s (secm_ban_ip ip score sid) =
      let (ret, bans) =
        add_str_ip_to_ban_list B s.ban_config env.inet_pton6 env.inet_pton4 env.now s.ban_db ip
          score in
      let s' = record s { ban_db = bans } in
      if is_neg ret
      then (if is_neg env.sent then err_bad_command else pos 0, secm_ban_reply sid false ∷ [], s')
      else (pos 0, [], s')
  handle_sec_mod_commands s (secm_stats m) = (pos 0, [], record s { stats = take_stats s.stats m })
  handle_sec_mod_commands s secm_malformed = (err_bad_command, [], s)
