-- ===== src/Main/Session.antt =====
-- session_open and session_close of src/main-sec-mod-cmd.c: the main process asks the security module
-- for the session of a cookie, and tells it of the end of a session.
pub mod Granted
use ocserv_ppa.Base.{
  ℕ, ◌+◌, ◌-◌, Bool, true, false, ◌&&◌, ◌||◌, not, List, [], ◌∷◌, Option, none, some, ◌==◌,
  if◌then◌else◌, length,
}
use ocserv_ppa.Base.Int.{ℤ, pos, negsuc, is_neg}
use ocserv_ppa.Base.Bytes.{bytes_eq}
use ocserv_ppa.Base.Index.{Index}
use ocserv_ppa.Base.Table.{Table}
use ocserv_ppa.Ban.{BanEntry}
use ocserv_ppa.IpLease.{IpLease}
use ocserv_ppa.SecMod.{strlcpy, copy_field, sid_size, max_username_size}
use ocserv_ppa.Main.{ProcSt, Server, MainEffect, secm_session_open, secm_session_close}
use ocserv_ppa.Main.Config.{GroupCfg, VhostCfg, apply_default_config}
use ocserv_ppa.Main.Stats.{update_auth_failures, update_main_stats}

-- `SecmSessionReplyMsg`
pub record SessionReply : Type 0 where
  pub ok : Bool
  pub username : Option (List ℕ)
  pub groupname : Option (List ℕ)
  pub config : Option GroupCfg
  pub ipv4_seed : ℕ
  pub vhost : List ℕ
  pub ip : Option (List ℕ)

-- What `send_msg` and `recv_msg` return, and the message that came.
pub record Answer (M : Type 0) : Type 0 where
  pub sent : ℤ
  pub received : ℤ
  pub msg : M

-- `CliStatsMsg`, the answer to the end of a session
pub record CliStats : Type 0 where
  pub bytes_in : ℕ
  pub bytes_out : ℕ
  pub discon_reason : Option ℕ

abbrev pub is_set : Option Bool → Bool
is_set none = false
is_set (some b) = b

-- The cookie was issued to this address. `human` is the address as a text, where that can be had.
unfoldable pub same_ip : Option (List ℕ) → Option (List ℕ) → Bool
same_ip none ip = false
same_ip (some issued) none = false
same_ip (some issued) (some human) = bytes_eq human issued

-- One more or one less use of the configuration of a virtual host.
abbrev pub count_use : List ℕ → (List ℕ → ℕ) → List ℕ → ℕ
count_use vhost usage name = if bytes_eq vhost name then usage name + 1 else usage name

module _ {I : Index} {B : Table BanEntry} {L : Table IpLease} where
  -- A session with a name and a configuration.
  unfoldable pub configure :
      (List ℕ → VhostCfg)
      → Option (List ℕ)
      → Server I B L
      → ProcSt
      → SessionReply
      → GroupCfg
      → ℤ × Server I B L × ProcSt
  configure find_vhost human s p m gc =
      let vhost = find_vhost m.vhost in
      let gc' = apply_default_config vhost gc in
      (
        if is_set gc'.deny_roaming && not (same_ip m.ip human) then negsuc 0 else pos 0,
        record s { usage_count = count_use m.vhost s.usage_count },
        record p {
          ipv4_seed = m.ipv4_seed;
          config = some gc';
          vhost = some m.vhost;
          stats_reset_time = vhost.stats_reset_time;
        },
      )

  -- A granted session.
  unfoldable pub take_session :
      (List ℕ → VhostCfg)
      → Option (List ℕ)
      → Server I B L
      → ProcSt
      → SessionReply
      → ℤ × Server I B L × ProcSt
  take_session find_vhost human s p m = elim m.username [
    | none ↦ (negsuc 0, s, p)
    | some username ↦
        (let p' = record p {
          username = strlcpy max_username_size username;
          groupname = copy_field max_username_size m.groupname p.groupname;
        } in
          elim m.config [
            | none ↦ (negsuc 0, s, p')
            | some gc ↦ configure find_vhost human s p' m gc
          ])
  ]

  -- The addresses that `proc` holds go along, for accounting; at this point it has none.
  unfoldable pub session_open :
      (List ℕ → VhostCfg)
      → Option (List ℕ)
      → Answer SessionReply
      → Server I B L
      → ProcSt
      → List ℕ
      → ℤ × List MainEffect × Server I B L × ProcSt
  session_open find_vhost human answer s p cookie =
      let m = answer.msg in
      let (ret, s', p') = take_session find_vhost human s p m in
      let out = secm_session_open cookie ∷ [] in
      if not (length cookie == sid_size)
      then (negsuc 0, [], s, p)
      else if is_neg answer.sent
      then (negsuc 0, out, s, p)
      else if is_neg answer.received
      then (answer.received, out, s, p)
      else if not m.ok
      then (negsuc 0, out, record s { stats = update_auth_failures s.stats 1 }, p)
      else (ret, out, s', p')

  unfoldable pub session_close :
      ℕ → Answer CliStats → Server I B L → ProcSt → ℤ × List MainEffect × Server I B L × ProcSt
  session_close now answer s p =
      let m = answer.msg in
      let out = secm_session_close p.entry.sid p.bytes_in p.bytes_out (now - p.conn_time) ∷ [] in
      let p' = record p {
        bytes_in = m.bytes_in;
        bytes_out = m.bytes_out;
        discon_reason = elim m.discon_reason [ none ↦ p.discon_reason | some r ↦ r ];
      } in
      if is_neg answer.sent
      then (negsuc 0, out, s, p)
      else if is_neg answer.received
      then (answer.received, out, s, p)
      else (pos 0, out, record s { stats = update_main_stats s.stats now p' }, p')
