-- ===== src/SecMod.antt =====
-- The security module (src/sec-mod-db.c, src/sec-mod-auth.c, src/sec-mod.h): it keeps an entry for
-- each client from the first authentication message to the end of the session, drives the
-- authentication modules, and answers the workers and the main process. Here are its data.
--
-- Texts are their bytes without the final NUL; `strlcpy` cuts them to the size of the field. Flags are
-- Boolean; `auth_type` is a bit mask. Times are seconds since the epoch and are never -1, the value
-- that `exptime` is compared with. The bytes of `dtls_session_id`, the sockets and the logs are left
-- out. What a handler sends or asks of the accounting module is a list of effects.
pub mod Db
pub mod Tests
pub mod Session
pub mod Auth
pub mod Group
use ocserv_ppa.Base.{ℕ, ◌-◌, Bool, true, false, ◌&&◌, List, Option, none, some, take, leb, ◌==◌}
use ocserv_ppa.Base.Int.{ℤ}

-- PS_AUTH_*
pub data AuthStatus : Type 0 where
  inactive failed init cont completed : AuthStatus

abbrev pub is_completed : AuthStatus → Bool
is_completed AuthStatus.completed = true
is_completed _ = false

abbrev pub is_failed : AuthStatus → Bool
is_failed AuthStatus.failed = true
is_failed _ = false

abbrev pub is_init : AuthStatus → Bool
is_init AuthStatus.init = true
is_init _ = false

-- `status == PS_AUTH_INIT || status == PS_AUTH_CONT`
abbrev pub in_progress : AuthStatus → Bool
in_progress AuthStatus.init = true
in_progress AuthStatus.cont = true
in_progress _ = false

-- `strlcpy` into a field of so many bytes.
abbrev pub strlcpy : ℕ → List ℕ → List ℕ
strlcpy size src = take (size - 1) src

abbrev pub auth_type_certificate : ℕ
auth_type_certificate = 8

abbrev pub auth_slack_time : ℕ
auth_slack_time = 15

abbrev pub sid_size : ℕ
sid_size = 32

abbrev pub max_username_size : ℕ
max_username_size = 64

abbrev pub max_ip_str : ℕ
max_ip_str = 46

abbrev pub max_groups : ℕ
max_groups = 32

-- A field that a message may leave out.
abbrev pub copy_field : ℕ → Option (List ℕ) → List ℕ → List ℕ
copy_field size none old = old
copy_field size (some text) old = strlcpy size text

-- `stats_st`
pub record Stats : Type 0 where
  pub bytes_in : ℕ
  pub bytes_out : ℕ
  pub uptime : ℕ

-- `common_acct_info_st`
pub record AcctInfo : Type 0 where
  pub username : List ℕ
  pub groupname : List ℕ
  pub safe_id : List ℕ
  pub remote_ip : List ℕ
  pub user_agent : List ℕ
  pub our_ip : List ℕ
  pub ipv4 : List ℕ
  pub ipv6 : List ℕ
  pub id : ℕ

-- `common_auth_init_st`
pub record AuthInit : Type 0 where
  pub username : Option (List ℕ)
  pub ip : List ℕ
  pub our_ip : Option (List ℕ)
  pub user_agent : Option (List ℕ)
  pub id : ℕ

-- `passwd_msg_st`
pub record PasswdMsg : Type 0 where
  pub msg_str : Option (List ℕ)
  pub counter : ℕ

-- `auth_mod_st`: the functions of an authentication module over its context. Each gives the result
-- and what it leaves behind its pointers.
pub record AuthMod (Ctx : Type 0) : Type 0 where
  pub allows_retries : Bool
  pub auth_init : AuthInit → ℤ × Option Ctx
  pub auth_msg : Option Ctx → ℤ × PasswdMsg
  pub auth_pass : Option Ctx → List ℕ → ℤ × Option Ctx
  pub auth_group : Option (Option Ctx → Option (List ℕ) → List ℕ → ℤ × List ℕ)
  pub auth_user : Option Ctx → List ℕ → List ℕ

-- An entry of `perm_config.auth`.
pub record AuthMethod (Ctx : Type 0) : Type 0 where
  pub enabled : Bool
  pub auth_type : ℕ
  pub amod : Option (AuthMod Ctx)

-- `acct_mod_st`: which functions there are, and the answer to `open_session`.
pub record AcctMod : Type 0 where
  pub open_session : Option (ℕ → AcctInfo → List ℕ → ℤ)
  pub session_stats : Bool
  pub close_session : Bool

-- What the security module reads of a virtual host and its configuration.
pub record Vhost (Ctx : Type 0) : Type 0 where
  pub auth : List (AuthMethod Ctx)
  pub acct : Option AcctMod
  pub get_sup_config : Option (AcctInfo → ℤ)
  pub max_ban_score : ℕ
  pub ban_points_wrong_password : ℕ
  pub cert_user_oid : Bool
  pub cert_group_oid : Bool
  pub cookie_timeout : ℕ
  pub persistent_cookies : Bool
  pub predictable_ips : Bool

-- `client_entry_st`
pub record ClientEntry (Ctx : Type 0) : Type 0 where
  pub sid : List ℕ
  pub auth_ctx : Option Ctx
  pub session_is_open : Bool
  pub in_use : ℕ
  pub tls_auth_ok : Bool
  pub msg_str : Option (List ℕ)
  pub passwd_counter : ℕ
  pub saved_stats : Stats
  pub stats : Stats
  pub status : AuthStatus
  pub created : ℕ
  pub exptime : ℕ
  pub auth_type : ℕ
  pub discon_reason : ℕ
  pub acct_info : AcctInfo
  pub req_group_name : List ℕ
  pub cert_group_names : List (List ℕ)
  pub cert_user_name : List ℕ
  pub auth_mod : Option (AuthMod Ctx)
  pub vhost : Vhost Ctx

-- `IS_CLIENT_ENTRY_EXPIRED`
abbrev pub is_expired : {Ctx : Type 0} → ℕ → ClientEntry Ctx → Bool
is_expired now e = leb e.exptime now && e.in_use == 0

-- The counters of `sec_mod_st`; its table of clients is passed beside them.
pub record SecStats : Type 0 where
  pub auth_failures : ℕ
  pub max_auth_time : ℕ
  pub avg_auth_time : ℕ
  pub total_authentications : ℕ

-- What goes out: messages to the worker and the main process, and calls of the accounting module.
pub data Effect : Type 0 where
  ban_ip : List ℕ → ℕ → List ℕ → Effect
  auth_reply_ok : List ℕ → Option (List ℕ) → List ℕ → Effect
  auth_reply_msg : Option (List ℕ) → ℕ → List ℕ → Effect
  auth_reply_failed : Effect
  session_reply_ok : AcctInfo → Bool → ℕ → List ℕ → Effect
  session_reply_failed : Effect
  cli_stats : ℕ → ℕ → Option ℕ → Effect
  acct_stats : Stats → Effect
  acct_close : Stats → ℕ → Effect
