-- ===== src/SecMod/Auth.antt =====
-- The authentication handlers of src/sec-mod-auth.c. A handler gives its result, what it sends, and
-- the counters and the table that it leaves. The answer of `send_msg` for the reply is an argument;
-- that of the BAN_IP message only goes to the log, and is left out.
pub mod Safety
pub mod Init
pub mod Sid
use Prim.Native.Nat.{bit_and}
use ocserv_ppa.Base.{
  ℕ, zero, suc, ◌+◌, ◌-◌, ◌*◌, ◌/◌, ◌%◌, ◌^◌, Bool, true, false, ◌&&◌, ◌||◌, not, List, [], ◌∷◌,
  ◌++◌, map, Option, none, some, ltb, leb, ◌==◌, if◌then◌else◌, length, take,
}
use ocserv_ppa.Base.Int.{
  ℤ, pos, negsuc, sub_ℕ, is_neg, is_zero, is_auth_continue, err_bad_command, err_auth_continue,
}
use ocserv_ppa.Base.Table.{Table}
use ocserv_ppa.SecMod.{
  AuthStatus, is_init, is_failed, in_progress, AuthMod, AuthMethod, AuthInit, PasswdMsg, Vhost,
  ClientEntry, SecStats, Effect, ban_ip, auth_reply_ok, auth_reply_msg, auth_reply_failed, strlcpy,
  sid_size, max_username_size, max_ip_str, max_groups,
}
use ocserv_ppa.SecMod.Db.{find_client_entry, new_client_entry}
use ocserv_ppa.SecMod.Group.{check_group}

-- `sec_mod_add_score_to_ip` for a wrong password.
pub sec_mod_add_score_to_ip : {Ctx : Type 0} → ClientEntry Ctx → List Effect
sec_mod_add_score_to_ip e =
    if e.vhost.max_ban_score == 0
    then []
    else ban_ip e.acct_info.remote_ip e.vhost.ban_points_wrong_password e.sid ∷ []

-- The counters are `uint32_t`; the product wraps, the sum with the time does not.
unfoldable pub update_auth_time_stats : SecStats → ℤ → SecStats
update_auth_time_stats s (negsuc n) = s
update_auth_time_stats s (pos secs) =
    let total = (s.total_authentications + 1) % 2 ^ 32 in
    if total == 0
    then record s { total_authentications = 0; avg_auth_time = 0; max_auth_time = 0 }
    else record s {
      total_authentications = total;
      max_auth_time = if ltb s.max_auth_time secs then secs % 2 ^ 32 else s.max_auth_time;
      avg_auth_time = ((s.avg_auth_time * (total - 1) % 2 ^ 32 + secs) / total) % 2 ^ 32;
    }

-- What a handler leaves: its result, what it sends, the counters and the entry.
pub record Outcome (Ctx : Type 0) : Type 0 where
  pub ret : ℤ
  pub effects : List Effect
  pub counters : SecStats
  pub entry : ClientEntry Ctx

module _ {Ctx : Type 0} where
  -- The message of the module, and whether the password is asked for again at the same stage.
  unfoldable pub ask_module : ℤ → ClientEntry Ctx → ℤ × Bool × ClientEntry Ctx
  ask_module result e =
      if is_auth_continue result || is_zero result
      then elim e.auth_mod [
        | none ↦ (pos 0, true, e)
        | some m ↦
            (let (ret, pst) = m.auth_msg e.auth_ctx in
              if is_neg ret then (ret, true, record e { status = AuthStatus.failed }) else (
                pos 0,
                not (ltb e.passwd_counter pst.counter),
                record e { msg_str = pst.msg_str; passwd_counter = pst.counter },
              ))
      ]
      else (pos 0, true, e)

  abbrev pub allows_retries : Option (AuthMod Ctx) → Bool
  allows_retries none = false
  allows_retries (some m) = m.allows_retries

  -- The module may change the name of an accepted user.
  abbrev pub final_username : ClientEntry Ctx → List ℕ
  final_username e = elim e.auth_mod [
    | none ↦ e.acct_info.username
    | some m ↦ m.auth_user e.auth_ctx e.acct_info.username
  ]

module _ {Ctx : Type 0} (now : ℕ) (sent : ℤ) where
  -- `send_sec_auth_reply`
  unfoldable pub send_auth_reply : Bool → SecStats → ClientEntry Ctx → Outcome Ctx
  send_auth_reply accepted s e = record {
    ret = if is_neg sent then sent else pos 0;
    effects =
        (if accepted then auth_reply_ok e.acct_info.username e.msg_str e.sid else auth_reply_failed)
        ∷ [];
    counters =
        if accepted
        then update_auth_time_stats s (sub_ℕ now e.created)
        else record s { auth_failures = (s.auth_failures + 1) % 2 ^ 64 };
    entry = if is_neg sent then e else record e { msg_str = none };
  }

  -- Another message is wanted from the client: the first half of `handle_sec_auth_res`'s branches.
  pub continue_auth : Bool → SecStats → ClientEntry Ctx → Outcome Ctx
  continue_auth again s e = record {
    ret = if is_neg sent then sent else pos 0;
    effects =
        (if not (is_init e.status) && allows_retries e.auth_mod && again
          then sec_mod_add_score_to_ip e
          else [])
        ++ auth_reply_msg e.msg_str e.passwd_counter e.sid ∷ [];
    counters = s;
    entry =
        if is_neg sent
        then record e { msg_str = none; status = AuthStatus.failed }
        else record e { msg_str = none };
  }

  -- The module is satisfied.
  unfoldable pub accept_auth : SecStats → ClientEntry Ctx → Outcome Ctx
  accept_auth s e =
      let (ret, e1) = check_group e in
      if is_neg ret
      then record {
        ret = ret;
        effects = [];
        counters = s;
        entry = record e1 { status = AuthStatus.failed };
      }
      else let e2 = record e1 {
        status = AuthStatus.completed;
        acct_info = record (e1.acct_info) { username = final_username e1 };
      } in
        let o = send_auth_reply true s e2 in
        if is_neg o.ret
        then record o { entry = record (o.entry) { status = AuthStatus.failed } }
        else o

  pub refuse_auth : ℤ → SecStats → ClientEntry Ctx → Outcome Ctx
  refuse_auth result s e =
      let e1 = record e { status = AuthStatus.failed } in
      let o = send_auth_reply false s e1 in
      record o {
        ret = if is_neg o.ret then o.ret else if is_neg result then result else err_bad_command;
        effects = sec_mod_add_score_to_ip e1 ++ o.effects;
      }

  -- What follows from the result of an authentication function.
  unfoldable pub handle_sec_auth_res : SecStats → ClientEntry Ctx → ℤ → Outcome Ctx
  handle_sec_auth_res s e result =
      let (ret, again, e1) = ask_module result e in
      if is_neg ret
      then record { ret = ret; effects = []; counters = s; entry = e1 }
      else if is_auth_continue result
      then continue_auth again s e1
      else if is_zero result && not (is_failed e1.status)
      then accept_auth s e1
      else refuse_auth result s e1

module _ {Ctx : Type 0} where
  -- The result and the entry that `handle_sec_auth_cont` hands to `handle_sec_auth_res`.
  unfoldable pub auth_cont_result : ClientEntry Ctx → Option (List ℕ) → ℤ × ClientEntry Ctx
  auth_cont_result e password =
      if not (in_progress e.status) then (negsuc 0, e) else elim password [
        | none ↦ (negsuc 0, e)
        | some pass ↦ elim e.auth_mod [
          | none ↦ (negsuc 0, e)
          | some m ↦
              (let (ret, ctx) = m.auth_pass e.auth_ctx pass in
                (ret, record e { status = AuthStatus.cont; auth_ctx = ctx }))
        ]
      ]

-- The table holds what the handler left of the entry.
abbrev pub stored :
    {Ctx : Type 0} (D : Table (ClientEntry Ctx))
    → D.Rep
    → Outcome Ctx
    → ℤ × List Effect × SecStats × D.Rep
stored D db o = (o.ret, o.effects, o.counters, D.put o.entry.sid o.entry db)

module _ {Ctx : Type 0} (D : Table (ClientEntry Ctx)) (now : ℕ) (sent : ℤ) where
  -- `handle_sec_auth_cont`: a password for the client of this SID.
  unfoldable pub handle_sec_auth_cont :
      SecStats → D.Rep → List ℕ → Option (List ℕ) → ℤ × List Effect × SecStats × D.Rep
  handle_sec_auth_cont s db sid password =
      if not (length sid == sid_size)
      then (negsuc 0, [], s, db)
      else elim (find_client_entry D db sid) [
        | none ↦ (negsuc 0, [], s, db)
        | some e ↦
            (let (ret, e1) = auth_cont_result e password in
              stored D db (handle_sec_auth_res now sent s e1 ret))
      ]

  -- `handle_sec_auth_ban_ip_reply`: the main process says whether the client's address is banned.
  unfoldable pub handle_sec_auth_ban_ip_reply : D.Rep → List ℕ → Bool → D.Rep
  handle_sec_auth_ban_ip_reply db sid accepted =
      if not (length sid == sid_size) then db else elim (find_client_entry D db sid) [
        | none ↦ db
        | some e ↦ if accepted then db else D.put e.sid (record e { status = AuthStatus.failed }) db
      ]
