-- ===== src/SecMod/Auth/Safety.antt =====
-- When a client becomes authenticated.
use ocserv_ppa.Base.{
  ℕ, ◌≡◌, refl, ◌≢◌, inl, inr, Bool, true, false, not, ◌&&◌, ◌||◌, List, Option, none, some, arith,
  if◌then◌else◌, length, Option-cases,
}
use ocserv_ppa.Base.Int.{ℤ, pos, negsuc, is_neg, is_zero, is_auth_continue}
use ocserv_ppa.Base.Bytes.{bytes_eq_refl}
use ocserv_ppa.Base.Table.{Table}
use ocserv_ppa.SecMod.{AuthStatus, is_failed, in_progress, AuthMod, ClientEntry, SecStats, sid_size}
use ocserv_ppa.SecMod.Db.{find_client_entry}
use ocserv_ppa.SecMod.Group.{check_group}
use ocserv_ppa.SecMod.Auth.Sid.{handle_sec_auth_cont-find}
use ocserv_ppa.SecMod.Auth.{
  ask_module, accept_auth, continue_auth, refuse_auth, send_auth_reply, handle_sec_auth_res,
  auth_cont_result, handle_sec_auth_cont, handle_sec_auth_ban_ip_reply,
}

module _ {Ctx : Type 0} (now : ℕ) (sent : ℤ) (s : SecStats) where
  accept_auth-status :
      (e : ClientEntry Ctx)
      → (accept_auth now sent s e).entry.status ≡ (
          if is_neg (check_group e).0 || is_neg sent
          then AuthStatus.failed
          else AuthStatus.completed)
  unfolding accept_auth send_auth_reply
  accept_auth-status e = ground arith

  ask_module-status :
      (e : ClientEntry Ctx) (result : ℤ)
      → let (ret, again, e1) = ask_module result e in
        e1.status ≡ (if is_neg ret then AuthStatus.failed else e.status)
  unfolding ask_module
  ask_module-status e result = ground arith

  continue_auth-status :
      (again : Bool) (e : ClientEntry Ctx)
      → (continue_auth now sent again s e).entry.status
        ≡ (if is_neg sent then AuthStatus.failed else e.status)
  unfolding continue_auth
  continue_auth-status again e = ground arith

  refuse_auth-status :
      (result : ℤ) (e : ClientEntry Ctx)
      → (refuse_auth now sent result s e).entry.status ≡ AuthStatus.failed
  unfolding refuse_auth send_auth_reply
  refuse_auth-status result e = ground arith

  -- The status that the result of an authentication function leads to.
  pub handle_sec_auth_res-status :
      (e : ClientEntry Ctx) (result : ℤ)
      → let (ret, again, e1) = ask_module result e in
        (handle_sec_auth_res now sent s e result).entry.status ≡ (
          if is_neg ret
          then AuthStatus.failed
          else if is_auth_continue result
          then (if is_neg sent then AuthStatus.failed else e.status)
          else if is_zero result
              && not (is_failed e.status)
              && not (is_neg (check_group e1).0)
              && not (is_neg sent)
          then AuthStatus.completed
          else AuthStatus.failed)
  unfolding handle_sec_auth_res
  handle_sec_auth_res-status e result = ground (
    arith,
    ask_module-status e result,
    continue_auth-status (ask_module result e).1 (ask_module result e).2,
    accept_auth-status (ask_module result e).2,
    refuse_auth-status result (ask_module result e).2,
  )

  -- The result of an authentication function makes a client authenticated that was not so before
  -- only if the result is zero, the client has not failed, its group is accepted, and the reply is
  -- sent.
  pub handle_sec_auth_res-completed :
      (e : ClientEntry Ctx) (result : ℤ)
      → e.status ≢ AuthStatus.completed
      → (handle_sec_auth_res now sent s e result).entry.status ≡ AuthStatus.completed
      → (result ≡ pos 0)
        × (e.status ≢ AuthStatus.failed)
        × (is_neg (check_group (ask_module result e).2).0 ≡ false)
        × (is_neg sent ≡ false)
  handle_sec_auth_res-completed e result ongoing done =
      ground (arith, handle_sec_auth_res-status e result)

  -- An error makes the client fail, and is handed on.
  handle_sec_auth_res-error :
      (e : ClientEntry Ctx)
      → ((handle_sec_auth_res now sent s e (negsuc 0)).entry.status ≡ AuthStatus.failed)
        × (is_neg (handle_sec_auth_res now sent s e (negsuc 0)).ret ≡ true)
  unfolding handle_sec_auth_res ask_module refuse_auth send_auth_reply
  handle_sec_auth_res-error e = ground arith

module _ {Ctx : Type 0} where
  -- A password is accepted only where one is expected, and by the module.
  auth_cont_result-accepted :
      (e : ClientEntry Ctx) (password : Option (List ℕ))
      → (auth_cont_result e password).0 ≡ pos 0
      → (in_progress e.status ≡ true)
        × (pass : List ℕ) × (m : AuthMod Ctx) × (password ≡ some pass)
        × (e.auth_mod ≡ some m)
        × ((m.auth_pass e.auth_ctx pass).0 ≡ pos 0)
  unfolding auth_cont_result
  auth_cont_result-accepted e none h = ground arith
  auth_cont_result-accepted e (some pass) h = elim (Option-cases e.auth_mod) [
    | inl missing ↦ ground (arith, missing)
    | inr (m, found) ↦ (ground arith, pass, m, refl, found, ground (arith, found))
  ]

  -- Where the module asks for more, the client stays in the middle of its authentication.
  auth_cont_result-continue :
      (e : ClientEntry Ctx) (password : Option (List ℕ))
      → is_auth_continue (auth_cont_result e password).0 ≡ true
      → (auth_cont_result e password).1.status ≡ AuthStatus.cont
  unfolding auth_cont_result
  auth_cont_result-continue e password h = ground arith

  -- A client that is not in the middle of its authentication fails.
  auth_cont_result-stray :
      (e : ClientEntry Ctx) (password : Option (List ℕ))
      → in_progress e.status ≡ false
      → auth_cont_result e password ≡ (negsuc 0, e)
  unfolding auth_cont_result
  auth_cont_result-stray e password h = rw h

module _ {Ctx : Type 0} (D : Table (ClientEntry Ctx)) (now : ℕ) (sent : ℤ) (s : SecStats) where
  -- A password message for the SID of an entry leaves it authenticated only if the client was in
  -- the middle of its authentication, the message had a password, and the client's module accepted
  -- it.
  pub handle_sec_auth_cont-completed :
      (db : D.Rep) (sid : List ℕ) (password : Option (List ℕ)) (e e' : ClientEntry Ctx)
      → length sid ≡ sid_size
      → find_client_entry D db sid ≡ some e
      → e.sid ≡ sid
      → find_client_entry D (handle_sec_auth_cont D now sent s db sid password).3 sid ≡ some e'
      → e'.status ≡ AuthStatus.completed
      → (in_progress e.status ≡ true)
        × (pass : List ℕ) × (m : AuthMod Ctx) × (password ≡ some pass)
        × (e.auth_mod ≡ some m)
        × ((m.auth_pass e.auth_ctx pass).0 ≡ pos 0)
  handle_sec_auth_cont-completed db sid password e e' sized found own found' done =
      auth_cont_result-accepted e password (
        ground (
          arith,
          (handle_sec_auth_cont-find D now sent s db sid password e sized found own).2,
          handle_sec_auth_res-status now sent s (auth_cont_result e password).1
              (auth_cont_result e password).0,
          auth_cont_result-continue e password,
        ))

  -- A password message for the entry of a client that is not in the middle of its authentication is
  -- an error and makes the client fail, whatever the password, also where it was authenticated.
  pub handle_sec_auth_cont-stray :
      (db : D.Rep) (sid : List ℕ) (password : Option (List ℕ)) (e : ClientEntry Ctx)
      → length sid ≡ sid_size
      → find_client_entry D db sid ≡ some e
      → e.sid ≡ sid
      → in_progress e.status ≡ false
      → let (ret, effects, counters, db') = handle_sec_auth_cont D now sent s db sid password in
        (is_neg ret ≡ true)
        × (e' : ClientEntry Ctx) × (find_client_entry D db' sid ≡ some e')
        × (e'.status ≡ AuthStatus.failed)
  handle_sec_auth_cont-stray db sid password e sized found own stray =
      let (ret, effects, left) =
        handle_sec_auth_cont-find D now sent s db sid password e sized found own in
      let same = auth_cont_result-stray e password stray in
      (
        rw (ret, same) (handle_sec_auth_res-error now sent s e).1,
        (handle_sec_auth_res now sent s e (negsuc 0)).entry,
        rw same at left,
        (handle_sec_auth_res-error now sent s e).0,
      )

  ban_reply-find :
      (db : D.Rep) (sid : List ℕ) (e : ClientEntry Ctx)
      → length sid ≡ sid_size
      → find_client_entry D db sid ≡ some e
      → e.sid ≡ sid
      → find_client_entry D (handle_sec_auth_ban_ip_reply D now sent db sid false) sid
        ≡ some (record e { status = AuthStatus.failed })
  unfolding handle_sec_auth_ban_ip_reply
  ban_reply-find db sid e sized found own =
      ground
        (arith, D.get-put e.sid sid (record e { status = AuthStatus.failed }) db, bytes_eq_refl sid)

  -- When the main process says that the address of a client is banned, the entry fails, and a
  -- password message that follows leaves it so.
  pub ban_reply_stops_auth :
      (db : D.Rep) (sid : List ℕ) (password : Option (List ℕ)) (e : ClientEntry Ctx)
      → length sid ≡ sid_size
      → find_client_entry D db sid ≡ some e
      → e.sid ≡ sid
      → let db' = handle_sec_auth_ban_ip_reply D now sent db sid false in
        (e' : ClientEntry Ctx) × (find_client_entry D
            (handle_sec_auth_cont D now sent s db' sid password).3
            sid
          ≡ some e')
        × (e'.status ≡ AuthStatus.failed)
  ban_reply_stops_auth db sid password e sized found own =
      let db' = handle_sec_auth_ban_ip_reply D now sent db sid false in
      let (refused, e', left, failed) =
        handle_sec_auth_cont-stray db' sid password (record e { status = AuthStatus.failed }) sized
          (ban_reply-find db sid e sized found own) own refl in
      (e', left, failed)
