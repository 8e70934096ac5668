-- ===== src/SecMod/Auth/Sid.antt =====
-- The handlers keep an entry's SID, so it stays where it is in the table.
use ocserv_ppa.Base.{ℕ, ◌≡◌, Bool, List, Option, some, arith, length}
use ocserv_ppa.Base.Int.{ℤ}
use ocserv_ppa.Base.Bytes.{bytes_eq_refl}
use ocserv_ppa.Base.Table.{Table}
use ocserv_ppa.SecMod.{ClientEntry, SecStats, sid_size}
use ocserv_ppa.SecMod.Db.{find_client_entry}
use ocserv_ppa.SecMod.Group.Names.{check_group-sid}
use ocserv_ppa.SecMod.Auth.{
  Outcome, ask_module, accept_auth, continue_auth, refuse_auth, send_auth_reply,
  handle_sec_auth_res, auth_cont_result, handle_sec_auth_cont,
}

module _ {Ctx : Type 0} (now : ℕ) (sent : ℤ) (s : SecStats) where
  accept_auth-sid : (e : ClientEntry Ctx) → (accept_auth now sent s e).entry.sid ≡ e.sid
  unfolding accept_auth send_auth_reply
  accept_auth-sid e = ground (arith, check_group-sid e)

  continue_auth-sid :
      (again : Bool) (e : ClientEntry Ctx) → (continue_auth now sent again s e).entry.sid ≡ e.sid
  unfolding continue_auth
  continue_auth-sid again e = ground arith

  refuse_auth-sid :
      (result : ℤ) (e : ClientEntry Ctx) → (refuse_auth now sent result s e).entry.sid ≡ e.sid
  unfolding refuse_auth send_auth_reply
  refuse_auth-sid result e = ground arith

  ask_module-sid : (e : ClientEntry Ctx) (result : ℤ) → (ask_module result e).2.sid ≡ e.sid
  unfolding ask_module
  ask_module-sid e result = ground arith

  pub handle_sec_auth_res-sid :
      (e : ClientEntry Ctx) (result : ℤ)
      → (handle_sec_auth_res now sent s e result).entry.sid ≡ e.sid
  unfolding handle_sec_auth_res
  handle_sec_auth_res-sid e result = ground (
    arith,
    ask_module-sid e result,
    continue_auth-sid (ask_module result e).1 (ask_module result e).2,
    accept_auth-sid (ask_module result e).2,
    refuse_auth-sid result (ask_module result e).2,
  )

  pub auth_cont_result-sid :
      (e : ClientEntry Ctx) (password : Option (List ℕ))
      → (auth_cont_result e password).1.sid ≡ e.sid
  unfolding auth_cont_result
  auth_cont_result-sid e password = ground arith

module _ {Ctx : Type 0} (D : Table (ClientEntry Ctx)) (now : ℕ) (sent : ℤ) (s : SecStats) where
  -- A password for a known client: the entry becomes what `handle_sec_auth_res` makes of it.
  pub handle_sec_auth_cont-find :
      (db : D.Rep) (sid : List ℕ) (password : Option (List ℕ)) (e : ClientEntry Ctx)
      → length sid ≡ sid_size
      → find_client_entry D db sid ≡ some e
      → e.sid ≡ sid
      → let (result, e1) = auth_cont_result e password in
        let o = handle_sec_auth_res now sent s e1 result in
        let (ret, effects, counters, db') = handle_sec_auth_cont D now sent s db sid password in
        (ret ≡ o.ret) × (effects ≡ o.effects) × (find_client_entry D db' sid ≡ some o.entry)
  unfolding handle_sec_auth_cont
  handle_sec_auth_cont-find db sid password e sized found own = ground (
    arith,
    D.get-put o.entry.sid sid o.entry db,
    handle_sec_auth_res-sid now sent s (auth_cont_result e password).1
        (auth_cont_result e password).0,
    auth_cont_result-sid now sent s e password,
    bytes_eq_refl sid,
  )
    where
      o : Outcome Ctx
      o =
          handle_sec_auth_res now sent s (auth_cont_result e password).1
            (auth_cont_result e password).0
