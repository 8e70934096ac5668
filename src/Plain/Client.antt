-- ===== src/Plain/Client.antt =====
-- A client of the security module whose method is the one of src/auth/plain.c.
use ocserv_ppa.Base.{ℕ, Bool, ◌≡◌, refl, List, Option, some, length, ap, sym, ◌∙◌}
use ocserv_ppa.Base.Int.{ℤ, pos, is_zero}
use ocserv_ppa.Base.Table.{Table}
use ocserv_ppa.SecMod.{AuthStatus, AuthMod, ClientEntry, SecStats, sid_size}
use ocserv_ppa.SecMod.Db.{find_client_entry}
use ocserv_ppa.SecMod.Auth.{handle_sec_auth_cont}
use ocserv_ppa.SecMod.Auth.Safety.{handle_sec_auth_cont-completed}
use ocserv_ppa.Plain.{PlainCtx, PlainCfg, plain_auth_pass, plain_auth_funcs}
use ocserv_ppa.Plain.Passwords.{IsRight, plain_auth_pass-IsRight}

module _ (crypt : List ℕ → List ℕ → Option (List ℕ)) (oath : List ℕ → List ℕ → Bool) where
  funcs-auth_pass :
      (cfg : PlainCfg) (size : ℕ) (p : PlainCtx) (pass : List ℕ)
      → (AuthMod.auth_pass (plain_auth_funcs crypt oath cfg size) (some p) pass).0
        ≡ (plain_auth_pass crypt oath cfg p pass).0
  unfolding plain_auth_funcs
  funcs-auth_pass cfg size p pass = refl

  -- A password message authenticates a client of the password file only with a right password: one that has the
  -- hash of the user in the file, where no password was wrong before, or, with one-time passwords, the next one.
  pub plain-completed :
      (D : Table (ClientEntry PlainCtx)) (now : ℕ) (sent : ℤ) (s : SecStats) (db : D.Rep)
      (sid : List ℕ) (password : Option (List ℕ)) (e e' : ClientEntry PlainCtx) (cfg : PlainCfg)
      (size : ℕ) (p : PlainCtx)
      → length sid ≡ sid_size
      → find_client_entry D db sid ≡ some e
      → e.sid ≡ sid
      → e.auth_mod ≡ some (plain_auth_funcs crypt oath cfg size)
      → e.auth_ctx ≡ some p
      → find_client_entry D (handle_sec_auth_cont D now sent s db sid password).3 sid ≡ some e'
      → e'.status ≡ AuthStatus.completed
      → (pass : List ℕ) × (password ≡ some pass) × IsRight crypt oath cfg p pass
  plain-completed D now sent s db sid password e e' cfg size p sized found own used_mod ctx found'
        done =
      let (going, pass, m, given, used, accepted) =
        handle_sec_auth_cont-completed D now sent s db sid password e e' sized found own found'
          done in
      let same : m ≡ plain_auth_funcs crypt oath cfg size = cc (used, used_mod) in
      let result : (plain_auth_pass crypt oath cfg p pass).0 ≡ pos 0 =
        sym (funcs-auth_pass cfg size p pass)
        ∙ ap
            (λ (c : Option PlainCtx).
              (AuthMod.auth_pass (plain_auth_funcs crypt oath cfg size) c pass).0)
            (sym ctx)
        ∙ ap (λ (f : AuthMod PlainCtx). (AuthMod.auth_pass f e.auth_ctx pass).0) (sym same)
        ∙ accepted in
      (pass, given, plain_auth_pass-IsRight crypt oath cfg p pass (ap is_zero result))
