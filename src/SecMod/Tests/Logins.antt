-- ===== src/SecMod/Tests/Logins.antt =====
-- The theorems on authentication at a concrete client.
use ocserv_ppa.Base.{ℕ, ◌≡◌, refl, true, List, [], ◌∷◌, some}
use ocserv_ppa.Base.Int.{pos}
use ocserv_ppa.Base.Bytes.{bytes_eq}
use ocserv_ppa.SecMod.{AuthStatus, AuthMod, in_progress}
use ocserv_ppa.SecMod.Group.{
  check_group, module_group, certificate_group, check_cert_user_group_status, match_certificate,
}
use ocserv_ppa.SecMod.Auth.{
  handle_sec_auth_res, handle_sec_auth_cont, ask_module, accept_auth, send_auth_reply,
  auth_cont_result,
}
use ocserv_ppa.SecMod.Auth.Safety.{handle_sec_auth_cont-completed}
use ocserv_ppa.SecMod.Tests.{D, one_password, sid, counters, client, one_client, found}

abbrev password : List ℕ
password = 112 ∷ []

handle_sec_auth_cont-completed_example :
    (in_progress AuthStatus.init ≡ true)
    × (pass : List ℕ) × (m : AuthMod (Unit {0})) × (some password ≡ some pass)
    × (some one_password ≡ some m)
    × ((m.auth_pass (some tt) pass).0 ≡ pos 0)
unfolding handle_sec_auth_cont auth_cont_result handle_sec_auth_res ask_module accept_auth
    send_auth_reply check_group module_group certificate_group check_cert_user_group_status
    match_certificate bytes_eq
handle_sec_auth_cont-completed_example =
    handle_sec_auth_cont-completed D 200 (pos 0) counters (one_client AuthStatus.init) sid
      (some password) (client AuthStatus.init)
      (record (client AuthStatus.completed) { exptime = 500 }) refl (found AuthStatus.init) refl
      refl refl
