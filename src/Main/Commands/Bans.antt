-- ===== src/Main/Commands/Bans.antt =====
-- A wrong password on its way through the three parties: the security module asks the main process
-- for points, the main process says that the address is banned, and the security module stops the
-- authentication.
use ocserv_ppa.Base.{ℕ, List, [], ◌∷◌}
use ocserv_ppa.Base.Int.{ℤ}
use ocserv_ppa.Base.Index.{Index}
use ocserv_ppa.Base.Table.{Table}
use ocserv_ppa.IpLease.{IpLease}
use ocserv_ppa.SecMod.{ClientEntry}
use ocserv_ppa.SecMod.Auth.{handle_sec_auth_ban_ip_reply}
use ocserv_ppa.Main.{MainEffect, secm_ban_reply}

-- The security module gets the replies of the main process.
pub deliver : {Ctx : Type 0} (D : Table (ClientEntry Ctx)) → ℕ → ℤ → List MainEffect → D.Rep → D.Rep
deliver D now sent [] db = db
deliver D now sent (secm_ban_reply sid accepted ∷ es) db =
    deliver D now sent es (handle_sec_auth_ban_ip_reply D now sent db sid accepted)
deliver D now sent (e ∷ es) db = deliver D now sent es db
