-- ===== src/SecMod/Auth/Init/Accept.antt =====
-- Who is authenticated by its first message.
use ocserv_ppa.Base.{Option}
use ocserv_ppa.Base.Table.{Table}
use ocserv_ppa.SecMod.{AuthMethod, ClientEntry}

module _ {Ctx : Type 0} where
  -- The entry of a client that uses this method.
  abbrev pub with_method : ClientEntry Ctx → AuthMethod Ctx → ClientEntry Ctx
  with_method e m = record e { auth_mod = m.amod; auth_type = m.auth_type }
