-- ===== src/SecMod/Tests/Certificates.antt =====
-- A client that is authenticated by its certificate alone, with its first message.
use ocserv_ppa.Base.{true, [], ◌∷◌, none, some}
use ocserv_ppa.Base.Int.{pos}
use ocserv_ppa.SecMod.{AuthMethod, Vhost}
use ocserv_ppa.SecMod.Db.{blank_entry}
use ocserv_ppa.SecMod.Auth.{Outcome, handle_sec_auth_res}
use ocserv_ppa.SecMod.Auth.Init.{SecAuthInitMsg, auth_init_result}
use ocserv_ppa.SecMod.Tests.{Entry, vhost, sid, counters}

abbrev by_certificate : AuthMethod (Unit {0})
by_certificate = record { enabled = true; auth_type = 8; amod = none }

abbrev cert_vhost : Vhost (Unit {0})
cert_vhost = record vhost { auth = by_certificate ∷ [] }

abbrev req : SecAuthInitMsg
req = record {
  vhost = none;
  ip = [];
  auth_type = 8;
  user_name = none;
  our_ip = none;
  user_agent = none;
  tls_auth_ok = true;
  group_name = none;
  cert_user_name = some (97 ∷ []);
  cert_group_names = [];
}

abbrev new : Entry
new = blank_entry cert_vhost [] 1 sid [] 100

-- What the first message makes of the client.
abbrev outcome : Outcome (Unit {0})
outcome =
    handle_sec_auth_res 100 (pos 0) counters (auth_init_result req 1 new).1
      (auth_init_result req 1 new).0
