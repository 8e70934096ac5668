-- ===== src/SecMod/Tests/Sessions.antt =====
-- The theorems on sessions at a concrete client.
use ocserv_ppa.Base.{ℕ, ◌≡◌, refl, true, List, none, some, arith, if◌then◌else◌}
use ocserv_ppa.Base.Int.{pos}
use ocserv_ppa.Base.Bytes.{bytes_eq}
use ocserv_ppa.SecMod.{AuthStatus}
use ocserv_ppa.SecMod.Db.{find_client_entry, cleanup_client_entries, is_invalidated, closed_exptime}
use ocserv_ppa.SecMod.Session.{
  SessionOpenMsg, StatsMsg, StatsReport, handle_secm_session_open_cmd,
  handle_secm_session_close_cmd, open_entry, acct_open, ipv4_seed, sup_config, set_addresses,
}
use ocserv_ppa.SecMod.Session.Open.{session_open-cleanup, is_granted}
use ocserv_ppa.SecMod.Tests.{Entry, D, sid, client, one_client, found}
use ocserv_ppa.SecMod.Session.Reconnect.{reconnect-granted}
use ocserv_ppa.SecMod.Session.{acct_open, ipv4_seed, sup_config, set_addresses}

abbrev open_req : SessionOpenMsg
open_req = record { sid = sid; ipv4 = none; ipv6 = none }

abbrev hash_any : List ℕ → ℕ
hash_any name = 5

session_open-cleanup_example :
    let (ret, effects, db') =
      handle_secm_session_open_cmd D 200
        (pos 0)
        hash_any
        none
        (one_client AuthStatus.completed)
        open_req in
    (e' : Entry) × (find_client_entry D (cleanup_client_entries D 9999 db') sid ≡ some e')
    × (e'.in_use ≡ 1)
unfolding handle_secm_session_open_cmd open_entry acct_open ipv4_seed sup_config set_addresses
    bytes_eq
session_open-cleanup_example =
    session_open-cleanup D 200 (pos 0) hash_any none 9999 (one_client AuthStatus.completed) open_req
      (client AuthStatus.completed) refl (found AuthStatus.completed) refl (omega arith) refl refl

abbrev report : StatsReport
report = record { bytes_in = some 20; bytes_out = none; uptime = some 3 }

abbrev stats_req : StatsMsg
stats_req = record {
  sid = sid;
  counts = report;
  discon_reason = none;
  remote_ip = none;
  ipv4 = none;
  ipv6 = none;
}

-- A client that disconnected 2 seconds ago.
abbrev leaving : Entry
leaving = record (client AuthStatus.completed) { discon_reason = 2 }

abbrev one_leaving : D.Rep
one_leaving = λ j. if bytes_eq sid j then some leaving else none

found_leaving : find_client_entry D one_leaving sid ≡ some leaving
unfolding bytes_eq
found_leaving = refl

reconnect-granted_example :
    is_granted
      (handle_secm_session_open_cmd D 202
        (pos 0)
        hash_any
        none
        (cleanup_client_entries D 202
          (handle_secm_session_close_cmd D 200 (pos 0) one_leaving sid report).2)
        open_req).1
    ≡ true
unfolding is_invalidated closed_exptime acct_open ipv4_seed sup_config set_addresses
reconnect-granted_example =
    reconnect-granted D 200 (pos 0) 202 hash_any none one_leaving report open_req leaving refl
      found_leaving refl refl refl (omega arith) refl (omega arith)
