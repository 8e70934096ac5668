-- ===== src/SecMod/Tests/Entries.antt =====
-- The theorems on entries and groups at a concrete client.
use ocserv_ppa.Base.{ℕ, ◌≡◌, ◌⊎◌, refl, true, false, List, [], Option, some, if◌then◌else◌, ◌==◌}
use ocserv_ppa.Base.Bytes.{bytes_eq}
use ocserv_ppa.SecMod.{AuthStatus}
use ocserv_ppa.SecMod.Db.{blank_entry}
use ocserv_ppa.SecMod.Group.{
  check_group, module_group, certificate_group, check_cert_user_group_status, match_certificate,
}
use ocserv_ppa.SecMod.Group.Names.{check_group-certificate, NamedBy}
use ocserv_ppa.SecMod.Tests.{Entry, vhost, sid, other_sid, client}

abbrev draws : ℕ → Option (List ℕ)
draws i = some (if i == 0 then sid else other_sid)

abbrev fresh : Entry
fresh = blank_entry vhost [] 1 other_sid [] 100

check_group-certificate_example :
    (true ≡ true) × ((true ≡ false) ⊎ NamedBy (client AuthStatus.cont) (client AuthStatus.cont))
unfolding check_group module_group certificate_group check_cert_user_group_status match_certificate
    bytes_eq
check_group-certificate_example = check_group-certificate (client AuthStatus.cont) refl refl
