-- ===== src/Worker/Mtu.antt =====
-- The discovery of the MTU in src/worker-vpn.c: mtu_discovery_init, mtu_ok, mtu_not_ok, data_mtu_set and
-- calc_mtu_values.
pub mod Search
pub mod Between
use ocserv_ppa.Base.{
  ℕ, ◌+◌, ◌*◌, ◌/◌, ◌%◌, ◌^◌, max, Bool, true, false, ◌&&◌, ◌||◌, not, List, [], ◌∷◌, ◌++◌, Option,
  none, some, ltb, leb, ◌==◌, if◌then◌else◌,
}
use ocserv_ppa.Worker.{Worker, Sent, is_disabled, min_mtu, link_mtu_set}

unfoldable pub disable_mtu_disc : Worker → List Sent × Worker
disable_mtu_disc w =
    let (sent, w1) = link_mtu_set w w.adv_link_mtu in (sent, record w1 { try_mtu = false })

-- Back to the last MTU that is good; the link is over IPv4.
unfoldable pub mtu_not_ok4 : Worker → List Sent × Worker
mtu_not_ok4 w =
    let bad = record w { last_bad_mtu = w.link_mtu } in
    if w.last_good_mtu == min_mtu w
    then (let (sent1, w1) = disable_mtu_disc bad in
        let (sent2, w2) = link_mtu_set w1 (min_mtu w) in (sent1 ++ sent2, w2))
    else let good =
        if leb w.link_mtu w.last_good_mtu
        then max ((2 * w.link_mtu % 2 ^ 32) / 3) (min_mtu w)
        else w.last_good_mtu in
      link_mtu_set (record bad { last_good_mtu = good }) good

-- The kernel knows the MTU of a path over IPv6: `pathmtu`, where it tells.
unfoldable pub mtu_not_ok6 : Option ℕ → Worker → List Sent × Worker
mtu_not_ok6 pathmtu w =
    let (sent1, w1) = disable_mtu_disc w in
    let (sent2, w2) = link_mtu_set w1 (min_mtu w) in
    elim pathmtu [
      | none ↦ (sent1 ++ sent2, w2)
      | some mtu ↦ if ltb mtu 1280 then (sent1 ++ sent2, w2) else link_mtu_set w mtu
    ]

unfoldable pub mtu_not_ok : Option ℕ → Worker → List Sent × Worker
mtu_not_ok pathmtu w =
    if not w.try_mtu || not w.dtls_session
    then ([], w)
    else if w.is_ipv4
    then mtu_not_ok4 w
    else mtu_not_ok6 pathmtu w

unfoldable pub mtu_discovery_init : Worker → ℕ → List Sent × Worker
mtu_discovery_init w mtu =
    let (sent, w1) = if leb mtu (min_mtu w) then disable_mtu_disc w else ([], w) in
    (sent, record w1 { last_good_mtu = mtu; last_bad_mtu = mtu })

-- A packet of the full size went through: try half way to the MTU that is bad.
unfoldable pub mtu_ok : Worker → List Sent × Worker
mtu_ok w =
    if not w.try_mtu || not w.is_ipv4
    then ([], w)
    else if w.last_bad_mtu == (w.link_mtu + 1) % 2 ^ 32 || w.last_bad_mtu == w.link_mtu
    then ([], w)
    else link_mtu_set (record w { last_good_mtu = w.link_mtu })
        ((w.link_mtu + w.last_bad_mtu) % 2 ^ 32 / 2)

-- `get_mtu` is the MTU that GnuTLS uses for a size of data.
unfoldable pub data_mtu_set : (ℕ → ℕ) → Worker → ℕ → List Sent × Worker
data_mtu_set get_mtu w mtu =
    let new = get_mtu ((mtu + 1) % 2 ^ 32) in
    if not w.dtls_session
    then ([], w)
    else if new == 0 || new == w.link_mtu
    then ([], w)
    else link_mtu_set w ((new + w.dtls_proto_overhead) % 2 ^ 32)

-- What the headers add, for DTLS. `overhead` is the one of the DTLS session's ciphers, where they are known
-- already; else it keeps the value it had. `vinfo_mtu` is the MTU of the TUN device.
unfoldable pub calc_mtu_values : Option ℕ → ℕ → Worker → Worker
calc_mtu_values overhead vinfo_mtu w =
    let crypto : ℕ = elim overhead [ none ↦ w.dtls_crypto_overhead | some size ↦ size ] in
    record w {
      dtls_proto_overhead = if w.is_ipv4 then 20 + 8 else 40 + 8;
      dtls_crypto_overhead =
          if is_disabled w.udp_state then w.dtls_crypto_overhead else (crypto + 1) % 2 ^ 32;
      link_mtu = vinfo_mtu;
      adv_link_mtu = vinfo_mtu;
    }
