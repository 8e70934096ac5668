-- ===== src/Worker/Mtu/Between.antt =====
-- What the discovery of the MTU keeps.
use ocserv_ppa.Base.{ℕ, ◌≤◌, ◌≡◌, true, Option, arith}
use ocserv_ppa.Worker.{Worker, min_mtu, buffer_size}
use ocserv_ppa.Worker.Mtu.{disable_mtu_disc, mtu_not_ok4, mtu_not_ok, mtu_discovery_init, mtu_ok}

-- A link over IPv4 whose MTU lies between the last one that is good and the last one that is bad, and the
-- advertised one above them all.
pub record IsBetween (w : Worker) : Type 0 where
  pub ipv4 : w.is_ipv4 ≡ true
  pub good : w.last_good_mtu ≤ w.link_mtu
  pub bad : w.link_mtu ≤ w.last_bad_mtu
  pub lowest : min_mtu w ≤ w.last_good_mtu
  pub highest : w.last_bad_mtu ≤ w.adv_link_mtu
  pub fits : w.adv_link_mtu ≤ buffer_size

pub mtu_discovery_init-IsBetween :
    (w : Worker)
    → w.is_ipv4 ≡ true
    → w.link_mtu ≡ w.adv_link_mtu
    → w.adv_link_mtu ≤ buffer_size
    → min_mtu w ≤ w.link_mtu
    → IsBetween ((mtu_discovery_init w w.link_mtu).1)
unfolding mtu_discovery_init disable_mtu_disc
mtu_discovery_init-IsBetween w v4 same small enough = ground (arith, v4, same, small, enough)

pub mtu_ok-IsBetween : (w : Worker) → IsBetween w → IsBetween ((mtu_ok w).1)
unfolding mtu_ok
mtu_ok-IsBetween w b = ground (arith, b)

pub mtu_not_ok-IsBetween :
    (pathmtu : Option ℕ) (w : Worker) → IsBetween w → IsBetween ((mtu_not_ok pathmtu w).1)
unfolding mtu_not_ok mtu_not_ok4 disable_mtu_disc
mtu_not_ok-IsBetween pathmtu w b = ground (arith, b)
