-- ===== src/Worker/Loops/Handshake.antt =====
-- The handshake of DTLS ends, with packets that fit the path.
use ocserv_ppa.Base.{
  ℕ, zero, suc, ◌+◌, ◌≤◌, ◌<◌, ◌≡◌, true, false, Option, none, arith, refl, is_some, inl, inr,
}
use ocserv_ppa.Worker.{Worker, SendRet, min_mtu, buffer_size, is_large}
use native.Mathlib.Decide.{dec_le}
use ocserv_ppa.Worker.Mtu.{mtu_discovery_init, mtu_not_ok}
use ocserv_ppa.Worker.Mtu.Search.{probe, TooHigh, AtGood, probe-high, high-0}
use ocserv_ppa.Worker.Loops.{dtls_handshake, dtls_setup}

-- Packets are not too large where the MTU of the worker is not above the path's.
abbrev pub FollowsPath : (Worker → SendRet) → ℕ → Type 0
FollowsPath answer path = (w : Worker) → w.link_mtu ≤ path → is_large (answer w) ≡ false

-- Without the discovery of the MTU nothing makes the packets smaller: no number of turns is enough.
pub dtls_handshake-stuck :
    (answer : Worker → SendRet) (pathmtu : Option ℕ) (n : ℕ) (w : Worker)
    → w.try_mtu ≡ false
    → answer w ≡ SendRet.large_packet
    → dtls_handshake answer pathmtu n w ≡ none
unfolding dtls_handshake mtu_not_ok
dtls_handshake-stuck answer pathmtu zero w off large = refl
dtls_handshake-stuck answer pathmtu (suc n) w off large =
    ground (arith, off, large, dtls_handshake-stuck answer pathmtu n w off large)

not_ok-probe :
    (pathmtu : Option ℕ) (path : ℕ) (w : Worker)
    → w.is_ipv4 ≡ true
    → path < w.link_mtu
    → (mtu_not_ok pathmtu w).1 ≡ probe path w
unfolding mtu_not_ok probe
not_ok-probe pathmtu path w v4 over = ground (arith, v4, over)

handshake-fits :
    (answer : Worker → SendRet) (pathmtu : Option ℕ) (n : ℕ) (w : Worker)
    → is_large (answer w) ≡ false
    → is_some (dtls_handshake answer pathmtu (suc n) w) ≡ true
unfolding dtls_handshake
handshake-fits answer pathmtu n w fits = ground (arith, fits)

handshake-low :
    (answer : Worker → SendRet) (pathmtu : Option ℕ) (path j n : ℕ) (w : Worker)
    → FollowsPath answer path
    → j + 1 ≤ n
    → AtGood path 14 w
    → is_some (dtls_handshake answer pathmtu n w) ≡ true
handshake-low answer pathmtu path j zero w follows h s = absurd (omega (arith, h))
handshake-low answer pathmtu path j (suc n) w follows h s =
    let fits : w.link_mtu ≤ path = omega (arith, s.link, s.good) in
    handshake-fits answer pathmtu n w (follows w fits)

handshake-high :
    (answer : Worker → SendRet) (pathmtu : Option ℕ) (path j n : ℕ) (w : Worker)
    → FollowsPath answer path
    → j + 1 ≤ n
    → TooHigh path j w
    → is_some (dtls_handshake answer pathmtu n w) ≡ true
unfolding dtls_handshake
handshake-high answer pathmtu path zero n w follows h s = absurd (high-0 path w s)
handshake-high answer pathmtu path (suc j) zero w follows h s = absurd (omega (arith, h))
handshake-high answer pathmtu path (suc j) (suc n) w follows h s =
    let w1 = (mtu_not_ok pathmtu w).1 in
    let same : w1 ≡ probe path w = not_ok-probe pathmtu path w s.on.ipv4 s.link in
    let rest : is_some (dtls_handshake answer pathmtu n w1) ≡ true =
      rw same (elim (probe-high path j w s) [
        | inl high ↦
            handshake-high answer pathmtu path j n (probe path w) follows (omega (arith, h)) high
        | inr low ↦
            handshake-low answer pathmtu path j n (probe path w) follows (omega (arith, h)) low
      ]) in
    ground (arith, rest)

setup-fits :
    (path : ℕ) (w : Worker)
    → w.adv_link_mtu ≤ buffer_size
    → min_mtu w < w.adv_link_mtu
    → w.adv_link_mtu ≤ path
    → (dtls_setup true w).worker.link_mtu ≤ path
unfolding dtls_setup mtu_discovery_init
setup-fits path w room more fits = ground (arith, room, more, fits)

setup-high :
    (path : ℕ) (w : Worker)
    → w.is_ipv4 ≡ true
    → w.try_mtu ≡ true
    → w.adv_link_mtu ≤ buffer_size
    → min_mtu w < w.adv_link_mtu
    → min_mtu w ≤ path
    → path < w.adv_link_mtu
    → TooHigh path 8 (dtls_setup true w).worker
unfolding dtls_setup mtu_discovery_init
setup-high path w v4 on room more lowest over = ground (arith, v4, on, room, more, lowest, over)

-- The handshake that dtls_setup begins, over IPv4 with the discovery of the MTU on, comes to its end in at most
-- 10 turns, on any path that takes the lowest MTU: whether it succeeds, fails or waits for the client. GnuTLS
-- finds no packet too large whose size the path takes.
pub dtls_setup-handshake :
    (answer : Worker → SendRet) (pathmtu : Option ℕ) (path n : ℕ) (w : Worker)
    → FollowsPath answer path
    → w.is_ipv4 ≡ true
    → w.try_mtu ≡ true
    → w.adv_link_mtu ≤ buffer_size
    → min_mtu w < w.adv_link_mtu
    → min_mtu w ≤ path
    → 10 ≤ n
    → is_some (dtls_handshake answer pathmtu n (dtls_setup true w).worker) ≡ true
dtls_setup-handshake answer pathmtu path zero w follows v4 on room more lowest enough =
    absurd (omega (arith, enough))
dtls_setup-handshake answer pathmtu path (suc n) w follows v4 on room more lowest enough =
    elim (dec_le w.adv_link_mtu path) [
      | yes fits ↦
          handshake-fits answer pathmtu n (dtls_setup true w).worker
            (follows _ (setup-fits path w room more fits))
      | no over ↦
          handshake-high answer pathmtu path 8 (suc n) (dtls_setup true w).worker follows
            (omega (arith, enough)) (setup-high path w v4 on room more lowest (omega (arith, over)))
    ]
