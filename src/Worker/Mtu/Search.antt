-- ===== src/Worker/Mtu/Search.antt =====
-- How the discovery of the MTU over IPv4 comes to its end.
use ocserv_ppa.Base.{
  ℕ, zero, suc, ◌+◌, ◌*◌, ◌/◌, ◌^◌, ◌≤◌, ◌<◌, ◌≡◌, ◌≢◌, ◌⊎◌, inl, inr, true, false, none, leb,
  if◌then◌else◌, arith,
}
use native.Mathlib.Decide.{dec_le, ℕ_discrete}
use ocserv_ppa.Worker.{Worker, min_mtu, buffer_size}
use ocserv_ppa.Worker.Mtu.{disable_mtu_disc, mtu_not_ok4, mtu_not_ok, mtu_discovery_init, mtu_ok}

-- A packet of the full size is sent on a path with the MTU `path`.
unfoldable pub probe : ℕ → Worker → Worker
probe path w = if leb w.link_mtu path then (mtu_ok w).1 else (mtu_not_ok none w).1

unfoldable pub probes : ℕ → ℕ → Worker → Worker
probes zero path w = w
probes (suc n) path w = probes n path (probe path w)

-- The MTU fits the path, and no probe changes it: the discovery was given up at the lowest MTU, or the MTU is
-- the path's, or it is the advertised one and was never too large.
pub record IsSettled (path : ℕ) (w : Worker) : Type 0 where
  pub fits : w.link_mtu ≤ path
  pub final :
      ((w.try_mtu ≡ false) × (w.link_mtu ≡ min_mtu w))
      ⊎ ((w.last_bad_mtu ≡ w.link_mtu + 1) × (w.link_mtu ≡ path))
      ⊎ ((w.last_bad_mtu ≡ w.link_mtu) × (w.link_mtu ≡ w.adv_link_mtu))

-- What holds while the discovery goes on.
pub record IsTrying (path : ℕ) (w : Worker) : Type 0 where
  pub ipv4 : w.is_ipv4 ≡ true
  pub trying : w.try_mtu ≡ true
  pub session : w.dtls_session ≡ true
  pub lowest : min_mtu w ≤ path
  pub room : w.last_bad_mtu ≤ buffer_size
  pub adv_room : w.adv_link_mtu ≤ buffer_size
  pub bad : path < w.last_bad_mtu

-- A power of two, as a bound on what is left between good and bad.
abbrev pub power : ℕ → ℕ
power zero = 1
power (suc k) = 2 * power k

-- The last good MTU is in use.
pub record AtGood (path k : ℕ) (w : Worker) : Type 0 where
  pub on : IsTrying path w
  pub good : w.last_good_mtu ≤ path
  pub lowest : min_mtu w ≤ w.last_good_mtu
  pub link : w.link_mtu ≡ w.last_good_mtu
  pub left : w.last_bad_mtu ≤ w.last_good_mtu + power k

-- The MTU in use is half way.
record Midway (path k : ℕ) (w : Worker) : Type 0 where
  on : IsTrying path w
  good : w.last_good_mtu ≤ path
  lowest : min_mtu w ≤ w.last_good_mtu
  link : w.link_mtu ≡ (w.last_good_mtu + w.last_bad_mtu) / 2
  left : w.last_bad_mtu ≤ w.last_good_mtu + power k

-- No MTU is known to be good yet; the bounds that the MTU in use goes through.
abbrev pub bound : ℕ → ℕ
bound zero = 800
bound (suc j) = bound j * 3 / 2

pub record TooHigh (path j : ℕ) (w : Worker) : Type 0 where
  pub on : IsTrying path w
  pub good : w.last_good_mtu ≡ w.link_mtu
  pub link : path < w.link_mtu
  pub below : w.link_mtu ≤ w.last_bad_mtu
  pub left : w.link_mtu ≤ bound j

probe-IsSettled :
    (path : ℕ) (w : Worker) → path < 2 ^ 32 → IsSettled path w → IsSettled path (probe path w)
unfolding probe mtu_ok mtu_not_ok
probe-IsSettled path w small s = ground (arith, s, small)

probes-IsSettled :
    (n path : ℕ) (w : Worker) → path < 2 ^ 32 → IsSettled path w → IsSettled path (probes n path w)
unfolding probes
probes-IsSettled zero path w small s = s
probes-IsSettled (suc n) path w small s =
    probes-IsSettled n path (probe path w) small (probe-IsSettled path w small s)

probe-low :
    (path k : ℕ) (w : Worker) → AtGood path k w → IsSettled path w ⊎ Midway path k (probe path w)
unfolding probe mtu_ok
probe-low path k w s = ground (arith, s)

probe-mid_done :
    (path k : ℕ) (w : Worker)
    → w.link_mtu ≤ path
    → w.last_bad_mtu ≡ w.link_mtu + 1
    → Midway path k w
    → IsSettled path (probe path w)
unfolding probe mtu_ok
probe-mid_done path k w h e s = ground (arith, h, e, s)

probe-mid_up :
    (path k : ℕ) (w : Worker)
    → w.link_mtu ≤ path
    → w.last_bad_mtu ≢ w.link_mtu + 1
    → Midway path (suc k) w
    → Midway path k (probe path w)
unfolding probe mtu_ok
probe-mid_up path k w h e s = ground (arith, h, e, s)

probe-mid_lowest :
    (path k : ℕ) (w : Worker)
    → path < w.link_mtu
    → w.last_good_mtu ≡ min_mtu w
    → Midway path k w
    → IsSettled path (probe path w)
unfolding probe mtu_not_ok mtu_not_ok4 disable_mtu_disc
probe-mid_lowest path k w h e s = ground (arith, h, e, s)

probe-mid_down :
    (path k : ℕ) (w : Worker)
    → path < w.link_mtu
    → w.last_good_mtu ≢ min_mtu w
    → Midway path (suc k) w
    → AtGood path k (probe path w)
unfolding probe mtu_not_ok mtu_not_ok4
probe-mid_down path k w h e s = ground (arith, h, e, s)

mid-IsSettled : (path : ℕ) (w : Worker) → Midway path 0 w → IsSettled path w
mid-IsSettled path w s = ground (arith, s)

pub probe-high :
    (path j : ℕ) (w : Worker)
    → TooHigh path (suc j) w
    → TooHigh path j (probe path w) ⊎ AtGood path 14 (probe path w)
unfolding probe mtu_not_ok mtu_not_ok4
probe-high path j w s = ground (arith, s)

-- Two probes for each halving, and one from the last good MTU.
probes-near :
    (n path k : ℕ) (w : Worker)
    → path < 2 ^ 32
    → ((2 * k ≤ n) × Midway path k w) ⊎ ((2 * k + 1 ≤ n) × AtGood path k w)
    → IsSettled path (probes n path w)
unfolding probes
probes-near n path zero w small (inl (h, s)) =
    probes-IsSettled n path w small (mid-IsSettled path w s)
probes-near zero path (suc k) w small (inl (h, s)) = absurd (omega (arith, h))
probes-near (suc n) path (suc k) w small (inl (h, s)) = elim (dec_le w.link_mtu path) [
  | yes fits ↦ elim (ℕ_discrete w.last_bad_mtu (w.link_mtu + 1)) [
    | yes next ↦
        probes-IsSettled n path (probe path w) small (probe-mid_done path (suc k) w fits next s)
    | no far ↦
        probes-near n path k (probe path w) small
          (inl (omega (arith, h), probe-mid_up path k w fits far s))
  ]
  | no over ↦ elim (ℕ_discrete w.last_good_mtu (min_mtu w)) [
    | yes lowest ↦
        probes-IsSettled n path (probe path w) small
          (probe-mid_lowest path (suc k) w (omega (arith, over)) lowest s)
    | no above ↦
        probes-near n path k (probe path w) small
          (inr (omega (arith, h), probe-mid_down path k w (omega (arith, over)) above s))
  ]
]
probes-near zero path k w small (inr (h, s)) = absurd (omega (arith, h))
probes-near (suc n) path k w small (inr (h, s)) = elim (probe-low path k w s) [
  | inl done ↦ probes-IsSettled (suc n) path w small done
  | inr mid ↦ probes-near n path k (probe path w) small (inl (omega (arith, h), mid))
]

pub high-0 : (path : ℕ) (w : Worker) → TooHigh path 0 w → ⊥
high-0 path w s = ground (arith, s)

probes-high :
    (j n path : ℕ) (w : Worker)
    → path < 2 ^ 32
    → j + 29 ≤ n
    → TooHigh path j w
    → IsSettled path (probes n path w)
unfolding probes
probes-high zero n path w small h s = absurd (high-0 path w s)
probes-high (suc j) zero path w small h s = absurd (omega (arith, h))
probes-high (suc j) (suc n) path w small h s = elim (probe-high path j w s) [
  | inl high ↦ probes-high j n path (probe path w) small (omega (arith, h)) high
  | inr low ↦ probes-near n path 14 (probe path w) small (inr (omega (arith, h), low))
]

start-fits :
    (path : ℕ) (w : Worker)
    → w.link_mtu ≡ w.adv_link_mtu
    → w.link_mtu ≤ path
    → min_mtu w < w.link_mtu
    → IsSettled path ((mtu_discovery_init w w.link_mtu).1)
unfolding mtu_discovery_init
start-fits path w same fits more = ground (arith, same, fits, more)

pub start-high :
    (path : ℕ) (w : Worker)
    → w.is_ipv4 ≡ true
    → w.try_mtu ≡ true
    → w.dtls_session ≡ true
    → w.link_mtu ≡ w.adv_link_mtu
    → w.adv_link_mtu ≤ buffer_size
    → min_mtu w ≤ path
    → path < w.link_mtu
    → TooHigh path 8 ((mtu_discovery_init w w.link_mtu).1)
unfolding mtu_discovery_init
start-high path w v4 trying session same room lowest over =
    ground (arith, v4, trying, session, same, room, lowest, over)

-- The discovery of the MTU over IPv4, where it is on and starts from the advertised MTU, comes to its end in at
-- most 37 packets of the full size, on any path that takes the lowest MTU: from then on the MTU is the one of
-- the path, or the advertised one where the path takes it, or the lowest one after the discovery was given up.
pub probes-settle :
    (n path : ℕ) (w : Worker)
    → path < 2 ^ 32
    → w.is_ipv4 ≡ true
    → w.try_mtu ≡ true
    → w.dtls_session ≡ true
    → w.link_mtu ≡ w.adv_link_mtu
    → w.adv_link_mtu ≤ buffer_size
    → min_mtu w < w.link_mtu
    → min_mtu w ≤ path
    → 37 ≤ n
    → IsSettled path (probes n path ((mtu_discovery_init w w.link_mtu).1))
probes-settle n path w small v4 trying session same room more lowest enough =
    elim (dec_le w.link_mtu path) [
      | yes fits ↦ probes-IsSettled n path _ small (start-fits path w same fits more)
      | no over ↦
          probes-high 8 n path _ small enough
            (start-high path w v4 trying session same room lowest (omega (arith, over)))
    ]
