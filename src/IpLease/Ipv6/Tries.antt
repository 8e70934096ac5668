-- ===== src/IpLease/Ipv6/Tries.antt =====
-- Which bytes the tries for an IPv6 address use.
use ocserv_ppa.Base.{ℕ, ◌≤◌, ◌<◌, ◌≡◌, arith, List}
use ocserv_ppa.IpLease.{Env}
use ocserv_ppa.IpLease.Ipv6.{next_rnd6}

-- The five tries after the first one, 15 to 11 before the end, take the same bytes for every client
-- and on every try.
pub next_rnd6-fixed :
    (env : Env) (seed seed' : List ℕ) (i j : ℕ)
    → 11 ≤ i
    → i < 16
    → 11 ≤ j
    → j < 16
    → next_rnd6 env seed i ≡ next_rnd6 env seed' j
unfolding next_rnd6
next_rnd6-fixed env seed seed' i j a b c d = ground arith
