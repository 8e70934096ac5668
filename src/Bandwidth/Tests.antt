-- ===== src/Bandwidth/Tests.antt =====
-- The limit on the bandwidth at concrete packets.
use ocserv_ppa.Base.{◌+◌, ◌≤◌, ◌≡◌, refl, [], ◌∷◌, arith}
use ocserv_ppa.Bandwidth.{Bandwidth, timespec_sub_ms, count_bytes, bandwidth_update}
use ocserv_ppa.Bandwidth.Window.{IsLimited, passed, passed-window}

-- 1000 kB per second, one packet into a window that began at 10 s.
abbrev busy : Bandwidth
busy = record {
  count_start = record { tv_sec = 10; tv_nsec = 0 };
  transferred_bytes = 1500;
  allowed_kb = 500;
  allowed_kb_per_count = 500;
  kb_per_sec = 1000;
}

busy-IsLimited : IsLimited busy
busy-IsLimited = record { allowed_le = omega arith; fits = omega arith }

passed-window_example :
    1500
      + (passed busy (
          (400000, record { tv_sec = 10; tv_nsec = 100000000 })
          ∷ (200000, record { tv_sec = 10; tv_nsec = 200000000 })
          ∷ [])).0
    ≤ 500000
unfolding timespec_sub_ms
passed-window_example =
    passed-window busy
      ((400000, record { tv_sec = 10; tv_nsec = 100000000 })
        ∷ (200000, record { tv_sec = 10; tv_nsec = 200000000 })
        ∷ [])
      (λ e. absurd (omega (arith, e))) busy-IsLimited (omega arith) (omega arith)
      ((omega arith, omega arith), ((omega arith, omega arith), tt))

-- The first of these packets passes, the second does not.
passes_some :
    (passed busy (
      (400000, record { tv_sec = 10; tv_nsec = 100000000 })
      ∷ (200000, record { tv_sec = 10; tv_nsec = 200000000 })
      ∷ [])).0
    ≡ 400000
unfolding passed bandwidth_update count_bytes timespec_sub_ms
passes_some = refl
