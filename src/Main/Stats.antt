-- ===== src/Main/Stats.antt =====
-- The statistics of the main process (src/main-sec-mod-cmd.c). Counters are of 64 bits, averages,
-- maxima and MTUs of 32; times are natural numbers.
use ocserv_ppa.Base.{
  ℕ, ◌+◌, ◌-◌, ◌*◌, ◌/◌, ◌%◌, ◌^◌, ◌≤◌, ◌<◌, ◌≡◌, ◌⊎◌, inl, inr, refl, true, false, Bool, ◌&&◌,
  ◌||◌, not, ltb, ◌==◌, if◌then◌else◌, arith,
}
use ocserv_ppa.Main.{MainStats, ProcSt}

-- A sum of 64 bits that wraps is below what was added to.
abbrev pub overflows : ℕ → ℕ → Bool
overflows a b = ltb ((a + b) % 2 ^ 64) a

pub update_auth_failures : MainStats → ℕ → MainStats
update_auth_failures s failures =
    if overflows s.auth_failures failures then record s { auth_failures = 0 } else record s {
      auth_failures = (s.auth_failures + failures) % 2 ^ 64;
      total_auth_failures = (s.total_auth_failures + failures) % 2 ^ 64;
    }

pub reset_stats : MainStats → ℕ → MainStats
reset_stats s now = record s {
  session_idle_timeouts = 0;
  session_timeouts = 0;
  session_errors = 0;
  sessions_closed = 0;
  auth_failures = 0;
  last_reset = now;
  kbytes_in = 0;
  kbytes_out = 0;
  max_session_mins = 0;
  max_auth_time = 0;
}

abbrev pub reason_idle_timeout : ℕ
reason_idle_timeout = 4

abbrev pub reason_error : ℕ
reason_error = 6

abbrev pub reason_session_timeout : ℕ
reason_session_timeout = 7

-- The counters of reasons and of sessions.
pub count_session : MainStats → ℕ → MainStats
count_session s reason = record s {
  session_idle_timeouts =
      if reason == reason_idle_timeout
      then (s.session_idle_timeouts + 1) % 2 ^ 64
      else s.session_idle_timeouts;
  session_timeouts =
      if reason == reason_session_timeout
      then (s.session_timeouts + 1) % 2 ^ 64
      else s.session_timeouts;
  session_errors =
      if reason == reason_error then (s.session_errors + 1) % 2 ^ 64 else s.session_errors;
  sessions_closed = (s.sessions_closed + 1) % 2 ^ 64;
  total_sessions_closed = (s.total_sessions_closed + 1) % 2 ^ 64;
}

-- The MTUs, and the time of the session in minutes.
pub count_mtu : MainStats → ℕ → MainStats
count_mtu s mtu =
    let low = if s.min_mtu == 0 || ltb mtu s.min_mtu then mtu else s.min_mtu in
    record s { min_mtu = low; max_mtu = if s.max_mtu == 0 || ltb low mtu then mtu else s.max_mtu }

pub count_minutes : MainStats → ℕ → MainStats
count_minutes s stime =
    if ltb 0 stime
    then record s {
      avg_session_mins =
          ((((s.sessions_closed - 1) * s.avg_session_mins + stime) % 2 ^ 64) / s.sessions_closed)
          % 2 ^ 32;
      max_session_mins =
          if ltb s.max_session_mins stime then stime % 2 ^ 32 else s.max_session_mins;
    }
    else s

-- The counters start again when their time is over.
unfoldable pub reset_if_over : MainStats → ℕ → ProcSt → MainStats
reset_if_over s now p =
    if not (p.stats_reset_time == 0) && ltb (p.stats_reset_time) (now - s.last_reset)
    then reset_stats s now
    else s

-- The session is counted.
unfoldable pub add_session : MainStats → ℕ → ProcSt → MainStats
add_session s1 now p =
    let s = count_session s1 p.discon_reason in
    let kb_in = p.bytes_in / 1000 in
    let kb_out = p.bytes_out / 1000 in
    if s.sessions_closed == 0 || (overflows s.kbytes_in kb_in || overflows s.kbytes_out kb_out)
    then reset_stats s now
    else count_minutes
        (count_mtu
          (record s {
            kbytes_in = (s.kbytes_in + kb_in) % 2 ^ 64;
            kbytes_out = (s.kbytes_out + kb_out) % 2 ^ 64;
          })
          p.mtu)
        ((now - p.conn_time) / 60)

pub update_main_stats : MainStats → ℕ → ProcSt → MainStats
update_main_stats s now p = add_session (reset_if_over s now p) now p

-- Whether the time that is set for the counters has passed since they began.
abbrev pub IsOver : MainStats → ℕ → ProcSt → Type 0
IsOver s now p = (0 < p.stats_reset_time) × (s.last_reset + p.stats_reset_time < now)

abbrev pub IsCurrent : MainStats → ℕ → ProcSt → Type 0
IsCurrent s now p = (p.stats_reset_time ≡ 0) ⊎ (now ≤ s.last_reset + p.stats_reset_time)

-- Whether the counters with this session have 64 bits.
abbrev pub Fits : MainStats → ProcSt → Type 0
Fits s p =
    (s.kbytes_in + p.bytes_in / 1000 < 2 ^ 64)
    × (s.kbytes_out + p.bytes_out / 1000 < 2 ^ 64)
    × (s.sessions_closed + 1 < 2 ^ 64)

abbrev pub Overflows : MainStats → ProcSt → Type 0
Overflows s p =
    (2 ^ 64 ≤ s.kbytes_in + p.bytes_in / 1000)
    ⊎ (2 ^ 64 ≤ s.kbytes_out + p.bytes_out / 1000)
    ⊎ (2 ^ 64 ≤ s.sessions_closed + 1)

-- When the counters began, and what they are.
abbrev pub Counts : MainStats → ℕ → ℕ → ℕ → ℕ → Type 0
Counts s since kb_in kb_out closed =
    (s.last_reset ≡ since)
    × (s.kbytes_in ≡ kb_in)
    × (s.kbytes_out ≡ kb_out)
    × (s.sessions_closed ≡ closed)

-- What is counted is what fits.
record IsSmall (s : MainStats) (p : ProcSt) : Type 0 where
  kb_in : s.kbytes_in < 2 ^ 64
  kb_out : s.kbytes_out < 2 ^ 64
  closed : s.sessions_closed < 2 ^ 64
  bytes_in : p.bytes_in < 2 ^ 64
  bytes_out : p.bytes_out < 2 ^ 64

counted-Counts :
    (s : MainStats) (mtu stime : ℕ)
    → Counts
        (count_minutes (count_mtu s mtu) stime)
        s.last_reset
        s.kbytes_in
        s.kbytes_out
        s.sessions_closed
unfolding count_minutes count_mtu
counted-Counts s mtu stime = ground arith

-- What makes the counters start again.
abbrev stops : MainStats → ProcSt → Bool
stops s p =
    (s.sessions_closed + 1) % 2 ^ 64 == 0
    || (overflows s.kbytes_in (p.bytes_in / 1000) || overflows s.kbytes_out (p.bytes_out / 1000))

add_session-goes_on :
    (s : MainStats) (now : ℕ) (p : ProcSt)
    → stops s p ≡ false
    → Counts
        (add_session s now p)
        s.last_reset
        ((s.kbytes_in + p.bytes_in / 1000) % 2 ^ 64)
        ((s.kbytes_out + p.bytes_out / 1000) % 2 ^ 64)
        ((s.sessions_closed + 1) % 2 ^ 64)
unfolding add_session count_session
add_session-goes_on s now p going =
    let s1 = count_session s p.discon_reason in
    rw going (
      counted-Counts
        (record s1 {
          kbytes_in = (s1.kbytes_in + p.bytes_in / 1000) % 2 ^ 64;
          kbytes_out = (s1.kbytes_out + p.bytes_out / 1000) % 2 ^ 64;
        })
        p.mtu ((now - p.conn_time) / 60))

add_session-stops :
    (s : MainStats) (now : ℕ) (p : ProcSt)
    → stops s p ≡ true
    → Counts (add_session s now p) now 0 0 0
unfolding add_session count_session reset_stats
add_session-stops s now p stop = rw stop (refl, refl, refl, refl)

add_session-Fits :
    (s : MainStats) (now : ℕ) (p : ProcSt)
    → IsSmall s p
    → Fits s p
    → Counts
        (add_session s now p)
        s.last_reset
        (s.kbytes_in + p.bytes_in / 1000)
        (s.kbytes_out + p.bytes_out / 1000)
        (s.sessions_closed + 1)
add_session-Fits s now p small (f1, f2, f3) =
    let going : stops s p ≡ false = ground (arith, f1, f2, f3) in
    omega (arith, add_session-goes_on s now p going, f1, f2, f3)

add_session-Overflows :
    (s : MainStats) (now : ℕ) (p : ProcSt)
    → IsSmall s p
    → Overflows s p
    → Counts (add_session s now p) now 0 0 0
add_session-Overflows s now p small over =
    let stop : stops s p ≡ true =
      ground
        (arith, over, small.kb_in, small.kb_out, small.closed, small.bytes_in, small.bytes_out) in
    add_session-stops s now p stop

Fits-Overflows : (s : MainStats) (p : ProcSt) → Fits s p ⊎ Overflows s p
Fits-Overflows s p = ground arith

reset_if_over-cases :
    (s : MainStats) (now : ℕ) (p : ProcSt)
    → (IsCurrent s now p × (reset_if_over s now p ≡ s))
      ⊎ (IsOver s now p × (reset_if_over s now p ≡ reset_stats s now))
unfolding reset_if_over
reset_if_over-cases s now p = ground arith

-- When a session ends while the time that is set for the counters is not over, or none is set, the traffic and
-- the sessions that are counted grow by exactly those of this session if all of them fit into 64 bits; if one does
-- not, the counts start again at zero, without this session. When the time is over, they start again with this
-- session.
pub update_main_stats-exact :
    (s : MainStats) (now : ℕ) (p : ProcSt)
    → s.kbytes_in < 2 ^ 64
    → s.kbytes_out < 2 ^ 64
    → s.sessions_closed < 2 ^ 64
    → p.bytes_in < 2 ^ 64
    → p.bytes_out < 2 ^ 64
    → let s' = update_main_stats s now p in
      let kb_in = p.bytes_in / 1000 in
      let kb_out = p.bytes_out / 1000 in
      (IsCurrent s now p
        × Fits s p
        × Counts s' s.last_reset
            (s.kbytes_in + kb_in)
            (s.kbytes_out + kb_out)
            (s.sessions_closed + 1))
      ⊎ (IsCurrent s now p × Overflows s p × Counts s' now 0 0 0)
      ⊎ (IsOver s now p × Counts s' now kb_in kb_out 1)
unfolding update_main_stats reset_stats
update_main_stats-exact s now p a b c d e =
    let small : IsSmall s p = record {
      kb_in = a;
      kb_out = b;
      closed = c;
      bytes_in = d;
      bytes_out = e;
    } in
    elim (reset_if_over-cases s now p) [
      | inl (current, same) ↦ rw same (elim (Fits-Overflows s p) [
        | inl fits ↦ inl (current, fits, add_session-Fits s now p small fits)
        | inr over ↦ inr (inl (current, over, add_session-Overflows s now p small over))
      ])
      | inr (over, reset) ↦ rw reset (
          let s0 = reset_stats s now in
          let small0 : IsSmall s0 p = record {
            kb_in = omega arith;
            kb_out = omega arith;
            closed = omega arith;
            bytes_in = d;
            bytes_out = e;
          } in
          let (since, kb_in, kb_out, closed) =
            add_session-Fits s0 now p small0 (omega (arith, d), omega (arith, e), omega arith) in
          inr (
            inr
              (over, (since, omega (arith, kb_in), omega (arith, kb_out), omega (arith, closed)))))
    ]
