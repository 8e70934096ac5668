-- ===== src/Bandwidth.antt =====
-- src/worker-bandwidth.c, src/worker-bandwidth.h: the limit on what a worker passes on in a second.
-- `size_t` and `ssize_t` have 64 bits; the signed values are only compared as unsigned ones, and are
-- kept modulo 2^64.
pub mod Window
mod Tests
use ocserv_ppa.Base.{
  ℕ, ◌+◌, ◌-◌, ◌*◌, ◌/◌, ◌%◌, ◌^◌, Bool, true, false, ltb, leb, ◌==◌, if◌then◌else◌,
}

-- `struct timespec`
pub record Timespec : Type 0 where
  pub tv_sec : ℕ
  pub tv_nsec : ℕ

-- `bandwidth_st`
pub record Bandwidth : Type 0 where
  pub count_start : Timespec
  pub transferred_bytes : ℕ
  pub allowed_kb : ℕ
  pub allowed_kb_per_count : ℕ
  pub kb_per_sec : ℕ

abbrev pub count_update_ms : ℕ
count_update_ms = 500

abbrev ms : Timespec → ℕ
ms t = t.tv_sec * 1000 + t.tv_nsec / (1000 * 1000)

-- The difference as an `unsigned int`.
unfoldable pub timespec_sub_ms : Timespec → Timespec → ℕ
timespec_sub_ms a b = (ms a % 2 ^ 32 + (2 ^ 32 - ms b % 2 ^ 32)) % 2 ^ 32

unfoldable pub bandwidth_init : ℕ → Bandwidth
bandwidth_init kb_per_sec = record {
  count_start = record { tv_sec = 0; tv_nsec = 0 };
  transferred_bytes = 0;
  allowed_kb = 0;
  allowed_kb_per_count = (kb_per_sec * count_update_ms % 2 ^ 64) / 1000;
  kb_per_sec = kb_per_sec;
}

-- What may pass in the window that begins.
unfoldable pub next_allowed_kb : Bandwidth → ℕ → ℕ
next_allowed_kb b diff =
    let transferred_kb = (b.transferred_bytes / 1000 * count_update_ms % 2 ^ 64) / diff in
    let t = (b.allowed_kb_per_count + b.allowed_kb + (2 ^ 64 - transferred_kb)) % 2 ^ 64 in
    if ltb t b.kb_per_sec then t else b.kb_per_sec

-- A new window begins with these bytes.
unfoldable pub begin_window : Bandwidth → ℕ → Timespec → Bandwidth
begin_window b bytes now = record b {
  count_start = now;
  allowed_kb = next_allowed_kb b (timespec_sub_ms now b.count_start);
  transferred_bytes = bytes;
}

-- `_bandwidth_update`: whether the bytes may pass, and the counts afterwards.
unfoldable pub count_bytes : Bandwidth → ℕ → Timespec → Bool × Bandwidth
count_bytes b bytes now =
    let sum = (b.transferred_bytes + bytes) % 2 ^ 64 in
    if leb count_update_ms (timespec_sub_ms now b.count_start)
    then (true, begin_window b bytes now)
    else if ltb (b.allowed_kb * 1000 % 2 ^ 64) sum
    then (false, b)
    else (true, record b { transferred_bytes = sum })

unfoldable pub bandwidth_update : Bandwidth → ℕ → Timespec → Bool × Bandwidth
bandwidth_update b bytes now = if b.kb_per_sec == 0 then (true, b) else count_bytes b bytes now
