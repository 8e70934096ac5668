-- ===== src/Bandwidth/Window.antt =====
-- How much passes within one window of 500 ms, and over any number of windows.
use ocserv_ppa.Base.{
  ℕ, ◌+◌, ◌*◌, ◌^◌, ◌≤◌, ◌<◌, ◌≡◌, ◌≢◌, List, [], ◌∷◌, arith, if◌then◌else◌, max, All, sym, ap, ◌∙◌,
}
use ocserv_ppa.Bandwidth.{
  Timespec, Bandwidth, count_update_ms, timespec_sub_ms, bandwidth_init, next_allowed_kb,
  begin_window, count_bytes, bandwidth_update,
}

-- The bytes of the packets that pass, of those that are asked for at these times.
unfoldable pub passed : Bandwidth → List (ℕ × Timespec) → ℕ × Bandwidth
passed b [] = (0, b)
passed b ((bytes, now) ∷ packets) =
    let (sent, b1) = bandwidth_update b bytes now in
    let (rest, b2) = passed b1 packets in ((if sent then bytes else 0) + rest, b2)

-- The limits that hold of a worker's counts.
pub record IsLimited (b : Bandwidth) : Type 0 where
  pub allowed_le : b.allowed_kb ≤ b.kb_per_sec
  pub fits : b.kb_per_sec * 1000 < 2 ^ 64

pub bandwidth_init-IsLimited : (kb : ℕ) → kb * 1000 < 2 ^ 64 → IsLimited (bandwidth_init kb)
unfolding bandwidth_init
bandwidth_init-IsLimited kb h = record { allowed_le = omega arith; fits = h }

next_allowed-le : (b : Bandwidth) (diff : ℕ) → next_allowed_kb b diff ≤ b.kb_per_sec
unfolding next_allowed_kb
next_allowed-le b diff = ground arith

-- Every update keeps the allowance of a window at or below the limit for a second, whatever is sent
-- and whenever. (The limit in bytes fits 64 bits.)
pub bandwidth_update-IsLimited :
    (b : Bandwidth) (bytes : ℕ) (now : Timespec)
    → IsLimited b
    → IsLimited (bandwidth_update b bytes now).1
unfolding bandwidth_update count_bytes begin_window
bandwidth_update-IsLimited b bytes now h =
    ground (arith, next_allowed-le b (timespec_sub_ms now b.count_start))

-- A packet within the window of `b`.
abbrev pub InWindow : Timespec → ℕ × Timespec → Type 0
InWindow start (bytes, now) = (timespec_sub_ms now start < count_update_ms) × (bytes < 2 ^ 63)

-- One packet in the window.
update-window :
    (b : Bandwidth) (bytes : ℕ) (now : Timespec)
    → b.kb_per_sec ≢ 0
    → IsLimited b
    → b.transferred_bytes < 2 ^ 63
    → b.allowed_kb * 1000 < 2 ^ 63
    → timespec_sub_ms now b.count_start < count_update_ms
    → bytes < 2 ^ 63
    → let (sent, b1) = bandwidth_update b bytes now in
      (b1.transferred_bytes ≡ b.transferred_bytes + (if sent then bytes else 0))
      × (b1.transferred_bytes ≤ max b.transferred_bytes (b.allowed_kb * 1000))
      × (b1.count_start ≡ b.count_start)
      × (b1.allowed_kb ≡ b.allowed_kb)
      × (b1.kb_per_sec ≡ b.kb_per_sec)
unfolding bandwidth_update count_bytes
update-window b bytes now nonzero limited small small' inside h = ground arith

-- With a limit set, no more passes within a window of 500 ms than its allowance, together with what
-- passed in it before: only the bytes that were counted already may be above it. (All packets come
-- within the window, and packets and allowance are below 2^63 bytes.)
pub passed-window :
    (b : Bandwidth) (packets : List (ℕ × Timespec))
    → b.kb_per_sec ≢ 0
    → IsLimited b
    → b.transferred_bytes < 2 ^ 63
    → b.allowed_kb * 1000 < 2 ^ 63
    → All (InWindow b.count_start) packets
    → b.transferred_bytes + (passed b packets).0 ≤ max b.transferred_bytes (b.allowed_kb * 1000)
unfolding passed
passed-window b [] nonzero limited small small' inside = omega arith
passed-window b ((bytes, now) ∷ packets) nonzero limited small small' ((soon, short), inside) =
    let b1 = (bandwidth_update b bytes now).1 in
    let (counted, most, start, allowed, rate) =
      update-window b bytes now nonzero limited small small' soon short in
    let rest =
      passed-window b1 packets (λ e. nonzero (sym rate ∙ e))
        (bandwidth_update-IsLimited b bytes now limited) (omega (arith, most))
        (omega (arith, ap (λ x. x * 1000) allowed)) (rw start inside) in
    omega (arith, rest, counted, most, ap (λ x. x * 1000) allowed)
