-- ===== src/IpUtil/Masks.antt =====
-- Prefixes and masks stand for each other.
use ocserv_ppa.Base.{
  ℕ, zero, suc, ◌+◌, ◌/◌, ◌^◌, ◌<◌, ◌≤◌, ◌≡◌, refl, ap, Bool, true, false, ◌&&◌, arith, ◌==◌,
  ==_iff,
}
use ocserv_ppa.Base.Int.{ℤ, pos, negsuc}
use ocserv_ppa.IpUtil.{htonl, ntohl, ntohl_from, ipv4_mask, bit_count_loop, bit_count, mask2prefix}

-- The loop that counts the bits has the same result for all numbers of steps that are not below the
-- number of bits.
pub bit_count-fuel :
    (n m i c : ℕ) (seen_one : Bool)
    → i < 2 ^ n
    → i < 2 ^ m
    → bit_count_loop n i c seen_one ≡ bit_count_loop m i c seen_one
unfolding bit_count_loop
bit_count-fuel zero zero i c seen_one h h' = refl
bit_count-fuel zero (suc m) i c seen_one h h' = ground arith
bit_count-fuel (suc n) zero i c seen_one h h' = ground arith
bit_count-fuel (suc n) (suc m) i c seen_one h h' =
    let half : i / 2 < 2 ^ n = omega arith in
    let half' : i / 2 < 2 ^ m = omega arith in
    ground (
      arith,
      bit_count-fuel n m (i / 2) (c + 1) true half half',
      bit_count-fuel n m (i / 2) c seen_one half half',
    )

abbrev is_count : ℤ → ℕ → Bool
is_count (pos n) k = n == k
is_count (negsuc n) k = false

is_count_sound : (z : ℤ) (k : ℕ) → is_count z k ≡ true → z ≡ pos k
is_count_sound (pos n) k h = ap pos ((==_iff n k).0 h)
is_count_sound (negsuc n) k h = cc

all_prefixes : (ℕ → Bool) → ℕ → Bool
all_prefixes p zero = true
all_prefixes p (suc n) = p (suc n) && all_prefixes p n

all_prefixes_sound : (p : ℕ → Bool) (n k : ℕ) → all_prefixes p n ≡ true → 0 < k → k ≤ n → p k ≡ true
unfolding all_prefixes
all_prefixes_sound p zero k h lo hi = absurd (omega arith)
all_prefixes_sound p (suc n) k h lo hi = ground (arith, all_prefixes_sound p n k)

checked : all_prefixes (λ k. is_count (mask2prefix (ipv4_mask k)) k) 32 ≡ true
unfolding all_prefixes mask2prefix ipv4_mask htonl ntohl ntohl_from bit_count bit_count_loop
checked = refl

-- The prefix that is read from the mask for a prefix from 1 to 32 is that prefix.
pub mask2prefix-ipv4_mask :
    (prefix : ℕ) → 0 < prefix → prefix ≤ 32 → mask2prefix (ipv4_mask prefix) ≡ pos prefix
mask2prefix-ipv4_mask prefix lo hi =
    is_count_sound (mask2prefix (ipv4_mask prefix)) prefix
      (all_prefixes_sound (λ k. is_count (mask2prefix (ipv4_mask k)) k) 32 prefix checked lo hi)
