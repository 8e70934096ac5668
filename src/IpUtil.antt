-- ===== src/IpUtil.antt =====
-- Prefixes, network masks and routes (src/ip-util.c). An address is its bytes, the first one first; a
-- text is its bytes without the final NUL.
pub mod Masks
pub mod Routes
mod Tests
use ocserv_ppa.Base.{
  ℕ, zero, suc, ◌+◌, ◌-◌, ◌*◌, ◌/◌, ◌%◌, ◌^◌, ◌||◌, Bool, true, false, List, [], ◌∷◌, ◌++◌, Option,
  none, some, ltb, leb, ◌==◌, if◌then◌else◌, length, take, drop,
}
use ocserv_ppa.Base.Int.{ℤ, pos, negsuc}

-- The loop of `ipv6_prefix_to_mask` over the bytes that are left; `i` bits are still to set.
unfoldable pub prefix_bytes : ℕ → ℕ → List ℕ
prefix_bytes zero i = []
prefix_bytes (suc n) i =
    (if i == 0 then 0 else if leb 8 i then 0xff else (0xff * 2 ^ (8 - i)) % 2 ^ 8)
    ∷ prefix_bytes n (i - 8)

-- `none` is the result 0.
unfoldable pub ipv6_prefix_to_mask : ℕ → Option (List ℕ)
ipv6_prefix_to_mask prefix =
    if prefix == 0 || ltb 128 prefix then none else some (prefix_bytes 16 prefix)

-- `htonl` and `ntohl`: the bytes of a number of 32 bits.
unfoldable pub htonl : ℕ → List ℕ
htonl n = (n / 2 ^ 24) % 256 ∷ (n / 2 ^ 16) % 256 ∷ (n / 2 ^ 8) % 256 ∷ n % 256 ∷ []

-- The number that some bytes stand for; `n` stands for those before them.
unfoldable pub ntohl_from : ℕ → List ℕ → ℕ
ntohl_from n [] = n
ntohl_from n (b ∷ bs) = ntohl_from (n * 256 + b) bs

unfoldable pub ntohl : List ℕ → ℕ
ntohl bs = ntohl_from 0 bs

-- The mask of `ipv4_prefix_to_strmask`.
unfoldable pub ipv4_mask : ℕ → List ℕ
ipv4_mask prefix = htonl (0xFFFFFFFF * 2 ^ (32 - prefix) % 2 ^ 32)

-- The loop of `bit_count`: the number of ones from the lowest one up, or -1 if there is a zero among
-- them. A number of n bits is done after n steps.
unfoldable pub bit_count_loop : ℕ → ℕ → ℕ → Bool → ℤ
bit_count_loop zero i c seen_one = pos c
bit_count_loop (suc n) i c seen_one =
    let rest =
      bit_count_loop n (i / 2) (if i % 2 == 1 then c + 1 else c)
        (if i % 2 == 1 then true else seen_one) in
    if i == 0 then pos c else if i % 2 == 1 then rest else if seen_one then negsuc 0 else rest

unfoldable pub bit_count : ℕ → ℤ
bit_count i = bit_count_loop 32 i 0 false

unfoldable pub mask2prefix : List ℕ → ℤ
mask2prefix mask = bit_count (ntohl mask)

-- `strchr`: the text from the byte on.
unfoldable pub strchr : ℕ → List ℕ → Option (List ℕ)
strchr c [] = none
strchr c (x ∷ xs) = if x == c then some (x ∷ xs) else strchr c xs

-- What the code asks of libc. `atoi` is the value as an `unsigned`, and `print_int` that of "%d".
pub record Libc : Type 0 where
  pub inet_ntop4 : List ℕ → Option (List ℕ)
  pub inet_pton4 : List ℕ → Option (List ℕ)
  pub atoi : List ℕ → ℕ
  pub print_int : ℕ → List ℕ

abbrev pub dot : ℕ
dot = 46

abbrev pub slash : ℕ
slash = 47

module _ (libc : Libc) where
  unfoldable pub ipv4_prefix_to_strmask : ℕ → Option (List ℕ)
  ipv4_prefix_to_strmask prefix =
      if prefix == 0 || ltb 32 prefix then none else libc.inet_ntop4 (ipv4_mask prefix)

  unfoldable pub ipv4_mask_to_int : List ℕ → ℤ
  ipv4_mask_to_int text = elim (libc.inet_pton4 text) [
    | none ↦ negsuc 0
    | some mask ↦ mask2prefix mask
  ]

  -- `route` up to the slash and the text after it, with the mask for the prefix.
  unfoldable pub expand_prefix : List ℕ → List ℕ → ℤ × List ℕ
  expand_prefix route p = elim (strchr dot (drop 1 p)) [
    | some q ↦ (pos 0, route)
    | none ↦ elim (ipv4_prefix_to_strmask (libc.atoi (drop 1 p))) [
      | none ↦ (negsuc 0, route)
      | some mask ↦ (pos 0, take (length route - length p) route ++ slash ∷ mask)
    ]
  ]

  -- The result, and the route afterwards.
  unfoldable pub ip_route_sanity_check : List ℕ → ℤ × List ℕ
  ip_route_sanity_check route = elim (strchr dot route) [
    | none ↦ (pos 0, route)
    | some p ↦ elim (strchr slash p) [ none ↦ (negsuc 0, route) | some q ↦ expand_prefix route q ]
  ]

  -- A prefix that was read from a mask is printed.
  unfoldable pub print_cidr : List ℕ → ℤ → Option (List ℕ)
  print_cidr address (negsuc n) = none
  print_cidr address (pos n) =
      if n == 0 || ltb 32 n then none else some (address ++ slash ∷ libc.print_int n)

  unfoldable pub shorten_mask : List ℕ → List ℕ → Option (List ℕ)
  shorten_mask route p = elim (strchr dot (drop 1 p)) [
    | none ↦ some route
    | some q ↦ print_cidr (take (length route - length p) route) (ipv4_mask_to_int (drop 1 p))
  ]

  unfoldable pub ipv4_route_to_cidr : List ℕ → Option (List ℕ)
  ipv4_route_to_cidr route = elim (strchr dot route) [
    | none ↦ some route
    | some p ↦ elim (strchr slash p) [ none ↦ none | some q ↦ shorten_mask route q ]
  ]
