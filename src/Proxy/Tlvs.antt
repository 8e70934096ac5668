-- ===== src/Proxy/Tlvs.antt =====
-- What the fields after the addresses of a version 2 header can do.
use ocserv_ppa.Base.{
  ℕ, zero, suc, ◌-◌, ◌≤◌, ◌≡◌, ◌⊎◌, refl, true, false, List, [], ◌∷◌, if◌then◌else◌, length, take,
  drop, arith, length-take,
}
use ocserv_ppa.Proxy.{Cert, ntohs, max_cn, is_verified, parse_ssl_tlvs_loop, parse_ssl_tlvs}

pub length-drop : (n : ℕ) (xs : List ℕ) → length (drop n xs) ≡ length xs - n
length-drop zero xs = omega arith
length-drop (suc n) [] = omega arith
length-drop (suc n) (x ∷ xs) = omega (arith, length-drop n xs)

-- More turns than bytes change nothing.
loop-turns :
    (n m : ℕ) (c : Cert) (bytes : List ℕ)
    → length bytes ≤ n
    → length bytes ≤ m
    → parse_ssl_tlvs_loop n c bytes ≡ parse_ssl_tlvs_loop m c bytes
unfolding parse_ssl_tlvs_loop
loop-turns zero zero c bytes p q = refl
loop-turns zero (suc m) c bytes p q = ground (arith, p)
loop-turns (suc n) zero c bytes p q = ground (arith, q)
loop-turns (suc n) (suc m) c bytes p q =
    let len = ntohs (drop 1 bytes) in
    let value = drop 3 bytes in
    let verified = if is_verified value then record c { auth_ok = true } else c in
    let named = record c { username = take len value } in
    ground (
      arith,
      p,
      q,
      length-drop 3 bytes,
      length-drop 5 value,
      length-drop len value,
      loop-turns n m c value,
      loop-turns n m verified (drop 5 value),
      loop-turns n m named (drop len value),
      loop-turns n m c (drop len value),
    )

loop-username :
    (n : ℕ) (c : Cert) (bytes : List ℕ)
    → (parse_ssl_tlvs_loop n c bytes).auth_ok ≡ false
    → (c.auth_ok ≡ false) × ((parse_ssl_tlvs_loop n c bytes).username ≡ c.username)
unfolding parse_ssl_tlvs_loop
loop-username zero c bytes h = (h, refl)
loop-username (suc n) c bytes h =
    let len = ntohs (drop 1 bytes) in
    let value = drop 3 bytes in
    let verified = if is_verified value then record c { auth_ok = true } else c in
    let named = record c { username = take len value } in
    ground (
      arith,
      h,
      loop-username n c value,
      loop-username n verified (drop 5 value),
      loop-username n named (drop len value),
      loop-username n c (drop len value),
    )

loop-length :
    (n : ℕ) (c : Cert) (bytes : List ℕ)
    → length c.username ≤ max_cn
    → length (parse_ssl_tlvs_loop n c bytes).username ≤ max_cn
unfolding parse_ssl_tlvs_loop
loop-length zero c bytes h = h
loop-length (suc n) c bytes h =
    let len = ntohs (drop 1 bytes) in
    let value = drop 3 bytes in
    let verified = if is_verified value then record c { auth_ok = true } else c in
    let named = record c { username = take len value } in
    ground (
      arith,
      h,
      length-take len value,
      loop-length n c value,
      loop-length n verified (drop 5 value),
      loop-length n named (drop len value),
      loop-length n c (drop len value),
    )

-- Where no certificate is accepted in the end, the name of the user is not touched; and a name that is
-- taken leaves room in its field for the final NUL, if the one before did.
pub parse_ssl_tlvs-username :
    (c : Cert) (bytes : List ℕ)
    → length c.username ≤ max_cn
    → let c' = parse_ssl_tlvs c bytes in
      (length c'.username ≤ max_cn) × ((c'.auth_ok ≡ true) ⊎ (c'.username ≡ c.username))
unfolding parse_ssl_tlvs
parse_ssl_tlvs-username c bytes h =
    ground (arith, h, loop-username (length bytes) c bytes, loop-length (length bytes) c bytes)

-- The loop comes to its end in as many turns as there are bytes, whatever they are: it gives the same
-- for any larger number of turns.
pub parse_ssl_tlvs-turns :
    (n : ℕ) (c : Cert) (bytes : List ℕ)
    → length bytes ≤ n
    → parse_ssl_tlvs_loop n c bytes ≡ parse_ssl_tlvs c bytes
unfolding parse_ssl_tlvs
parse_ssl_tlvs-turns n c bytes h = loop-turns n (length bytes) c bytes h (omega arith)
