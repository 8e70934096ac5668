-- ===== src/IpUtil/Routes.antt =====
-- Routes with a prefix and with a mask stand for each other.
use ocserv_ppa.Base.{
  ℕ, ◌-◌, ◌<◌, ◌≤◌, ◌≡◌, refl, ap, ◌∙◌, List, [], ◌∷◌, ◌++◌, none, some, arith, length, take,
  length-append, take-append,
}
use ocserv_ppa.Base.Int.{pos}
use ocserv_ppa.IpUtil.{
  Libc, dot, slash, strchr, ipv4_mask, ipv4_prefix_to_strmask, ipv4_mask_to_int, expand_prefix,
  ip_route_sanity_check, print_cidr, shorten_mask, ipv4_route_to_cidr,
}
use ocserv_ppa.IpUtil.Masks.{mask2prefix-ipv4_mask}

strchr-append : (c : ℕ) (a b p : List ℕ) → strchr c a ≡ some p → strchr c (a ++ b) ≡ some (p ++ b)
unfolding strchr
strchr-append c [] b p h = ground arith
strchr-append c (x ∷ a) b p h = ground (arith, strchr-append c a b p)

strchr-skip : (c : ℕ) (a b : List ℕ) → strchr c a ≡ none → strchr c (a ++ c ∷ b) ≡ some (c ∷ b)
unfolding strchr
strchr-skip c [] b h = ground arith
strchr-skip c (x ∷ a) b h = ground (arith, strchr-skip c a b)

strchr-rest : (c e : ℕ) (a p : List ℕ) → strchr c a ≡ some p → strchr e a ≡ none → strchr e p ≡ none
unfolding strchr
strchr-rest c e [] p h k = ground arith
strchr-rest c e (x ∷ a) p h k = ground (arith, strchr-rest c e a p)

-- A route is the address, a slash, and the rest.
take-address :
    (a b : List ℕ) → take (length (a ++ slash ∷ b) - length (slash ∷ b)) (a ++ slash ∷ b) ≡ a
take-address a b =
    let e : length (a ++ slash ∷ b) - length (slash ∷ b) ≡ length a =
      omega (arith, length-append a (slash ∷ b)) in
    rw e (take-append (length a) a (slash ∷ b) refl)

module _ (libc : Libc) where
  -- In a text with a dot before its first slash, both functions come to the part from the slash on.
  sanity_check-at :
      (a b p : List ℕ)
      → strchr dot a ≡ some p
      → strchr slash a ≡ none
      → ip_route_sanity_check libc (a ++ slash ∷ b)
        ≡ expand_prefix libc (a ++ slash ∷ b) (slash ∷ b)
  unfolding ip_route_sanity_check
  sanity_check-at a b p dotted slashless = ground (
    arith,
    strchr-append dot a (slash ∷ b) p dotted,
    strchr-skip slash p b (strchr-rest dot slash a p dotted slashless),
  )

  to_cidr-at :
      (a b p : List ℕ)
      → strchr dot a ≡ some p
      → strchr slash a ≡ none
      → ipv4_route_to_cidr libc (a ++ slash ∷ b) ≡ shorten_mask libc (a ++ slash ∷ b) (slash ∷ b)
  unfolding ipv4_route_to_cidr
  to_cidr-at a b p dotted slashless = ground (
    arith,
    strchr-append dot a (slash ∷ b) p dotted,
    strchr-skip slash p b (strchr-rest dot slash a p dotted slashless),
  )

  expand_prefix-mask :
      (a d mask : List ℕ)
      → strchr dot d ≡ none
      → ipv4_prefix_to_strmask libc (libc.atoi d) ≡ some mask
      → expand_prefix libc (a ++ slash ∷ d) (slash ∷ d) ≡ (pos 0, a ++ slash ∷ mask)
  unfolding expand_prefix
  expand_prefix-mask a d mask undotted found = ground (arith, undotted, found, take-address a d)

  shorten_mask-prefix :
      (a mask q : List ℕ) (prefix : ℕ)
      → strchr dot mask ≡ some q
      → ipv4_mask_to_int libc mask ≡ pos prefix
      → 0 < prefix
      → prefix ≤ 32
      → shorten_mask libc (a ++ slash ∷ mask) (slash ∷ mask)
        ≡ some (a ++ slash ∷ libc.print_int prefix)
  unfolding shorten_mask print_cidr
  shorten_mask-prefix a mask q prefix dotted found lo hi =
      ground (arith, dotted, found, take-address a mask)

  -- A route of an address with a dot, a slash and a prefix from 1 to 32 is turned into one with a
  -- mask, and the function that brings it back to a prefix gives the route that it was. (The text
  -- of the mask has a dot and is read as the mask that it was printed from, and the prefix is read
  -- as the number that prints it.)
  pub route_to_cidr-sanity_check :
      (a d p t q : List ℕ) (prefix : ℕ)
      → libc.inet_ntop4 (ipv4_mask prefix) ≡ some t
      → libc.inet_pton4 t ≡ some (ipv4_mask prefix)
      → strchr dot t ≡ some q
      → libc.atoi d ≡ prefix
      → libc.print_int prefix ≡ d
      → 0 < prefix
      → prefix ≤ 32
      → strchr dot a ≡ some p
      → strchr slash a ≡ none
      → strchr dot d ≡ none
      → let (ret, route) = ip_route_sanity_check libc (a ++ slash ∷ d) in
        (ret ≡ pos 0) × (ipv4_route_to_cidr libc route ≡ some (a ++ slash ∷ d))
  unfolding ipv4_prefix_to_strmask ipv4_mask_to_int
  route_to_cidr-sanity_check a d p t q prefix printed back dotted' read print lo hi dotted slashless
        undotted =
      let count : ipv4_mask_to_int libc t ≡ pos prefix =
        ground (arith, back, mask2prefix-ipv4_mask prefix lo hi) in
      let expanded =
        sanity_check-at a d p dotted slashless ∙ expand_prefix-mask a d t undotted (ground arith) in
      rw expanded (
        refl,
        to_cidr-at a t p dotted slashless
            ∙ shorten_mask-prefix a t q prefix dotted' count lo hi
            ∙ ap (λ x. some (a ++ slash ∷ x)) print,
      )
