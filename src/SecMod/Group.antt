-- ===== src/SecMod/Group.antt =====
-- Which user and group an authenticated client gets: check_cert_user_group_status and check_group of
-- src/sec-mod-auth.c. Both give the result and the entry with the names that they filled in.
pub mod Names
use ocserv_ppa.Base.{
  ℕ, ◌*◌, Bool, true, false, ◌&&◌, ◌||◌, not, List, [], ◌∷◌, Option, none, some, ◌==◌,
  if◌then◌else◌,
}
use Prim.Native.Nat.{bit_and}
use ocserv_ppa.Base.Int.{ℤ, pos, negsuc, is_zero, is_neg}
use ocserv_ppa.Base.Bytes.{bytes_eq}
use ocserv_ppa.SecMod.{
  AuthMod, AcctInfo, Vhost, ClientEntry, strlcpy, max_username_size, auth_type_certificate,
}

-- `e->auth_type & AUTH_TYPE_CERTIFICATE`
abbrev pub wants_certificate : ℕ → Bool
wants_certificate auth_type = not (bit_and auth_type auth_type_certificate == 0)

-- `text[0] == 0`
abbrev pub is_empty : List ℕ → Bool
is_empty [] = true
is_empty (c ∷ s) = false

-- The loops over `cert_group_names`.
unfoldable pub is_cert_group : List ℕ → List (List ℕ) → Bool
is_cert_group name [] = false
is_cert_group name (g ∷ gs) = bytes_eq name g || is_cert_group name gs

module _ {Ctx : Type 0} where
  abbrev pub with_username : ClientEntry Ctx → List ℕ → ClientEntry Ctx
  with_username e name = record e { acct_info = record (e.acct_info) { username = name } }

  abbrev pub with_groupname : ClientEntry Ctx → List ℕ → ClientEntry Ctx
  with_groupname e name = record e { acct_info = record (e.acct_info) { groupname = name } }

  -- A user that gave no name takes the first group of the certificate if it has none yet.
  unfoldable pub take_cert_group : ClientEntry Ctx → List (List ℕ) → ClientEntry Ctx
  take_cert_group e [] = e
  take_cert_group e (g ∷ gs) =
      if e.vhost.cert_group_oid && is_empty e.acct_info.groupname
      then with_groupname e (strlcpy max_username_size g)
      else e

  -- The user gave no name: it takes that of the certificate.
  unfoldable pub name_from_certificate : ClientEntry Ctx → ℤ × ClientEntry Ctx
  name_from_certificate e = if is_empty e.cert_user_name then (negsuc 0, e) else (
    pos 0,
    take_cert_group (with_username e (strlcpy (max_username_size * 2) e.cert_user_name))
        e.cert_group_names,
  )

  -- The user's name and group are held against the certificate.
  unfoldable pub match_certificate : ClientEntry Ctx → ℤ × ClientEntry Ctx
  match_certificate e =
      if e.vhost.cert_user_oid
        && not (is_empty e.cert_user_name)
        && not (bytes_eq e.acct_info.username e.cert_user_name)
      then (negsuc 0, e)
      else if e.vhost.cert_group_oid && not (is_cert_group e.acct_info.groupname e.cert_group_names)
      then (negsuc 0, e)
      else (pos 0, e)

  unfoldable pub check_cert_user_group_status : ClientEntry Ctx → ℤ × ClientEntry Ctx
  check_cert_user_group_status e =
      if not (wants_certificate e.auth_type)
      then (pos 0, e)
      else if not e.tls_auth_ok
      then (negsuc 0, e)
      else if is_empty e.acct_info.username && e.vhost.cert_user_oid
      then name_from_certificate e
      else match_certificate e

  -- `req_group`: NULL where the client asked for no group.
  abbrev pub requested_group : ClientEntry Ctx → Option (List ℕ)
  requested_group e = if is_empty e.req_group_name then none else some e.req_group_name

  -- The group that the module gives.
  unfoldable pub module_group : ClientEntry Ctx → ℤ × ClientEntry Ctx
  module_group e = elim e.auth_mod [
    | none ↦ (pos 0, e)
    | some m ↦ elim m.auth_group [
      | none ↦ (pos 0, e)
      | some auth_group ↦
          (let (ret, name) = auth_group e.auth_ctx (requested_group e) e.acct_info.groupname in
            if is_zero ret
            then (pos 0, with_groupname e (strlcpy max_username_size name))
            else (negsuc 0, with_groupname e name))
    ]
  ]

  -- The requested group, if the certificate has it and the module gave none.
  unfoldable pub certificate_group : ClientEntry Ctx → ℤ × ClientEntry Ctx
  certificate_group e =
      if wants_certificate e.auth_type
        && is_empty e.acct_info.groupname
        && not (is_empty e.req_group_name)
        && e.vhost.cert_group_oid
      then (if is_cert_group e.req_group_name e.cert_group_names
          then (pos 0, with_groupname e (strlcpy max_username_size e.req_group_name))
          else (negsuc 0, e))
      else (pos 0, e)

  unfoldable pub check_group : ClientEntry Ctx → ℤ × ClientEntry Ctx
  check_group e =
      let (r1, e1) = module_group e in
      let (r2, e2) = certificate_group e1 in
      let (r3, e3) = check_cert_user_group_status e2 in
      if is_neg r1
      then (negsuc 0, e1)
      else if is_neg r2
      then (negsuc 0, e2)
      else if is_neg r3
      then (negsuc 0, e3)
      else (pos 0, e3)
