-- ===== src/SecMod/Group/Names.antt =====
-- What an accepted certificate says of the user and the group.
use ocserv_ppa.Base.{
  ℕ, ◌*◌, ◌≡◌, refl, sym, ap, ◌∙◌, ◌⊎◌, inl, inr, Bool-cases, true, false, ◌&&◌, List, [], ◌∷◌,
  arith,
}
use ocserv_ppa.Base.Int.{is_neg}
use ocserv_ppa.Base.Bytes.{bytes_eq_sound}
use ocserv_ppa.SecMod.{ClientEntry, strlcpy, max_username_size}
use ocserv_ppa.SecMod.Group.{
  check_group, module_group, certificate_group, check_cert_user_group_status, name_from_certificate,
  match_certificate, take_cert_group, is_empty, with_username, wants_certificate,
}

module _ {Ctx : Type 0} where
  -- The entry with the certificate's user name.
  abbrev named : ClientEntry Ctx → ClientEntry Ctx
  named e = with_username e (strlcpy (max_username_size * 2) e.cert_user_name)

  take_cert_group-username :
      (e : ClientEntry Ctx) (gs : List (List ℕ))
      → (take_cert_group e gs).acct_info.username ≡ e.acct_info.username
  unfolding take_cert_group
  take_cert_group-username e [] = refl
  take_cert_group-username e (g ∷ gs) = ground arith

  take_cert_group-sid :
      (e : ClientEntry Ctx) (gs : List (List ℕ)) → (take_cert_group e gs).sid ≡ e.sid
  unfolding take_cert_group
  take_cert_group-sid e [] = refl
  take_cert_group-sid e (g ∷ gs) = ground arith

  name_from_certificate-sid : (e : ClientEntry Ctx) → (name_from_certificate e).1.sid ≡ e.sid
  unfolding name_from_certificate
  name_from_certificate-sid e = ground (arith, take_cert_group-sid (named e) e.cert_group_names)

  match_certificate-same : (e : ClientEntry Ctx) → (match_certificate e).1 ≡ e
  unfolding match_certificate
  match_certificate-same e = ground arith

  check_cert-sid : (e : ClientEntry Ctx) → (check_cert_user_group_status e).1.sid ≡ e.sid
  unfolding check_cert_user_group_status
  check_cert-sid e = ground (arith, name_from_certificate-sid e, match_certificate-same e)

  module_group-sid : (e : ClientEntry Ctx) → (module_group e).1.sid ≡ e.sid
  unfolding module_group
  module_group-sid e = ground arith

  certificate_group-sid : (e : ClientEntry Ctx) → (certificate_group e).1.sid ≡ e.sid
  unfolding certificate_group
  certificate_group-sid e = ground arith

  pub check_group-sid : (e : ClientEntry Ctx) → (check_group e).1.sid ≡ e.sid
  unfolding check_group
  check_group-sid e =
      let e1 = (module_group e).1 in
      let e2 = (certificate_group e1).1 in
      ground (arith, module_group-sid e, certificate_group-sid e1, check_cert-sid e2)

  check_cert-tls :
      (e : ClientEntry Ctx)
      → wants_certificate e.auth_type ≡ true
      → is_neg (check_cert_user_group_status e).0 ≡ false
      → e.tls_auth_ok ≡ true
  unfolding check_cert_user_group_status
  check_cert-tls e cert ok = elim (Bool-cases e.tls_auth_ok) [
    | inl shown ↦ shown
    | inr missing ↦ ground arith
  ]

  name_from_certificate-user :
      (e : ClientEntry Ctx)
      → is_neg (name_from_certificate e).0 ≡ false
      → (name_from_certificate e).1.acct_info.username
        ≡ strlcpy (max_username_size * 2) e.cert_user_name
  unfolding name_from_certificate
  name_from_certificate-user e ok =
      ground (arith, take_cert_group-username (named e) e.cert_group_names)

  match_certificate-user :
      (e : ClientEntry Ctx)
      → e.vhost.cert_user_oid ≡ true
      → is_neg (match_certificate e).0 ≡ false
      → (e.acct_info.username ≡ e.cert_user_name) ⊎ (e.cert_user_name ≡ [])
  unfolding match_certificate
  match_certificate-user e oid ok =
      ground (arith, bytes_eq_sound e.acct_info.username e.cert_user_name)

  -- The name of `e'` is that of the certificate of `e`, or `e'` keeps the name and the certificate has
  -- the same or none.
  abbrev pub NamedBy : ClientEntry Ctx → ClientEntry Ctx → Type 0
  NamedBy e e' =
      (e'.acct_info.username ≡ strlcpy (max_username_size * 2) e.cert_user_name)
      ⊎ ((e'.acct_info.username ≡ e.acct_info.username)
          × ((e.acct_info.username ≡ e.cert_user_name) ⊎ (e.cert_user_name ≡ [])))

  check_cert-cases :
      (e : ClientEntry Ctx)
      → wants_certificate e.auth_type ≡ true
      → is_neg (check_cert_user_group_status e).0 ≡ false
      → (check_cert_user_group_status e ≡ name_from_certificate e)
        ⊎ (check_cert_user_group_status e ≡ match_certificate e)
  unfolding check_cert_user_group_status
  check_cert-cases e cert ok = rw cert (
      rw (check_cert-tls e cert ok)
        (elim (Bool-cases (is_empty e.acct_info.username && e.vhost.cert_user_oid)) [
          | inl taken ↦ inl (rw taken refl)
          | inr given ↦ inr (rw given refl)
        ]))

  check_cert-user :
      (e : ClientEntry Ctx)
      → wants_certificate e.auth_type ≡ true
      → e.vhost.cert_user_oid ≡ true
      → is_neg (check_cert_user_group_status e).0 ≡ false
      → NamedBy e (check_cert_user_group_status e).1
  check_cert-user e cert oid ok = elim (check_cert-cases e cert ok) [
    | inl eq ↦ inl (rw eq (name_from_certificate-user e (rw eq at ok)))
    | inr eq ↦ rw eq (
        inr (
          ap (λ r. r.acct_info.username) (match_certificate-same e),
          match_certificate-user e oid (rw eq at ok),
        ))
  ]

  -- What the choice of the group leaves alone.
  record SameUser (e e' : ClientEntry Ctx) : Type 0 where
    auth_type_eq : e'.auth_type ≡ e.auth_type
    tls_auth_ok_eq : e'.tls_auth_ok ≡ e.tls_auth_ok
    oid_eq : e'.vhost.cert_user_oid ≡ e.vhost.cert_user_oid
    name_eq : e'.acct_info.username ≡ e.acct_info.username
    cert_name_eq : e'.cert_user_name ≡ e.cert_user_name

  module_group-SameUser : (e : ClientEntry Ctx) → SameUser e (module_group e).1
  unfolding module_group
  module_group-SameUser e = ground arith

  certificate_group-SameUser : (e : ClientEntry Ctx) → SameUser e (certificate_group e).1
  unfolding certificate_group
  certificate_group-SameUser e = ground arith

  -- The entry that the certificate is checked against.
  abbrev grouped : ClientEntry Ctx → ClientEntry Ctx
  grouped e = (certificate_group (module_group e).1).1

  grouped-SameUser : (e : ClientEntry Ctx) → SameUser e (grouped e)
  grouped-SameUser e =
      ground (arith, module_group-SameUser e, certificate_group-SameUser (module_group e).1)

  check_group-last :
      (e : ClientEntry Ctx)
      → is_neg (check_group e).0 ≡ false
      → (is_neg (check_cert_user_group_status (grouped e)).0 ≡ false)
        × ((check_group e).1 ≡ (check_cert_user_group_status (grouped e)).1)
  unfolding check_group
  check_group-last e ok = ground arith

  NamedBy-SameUser : (e e1 e2 : ClientEntry Ctx) → SameUser e e1 → NamedBy e1 e2 → NamedBy e e2
  NamedBy-SameUser e e1 e2 same (inl taken) = inl (ground arith)
  NamedBy-SameUser e e1 e2 same (inr (kept, inl agrees)) = inr (ground arith, inl (ground arith))
  NamedBy-SameUser e e1 e2 same (inr (kept, inr unnamed)) = inr (ground arith, inr (ground arith))

  -- A client that needs a certificate is accepted only with one. Where certificates name their
  -- users, it gets the name that its certificate gives (cut to the field) or keeps the name that it
  -- asked for, which is then that of the certificate, unless the certificate has none.
  pub check_group-certificate :
      (e : ClientEntry Ctx)
      → wants_certificate e.auth_type ≡ true
      → is_neg (check_group e).0 ≡ false
      → (e.tls_auth_ok ≡ true) × ((e.vhost.cert_user_oid ≡ false) ⊎ NamedBy e (check_group e).1)
  check_group-certificate e cert ok =
      let same = grouped-SameUser e in
      let (passed, left) = check_group-last e ok in
      let cert' : wants_certificate (grouped e).auth_type ≡ true = rw same.auth_type_eq cert in
      (
        sym same.tls_auth_ok_eq ∙ check_cert-tls (grouped e) cert' passed,
        elim (Bool-cases e.vhost.cert_user_oid) [
          | inr unnamed ↦ inl unnamed
          | inl oid ↦ inr (
              rw left (
                NamedBy-SameUser e (grouped e) (check_cert_user_group_status (grouped e)).1 same
                  (check_cert-user (grouped e) cert' (same.oid_eq ∙ oid) passed)))
        ],
      )
