-- ===== src/Plain/Passwords.antt =====
-- Which passwords src/auth/plain.c accepts.
use ocserv_ppa.Base.{ℕ, ◌≡◌, ◌⊎◌, Bool, true, false, List, [], ◌∷◌, Option, arith}
use ocserv_ppa.Base.Int.{is_zero}
use ocserv_ppa.SecMod.Group.{is_empty}
use ocserv_ppa.Plain.{PlainCtx, PlainCfg, is_password, check_password, plain_auth_pass}

module _ (crypt : List ℕ → List ℕ → Option (List ℕ)) (oath : List ℕ → List ℕ → Bool) where
  -- What makes a password right: nothing was wrong before, and it has the hash of the user, or where one-time
  -- passwords are used and the hash was checked before, or there is none, it is one.
  pub record IsRight (cfg : PlainCfg) (p : PlainCtx) (pass : List ℕ) : Type 0 where
    pub unfailed : p.failed ≡ false
    pub proof :
        ((cfg.has_otp ≡ false)
          × (is_empty p.cpass ≡ false)
          × (is_password crypt oath pass p.cpass ≡ true))
        ⊎ ((cfg.has_otp ≡ true) × (is_empty p.cpass ≡ true) × (oath p.username pass ≡ true))

  pub plain_auth_pass-IsRight :
      (cfg : PlainCfg) (p : PlainCtx) (pass : List ℕ)
      → is_zero (plain_auth_pass crypt oath cfg p pass).0 ≡ true
      → IsRight cfg p pass
  unfolding plain_auth_pass check_password
  plain_auth_pass-IsRight cfg p pass accepted = ground (arith, accepted)

  pub right-plain_auth_pass :
      (cfg : PlainCfg) (p : PlainCtx) (pass : List ℕ)
      → IsRight cfg p pass
      → is_zero (plain_auth_pass crypt oath cfg p pass).0 ≡ true
  unfolding plain_auth_pass check_password
  right-plain_auth_pass cfg p pass right = ground (arith, right)

  -- What is left of the context after some passwords.
  unfoldable pub after_passwords : PlainCfg → PlainCtx → List (List ℕ) → PlainCtx
  after_passwords cfg p [] = p
  after_passwords cfg p (pass ∷ passes) =
      after_passwords cfg (plain_auth_pass crypt oath cfg p pass).1 passes

  failed-kept :
      (cfg : PlainCfg) (p : PlainCtx) (pass : List ℕ)
      → p.failed ≡ true
      → (plain_auth_pass crypt oath cfg p pass).1.failed ≡ true
  unfolding plain_auth_pass check_password
  failed-kept cfg p pass failed = ground (arith, failed)

  after_passwords-failed :
      (cfg : PlainCfg) (p : PlainCtx) (passes : List (List ℕ))
      → p.failed ≡ true
      → (after_passwords cfg p passes).failed ≡ true
  unfolding after_passwords
  after_passwords-failed cfg p [] failed = failed
  after_passwords-failed cfg p (pass ∷ passes) failed =
      after_passwords-failed cfg (plain_auth_pass crypt oath cfg p pass).1 passes
        (failed-kept cfg p pass failed)

  wrong-failed :
      (cfg : PlainCfg) (p : PlainCtx) (pass : List ℕ)
      → is_empty p.cpass ≡ false
      → is_password crypt oath pass p.cpass ≡ false
      → (plain_auth_pass crypt oath cfg p pass).1.failed ≡ true
  unfolding plain_auth_pass check_password
  wrong-failed cfg p pass asked wrong = ground (arith, asked, wrong)

  refused-failed :
      (cfg : PlainCfg) (p : PlainCtx) (pass : List ℕ)
      → p.failed ≡ true
      → is_zero (plain_auth_pass crypt oath cfg p pass).0 ≡ false
  unfolding plain_auth_pass check_password
  refused-failed cfg p pass failed = ground (arith, failed)

  -- After a password with another hash than the user's, no password is accepted any more, not even the right one,
  -- though the client is asked again.
  pub wrong-refused :
      (cfg : PlainCfg) (p : PlainCtx) (pass : List ℕ) (passes : List (List ℕ)) (next : List ℕ)
      → is_empty p.cpass ≡ false
      → is_password crypt oath pass p.cpass ≡ false
      → let p' = after_passwords cfg p (pass ∷ passes) in
        is_zero (plain_auth_pass crypt oath cfg p' next).0 ≡ false
  unfolding after_passwords
  wrong-refused cfg p pass passes next asked wrong =
      refused-failed cfg (after_passwords cfg (plain_auth_pass crypt oath cfg p pass).1 passes) next
        (after_passwords-failed cfg (plain_auth_pass crypt oath cfg p pass).1 passes
          (wrong-failed cfg p pass asked wrong))
