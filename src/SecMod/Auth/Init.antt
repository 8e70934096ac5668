-- ===== src/SecMod/Auth/Init.antt =====
-- handle_sec_auth_init of src/sec-mod-auth.c: the first message of a client.
pub mod Accept
use Prim.Native.Nat.{bit_and}
use ocserv_ppa.Base.{
  ℕ, ◌*◌, Bool, true, false, ◌&&◌, List, [], ◌∷◌, Option, none, some, ◌==◌, if◌then◌else◌, take,
}
use ocserv_ppa.Base.Int.{ℤ, pos, negsuc, is_neg, is_auth_continue, err_auth_continue}
use ocserv_ppa.Base.Table.{Table}
use ocserv_ppa.SecMod.{
  AuthStatus, AuthMod, AuthMethod, AuthInit, Vhost, ClientEntry, SecStats, Effect, strlcpy,
  max_username_size, max_ip_str, max_groups, copy_field,
}
use ocserv_ppa.SecMod.Db.{new_client_entry}
use ocserv_ppa.SecMod.Auth.{handle_sec_auth_res, stored}

-- `SecAuthInitMsg`
pub record SecAuthInitMsg : Type 0 where
  pub vhost : Option (List ℕ)
  pub ip : List ℕ
  pub auth_type : ℕ
  pub user_name : Option (List ℕ)
  pub our_ip : Option (List ℕ)
  pub user_agent : Option (List ℕ)
  pub tls_auth_ok : Bool
  pub group_name : Option (List ℕ)
  pub cert_user_name : Option (List ℕ)
  pub cert_group_names : List (List ℕ)

module _ {Ctx : Type 0} where
  -- `set_module`: the first enabled method that contains the type that the worker asked for.
  unfoldable pub find_method : ℕ → List (AuthMethod Ctx) → Option (AuthMethod Ctx)
  find_method auth_type [] = none
  find_method auth_type (m ∷ ms) =
      if m.enabled && bit_and m.auth_type auth_type == auth_type
      then some m
      else find_method auth_type ms

  unfoldable pub set_module : ℕ → ClientEntry Ctx → Option (ClientEntry Ctx)
  set_module auth_type e =
      if auth_type == 0 then none else elim (find_method auth_type e.vhost.auth) [
        | none ↦ none
        | some m ↦ some (record e { auth_mod = m.amod; auth_type = m.auth_type })
      ]

  -- `auth_init` of the module: its result, and whether more messages are needed.
  unfoldable pub init_module : SecAuthInitMsg → ℕ → ClientEntry Ctx → ℤ × ClientEntry Ctx
  init_module req pid e = elim e.auth_mod [
    | none ↦ (pos 0, e)
    | some m ↦
        (let (ret, ctx) = m.auth_init (record {
          username = req.user_name;
          ip = req.ip;
          our_ip = req.our_ip;
          user_agent = req.user_agent;
          id = pid;
        }) in
          (ret, record e { auth_ctx = ctx }))
  ]

  -- What the request says of the client.
  unfoldable pub fill_entry : SecAuthInitMsg → ClientEntry Ctx → ClientEntry Ctx
  fill_entry req e = record e {
    tls_auth_ok = req.tls_auth_ok;
    acct_info = record (e.acct_info) {
      user_agent = copy_field max_username_size req.user_agent e.acct_info.user_agent;
      username = copy_field (max_username_size * 2) req.user_name e.acct_info.username;
      our_ip = copy_field max_ip_str req.our_ip e.acct_info.our_ip;
    };
    req_group_name = copy_field max_username_size req.group_name e.req_group_name;
    cert_user_name = copy_field max_username_size req.cert_user_name e.cert_user_name;
    cert_group_names = take max_groups req.cert_group_names;
    status = AuthStatus.init;
  }

  -- The result and the entry that `handle_sec_auth_init` hands to `handle_sec_auth_res`.
  unfoldable pub auth_init_result : SecAuthInitMsg → ℕ → ClientEntry Ctx → ℤ × ClientEntry Ctx
  auth_init_result req pid e = elim (set_module req.auth_type e) [
    | none ↦ (negsuc 0, e)
    | some e1 ↦
        (let (ret, e2) = init_module req pid e1 in
          if is_auth_continue ret
          then (err_auth_continue, fill_entry req e2)
          else if is_neg ret
          then (ret, e2)
          else (pos 0, fill_entry req e2))
  ]

module _ {Ctx : Type 0} (D : Table (ClientEntry Ctx)) (now : ℕ) (sent : ℤ) where
  -- `handle_sec_auth_init`: a new client. `rnd`, `calc_safe_id` and `find_vhost` are the random
  -- numbers, the printable SID and the lookup of the virtual host.
  unfoldable pub handle_sec_auth_init :
      (ℕ → Option (List ℕ))
      → (List ℕ → List ℕ)
      → (Option (List ℕ) → Vhost Ctx)
      → SecStats
      → D.Rep
      → SecAuthInitMsg
      → ℕ
      → ℤ × List Effect × SecStats × D.Rep
  handle_sec_auth_init rnd calc_safe_id find_vhost s db req pid =
      elim (new_client_entry D rnd calc_safe_id now (find_vhost req.vhost) req.ip pid db) [
        | none ↦ (negsuc 0, [], s, db)
        | some (e, db') ↦
            (let (ret, e1) = auth_init_result req pid e in
              stored D db' (handle_sec_auth_res now sent s e1 ret))
      ]
