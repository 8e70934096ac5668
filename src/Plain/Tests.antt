-- ===== src/Plain/Tests.antt =====
-- The file of passwords at concrete values: a password is its own hash, and the one-time password is given.
use ocserv_ppa.Base.{
  ℕ, ◌≡◌, refl, true, false, List, [], ◌∷◌, Option, none, some, arith, replicate, if◌then◌else◌,
  Bool,
}
use ocserv_ppa.Base.Int.{pos, is_zero}
use ocserv_ppa.Base.Bytes.{bytes_eq, before_byte}
use ocserv_ppa.Base.Table.{Table, function_table}
use ocserv_ppa.SecMod.{AuthStatus, Stats, ClientEntry, SecStats}
use ocserv_ppa.SecMod.Group.{
  check_group, module_group, certificate_group, check_cert_user_group_status, match_certificate,
}
use ocserv_ppa.SecMod.Auth.{
  handle_sec_auth_res, handle_sec_auth_cont, ask_module, accept_auth, send_auth_reply,
  auth_cont_result,
}
use ocserv_ppa.SecMod.Db.{find_client_entry}
use ocserv_ppa.FwPorts.{after_byte, skip_space}
use ocserv_ppa.Str.{trim_trailing_whitespace}
use ocserv_ppa.Plain.{
  PlainCtx, PlainCfg, new_ctx, break_group_list, cut_last, last_index, read_auth_pass,
  plain_auth_pass, check_password, is_password, plain_auth_funcs, plain_auth_group, is_member,
  plain_auth_msg,
}
use ocserv_ppa.Plain.Passwords.{IsRight, after_passwords, wrong-refused}
use ocserv_ppa.Plain.Client.{plain-completed}
use ocserv_ppa.Plain.Groups.{IsGroup, print_groups}
use ocserv_ppa.Plain.File.{Line, IsLine, print_file, find_user, found, read_auth_pass-print_file}

abbrev crypt : List ℕ → List ℕ → Option (List ℕ)
crypt pass salt = some pass

abbrev oath : List ℕ → List ℕ → Bool
oath name pass = false

abbrev ann : Line
ann = record { name = b'a' ∷ []; groups = []; hash = b'p' ∷ b'w' ∷ [] }

abbrev bob : Line
bob = record {
  name = b'b' ∷ [];
  groups = (b'g' ∷ b'1' ∷ []) ∷ (b'g' ∷ b'2' ∷ []) ∷ [];
  hash = b'q' ∷ b'w' ∷ [];
}

abbrev cfg : PlainCfg
cfg = record { has_passwd = true; content = some (print_file (ann ∷ bob ∷ [])); has_otp = false }

read_auth_pass-print_file_example : read_auth_pass cfg (new_ctx (b'b' ∷ [])) ≡ (
  pos 0,
  found (find_user (b'b' ∷ []) (ann ∷ bob ∷ [])) (record (new_ctx (b'b' ∷ [])) { failed = true }),
)
unfolding print_groups
read_auth_pass-print_file_example =
    let is_ann : IsLine ann = record {
      name = (refl, tt);
      groups = tt;
      few = omega arith;
      hash = (refl, (refl, tt));
      long = omega arith;
      short = omega arith;
    } in
    let g1 : IsGroup (b'g' ∷ b'1' ∷ []) = record {
      name = (refl, (refl, tt));
      long = omega arith;
    } in
    let g2 : IsGroup (b'g' ∷ b'2' ∷ []) = record {
      name = (refl, (refl, tt));
      long = omega arith;
    } in
    let is_bob : IsLine bob = record {
      name = (refl, tt);
      groups = (g1, (g2, tt));
      few = omega arith;
      hash = (refl, (refl, tt));
      long = omega arith;
      short = omega arith;
    } in
    read_auth_pass-print_file cfg (ann ∷ bob ∷ []) (new_ctx (b'b' ∷ [])) (is_ann, (is_bob, tt)) refl
      refl

abbrev bob_ctx : PlainCtx
bob_ctx = record (new_ctx (b'b' ∷ [])) { cpass = b'q' ∷ b'w' ∷ [] }

wrong-refused_example :
    let p' = after_passwords crypt oath cfg bob_ctx ((b'x' ∷ []) ∷ []) in
    is_zero (plain_auth_pass crypt oath cfg p' (b'q' ∷ b'w' ∷ [])).0 ≡ false
unfolding is_password bytes_eq
wrong-refused_example =
    wrong-refused crypt oath cfg bob_ctx (b'x' ∷ []) [] (b'q' ∷ b'w' ∷ []) refl refl

-- "ab, c d": a group after the last comma loses what follows its last space.
cut :
    break_group_list 8 0 (b'a' ∷ b'b' ∷ b',' ∷ b' ' ∷ b'c' ∷ b'c' ∷ b' ' ∷ b'd' ∷ [])
    ≡ (b'a' ∷ b'b' ∷ []) ∷ (b'c' ∷ b'c' ∷ []) ∷ []
unfolding break_group_list before_byte after_byte skip_space cut_last last_index
    trim_trailing_whitespace
cut = refl

abbrev Entry : Type 0
Entry = ClientEntry PlainCtx

abbrev D : Table Entry
D = function_table Entry

abbrev no_counts : Stats
no_counts = record { bytes_in = 0; bytes_out = 0; uptime = 0 }

abbrev sid : List ℕ
sid = replicate 32 7

abbrev client : Entry
client = record {
  sid = sid;
  auth_ctx = some bob_ctx;
  session_is_open = false;
  in_use = 0;
  tls_auth_ok = false;
  msg_str = none;
  passwd_counter = 0;
  saved_stats = no_counts;
  stats = no_counts;
  status = AuthStatus.init;
  created = 100;
  exptime = 500;
  auth_type = 2;
  discon_reason = 0;
  acct_info = record {
    username = b'b' ∷ [];
    groupname = [];
    safe_id = [];
    remote_ip = [];
    user_agent = [];
    our_ip = [];
    ipv4 = [];
    ipv6 = [];
    id = 1;
  };
  req_group_name = [];
  cert_group_names = [];
  cert_user_name = [];
  auth_mod = some (plain_auth_funcs crypt oath cfg 64);
  vhost = record {
    auth = [];
    acct = none;
    get_sup_config = none;
    max_ban_score = 80;
    ban_points_wrong_password = 10;
    cert_user_oid = false;
    cert_group_oid = false;
    cookie_timeout = 300;
    persistent_cookies = false;
    predictable_ips = true;
  };
}

abbrev one_client : D.Rep
one_client = λ j. if bytes_eq sid j then some client else none

abbrev counters : SecStats
counters = record {
  auth_failures = 0;
  max_auth_time = 0;
  avg_auth_time = 0;
  total_authentications = 0;
}

abbrev or_else : Entry → Option Entry → Entry
or_else e none = e
or_else e (some e') = e'

-- What the right password leaves of the entry.
abbrev logged_in : Entry
logged_in = or_else client (
    find_client_entry D
      (handle_sec_auth_cont D 200 (pos 0) counters one_client sid (some (b'q' ∷ b'w' ∷ []))).3 sid)

plain-completed_example :
    (pass : List ℕ) × (some (b'q' ∷ b'w' ∷ []) ≡ some pass) × IsRight crypt oath cfg bob_ctx pass
unfolding handle_sec_auth_cont auth_cont_result handle_sec_auth_res ask_module accept_auth
    send_auth_reply check_group module_group certificate_group check_cert_user_group_status
    match_certificate bytes_eq plain_auth_funcs plain_auth_pass check_password is_password
    plain_auth_group is_member plain_auth_msg
plain-completed_example =
    plain-completed crypt oath D 200 (pos 0) counters one_client sid (some (b'q' ∷ b'w' ∷ []))
      client logged_in cfg 64 bob_ctx refl refl refl refl refl refl refl
