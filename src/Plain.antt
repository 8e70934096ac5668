-- ===== src/Plain.antt =====
-- src/auth/plain.c, src/auth/common.h: the authentication of users with a file of passwords. `crypt` of the C
-- library, the check of one-time passwords and the content of the file are arguments; the content has no NUL. The
-- module has `strsep` and liboath.
pub mod Passwords
pub mod Client
pub mod Groups
pub mod File
mod Tests
use ocserv_ppa.Base.{
  ℕ, zero, suc, ◌+◌, ◌-◌, ◌%◌, ◌^◌, Bool, true, false, ◌&&◌, ◌||◌, not, List, [], ◌∷◌, ◌++◌, Option,
  none, some, ltb, leb, ◌==◌, if◌then◌else◌, length, take, drop,
}
use ocserv_ppa.Base.Bytes.{bytes_eq, before_byte}
use ocserv_ppa.Base.Int.{ℤ, pos, negsuc, err_auth_fail, err_auth_continue}
use ocserv_ppa.FwPorts.{is_space, skip_space, after_byte}
use ocserv_ppa.Str.{trim_trailing_whitespace}
use ocserv_ppa.SecMod.{strlcpy, AuthInit, PasswdMsg, AuthMod, max_username_size, max_groups}
use ocserv_ppa.SecMod.Group.{is_empty}

abbrev pub max_cpass_size : ℕ
max_cpass_size = 128

abbrev pub max_password_tries : ℕ
max_password_tries = 3

-- Which text the client is asked with.
pub data PassMsg : Type 0 where
  default wrong otp : PassMsg

-- `plain_ctx_st` without its configuration
pub record PlainCtx : Type 0 where
  pub username : List ℕ
  pub cpass : List ℕ
  pub groupnames : List (List ℕ)
  pub pass_msg : PassMsg
  pub retries : ℕ
  pub failed : Bool

-- `strchr` and the cut there: what is before the byte, and after it where it is there.
abbrev pub cut_at : ℕ → List ℕ → List ℕ × Option (List ℕ)
cut_at c text = (before_byte c text, after_byte c text)

-- Where the last such byte is.
pub last_index : ℕ → List ℕ → Option ℕ
last_index c [] = none
last_index c (b ∷ bs) = elim (last_index c bs) [
  | some i ↦ some (i + 1)
  | none ↦ if b == c then some 0 else none
]

-- The last group: what follows its last space is cut off, with the spaces before.
pub cut_last : List ℕ → List ℕ
cut_last text = elim (last_index b' ' text) [
  | none ↦ text
  | some i ↦ trim_trailing_whitespace (take i text)
]

-- `break_group_list`: a group before a comma is left out if it has one byte with its spaces, the last one if it
-- has one byte without. There is a turn for each byte, and one more.
pub break_group_list : ℕ → ℕ → List ℕ → List (List ℕ)
break_group_list zero count text = []
break_group_list (suc n) count text =
    let (group, after) = cut_at b',' text in
    let last = cut_last group in
    elim after [
      | none ↦ if length last == 1 then [] else last ∷ []
      | some next ↦
          (let one = length group == 1 in
            let more = break_group_list n (if one then count else count + 1) (skip_space next) in
            let rest = if leb max_groups (if one then count else count + 1) then [] else more in
            if one then rest else trim_trailing_whitespace group ∷ rest)
    ]

-- `fgets`: a line with its end, of so many bytes at most.
pub get_line : ℕ → List ℕ → List ℕ
get_line zero bs = []
get_line (suc n) [] = []
get_line (suc n) (b ∷ bs) = let more = get_line n bs in if b == 10 then b ∷ [] else b ∷ more

-- What is left of the file.
pub after_line : ℕ → List ℕ → List ℕ
after_line zero bs = bs
after_line (suc n) [] = []
after_line (suc n) (b ∷ bs) = let more = after_line n bs in if b == 10 then bs else more

-- The text without this byte at its end.
pub strip : ℕ → List ℕ → List ℕ
strip c [] = []
strip c (b ∷ []) = if b == c then [] else b ∷ []
strip c (b ∷ x ∷ xs) = b ∷ strip c (x ∷ xs)

-- The groups of a line, and the password where there is one.
abbrev pub read_fields : List ℕ → List (List ℕ) × Option (List ℕ)
read_fields fields =
    let (groups, after) = cut_at b':' fields in
    (
      break_group_list (length groups + 1) 0 groups,
      elim after [ none ↦ none | some last ↦ some (cut_at b':' last).0 ],
    )

-- A line for the user.
pub read_entry : List ℕ → List ℕ → Option (List (List ℕ) × Option (List ℕ))
read_entry username line =
    let (name, after) = cut_at b':' (strip 13 (strip 10 line)) in
    if leb (length line) 4 then none else elim after [
      | none ↦ none
      | some fields ↦ if bytes_eq username name then some (read_fields fields) else none
    ]

-- The lines of the file, until one has the user's password. There is a turn for each byte, and one more.
pub read_lines : ℕ → List ℕ → PlainCtx → PlainCtx
read_lines zero content p = p
read_lines (suc n) content p =
    let line = get_line 510 content in
    let rest = after_line 510 content in
    let next : PlainCtx = elim (read_entry p.username line) [
      | none ↦ read_lines n rest p
      | some (groups, none) ↦ read_lines n rest (record p { groupnames = groups })
      | some (groups, some cpass) ↦ record p {
        groupnames = groups;
        cpass = strlcpy max_cpass_size cpass;
        failed = false;
      }
    ] in
    if is_empty content then p else next

-- `plain_cfg_st`, with the content of the file, where one is set and it can be opened.
pub record PlainCfg : Type 0 where
  pub has_passwd : Bool
  pub content : Option (List ℕ)
  pub has_otp : Bool

-- The password file; its result is negative if it cannot be opened.
unfoldable pub read_auth_pass : PlainCfg → PlainCtx → ℤ × PlainCtx
read_auth_pass cfg p = if not cfg.has_passwd then (pos 0, p) else elim cfg.content [
  | none ↦ (negsuc 0, record p { failed = true })
  | some content ↦ (pos 0, read_lines (length content + 1) content (record p { failed = true }))
]

abbrev pub new_ctx : List ℕ → PlainCtx
new_ctx username = record {
  username = strlcpy max_username_size username;
  cpass = [];
  groupnames = [];
  pass_msg = PassMsg.default;
  retries = 0;
  failed = false;
}

unfoldable pub plain_auth_init : PlainCfg → AuthInit → ℤ × Option PlainCtx
plain_auth_init cfg info = elim info.username [
  | none ↦ (err_auth_fail, none)
  | some [] ↦ (err_auth_fail, none)
  | some (b ∷ bs) ↦
      (let (ret, p) = read_auth_pass cfg (new_ctx (b ∷ bs)) in
        elim ret [
          | negsuc n ↦ (err_auth_fail, none)
          | pos n ↦
              if is_empty p.cpass && not p.failed
              then if cfg.has_otp
                then (err_auth_continue, some (record p { pass_msg = PassMsg.otp }))
                else (pos 0, some p)
              else (err_auth_continue, some p)
        ])
]

-- The first of the user's groups that is this one.
pub is_member : List ℕ → List (List ℕ) → Bool
is_member group [] = false
is_member group (g ∷ gs) = bytes_eq group g || is_member group gs

abbrev pub first_group : ℕ → List (List ℕ) → List ℕ
first_group size [] = []
first_group size (g ∷ gs) = strlcpy size g

-- The group that was asked for, if the user is in it, else the first one.
unfoldable pub plain_auth_group : ℕ → PlainCtx → Option (List ℕ) → ℤ × List ℕ
plain_auth_group size p none = (pos 0, first_group size p.groupnames)
plain_auth_group size p (some suggested) =
    if not (is_member suggested p.groupnames)
    then (negsuc 0, [])
    else if is_empty (strlcpy size suggested)
    then (pos 0, first_group size p.groupnames)
    else (pos 0, strlcpy size suggested)

-- The texts of src/auth/common.c.
abbrev pub pass_msg_failed : List ℕ
pass_msg_failed =
    b'L' ∷ b'o' ∷ b'g' ∷ b'i' ∷ b'n' ∷ b' ' ∷ b'f' ∷ b'a' ∷ b'i' ∷ b'l' ∷ b'e' ∷ b'd' ∷ b'.' ∷ 10
    ∷ b'P' ∷ b'l' ∷ b'e' ∷ b'a' ∷ b's' ∷ b'e' ∷ b' ' ∷ b'e' ∷ b'n' ∷ b't' ∷ b'e' ∷ b'r' ∷ b' '
    ∷ b'y' ∷ b'o' ∷ b'u' ∷ b'r' ∷ b' ' ∷ b'p' ∷ b'a' ∷ b's' ∷ b's' ∷ b'w' ∷ b'o' ∷ b'r' ∷ b'd'
    ∷ b'.' ∷ []

abbrev pub pass_msg_otp : List ℕ
pass_msg_otp =
    b'P' ∷ b'l' ∷ b'e' ∷ b'a' ∷ b's' ∷ b'e' ∷ b' ' ∷ b'e' ∷ b'n' ∷ b't' ∷ b'e' ∷ b'r' ∷ b' ' ∷ b'y'
    ∷ b'o' ∷ b'u' ∷ b'r' ∷ b' ' ∷ b'O' ∷ b'T' ∷ b'P' ∷ b' ' ∷ b'p' ∷ b'a' ∷ b's' ∷ b's' ∷ b'w'
    ∷ b'o' ∷ b'r' ∷ b'd' ∷ b'.' ∷ []

abbrev pub msg_text : PassMsg → Option (List ℕ)
msg_text PassMsg.default = none
msg_text PassMsg.wrong = some pass_msg_failed
msg_text PassMsg.otp = some pass_msg_otp

unfoldable pub plain_auth_msg : Option PlainCtx → ℤ × PasswdMsg
plain_auth_msg none = (pos 0, record { msg_str = none; counter = 0 })
plain_auth_msg (some p) = (pos 0, record { msg_str = msg_text p.pass_msg; counter = 0 })

module _ (crypt : List ℕ → List ℕ → Option (List ℕ)) (oath : List ℕ → List ℕ → Bool) where
  -- Whether the password has this hash.
  pub is_password : List ℕ → List ℕ → Bool
  is_password pass cpass = elim (crypt pass cpass) [
    | none ↦ false
    | some hash ↦ bytes_eq hash cpass
  ]

  -- The check of the password; once it failed, it stays so.
  unfoldable pub check_password : PlainCtx → List ℕ → PlainCtx
  check_password p pass =
      if not (is_empty p.cpass) && not (is_password pass p.cpass)
      then record p { failed = true }
      else p

  unfoldable pub plain_auth_pass : PlainCfg → PlainCtx → List ℕ → ℤ × PlainCtx
  plain_auth_pass cfg p0 pass =
      let p = check_password p0 pass in
      if p.failed
      then (let again = record p { retries = (p.retries + 1) % 2 ^ 32 } in
          if ltb p.retries (max_password_tries - 1)
          then (err_auth_continue, record again { pass_msg = PassMsg.wrong })
          else (err_auth_fail, again))
      else if is_empty p.cpass && not cfg.has_otp
      then (err_auth_fail, p)
      else if cfg.has_otp
      then if not (is_empty p.cpass)
        then (err_auth_continue, record p { cpass = []; pass_msg = PassMsg.otp })
        else if oath p.username pass
        then (pos 0, p)
        else (err_auth_fail, p)
      else (pos 0, p)

  -- `plain_auth_funcs`; a call with no context is a crash of the code, and is refused here.
  unfoldable pub plain_auth_funcs : PlainCfg → ℕ → AuthMod PlainCtx
  plain_auth_funcs cfg groupname_size = record {
    allows_retries = true;
    auth_init = plain_auth_init cfg;
    auth_msg = plain_auth_msg;
    auth_pass = λ ctx pass. elim ctx [
      | none ↦ (negsuc 0, none)
      | some p ↦ (let (ret, p') = plain_auth_pass cfg p pass in (ret, some p'))
    ];
    auth_group = some (λ ctx suggested old. elim ctx [
      | none ↦ (negsuc 0, old)
      | some p ↦ plain_auth_group groupname_size p suggested
    ]);
    auth_user = λ ctx username. username;
  }
