-- ===== src/Main/Users.antt =====
-- check_multiple_users of src/main-auth.c: the limit on the sessions of a user.
use ocserv_ppa.Base.{
  ℕ, ◌+◌, ◌≤◌, ◌≡◌, Bool, true, false, ◌&&◌, not, List, [], ◌∷◌, Option, none, some, ltb, leb, ◌==◌,
  if◌then◌else◌, arith,
}
use ocserv_ppa.Base.Int.{ℤ, pos, negsuc}
use ocserv_ppa.Base.Bytes.{bytes_eq}
use ocserv_ppa.Main.{ProcSt}
use ocserv_ppa.Main.Config.{GroupCfg}

abbrev pub has_pid : Option ℕ → Bool
has_pid none = false
has_pid (some pid) = true

-- The setting of the client, 0 where it has none.
abbrev pub max_clients : Option GroupCfg → ℕ
max_clients none = 0
max_clients (some gc) = elim gc.max_same_clients [ none ↦ 0 | some max ↦ max ]

-- Another worker of this user, which has neither ended nor been told to.
abbrev pub is_same_user : ℕ → List ℕ → ProcSt → Bool
is_same_user id username q =
    (not (q.id == id) && has_pid q.pid) && (not q.pid_killed && bytes_eq username q.username)

-- The loop over the workers; the negative result ends it.
unfoldable pub count_users : ℕ → List ℕ → ℕ → ℕ → List ProcSt → ℤ
count_users id username max entries [] = pos 0
count_users id username max entries (q ∷ ps) =
    let same = count_users id username max entries ps in
    let more = count_users id username max (entries + 1) ps in
    if is_same_user id username q then (if ltb max (entries + 1) then negsuc 0 else more) else same

unfoldable pub check_multiple_users : List ProcSt → ProcSt → ℤ
check_multiple_users procs p =
    let max = max_clients p.config in
    if max == 0 then pos 0 else count_users p.id p.username max 1 procs

-- The other sessions of the user.
abbrev pub sessions : ℕ → List ℕ → List ProcSt → ℕ
sessions id username [] = 0
sessions id username (q ∷ ps) =
    (if is_same_user id username q then 1 else 0) + sessions id username ps

count_users-sessions :
    (id : ℕ) (username : List ℕ) (max entries : ℕ) (procs : List ProcSt)
    → entries ≤ max
    → count_users id username max entries procs
      ≡ (if leb (entries + sessions id username procs) max then pos 0 else negsuc 0)
unfolding count_users
count_users-sessions id username max entries [] h = ground arith
count_users-sessions id username max entries (q ∷ ps) h = ground (
  arith,
  h,
  count_users-sessions id username max entries ps,
  count_users-sessions id username max (entries + 1) ps,
)

-- A client is refused exactly when its user has a limit, and as many other sessions as that, or more.
pub check_multiple_users-sessions :
    (procs : List ProcSt) (p : ProcSt)
    → check_multiple_users procs p ≡ (
        if ltb 0 (max_clients p.config)
          && leb (max_clients p.config) (sessions p.id p.username procs)
        then negsuc 0
        else pos 0)
unfolding check_multiple_users
check_multiple_users-sessions procs p =
    ground (arith, count_users-sessions p.id p.username (max_clients p.config) 1 procs)
