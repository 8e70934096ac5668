-- ===== src/Main/Remove/Closing.antt =====
-- Which sessions are closed with the security module, and which are not.
use ocserv_ppa.Base.{
  ℕ, ◌≡◌, Bool, true, false, ◌&&◌, ◌||◌, not, List, [], ◌∷◌, ◌++◌, Option, none, some, arith, refl,
}
use ocserv_ppa.Base.Bytes.{bytes_eq}
use ocserv_ppa.Base.Index.{Index}
use ocserv_ppa.Base.Table.{Table}
use ocserv_ppa.Ban.{BanEntry}
use ocserv_ppa.IpLease.{IpLease}
use ocserv_ppa.Main.{ProcSt, Server, MainEffect, secm_session_close, kill_pid, user_disconnected}
use ocserv_ppa.Main.Session.{Answer, CliStats, session_close}
use ocserv_ppa.Main.Remove.{
  Flags, kill_running, take_down, is_connected, find_script, close_active, remove_proc,
}

-- The message that closes the session of this SID.
abbrev pub is_close : List ℕ → MainEffect → Bool
is_close sid (secm_session_close closed rx tx uptime) = bytes_eq closed sid
is_close sid e = false

-- The disconnect script and the record of the user's end.
abbrev pub is_down : MainEffect → Bool
is_down user_disconnected = true
is_down e = false

-- An effect that passes a test is among these.
abbrev pub any : (MainEffect → Bool) → List MainEffect → Bool
any test [] = false
any test (e ∷ es) = test e || any test es

any-append :
    (test : MainEffect → Bool) (xs ys : List MainEffect)
    → any test (xs ++ ys) ≡ any test xs || any test ys
any-append test [] ys = refl
any-append test (x ∷ xs) ys = ground (arith, any-append test xs ys)

any-killed :
    (test : MainEffect → Bool) (flags : Flags) (pid : Option ℕ)
    → ((pid : Option ℕ) → test (kill_pid pid) ≡ false)
    → any test (kill_running flags pid) ≡ false
any-killed test flags none h = refl
any-killed test flags (some pid) h = ground (arith, h (some pid))

any-take_down :
    (test : MainEffect → Bool) (script : Option ℕ) (connected : Bool)
    → ((pid : Option ℕ) → test (kill_pid pid) ≡ false)
    → any test (take_down script connected) ≡ connected && test user_disconnected
any-take_down test none connected h = ground arith
any-take_down test (some pid) connected h = ground (arith, h (some pid))

pub removal-effects :
    {I : Index} {B : Table BanEntry} {L : Table IpLease} (now : ℕ) (flags : Flags)
    (answer : Answer CliStats) (exited : Option ℕ) (s : Server I B L) (p : ProcSt)
    (effects : List MainEffect) (left : Server I B L)
    → remove_proc now flags answer exited s p ≡ some (effects, left)
    → effects
      ≡ kill_running flags p.pid
        ++ ((close_active now flags answer s p).1
            ++ take_down
                (find_script p.id s.scripts)
                (is_connected (find_script p.id s.scripts) exited p.status))
unfolding remove_proc
removal-effects now flags answer exited s p effects left e = ground (arith, e)

-- The effects of `remove_proc`.
removal-any :
    {I : Index} {B : Table BanEntry} {L : Table IpLease} (test : MainEffect → Bool) (now : ℕ)
    (flags : Flags) (answer : Answer CliStats) (exited : Option ℕ) (s : Server I B L) (p : ProcSt)
    (effects : List MainEffect) (left : Server I B L)
    → ((pid : Option ℕ) → test (kill_pid pid) ≡ false)
    → remove_proc now flags answer exited s p ≡ some (effects, left)
    → any test effects
      ≡ any test (close_active now flags answer s p).1
        || (is_connected (find_script p.id s.scripts) exited p.status && test user_disconnected)
removal-any test now flags answer exited s p effects left h e =
    let out = (close_active now flags answer s p).1 in
    let script = find_script p.id s.scripts in
    let connected = is_connected script exited p.status in
    let down = take_down script connected in
    rw (removal-effects now flags answer exited s p effects left e) (
      ground (
        arith,
        any-append test (kill_running flags p.pid) (out ++ down),
        any-append test out down,
        any-take_down test script connected h,
        any-killed test flags p.pid h,
      ))

module _ {I : Index} {B : Table BanEntry} {L : Table IpLease} where
  -- At the end of a worker a session is closed exactly if it is the worker's own, which it took over
  -- when the cookie was answered for, unless the server shuts down.
  pub remove_proc-closes :
      (now : ℕ) (flags : Flags) (answer : Answer CliStats) (exited : Option ℕ) (s : Server I B L)
      (p : ProcSt) (effects : List MainEffect) (left : Server I B L) (sid : List ℕ)
      → remove_proc now flags answer exited s p ≡ some (effects, left)
      → any (is_close sid) effects ≡ (p.active_sid && not flags.quit) && bytes_eq p.entry.sid sid
  unfolding close_active session_close
  remove_proc-closes now flags answer exited s p effects left sid e =
      ground
        (arith, removal-any (is_close sid) now flags answer exited s p effects left (λ pid. refl) e)

  -- The disconnect script runs for a worker exactly if the client was logged in, or its connect script
  -- still ran and then ended well.
  pub remove_proc-down :
      (now : ℕ) (flags : Flags) (answer : Answer CliStats) (exited : Option ℕ) (s : Server I B L)
      (p : ProcSt) (effects : List MainEffect) (left : Server I B L)
      → remove_proc now flags answer exited s p ≡ some (effects, left)
      → any is_down effects ≡ is_connected (find_script p.id s.scripts) exited p.status
  unfolding close_active session_close
  remove_proc-down now flags answer exited s p effects left e =
      ground (arith, removal-any is_down now flags answer exited s p effects left (λ pid. refl) e)
