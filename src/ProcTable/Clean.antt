-- ===== src/ProcTable/Clean.antt =====
-- What the tables of src/proc-search.c hold of one worker: it is only under its own keys, in each table at
-- most once, and by SID and DTLS session exactly if `proc_table_add` has entered it.
use ocserv_ppa.Base.{
  ℕ, ◌≤◌, ◌≡◌, Bool, true, false, ◌&&◌, List, Option, none, some, if◌then◌else◌, arith,
}
use ocserv_ppa.Base.Int.{is_zero}
use ocserv_ppa.Base.Bytes.{bytes_eq}
use ocserv_ppa.Base.Index.{Index}
use ocserv_ppa.ProcTable.{
  Sockaddr, ProcEntry, ProcTable, is_dtls_ip, proc_table_add, drop_dtls_ip, readd_ip,
  proc_table_update_ip, forget_dtls_ip, set_dtls_ip, proc_table_update_dtls_ip, proc_table_del,
}

-- The entries under a key of a worker that is in the table.
abbrev pub share : Bool → Bool → ℕ
share added under = if added && under then 1 else 0

module _ (I : Index) where
  -- The tables hold the worker, whose entry this is, if it was added.
  abbrev pub Holds : ProcTable I → ℕ → ProcEntry → Bool → Type 0
  Holds t id p added =
      (k : List ℕ)
      → (I.count k id t.db_ip ≤ share added (bytes_eq p.remote_addr.ip k))
        × (I.count k id t.db_dtls_ip ≤ share added (is_dtls_ip p.dtls_remote_addr k))
        × (I.count k id t.db_dtls_id ≡ share added (bytes_eq p.dtls_session_id k))
        × (I.count k id t.db_sid ≡ share added (bytes_eq p.sid k))

  -- A worker that is not yet in the tables is there afterwards if that succeeds.
  pub proc_table_add-Holds :
      (t : ProcTable I) (id : ℕ) (p : ProcEntry) (added : Bool)
      → added ≡ false
      → Holds t id p added
      → Holds (proc_table_add I t id p).1 id p (is_zero (proc_table_add I t id p).0)
  unfolding proc_table_add
  proc_table_add-Holds t id p added a h k = ground (
    arith,
    a,
    h k,
    I.count-add p.remote_addr.ip k id id t.db_ip,
    I.count-add p.dtls_session_id k id id t.db_dtls_id,
    I.count-add p.sid k id id t.db_sid,
    I.count-del p.remote_addr.ip k id id (I.add p.remote_addr.ip id t.db_ip).1,
    I.count-del p.dtls_session_id k id id (I.add p.dtls_session_id id t.db_dtls_id).1,
  )

  -- The entry moves from its old address to the new one.
  readd_ip-share :
      (added : Bool) (old new k : List ℕ) (id : ℕ) (ips : I.Rep)
      → I.count old id ips ≤ share added (bytes_eq old old)
      → I.count k id ips ≤ share added (bytes_eq old k)
      → I.count k id (readd_ip I (I.del old id ips).0 new id (I.del old id ips).1).1
        ≤ share added (bytes_eq new k)
  unfolding readd_ip
  readd_ip-share added old new k id ips here there = ground (
    arith,
    I.del-found old id ips,
    I.count-del old k id id ips,
    I.count-add new k id id (I.del old id ips).1,
  )

  drop_dtls_ip-share :
      (added : Bool) (d : Option Sockaddr) (ip k : List ℕ) (id : ℕ) (dtls_ips : I.Rep)
      → I.count k id dtls_ips ≤ share added (is_dtls_ip d k)
      → I.count k id (drop_dtls_ip I id d ip dtls_ips).1
        ≤ share added (is_dtls_ip (drop_dtls_ip I id d ip dtls_ips).0 k)
  unfolding drop_dtls_ip
  drop_dtls_ip-share added none ip k id dtls_ips h = h
  drop_dtls_ip-share added (some a) ip k id dtls_ips h =
      ground (arith, h, I.count-del a.ip k id id dtls_ips)

  forget_dtls_ip-share :
      (added : Bool) (d : Option Sockaddr) (k : List ℕ) (id : ℕ) (dtls_ips : I.Rep)
      → I.count k id dtls_ips ≤ share added (is_dtls_ip d k)
      → I.count k id (forget_dtls_ip I id d dtls_ips) ≡ 0
  unfolding forget_dtls_ip
  forget_dtls_ip-share added none k id dtls_ips h = ground arith
  forget_dtls_ip-share added (some a) k id dtls_ips h =
      ground (arith, h, I.count-del a.ip k id id dtls_ips)

  pub proc_table_update_ip-Holds :
      (t : ProcTable I) (id : ℕ) (p : ProcEntry) (added : Bool) (addr : Sockaddr)
      → Holds t id p added
      → let (ret, p', t') = proc_table_update_ip I t id p addr in Holds t' id p' added
  unfolding proc_table_update_ip
  proc_table_update_ip-Holds t id p added addr h k = ground (
    arith,
    h k,
    readd_ip-share added p.remote_addr.ip addr.ip k id t.db_ip (h p.remote_addr.ip).0 (h k).0,
    drop_dtls_ip-share added p.dtls_remote_addr addr.ip k id t.db_dtls_ip (h k).1,
  )

  pub proc_table_update_dtls_ip-Holds :
      (t : ProcTable I) (id : ℕ) (p : ProcEntry) (added : Bool) (addr : Option Sockaddr)
      → added ≡ true
      → Holds t id p added
      → let (ret, p', t') = proc_table_update_dtls_ip I t id p addr in Holds t' id p' added
  unfolding proc_table_update_dtls_ip set_dtls_ip
  proc_table_update_dtls_ip-Holds t id p added none a h k =
      ground (arith, h k, forget_dtls_ip-share added p.dtls_remote_addr k id t.db_dtls_ip (h k).1)
  proc_table_update_dtls_ip-Holds t id p added (some addr) a h k = ground (
    arith,
    a,
    h k,
    forget_dtls_ip-share added p.dtls_remote_addr k id t.db_dtls_ip (h k).1,
    I.count-add addr.ip k id id (forget_dtls_ip I id p.dtls_remote_addr t.db_dtls_ip),
  )

  pub proc_table_del-Holds :
      (t : ProcTable I) (id : ℕ) (p q : ProcEntry) (added : Bool)
      → Holds t id p added
      → Holds (proc_table_del I t id p) id q false
  unfolding proc_table_del
  proc_table_del-Holds t id p q added h k = ground (
    arith,
    h k,
    forget_dtls_ip-share added p.dtls_remote_addr k id t.db_dtls_ip (h k).1,
    I.count-del p.remote_addr.ip k id id t.db_ip,
    I.count-del p.dtls_session_id k id id t.db_dtls_id,
    I.count-del p.sid k id id t.db_sid,
  )
