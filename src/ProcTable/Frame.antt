-- ===== src/ProcTable/Frame.antt =====
-- The operations on one worker of src/proc-search.c leave what the tables hold of the others.
use ocserv_ppa.Base.{ℕ, ◌≡◌, Bool, true, false, List, Option, none, some, ◌==◌, arith, refl}
use ocserv_ppa.Base.Index.{Index}
use ocserv_ppa.ProcTable.{
  Sockaddr, ProcEntry, ProcTable, proc_table_add, drop_dtls_ip, readd_ip, proc_table_update_ip,
  forget_dtls_ip, set_dtls_ip, proc_table_update_dtls_ip, proc_table_del,
}
use ocserv_ppa.ProcTable.Clean.{Holds}

module _ (I : Index) where
  pub proc_table_add-other :
      (t : ProcTable I) (id j : ℕ) (p q : ProcEntry) (added : Bool)
      → (j == id) ≡ false
      → Holds I t j q added
      → Holds I (proc_table_add I t id p).1 j q added
  unfolding proc_table_add
  proc_table_add-other t id j p q added n h k = ground (
    arith,
    n,
    h k,
    I.count-add p.remote_addr.ip k id j t.db_ip,
    I.count-add p.dtls_session_id k id j t.db_dtls_id,
    I.count-add p.sid k id j t.db_sid,
    I.count-del p.remote_addr.ip k id j (I.add p.remote_addr.ip id t.db_ip).1,
    I.count-del p.dtls_session_id k id j (I.add p.dtls_session_id id t.db_dtls_id).1,
  )

  readd_ip-other :
      (removed : Bool) (new k : List ℕ) (id j : ℕ) (ips : I.Rep)
      → (j == id) ≡ false
      → I.count k j (readd_ip I removed new id ips).1 ≡ I.count k j ips
  unfolding readd_ip
  readd_ip-other true new k id j ips n = ground (arith, n, I.count-add new k id j ips)
  readd_ip-other false new k id j ips n = refl

  drop_dtls_ip-other :
      (d : Option Sockaddr) (ip k : List ℕ) (id j : ℕ) (dtls_ips : I.Rep)
      → (j == id) ≡ false
      → I.count k j (drop_dtls_ip I id d ip dtls_ips).1 ≡ I.count k j dtls_ips
  unfolding drop_dtls_ip
  drop_dtls_ip-other none ip k id j dtls_ips n = refl
  drop_dtls_ip-other (some a) ip k id j dtls_ips n =
      ground (arith, n, I.count-del a.ip k id j dtls_ips)

  forget_dtls_ip-other :
      (d : Option Sockaddr) (k : List ℕ) (id j : ℕ) (dtls_ips : I.Rep)
      → (j == id) ≡ false
      → I.count k j (forget_dtls_ip I id d dtls_ips) ≡ I.count k j dtls_ips
  unfolding forget_dtls_ip
  forget_dtls_ip-other none k id j dtls_ips n = refl
  forget_dtls_ip-other (some a) k id j dtls_ips n =
      ground (arith, n, I.count-del a.ip k id j dtls_ips)

  pub proc_table_update_ip-other :
      (t : ProcTable I) (id j : ℕ) (p q : ProcEntry) (added : Bool) (addr : Sockaddr)
      → (j == id) ≡ false
      → Holds I t j q added
      → Holds I (proc_table_update_ip I t id p addr).2 j q added
  unfolding proc_table_update_ip
  proc_table_update_ip-other t id j p q added addr n h k =
      let (removed, ips) = I.del p.remote_addr.ip id t.db_ip in
      ground (
        arith,
        n,
        h k,
        I.count-del p.remote_addr.ip k id j t.db_ip,
        readd_ip-other removed addr.ip k id j ips n,
        drop_dtls_ip-other p.dtls_remote_addr addr.ip k id j t.db_dtls_ip n,
      )

  pub proc_table_update_dtls_ip-other :
      (t : ProcTable I) (id j : ℕ) (p q : ProcEntry) (added : Bool) (addr : Option Sockaddr)
      → (j == id) ≡ false
      → Holds I t j q added
      → Holds I (proc_table_update_dtls_ip I t id p addr).2 j q added
  unfolding proc_table_update_dtls_ip set_dtls_ip
  proc_table_update_dtls_ip-other t id j p q added none n h k =
      ground (arith, h k, forget_dtls_ip-other p.dtls_remote_addr k id j t.db_dtls_ip n)
  proc_table_update_dtls_ip-other t id j p q added (some addr) n h k = ground (
    arith,
    n,
    h k,
    forget_dtls_ip-other p.dtls_remote_addr k id j t.db_dtls_ip n,
    I.count-add addr.ip k id j (forget_dtls_ip I id p.dtls_remote_addr t.db_dtls_ip),
  )

  pub proc_table_del-other :
      (t : ProcTable I) (id j : ℕ) (p q : ProcEntry) (added : Bool)
      → (j == id) ≡ false
      → Holds I t j q added
      → Holds I (proc_table_del I t id p) j q added
  unfolding proc_table_del
  proc_table_del-other t id j p q added n h k = ground (
    arith,
    n,
    h k,
    forget_dtls_ip-other p.dtls_remote_addr k id j t.db_dtls_ip n,
    I.count-del p.remote_addr.ip k id j t.db_ip,
    I.count-del p.dtls_session_id k id j t.db_dtls_id,
    I.count-del p.sid k id j t.db_sid,
  )
