-- ===== src/ProcTable.antt =====
-- src/proc-search.c: the main process finds its workers by the address of the client (that of the TLS
-- channel and that of the DTLS channel), by DTLS session and by SID, each in a hash table of its own.
--
-- A worker is given by its number, which stands for the pointer to its `proc_st`; the functions that
-- update it give the entry that they leave. A hash is that of the bytes, and entries of one hash are
-- told apart by a comparison of these bytes, so that the bytes are the key. An address is its bytes,
-- whose number stands for the length of the `sockaddr` (none for a length of 0), and its port.
mod Frame
pub mod Reach
pub mod Clean
pub mod Search
mod Tests
use ocserv_ppa.Base.{
  ℕ, ◌+◌, Bool, true, false, ◌&&◌, ◌||◌, not, List, [], ◌∷◌, Option, none, some, ◌==◌,
  if◌then◌else◌,
}
use ocserv_ppa.Base.Int.{ℤ, pos, negsuc}
use ocserv_ppa.Base.Bytes.{bytes_eq}
use ocserv_ppa.Base.Index.{Index}

pub record Sockaddr : Type 0 where
  pub ip : List ℕ
  pub port : ℕ

-- The fields of `proc_st` that the tables are keyed by. `none` is a length of 0.
pub record ProcEntry : Type 0 where
  pub remote_addr : Sockaddr
  pub dtls_remote_addr : Option Sockaddr
  pub dtls_session_id : List ℕ
  pub sid : List ℕ

-- `memcmp` of two whole addresses
abbrev pub same_addr : Sockaddr → Sockaddr → Bool
same_addr a b = bytes_eq a.ip b.ip && a.port == b.port

-- The DTLS address has this length and these bytes.
abbrev pub is_dtls_ip : Option Sockaddr → List ℕ → Bool
is_dtls_ip none ip = false
is_dtls_ip (some a) ip = bytes_eq a.ip ip

-- The comparison of an entry with the address that is looked for.
abbrev pub local_ip_cmp : ProcEntry → List ℕ → Bool
local_ip_cmp p [] = false
local_ip_cmp p (b ∷ bs) =
    is_dtls_ip p.dtls_remote_addr (b ∷ bs) || bytes_eq p.remote_addr.ip (b ∷ bs)

module _ (I : Index) where
  -- `proc_hash_db_st`
  pub record ProcTable : Type 0 where
    pub db_ip : I.Rep
    pub db_dtls_ip : I.Rep
    pub db_dtls_id : I.Rep
    pub db_sid : I.Rep
    pub total : ℕ

  unfoldable pub proc_table_init : ProcTable
  proc_table_init = record {
    db_ip = I.empty;
    db_dtls_ip = I.empty;
    db_dtls_id = I.empty;
    db_sid = I.empty;
    total = 0;
  }

  unfoldable pub proc_table_add : ProcTable → ℕ → ProcEntry → ℤ × ProcTable
  proc_table_add t id p =
      let (ip_added, ips) = I.add p.remote_addr.ip id t.db_ip in
      let (id_added, dtls_ids) = I.add p.dtls_session_id id t.db_dtls_id in
      let (sid_added, sids) = I.add p.sid id t.db_sid in
      let ips_left = (I.del p.remote_addr.ip id ips).1 in
      if not ip_added
      then (negsuc 0, record t { db_ip = ips })
      else if not id_added
      then (negsuc 0, record t { db_ip = ips_left; db_dtls_id = dtls_ids })
      else if not sid_added
      then (
        negsuc 0,
        record t {
          db_ip = ips_left;
          db_dtls_id = (I.del p.dtls_session_id id dtls_ids).1;
          db_sid = sids;
        },
      )
      else (
        pos 0,
        record t { db_ip = ips; db_dtls_id = dtls_ids; db_sid = sids; total = t.total + 1 },
      )

  -- The table of DTLS addresses and the entry's DTLS address, when the client's address becomes this.
  pub drop_dtls_ip : ℕ → Option Sockaddr → List ℕ → I.Rep → Option Sockaddr × I.Rep
  drop_dtls_ip id none ip dtls_ips = (none, dtls_ips)
  drop_dtls_ip id (some a) ip dtls_ips =
      let (removed, left) = I.del a.ip id dtls_ips in
      if bytes_eq a.ip ip then (if removed then none else some a, left) else (some a, dtls_ips)

  -- The entry goes back under its new address if it was under the old one.
  pub readd_ip : Bool → List ℕ → ℕ → I.Rep → ℤ × I.Rep
  readd_ip false ip id ips = (pos 0, ips)
  readd_ip true ip id ips =
      let (added, ips') = I.add ip id ips in (if added then pos 0 else negsuc 0, ips')

  pub proc_table_update_ip : ProcTable → ℕ → ProcEntry → Sockaddr → ℤ × ProcEntry × ProcTable
  proc_table_update_ip t id p addr =
      let (removed, ips) = I.del p.remote_addr.ip id t.db_ip in
      let (dtls_addr, dtls_ips) = drop_dtls_ip id p.dtls_remote_addr addr.ip t.db_dtls_ip in
      let (ret, ips') = readd_ip removed addr.ip id ips in
      if same_addr addr p.remote_addr then (pos 0, p, t) else (
        ret,
        record p { remote_addr = addr; dtls_remote_addr = dtls_addr },
        record t { db_ip = ips'; db_dtls_ip = dtls_ips },
      )

  -- The table without the old DTLS address.
  pub forget_dtls_ip : ℕ → Option Sockaddr → I.Rep → I.Rep
  forget_dtls_ip id none dtls_ips = dtls_ips
  forget_dtls_ip id (some a) dtls_ips = (I.del a.ip id dtls_ips).1

  -- The new DTLS address goes into the table; it is that of the entry also where that fails.
  pub set_dtls_ip : ProcTable → ℕ → ProcEntry → I.Rep → Sockaddr → ℤ × ProcEntry × ProcTable
  set_dtls_ip t id p dtls_ips addr =
      let (added, dtls_ips') = I.add addr.ip id dtls_ips in
      (
        if added then pos 0 else negsuc 0,
        record p { dtls_remote_addr = some addr },
        record t { db_dtls_ip = dtls_ips' },
      )

  -- `none` is an address of length 0.
  pub proc_table_update_dtls_ip :
      ProcTable → ℕ → ProcEntry → Option Sockaddr → ℤ × ProcEntry × ProcTable
  proc_table_update_dtls_ip t id p none = (
    pos 0,
    record p { dtls_remote_addr = none },
    record t { db_dtls_ip = forget_dtls_ip id p.dtls_remote_addr t.db_dtls_ip },
  )
  proc_table_update_dtls_ip t id p (some addr) =
      let dtls_ips = forget_dtls_ip id p.dtls_remote_addr t.db_dtls_ip in
      if is_dtls_ip p.dtls_remote_addr addr.ip
      then (negsuc 0, p, t)
      else if bytes_eq p.remote_addr.ip addr.ip
      then (negsuc 0, record p { dtls_remote_addr = none }, record t { db_dtls_ip = dtls_ips })
      else set_dtls_ip t id p dtls_ips addr

  pub proc_table_del : ProcTable → ℕ → ProcEntry → ProcTable
  proc_table_del t id p = record t {
    db_ip = (I.del p.remote_addr.ip id t.db_ip).1;
    db_dtls_ip = forget_dtls_ip id p.dtls_remote_addr t.db_dtls_ip;
    db_dtls_id = (I.del p.dtls_session_id id t.db_dtls_id).1;
    db_sid = (I.del p.sid id t.db_sid).1;
  }

  -- `htable_get` stops at the first entry that passes, so that `found_ips` is 1 whenever there is one.
  -- `lookup` reads the entry behind a pointer.
  pub proc_search_single_ip : ProcTable → (ℕ → ProcEntry) → List ℕ → Option ℕ
  proc_search_single_ip t lookup ip =
      elim (I.get ip (λ id. local_ip_cmp (lookup id) ip) t.db_dtls_ip) [
        | some id ↦ some id
        | none ↦ I.get ip (λ id. local_ip_cmp (lookup id) ip) t.db_ip
      ]

  pub proc_search_dtls_id : ProcTable → (ℕ → ProcEntry) → List ℕ → Option ℕ
  proc_search_dtls_id t lookup id =
      I.get id (λ i. bytes_eq (lookup i).dtls_session_id id) t.db_dtls_id

  unfoldable pub proc_search_sid : ProcTable → (ℕ → ProcEntry) → List ℕ → Option ℕ
  proc_search_sid t lookup sid = I.get sid (λ i. bytes_eq (lookup i).sid sid) t.db_sid
