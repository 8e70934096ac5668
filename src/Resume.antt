-- ===== src/Resume.antt =====
-- src/sec-mod-resume.c: the cache of TLS sessions that the security module keeps for the workers.
--
-- The cache is the list of its entries, in the order in which the hash table yields them. The table is
-- asked for the entries of one hash, which are compared by session identifier: entries of another
-- hash have another identifier, so that walking the whole list comes to the same. Where `htable_add`
-- puts an entry is an argument: none where it fails, and the table stays as it was. An address is its bytes, which stand for the length of the `sockaddr`.
pub mod Cache
mod Tests
use ocserv_ppa.Base.{
  ℕ, zero, suc, ◌+◌, ◌-◌, ◌*◌, Bool, true, false, ◌&&◌, ◌||◌, not, List, [], ◌∷◌, Option, none,
  some, ltb, leb, ◌==◌, if◌then◌else◌, length, max,
}
use ocserv_ppa.Base.Int.{ℤ, pos, negsuc}
use ocserv_ppa.Base.Bytes.{bytes_eq}

-- `tls_cache_st`
pub record TlsCache : Type 0 where
  pub session_id : List ℕ
  pub session_data : List ℕ
  pub remote_addr : List ℕ
  pub vhostname : Option (List ℕ)

-- `tls_sess_db_st`
pub record TlsDb : Type 0 where
  pub caches : List TlsCache
  pub entries : ℕ

-- `SessionResumeFetchMsg`
pub record FetchMsg : Type 0 where
  pub session_id : List ℕ
  pub cli_addr : List ℕ
  pub vhost : Option (List ℕ)

abbrev pub max_session_id : ℕ
max_session_id = 32

abbrev pub max_session_data_size : ℕ
max_session_data_size = 4 * 1024

abbrev pub default_max_cached_tls_sessions : ℕ
default_max_cached_tls_sessions = 64

-- The most sessions that are kept; `max_clients` is that of the configuration.
unfoldable pub max_cached : ℕ → ℕ
max_cached max_clients = max (2 * max_clients) default_max_cached_tls_sessions

-- Without the first entry of this identifier.
pub remove_first : List ℕ → List TlsCache → List TlsCache
remove_first id [] = []
remove_first id (c ∷ cs) = if bytes_eq id c.session_id then cs else c ∷ remove_first id cs

unfoldable pub has_session : List ℕ → List TlsCache → Bool
has_session id [] = false
has_session id (c ∷ cs) = bytes_eq id c.session_id || has_session id cs

pub handle_resume_delete_req : TlsDb → List ℕ → TlsDb
handle_resume_delete_req db id =
    if has_session id db.caches
    then record { caches = remove_first id db.caches; entries = db.entries - 1 }
    else db

-- Two names that are both there are compared without case, and then the pointers are: an entry has
-- its own copy of a name, so that they are equal only where both are NULL.
unfoldable pub is_other_vhost : (List ℕ → List ℕ → Bool) → Option (List ℕ) → Option (List ℕ) → Bool
is_other_vhost same_name none none = false
is_other_vhost same_name none (some cached) = true
is_other_vhost same_name (some asked) none = true
is_other_vhost same_name (some asked) (some cached) =
    if not (same_name asked cached) then true else true

-- The loop of `handle_resume_fetch_req`: the data of the session that is resumed.
unfoldable pub find_session : (List ℕ → List ℕ → Bool) → FetchMsg → List TlsCache → Option (List ℕ)
find_session same_name req [] = none
find_session same_name req (c ∷ cs) =
    let rest = find_session same_name req cs in
    if not (bytes_eq req.session_id c.session_id)
    then rest
    else if is_other_vhost same_name req.vhost c.vhostname
    then none
    else if bytes_eq req.cli_addr c.remote_addr
    then some c.session_data
    else rest

unfoldable pub handle_resume_fetch_req :
    (List ℕ → List ℕ → Bool) → TlsDb → FetchMsg → Option (List ℕ)
handle_resume_fetch_req same_name db req = find_session same_name req db.caches

-- The entry is that of the request, `allocated` if there is memory for it. It is counted whether or not it was added.
unfoldable pub handle_resume_store_req :
    (TlsCache → List TlsCache → Option (List TlsCache)) → Bool → ℕ → TlsDb → TlsCache → ℤ × TlsDb
handle_resume_store_req htable_add allocated max_clients db c =
    let added : List TlsCache = elim (htable_add c db.caches) [ none ↦ db.caches | some cs ↦ cs ] in
    if ltb max_session_id (length c.session_id) || ltb max_session_data_size (length c.session_data)
    then (negsuc 0, db)
    else if leb (max_cached max_clients) db.entries || length c.remote_addr == 0
    then (negsuc 0, db)
    else if not allocated
    then (negsuc 0, db)
    else (pos 0, record { caches = added; entries = db.entries + 1 })

-- The loop of `expire_tls_sessions`; `entry_time` is when the session of such data began.
pub expire_from : (List ℕ → ℕ) → ℕ → ℕ → List TlsCache → ℕ → TlsDb
expire_from entry_time cookie_timeout now [] entries = record { caches = []; entries = entries }
expire_from entry_time cookie_timeout now (c ∷ cs) entries =
    let is_old = ltb (entry_time c.session_data + cookie_timeout) now in
    let rest =
      expire_from entry_time cookie_timeout now cs (if is_old then entries - 1 else entries) in
    if is_old then rest else record rest { caches = c ∷ rest.caches }

pub expire_tls_sessions : (List ℕ → ℕ) → ℕ → ℕ → TlsDb → TlsDb
expire_tls_sessions entry_time cookie_timeout now db =
    expire_from entry_time cookie_timeout now db.caches db.entries
