-- ===== src/Resume/Cache.antt =====
-- Which sessions are resumed, and how many are kept.
use ocserv_ppa.Base.{
  ℕ, ◌+◌, ◌-◌, ◌≤◌, ◌≡◌, ◌⊎◌, inl, inr, refl, Bool, true, false, List, [], ◌∷◌, ◌++◌, Option, none,
  some, ltb, length, arith, Bool-cases, ap,
}
use ocserv_ppa.Base.Int.{pos, is_neg}
use ocserv_ppa.Base.Bytes.{bytes_eq_sound, bytes_eq_refl}
use ocserv_ppa.Resume.{
  TlsCache, TlsDb, FetchMsg, max_cached, remove_first, has_session, handle_resume_delete_req,
  is_other_vhost, find_session, handle_resume_fetch_req, handle_resume_store_req, expire_from,
  expire_tls_sessions,
}

-- The session of this entry has this data, and is resumed for the request.
pub record Resumes (req : FetchMsg) (data' : List ℕ) (c : TlsCache) : Type 0 where
  pub data_eq : c.session_data ≡ data'
  pub id_eq : c.session_id ≡ req.session_id
  pub addr_eq : c.remote_addr ≡ req.cli_addr
  pub default_asked : req.vhost ≡ none
  pub default_cached : c.vhostname ≡ none

find_session-head :
    (same_name : List ℕ → List ℕ → Bool) (req : FetchMsg) (c : TlsCache) (cs : List TlsCache)
    (data' : List ℕ)
    → find_session same_name req (c ∷ cs) ≡ some data'
    → Resumes req data' c ⊎ (find_session same_name req cs ≡ some data')
unfolding find_session is_other_vhost
find_session-head same_name req c cs data' h =
    ground
      (arith, bytes_eq_sound req.session_id c.session_id, bytes_eq_sound req.cli_addr c.remote_addr)

find_session-Resumes :
    (same_name : List ℕ → List ℕ → Bool) (req : FetchMsg) (cs : List TlsCache) (data' : List ℕ)
    → find_session same_name req cs ≡ some data'
    → (before after : List TlsCache) × (c : TlsCache) × (cs ≡ before ++ c ∷ after)
      × Resumes req data' c
unfolding find_session
find_session-Resumes same_name req [] data' h = absurd (ground arith)
find_session-Resumes same_name req (c ∷ cs) data' h =
    elim (find_session-head same_name req c cs data' h) [
      | inl first ↦ ([], cs, c, refl, first)
      | inr later ↦
          (let (before, after, c', e, found) = find_session-Resumes same_name req cs data' later in
            (c ∷ before, after, c', ap (◌∷◌ c) e, found))
    ]

-- A session is only resumed from an entry of its own identifier that was stored from the same
-- address, and only where neither the request nor the entry names a virtual host.
pub handle_resume_fetch_req-Resumes :
    (same_name : List ℕ → List ℕ → Bool) (db : TlsDb) (req : FetchMsg) (data' : List ℕ)
    → handle_resume_fetch_req same_name db req ≡ some data'
    → (before after : List TlsCache) × (c : TlsCache) × (db.caches ≡ before ++ c ∷ after)
      × Resumes req data' c
unfolding handle_resume_fetch_req
handle_resume_fetch_req-Resumes same_name db req data' h =
    find_session-Resumes same_name req db.caches data' h

find_session-placed :
    (same_name : List ℕ → List ℕ → Bool) (before after : List TlsCache) (c : TlsCache)
    → has_session c.session_id (before ++ after) ≡ false
    → c.vhostname ≡ none
    → find_session same_name
        (record { session_id = c.session_id; cli_addr = c.remote_addr; vhost = none })
        (before ++ c ∷ after)
      ≡ some c.session_data
unfolding find_session has_session is_other_vhost
find_session-placed same_name [] after c fresh unnamed =
    ground (arith, bytes_eq_refl c.session_id, bytes_eq_refl c.remote_addr)
find_session-placed same_name (d ∷ before) after c fresh unnamed =
    ground (arith, find_session-placed same_name before after c)

-- A session that is stored without a virtual host, under an identifier that no entry had, is
-- resumed for a request without a virtual host from the same address. (`htable_add` puts the entry
-- between the others.)
pub fetch-store :
    (same_name : List ℕ → List ℕ → Bool)
    (htable_add : TlsCache → List TlsCache → Option (List TlsCache)) (allocated : Bool)
    (max_clients : ℕ) (db : TlsDb) (c : TlsCache) (before after : List TlsCache)
    → db.caches ≡ before ++ after
    → htable_add c db.caches ≡ some (before ++ c ∷ after)
    → has_session c.session_id db.caches ≡ false
    → c.vhostname ≡ none
    → (handle_resume_store_req htable_add allocated max_clients db c).0 ≡ pos 0
    → handle_resume_fetch_req same_name
        (handle_resume_store_req htable_add allocated max_clients db c).1
        (record { session_id = c.session_id; cli_addr = c.remote_addr; vhost = none })
      ≡ some c.session_data
unfolding handle_resume_fetch_req handle_resume_store_req
fetch-store same_name htable_add allocated max_clients db c before after e e' fresh unnamed ok =
    ground (arith, find_session-placed same_name before after c)

-- The entries that were added are counted, and as many that were not; the number does not go above the maximum.
pub record IsCounted (max_clients lost : ℕ) (db : TlsDb) : Type 0 where
  pub count : db.entries ≡ length db.caches + lost
  pub bound : db.entries ≤ max_cached max_clients

length-remove_first :
    (id : List ℕ) (cs : List TlsCache)
    → has_session id cs ≡ true
    → length cs ≡ length (remove_first id cs) + 1
unfolding remove_first has_session
length-remove_first id [] h = ground arith
length-remove_first id (c ∷ cs) h = ground (arith, length-remove_first id cs)

expire_from-count :
    (entry_time : List ℕ → ℕ) (timeout now : ℕ) (cs : List TlsCache) (entries extra : ℕ)
    → entries ≡ length cs + extra
    → let db = expire_from entry_time timeout now cs entries in
      (db.entries ≡ length db.caches + extra) × (db.entries ≤ entries)
unfolding expire_from
expire_from-count entry_time timeout now [] entries extra h = (h, omega arith)
expire_from-count entry_time timeout now (c ∷ cs) entries extra h =
    elim (Bool-cases (ltb (entry_time c.session_data + timeout) now)) [
      | inl old ↦
          ground
            (arith, expire_from-count entry_time timeout now cs (entries - 1) extra (omega arith))
      | inr kept ↦
          ground
            (arith, expire_from-count entry_time timeout now cs entries (extra + 1) (omega arith))
    ]

-- The operations that change the cache, with the number of entries that could not be added. `htable_add` fails, or
-- puts one entry somewhere between the others.
pub data Step (max_clients : ℕ) (db : TlsDb) (lost : ℕ) : TlsDb → ℕ → Type 0 where
  stored :
      (htable_add : TlsCache → List TlsCache → Option (List TlsCache)) (allocated : Bool)
      (c : TlsCache) (cs : List TlsCache)
      → htable_add c db.caches ≡ some cs
      → length cs ≡ length db.caches + 1
      → Step max_clients db lost
          (handle_resume_store_req htable_add allocated max_clients db c).1
          lost
  unadded :
      (htable_add : TlsCache → List TlsCache → Option (List TlsCache)) (c : TlsCache)
      → htable_add c db.caches ≡ none
      → (handle_resume_store_req htable_add true max_clients db c).0 ≡ pos 0
      → Step max_clients db lost
          (handle_resume_store_req htable_add true max_clients db c).1
          (lost + 1)
  refused :
      (htable_add : TlsCache → List TlsCache → Option (List TlsCache)) (allocated : Bool)
      (c : TlsCache)
      → is_neg (handle_resume_store_req htable_add allocated max_clients db c).0 ≡ true
      → Step max_clients db lost
          (handle_resume_store_req htable_add allocated max_clients db c).1
          lost
  deleted : (id : List ℕ) → Step max_clients db lost (handle_resume_delete_req db id) lost
  expired :
      (entry_time : List ℕ → ℕ) (timeout now : ℕ)
      → Step max_clients db lost (expire_tls_sessions entry_time timeout now db) lost

-- Any number of them.
pub data Steps (max_clients : ℕ) (db : TlsDb) (lost : ℕ) : TlsDb → ℕ → Type 0 where
  start : Steps max_clients db lost db lost
  after :
      {db' db'' : TlsDb} {lost' lost'' : ℕ}
      → Steps max_clients db lost db' lost'
      → Step max_clients db' lost' db'' lost''
      → Steps max_clients db lost db'' lost''

Step-IsCounted :
    (max_clients lost lost' : ℕ) (db db' : TlsDb)
    → Step max_clients db lost db' lost'
    → IsCounted max_clients lost db
    → IsCounted max_clients lost' db'
unfolding handle_resume_store_req handle_resume_delete_req expire_tls_sessions
Step-IsCounted max_clients lost lost' db db' (stored htable_add allocated c cs e h) counted =
    ground arith
Step-IsCounted max_clients lost lost' db db' (unadded htable_add c e ok) counted = ground arith
Step-IsCounted max_clients lost lost' db db' (refused htable_add allocated c negative) counted =
    ground arith
Step-IsCounted max_clients lost lost' db db' (deleted id) counted =
    ground (arith, length-remove_first id db.caches)
Step-IsCounted max_clients lost lost' db db' (expired entry_time timeout now) counted =
    let (count, le) =
      expire_from-count entry_time timeout now db.caches db.entries lost
        (omega (arith, counted.count)) in
    record { count = omega (arith, count); bound = omega (arith, le, counted.bound) }

-- However sessions are stored, deleted and expired, one after the other, the counter is the number of the entries
-- and of those that `htable_add` failed to add, which are counted as well and never freed; and it does not go above
-- twice the clients (or 64).
pub Steps-IsCounted :
    (max_clients lost : ℕ) (db db' : TlsDb) (lost' : ℕ)
    → Steps max_clients db lost db' lost'
    → IsCounted max_clients lost db
    → IsCounted max_clients lost' db'
Steps-IsCounted max_clients lost db db' lost' start counted = counted
Steps-IsCounted max_clients lost db db' lost' (after {db' = db1} {lost' = lost1} before step)
      counted =
    Step-IsCounted max_clients lost1 lost' db1 db' step
      (Steps-IsCounted max_clients lost db db1 lost1 before counted)
