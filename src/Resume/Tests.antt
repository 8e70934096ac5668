-- ===== src/Resume/Tests.antt =====
-- The cache of TLS sessions with one session.
use ocserv_ppa.Base.{ℕ, ◌+◌, ◌≡◌, Option, some, true, refl, Bool, List, [], ◌∷◌, ◌++◌, none, arith}
use ocserv_ppa.Base.Bytes.{bytes_eq}
use ocserv_ppa.Base.Int.{pos}
use ocserv_ppa.Resume.{
  TlsCache, TlsDb, FetchMsg, find_session, is_other_vhost, max_cached, handle_resume_fetch_req,
  handle_resume_store_req,
}
use ocserv_ppa.Resume.Cache.{
  Resumes, handle_resume_fetch_req-Resumes, IsCounted, Steps, start, after, stored, unadded,
  Steps-IsCounted,
}

abbrev session : List ℕ → TlsCache
session id = record {
  session_id = id;
  session_data = 7 ∷ 7 ∷ [];
  remote_addr = 10 ∷ 0 ∷ 0 ∷ 1 ∷ [];
  vhostname = none;
}

abbrev one : TlsDb
one = record { caches = session (1 ∷ []) ∷ []; entries = 1 }

abbrev request : FetchMsg
request = record { session_id = 1 ∷ []; cli_addr = 10 ∷ 0 ∷ 0 ∷ 1 ∷ []; vhost = none }

abbrev same : List ℕ → List ℕ → Bool
same = bytes_eq

handle_resume_fetch_req-Resumes_example :
    (before after : List TlsCache) × (c : TlsCache) × (session (1 ∷ []) ∷ [] ≡ before ++ c ∷ after)
    × Resumes request (7 ∷ 7 ∷ []) c
unfolding handle_resume_fetch_req find_session is_other_vhost bytes_eq
handle_resume_fetch_req-Resumes_example =
    handle_resume_fetch_req-Resumes same one request (7 ∷ 7 ∷ []) refl

abbrev in_front : TlsCache → List TlsCache → Option (List TlsCache)
in_front c cs = some (c ∷ cs)

abbrev fails : TlsCache → List TlsCache → Option (List TlsCache)
fails c cs = none

abbrev two : TlsDb
two = (handle_resume_store_req in_front true 16 one (session (2 ∷ []))).1

two_stored : Steps 16 one 0 two 0
two_stored =
    after start
      (stored in_front true (session (2 ∷ [])) (session (2 ∷ []) ∷ session (1 ∷ []) ∷ []) refl refl)

not_refused : (handle_resume_store_req fails true 16 two (session (3 ∷ []))).0 ≡ pos 0
unfolding handle_resume_store_req max_cached
not_refused = refl

Steps-IsCounted_example :
    IsCounted 16 (0 + 1) (handle_resume_store_req fails true 16 two (session (3 ∷ []))).1
unfolding max_cached
Steps-IsCounted_example =
    Steps-IsCounted 16 0 one (handle_resume_store_req fails true 16 two (session (3 ∷ []))).1
      (0 + 1) (after two_stored (unadded fails (session (3 ∷ [])) refl not_refused))
      (record { count = refl; bound = omega arith })
