-- ===== src/ProcTable/Tests.antt =====
-- The tables of workers at concrete inputs.
use ocserv_ppa.Base.{ℕ, ◌≡◌, false, ◌==◌, List, [], ◌∷◌, none, some, refl, if◌then◌else◌}
use ocserv_ppa.Base.Bytes.{bytes_eq}
use ocserv_ppa.Base.Index.{pair_index}
use ocserv_ppa.ProcTable.{
  ProcEntry, proc_table_init, proc_table_add, proc_table_update_dtls_ip, proc_search_sid,
  set_dtls_ip,
}
use ocserv_ppa.ProcTable.Reach.{
  World, Reach, Reach.init, Reach.after, Call.add, Call.update_dtls_ip, Call.del, after_add,
  after_update_dtls_ip, after_del, Reach-IsHeld,
}
use ocserv_ppa.ProcTable.Clean.{Holds}
use ocserv_ppa.ProcTable.Search.{IsSearch, proc_search_sid-IsSearch}

abbrev alice : ProcEntry
alice = record {
  remote_addr = record { ip = 10 ∷ 0 ∷ 0 ∷ 1 ∷ []; port = 4000 };
  dtls_remote_addr = none;
  dtls_session_id = (1 ∷ 2 ∷ []);
  sid = (7 ∷ 7 ∷ []);
}

-- A second client behind the same address.
abbrev bob : ProcEntry
bob = record alice { dtls_session_id = (3 ∷ 4 ∷ []); sid = (8 ∷ 8 ∷ []) }

abbrev entries : ℕ → ProcEntry
entries id = if id == 1 then alice else bob

abbrev world0 : World pair_index
world0 = record { table = proc_table_init pair_index; entry = entries; added = λ id. false }

abbrev world1 : World pair_index
world1 = after_add pair_index world0 1

abbrev world2 : World pair_index
world2 = after_add pair_index world1 2

abbrev world3 : World pair_index
world3 =
    after_update_dtls_ip pair_index world2 1
      (some (record { ip = (10 ∷ 0 ∷ 0 ∷ 9 ∷ []); port = 5000 }))

abbrev world4 : World pair_index
world4 = after_del pair_index world3 1

abbrev reach3 : Reach pair_index world3
unfolding pair_index proc_table_add proc_table_init
reach3 =
    after _ _ (after _ _ (after _ _ (init entries) (add world0 1 refl)) (add world1 2 refl))
      (update_dtls_ip world2 1 _ refl)

reach4 : Reach pair_index world4
reach4 = after _ _ reach3 (del world3 1)

Reach-IsHeld_example : Holds pair_index world3.table 1 (world3.entry 1) (world3.added 1)
Reach-IsHeld_example = Reach-IsHeld pair_index reach3 1

abbrev home : List ℕ
home = 10 ∷ 0 ∷ 0 ∷ 1 ∷ []

proc_search_sid-IsSearch_example :
    IsSearch pair_index world3.added
      (λ id. bytes_eq (world3.entry id).sid (8 ∷ 8 ∷ []))
      (proc_search_sid pair_index world3.table world3.entry (8 ∷ 8 ∷ []))
proc_search_sid-IsSearch_example = proc_search_sid-IsSearch pair_index world3 (8 ∷ 8 ∷ []) reach3

-- The second worker has the SID.
search_sid : proc_search_sid pair_index world3.table world3.entry (8 ∷ 8 ∷ []) ≡ some 2
unfolding pair_index proc_table_add proc_table_init proc_search_sid proc_table_update_dtls_ip
    bytes_eq set_dtls_ip
search_sid = refl
