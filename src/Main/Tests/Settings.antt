-- ===== src/Main/Tests/Settings.antt =====
-- The theorems on settings, users and statistics at concrete values.
use ocserv_ppa.Base.{◌+◌, ◌≡◌, ◌⊎◌, ◌/◌, [], ◌∷◌, some, arith}
use ocserv_ppa.Base.Int.{negsuc}
use ocserv_ppa.Main.{ProcSt, MainStats}
use ocserv_ppa.Base.Bytes.{bytes_eq}
use ocserv_ppa.Main.Remove.{new_proc_st}
use ocserv_ppa.Main.Stats.{
  update_main_stats, update_main_stats-exact, IsCurrent, IsOver, Fits, Overflows, Counts,
}
use ocserv_ppa.Main.Users.{check_multiple_users, check_multiple_users-sessions}
use ocserv_ppa.Main.Tests.{worker, group_cfg, no_stats}

abbrev ended : ProcSt
ended = record worker { bytes_in = 5000; bytes_out = 7000; mtu = 1300; discon_reason = 6 }

update_main_stats-exact_example :
    let s' = update_main_stats no_stats 400 ended in
    (IsCurrent no_stats 400 ended
      × Fits no_stats ended
      × Counts s' (MainStats.last_reset no_stats) (10 + 5000 / 1000) (10 + 7000 / 1000) (3 + 1))
    ⊎ (IsCurrent no_stats 400 ended × Overflows no_stats ended × Counts s' 400 0 0 0)
    ⊎ (IsOver no_stats 400 ended × Counts s' 400 (5000 / 1000) (7000 / 1000) 1)
update_main_stats-exact_example =
    update_main_stats-exact no_stats 400 ended (omega arith) (omega arith) (omega arith)
      (omega arith) (omega arith)

abbrev limited : ProcSt
limited = record worker { config = some (record group_cfg { max_same_clients = some 1 }) }

check_multiple_users-sessions_example :
    check_multiple_users (worker ∷ (record worker { id = 2 }) ∷ []) limited ≡ negsuc 0
unfolding new_proc_st bytes_eq
check_multiple_users-sessions_example =
    check_multiple_users-sessions (worker ∷ (record worker { id = 2 }) ∷ []) limited
