-- ===== src/Main/Tests/Logins.antt =====
-- The theorems on logins at a concrete client.
use ocserv_ppa.Base.{◌≤◌, List, [], ◌∷◌, none}
use ocserv_ppa.Base.Index.{pair_index}
use ocserv_ppa.SecMod.Tests.{sid}
use ocserv_ppa.Main.{ProcSt}
use ocserv_ppa.ProcTable.{proc_table_add, proc_table_init}
use ocserv_ppa.Main.Remove.{new_proc_st}
use ocserv_ppa.Main.Login.{LoginEnv}
use ocserv_ppa.Main.Login.Opens.{opens}
use ocserv_ppa.Main.Commands.{WorkerMsg, auth_cookie}
use ocserv_ppa.Main.Commands.Once.{run, run-opens}
use ocserv_ppa.Main.Tests.{L, St, home, home_text, worker, server, env_for, cmd_env}

-- The worker asks twice.
abbrev asks_twice : List (LoginEnv L × WorkerMsg)
asks_twice = (env_for home_text, auth_cookie sid) ∷ (env_for home_text, auth_cookie sid) ∷ []

run-opens_example :
    (opens (run cmd_env asks_twice server worker) ≤ 1)
    × (opens (run cmd_env asks_twice server worker) ≤ 1)
unfolding new_proc_st
run-opens_example = run-opens cmd_env asks_twice server worker

-- The first worker has the cookie; the client comes back with a second one.
abbrev first : ProcSt
first = record worker {
  username = 97 ∷ [];
  entry = record {
    remote_addr = record { ip = home; port = 4000 };
    dtls_remote_addr = none;
    dtls_session_id = [];
    sid = sid;
  };
}

abbrev server1 : St
server1 = record server {
  procs = first ∷ [];
  table = (proc_table_add pair_index (proc_table_init pair_index) 1 first.entry).1;
}

abbrev second : ProcSt
second = record worker { id = 2; username = 97 ∷ [] }
