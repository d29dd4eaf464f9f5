-- ===== src/Server/Threads.antt =====
-- `main`, `init_mysql_table` and `thread_main` of server/server.cpp: the tables are loaded, connections
-- are accepted, and each has a thread that runs its rounds on the shared tables. Each round is one step,
-- and the rounds of the threads come in any order.
pub mod Reached
pub mod Turns
pub mod Taken
use everyone_talk.Prelude.{Bool, ◌≡◌, List, [], ◌∷◌, ◌++◌, Bytes, if◌then◌else◌}
use everyone_talk.Int.{ℤ, pos, negsuc, int_eq}
use everyone_talk.Common.{ok}
use everyone_talk.Outcome.{done}
use everyone_talk.Server.State.{Server, TblFriend, start}
use everyone_talk.Server.Sql.{Mysql, connect_mysql}
use everyone_talk.Server.Users.{init_tbl_user}
use everyone_talk.Server.Friends.{init_tbl_friend}
use everyone_talk.Server.Handlers.{Env}
use everyone_talk.Server.Connection.{Connection, running, turn, accepted}
use everyone_talk.Wire.Readline.{Read}

-- `connects` is whether the database can be reached; `id` and `row` are what fields hold that no column
-- sets.
unfoldable pub init_mysql_table : Bool → Mysql → ℤ → TblFriend → Server → Server × ℤ
init_mysql_table connects mysql id row s =
    let (sent, ret) = connect_mysql mysql connects s.sent in
    let s' = record s { sent = sent } in
    if int_eq ret ok
    then (init_tbl_friend mysql row (init_tbl_user mysql id s'), pos 0)
    else (s', negsuc 0)

-- The shared tables, and a thread for each connection accepted so far. The tables that a thread's own
-- record holds are those of its last round, and so is the buffer: `readline` has one static buffer for
-- all threads.
pub record Serving : Type 0 where
  pub server : Server
  pub buf : Bytes
  pub threads : List Connection

pub data Step : Serving → Serving → Type 0 where
  accepts :
      (s : Server) (buf : Bytes) (threads : List Connection) (reads : List Read)
      → Step
          (record { server = s; buf = buf; threads = threads })
          (record { server = s; buf = buf; threads = threads ++ accepted reads s ∷ [] })
  deals :
      (s : Server) (buf : Bytes) (before after : List Connection) (env : Env) (c c' : Connection)
      → c.status ≡ running
      → turn env (record c { server = s; buf = buf }) ≡ done c'
      → Step
          (record { server = s; buf = buf; threads = before ++ c ∷ after })
          (record { server = c'.server; buf = c'.buf; threads = before ++ c' ∷ after })

-- The states of a server whose tables were loaded.
pub data Serves (loaded : Server) : Serving → Type 0 where
  listens : Serves loaded (record { server = loaded; buf = []; threads = [] })
  goes_on : (x y : Serving) → Serves loaded x → Step x y → Serves loaded y
