-- ===== src/Server/Connection.antt =====
-- The loop of `deal_msg` of server/server.cpp: one thread with one connection, from `Readline` to
-- `writen`. What `read` gives, call by call, is part of the state, and what each round meets besides is
-- an argument. The buffer of `readline` is one for all threads; a connection holds it between two rounds of
-- its thread if no other thread reads there, and Server/Threads shares it.
pub mod Lines
pub mod Ends
use everyone_talk.Prelude.{
  ℕ, ◌+◌, true, false, Bool, List, [], ◌∷◌, ◌++◌, Bytes, length, drop, replicate, ◌==◌,
  if◌then◌else◌,
}
use everyone_talk.Outcome.{Outcome, done, ◌>>=◌}
use everyone_talk.Common.{max_line}
use everyone_talk.Server.State.{Server}
use everyone_talk.Server.Handlers.{Env}
use everyone_talk.Server.Dispatch.{Reply, deal_line}
use everyone_talk.Wire.Readline.{Read, Line, got, ended, broken, pending, readline}

-- Whether the thread goes on, has returned, or waits in `read`.
pub data Status : Type 0 where
  running returned blocked : Status

-- The thread's `msg_recv`, the shared buffer of `readline` as the thread finds it, the reads to come, and all bytes handed to
-- `writen`, with the server's tables.
pub record Connection : Type 0 where
  pub server : Server
  pub msg_recv : Bytes
  pub buf : Bytes
  pub reads : List Read
  pub written : Bytes
  pub status : Status

-- `msg_recv` before the loop, `= {0}`.
abbrev pub zeros : Bytes
zeros = replicate max_line 0

-- `Readline` writes the text over the array, with a NUL behind it unless `read` failed.
unfoldable pub fill : Line → Bytes → Bytes
fill (got n text) msg_recv = text ++ 0 ∷ drop (length text + 1) msg_recv
fill (ended n text) msg_recv = text ++ 0 ∷ drop (length text + 1) msg_recv
fill (broken text) msg_recv = text ++ drop (length text) msg_recv
fill (pending text) msg_recv = text ++ drop (length text) msg_recv

-- A reply, and `return` after a quit.
unfoldable pub answer : Connection → Reply → Connection
answer c r = record c {
  server = r.server;
  written = c.written ++ r.written;
  status = if r.returns then returned else running;
}

-- The rest of a round on what `Readline` gave: 0 is `continue`, and -1 goes on as a line does.
unfoldable pub deal_read : Env → Line → Connection → Outcome Connection
deal_read env (got n text) c = do r ← deal_line env c.msg_recv c.server; done (answer c r)
deal_read env (ended n text) c =
    if n == 0 then done c else (deal_line env c.msg_recv c.server >>= λ r. done (answer c r))
deal_read env (broken text) c = do r ← deal_line env c.msg_recv c.server; done (answer c r)
deal_read env (pending text) c = done (record c { status = blocked })

-- One round.
unfoldable pub turn : Env → Connection → Outcome Connection
turn env c =
    let (line, buf, reads) = readline max_line c.buf c.reads in
    deal_read env line (record c { msg_recv = fill line c.msg_recv; buf = buf; reads = reads })

-- The loop does not go on once the thread has returned or waits.
unfoldable pub go_on : Status → (Connection → Outcome Connection) → Connection → Outcome Connection
go_on running more c = more c
go_on returned more c = done c
go_on blocked more c = done c

-- As many rounds as there are environments, at most.
unfoldable pub rounds : List Env → Connection → Outcome Connection
unfolding go_on
rounds [] c = done c
rounds (env ∷ envs) c = turn env c >>= λ c'. go_on c'.status (rounds envs) c'

-- A connection that has just been accepted.
abbrev pub accepted : List Read → Server → Connection
accepted reads s = record {
  server = s;
  msg_recv = zeros;
  buf = [];
  reads = reads;
  written = [];
  status = running;
}
