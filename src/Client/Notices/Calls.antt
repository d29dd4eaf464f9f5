-- ===== src/Client/Notices/Calls.antt =====
-- The connections that the client's `thread_main` accepts, and `deal_noyify` from `Readline` to
-- `writen` (client/client_gui.cpp).
use everyone_talk.Prelude.{Option, none, some, List, [], ◌∷◌, ◌++◌, Bytes}
use everyone_talk.Common.{UserState, max_line}
use everyone_talk.CString.{c_str}
use everyone_talk.Wire.Readline.{Read, readline}
use everyone_talk.Wire.Writen.{Write, writen}
use everyone_talk.Client.Requests.{Answer, answered, unanswered, unfinished, answer_of}
use everyone_talk.Client.Notices.{Windows, deal_noyify}

-- What the calls on one accepted connection give, and what `state` and `user_name` hold before.
pub record Caller : Type 0 where
  pub writes : List Write
  pub reads : List Read
  pub junk : UserState

-- The windows, the buffer of `readline`, which outlives a connection, and what went back over each
-- connection.
pub record Listening : Type 0 where
  pub windows : Windows
  pub buf : Bytes
  pub replies : List Bytes

-- Behind `Readline`: 0 is a `return` with nothing written. `none` while `read` has not returned.
unfoldable pub deal_answer : Caller → Answer → Bytes → Listening → Option Listening
deal_answer caller (answered text) buf l =
    let (windows, reply) = deal_noyify caller.junk text l.windows in
    some (record {
      windows = windows;
      buf = buf;
      replies = l.replies ++ (writen (c_str reply) caller.writes).0 ∷ [];
    })
deal_answer caller unanswered buf l = some (record l { buf = buf; replies = l.replies ++ [] ∷ [] })
deal_answer caller unfinished buf l = none

-- One connection.
unfoldable pub deal_caller : Caller → Listening → Option Listening
deal_caller caller l =
    let (line, buf, reads) = readline max_line l.buf caller.reads in
    deal_answer caller (answer_of line) buf l

-- The loop of `thread_main` over the connections that `Accept` gives.
unfoldable pub serve_callers : List Caller → Listening → Option Listening
serve_callers [] l = some l
serve_callers (caller ∷ callers) l = elim (deal_caller caller l) [
  | none ↦ none
  | some l' ↦ serve_callers callers l'
]
