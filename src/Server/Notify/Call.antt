-- ===== src/Server/Notify/Call.antt =====
-- `client_connect` and `deal_notify` of server/notify_client.cpp: one connection to a client, the line
-- that it carries, and the descriptors that stay open. What the system's calls give is an argument.
use everyone_talk.Prelude.{
  ℕ, Bool, Option, none, some, List, [], ◌∷◌, ◌++◌, Bytes, ◌==◌, if◌then◌else◌,
}
use everyone_talk.Int.{ℤ, negsuc, int_eq}
use everyone_talk.Common.{ok, fail}
use everyone_talk.CString.{c_str}
use everyone_talk.Wire.Readline.{Read, Line, got, ended, broken, pending, readline}
use everyone_talk.Wire.Writen.{Write, Result, all, failed, waits, writen}

-- What the calls of one `deal_notify` give: the descriptor of `socket` or -1, whether `connect` succeeds,
-- then `write` and `read`, call by call, with what `readline` holds in its buffer.
pub record Dial : Type 0 where
  pub sockfd : ℤ
  pub connects : Bool
  pub writes : List Write
  pub buf : Bytes
  pub reads : List Read

-- The descriptors that are open, and the bytes handed to the system.
pub record Wires : Type 0 where
  pub opened : List ℤ
  pub written : Bytes

-- What `socket` gives where it fails, which `Socket` only logs: -1.
abbrev pub no_socket : ℤ
no_socket = negsuc 0

-- `Connect` only logs a failure, and its result is not looked at. No socket opens no descriptor.
unfoldable pub client_connect : Dial → Wires → Wires
client_connect dial w = record w {
  opened = if int_eq dial.sockfd no_socket then w.opened else dial.sockfd ∷ w.opened;
}

unfoldable pub release : ℤ → List ℤ → List ℤ
release fd [] = []
release fd (o ∷ opened) = let rest = release fd opened in if int_eq o fd then opened else o ∷ rest

-- On -1, `close` fails with `EBADF`, which `Close` only logs.
unfoldable pub close : ℤ → List ℤ → List ℤ
unfolding release
close fd opened = if int_eq fd no_socket then opened else release fd opened

-- `sizeof(pRet)`.
abbrev pub ret_size : ℕ
ret_size = 30

-- What is done with the reply: 0 of `Readline` is a failure, and everything else is not.
unfoldable pub take_reply : ℤ → Line → Wires → Option (ℤ × Wires)
take_reply fd (got n text) w = some (ok, record w { opened = close fd w.opened })
take_reply fd (ended n text) w =
    if n == 0 then some (fail, w) else some (ok, record w { opened = close fd w.opened })
take_reply fd (broken text) w = some (ok, record w { opened = close fd w.opened })
take_reply fd (pending text) w = none

-- The reply is read behind a `writen` that reports all bytes.
unfoldable pub await_reply : Dial → Result → Wires → Option (ℤ × Wires)
await_reply dial all w = take_reply dial.sockfd (readline ret_size dial.buf dial.reads).0 w
await_reply dial failed w = some (fail, w)
await_reply dial waits w = none

-- What `deal_notify` returns; `none` while a call has not returned.
unfoldable pub deal_notify : Bytes → Dial → Wires → Option (ℤ × Wires)
deal_notify notify dial w =
    let called = client_connect dial w in
    let (out, result) = writen (c_str notify) dial.writes in
    await_reply dial result (record called { written = called.written ++ out })

-- The loop of `notify_client` over the lines, a connection for each.
unfoldable pub deal_notifies : List (Bytes × Dial) → Wires → Option Wires
deal_notifies [] w = some w
deal_notifies ((notify, dial) ∷ dials) w = elim (deal_notify notify dial w) [
  | none ↦ none
  | some (ret, w') ↦ deal_notifies dials w'
]
