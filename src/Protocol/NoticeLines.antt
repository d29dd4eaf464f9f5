-- ===== src/Protocol/NoticeLines.antt =====
-- The two ends of the connection that carries a notice: server/notify_client.cpp and the listening thread of
-- client/client_gui.cpp.
use everyone_talk.Prelude.{
  ◌≡◌, refl, subst, ap, ◌∙◌, Option, none, some, List, [], ◌∷◌, ◌++◌, append_assoc, Bytes,
  All-append, arith, codes,
}
use everyone_talk.CString.{c_str, c_str-Lacks}
use everyone_talk.Common.{ok, newline}
use everyone_talk.Server.Connection.Lines.{IsLine}
use everyone_talk.Server.Notify.Call.{
  Dial, Wires, client_connect, ret_size, take_reply, await_reply, deal_notify,
}
use everyone_talk.Server.Notify.Descriptors.{close-client_connect}
use everyone_talk.Client.Notices.{deal_noyify}
use everyone_talk.Client.Notices.Lines.{
  reply_text, reply-deal_noyify, c_str-reply_text, caller_line,
}
use everyone_talk.Client.Notices.Calls.{Caller, Listening, deal_caller}
use everyone_talk.Wire.Readline.{stream, readline_line}
use everyone_talk.Wire.Writen.{writen, all, writen-all}

-- The last of what went back over the connections.
unfoldable pub last : List Bytes → Bytes
last [] = []
last (x ∷ []) = x
last (x ∷ y ∷ replies) = last (y ∷ replies)

last-append : (replies : List Bytes) (x : Bytes) → last (replies ++ x ∷ []) ≡ x
unfolding last
last-append [] x = refl
last-append (y ∷ []) x = refl
last-append (y ∷ z ∷ replies) x = last-append (z ∷ replies) x

-- What the client wrote on the connection that it dealt with last.
unfoldable pub written_back : Option Listening → Bytes
unfolding last
written_back none = []
written_back (some l) = last l.replies

-- The two ends of a notice's connection: what each side writes goes out whole, and reaches the other
-- in whatever pieces, with more behind it. What the client writes is what its own code gives.
pub record Connected (request rest rest' : Bytes) (dial : Dial) (caller : Caller) (l : Listening)
    : Type 0 where
  pub sent : (writen (c_str request) dial.writes).1 ≡ all
  pub arrives : stream l.buf caller.reads ≡ (writen (c_str request) dial.writes).0 ++ rest
  pub replied : (writen (c_str (deal_noyify caller.junk request l.windows).1) caller.writes).1 ≡ all
  pub comes_back : stream dial.buf dial.reads ≡ written_back (deal_caller caller l) ++ rest'

-- The server's end.
dial_line :
    (request rest : Bytes) (dial : Dial) (w : Wires)
    → (writen (c_str request) dial.writes).1 ≡ all
    → stream dial.buf dial.reads ≡ reply_text ++ rest
    → deal_notify request dial w
      ≡ some (ok, record { opened = w.opened; written = w.written ++ c_str request })
unfolding deal_notify client_connect await_reply take_reply
dial_line request rest dial w sent back =
    let (read, _) =
      readline_line ret_size (codes "hahahahahahahaha") rest dial.buf dial.reads back (omega arith)
        (omega arith) in
    rw (sent, read, writen-all (c_str request) dial.writes sent)
      (ap (λ o. some (ok, record { opened = o; written = w.written ++ c_str request }))
        (close-client_connect dial w))

-- A line through both ends.
pub line_exchange :
    (line rest rest' : Bytes) (dial : Dial) (caller : Caller) (l : Listening) (w : Wires)
    → IsLine line
    → Connected (line ++ newline ∷ []) rest rest' dial caller l
    → (deal_notify (line ++ newline ∷ []) dial w
        ≡ some (ok, record { opened = w.opened; written = w.written ++ (line ++ newline ∷ []) }))
      × (l' : Listening) × (deal_caller caller l ≡ some l')
      × (l'.windows ≡ (deal_noyify caller.junk (line ++ newline ∷ []) l.windows).0)
unfolding written_back
line_exchange line rest rest' dial caller l w h k =
    let request : Bytes = line ++ newline ∷ [] in
    let text : c_str request ≡ request =
      c_str-Lacks request (All-append _ line _ h.no_nul (omega arith)) in
    let out = writen-all (c_str request) dial.writes k.sent ∙ text in
    let arrives : stream l.buf caller.reads ≡ line ++ newline ∷ rest =
      k.arrives ∙ ap (λ x. x ++ rest) out ∙ append_assoc line (newline ∷ []) rest in
    let (l', called, windows, _, replies) = caller_line line rest caller l h arrives in
    let reply : c_str (deal_noyify caller.junk request l.windows).1 ≡ reply_text =
      ap c_str (reply-deal_noyify caller.junk request l.windows) ∙ c_str-reply_text in
    let whole : (writen reply_text caller.writes).0 ≡ reply_text =
      writen-all reply_text caller.writes
        (subst (λ x. (writen x caller.writes).1 ≡ all) reply k.replied) in
    let wrote : written_back (deal_caller caller l) ≡ reply_text =
      ap written_back called
      ∙ ap last replies
      ∙ last-append l.replies (writen reply_text caller.writes).0
      ∙ whole in
    let back = k.comes_back ∙ ap (λ x. x ++ rest') wrote in
    let dealt = dial_line request rest' dial w k.sent back in
    (
      dealt ∙ ap (λ x. some (ok, record { opened = w.opened; written = w.written ++ x })) text,
      l',
      called,
      windows,
    )
