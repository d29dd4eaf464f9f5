-- ===== src/Protocol/Calls.antt =====
-- A request of the client over a connection, from the call to the value that it returns.
use everyone_talk.Prelude.{
  suc, ◌<◌, ◌≡◌, refl, ap, ◌∙◌, some, List, [], ◌∷◌, ◌++◌, append_assoc, Bytes, All, All-append,
  Lacks, length, length-append, arith, map,
}
use everyone_talk.Int.{ℤ, IsInt, print_int}
use everyone_talk.Int.RoundTrip.{atoi-print_int, print_int-Lacks_below}
use everyone_talk.Outcome.{done, store, store_done, >>=-eq-done}
use everyone_talk.CString.{c_str, c_str-Lacks}
use everyone_talk.Common.{ok, max_line, newline}
use everyone_talk.Server.State.{Server, TblUser}
use everyone_talk.Server.Logins.{States}
use everyone_talk.Server.Handlers.{serialize_string}
use everyone_talk.Server.Dispatch.{Reply, send_number}
use everyone_talk.Client.Requests.{
  Socket, answered, answer_of, read_answer, deal_msg, reply_number, reply_friends,
}
use everyone_talk.Wire.Readline.{stream, readline_line}
use everyone_talk.Wire.Writen.{writen, all}
use everyone_talk.Protocol.FriendLists.{IsListed, shown, friend_list_reply}

-- A reply of one line that fits is what `deal_msg` gives, once the request has gone out.
deal_msg-line :
    (request line rest : Bytes) (socket : Socket)
    → (writen (c_str request) socket.writes).1 ≡ all
    → stream socket.buf socket.reads ≡ line ++ newline ∷ rest
    → Lacks newline line
    → suc (length line) < max_line
    → deal_msg request socket ≡ answered (line ++ newline ∷ [])
unfolding deal_msg read_answer answer_of
deal_msg-line request line rest socket sent arrives h k =
    let (read, _) = readline_line max_line line rest socket.buf socket.reads arrives h k in
    rw (sent, read)

-- An `int` that a handler of the server returns, and that is sent back within its buffer, is the
-- number that the client's call returns, if the request goes out whole and the connection carries
-- the server's reply, in whatever pieces.
pub number_reply :
    (request rest : Bytes) (s : Server) (ret : ℤ) (socket : Socket) (r : Reply)
    → IsInt ret
    → send_number (s, ret) ≡ done r
    → (writen (c_str request) socket.writes).1 ≡ all
    → stream socket.buf socket.reads ≡ r.written ++ rest
    → reply_number (deal_msg request socket) ≡ some ret
unfolding send_number reply_number
number_reply request rest s ret socket r h printed sent arrives =
    let (sendline, stored, made) =
      >>=-eq-done (store 10 (print_int ret ++ newline ∷ [])) _ printed in
    let (same, fits) = store_done 10 (print_int ret ++ newline ∷ []) stored in
    let written : r.written ≡ print_int ret ++ newline ∷ [] = cc (made, same) in
    let line =
      deal_msg-line request (print_int ret) rest socket sent
        (arrives ∙ ap (λ l. l ++ rest) written ∙ append_assoc (print_int ret) (newline ∷ []) rest)
        (print_int-Lacks_below newline ret (omega arith))
        (omega (arith, fits, length-append (print_int ret) (newline ∷ []))) in
    rw
      (
        line,
        c_str-Lacks (print_int ret ++ newline ∷ []) (
            All-append _ (print_int ret) _ (print_int-Lacks_below 0 ret (omega arith))
              (omega arith)),
      )
      (ap some (atoi-print_int ret (newline ∷ []) h refl))

-- The friend list that the server prints is the list that the client's call gives, if the request
-- goes out whole, the connection carries the reply, in whatever pieces, and the reply holds no
-- newline and no NUL and fits the client's buffer with its newline. The names hold no comma,
-- semicolon or NUL, and the numbers are `int`s.
pub friends_reply :
    (states : States) (users : List TblUser) (request respond rest : Bytes) (socket : Socket)
    → All (IsListed states) users
    → serialize_string users states ≡ done respond
    → suc (length respond) < max_line
    → Lacks newline respond
    → Lacks 0 respond
    → (writen (c_str request) socket.writes).1 ≡ all
    → stream socket.buf socket.reads ≡ respond ++ newline ∷ rest
    → reply_friends [] (deal_msg request socket) ≡ some (ok, map (shown states) users)
unfolding reply_friends
friends_reply states users request respond rest socket h e k l nul sent arrives =
    rw
      (
        deal_msg-line request respond rest socket sent arrives l k,
        c_str-Lacks (respond ++ newline ∷ []) (All-append _ respond _ nul (omega arith)),
      )
      (ap (λ x. some (ok, x)) (friend_list_reply states users respond h e))
