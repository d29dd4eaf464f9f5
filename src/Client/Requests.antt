-- ===== src/Client/Requests.antt =====
-- client/everyone_talk.cpp and `deal_msg` of client/connect_server.cpp: a request and its reply. What
-- `write` and `read` give, call by call, from the request on is an argument, with what `readline` holds
-- in its buffer.
use everyone_talk.Prelude.{Option, none, some, List, Bytes, if◌then◌else◌, ◌==◌}
use everyone_talk.Int.{ℤ, atoi}
use everyone_talk.Outcome.{Outcome, done, ◌>>=◌}
use everyone_talk.CString.{c_str}
use everyone_talk.Common.{
  UserInfo, LoginInfo, FriendList, UserState, ok, fail, max_line, msg_id_register, msg_id_login,
  msg_id_friend_list, msg_id_change_user_state, msg_id_send_msg, msg_id_quit,
}
use everyone_talk.Client.Serialize.{
  register_serialize, login_serialize, friend_list_serialize, serialize_user_state, serialize_quit,
  sendmsg_serialize, friend_list_deserialize,
}
use everyone_talk.Wire.Readline.{Read, Line, got, ended, broken, pending, readline}
use everyone_talk.Wire.Writen.{Write, Result, all, failed, waits, writen}

-- `g_sockfd`: the calls to come, and the buffer of `readline`.
pub record Socket : Type 0 where
  pub writes : List Write
  pub buf : Bytes
  pub reads : List Read

-- `OK` with the text in `pRet`, `FAIL`, or a call that has not returned yet.
pub data Answer : Type 0 where
  answered : Bytes → Answer
  unanswered : Answer
  unfinished : Answer

-- `Readline` is 0 only where the stream ends before the first byte. After an error, as after a line,
-- the text that has been read counts.
unfoldable pub answer_of : Line → Answer
answer_of (got n text) = answered text
answer_of (ended n text) = if n == 0 then unanswered else answered text
answer_of (broken text) = answered text
answer_of (pending text) = unfinished

-- `readline` goes on behind a `writen` that reports all bytes.
unfoldable pub read_answer : Socket → Result → Answer
read_answer socket all = answer_of (readline max_line socket.buf socket.reads).0
read_answer socket failed = unanswered
read_answer socket waits = unfinished

unfoldable pub deal_msg : Bytes → Socket → Answer
deal_msg request socket = read_answer socket (writen (c_str request) socket.writes).1

-- `ret` of a request whose reply is a number; `none` while the call has not returned.
unfoldable pub reply_number : Answer → Option ℤ
reply_number (answered text) = some (atoi (c_str text))
reply_number unanswered = some fail
reply_number unfinished = none

unfoldable pub register_to_server : UserInfo → Socket → Outcome (Option ℤ)
register_to_server user_info socket = do
  request ← register_serialize user_info msg_id_register
  done (reply_number (deal_msg request socket))

unfoldable pub login : LoginInfo → Socket → Outcome (Option ℤ)
login login_info socket = do
  request ← login_serialize login_info msg_id_login
  done (reply_number (deal_msg request socket))

-- What `get_friend_list` makes of the reply; the list stays as it was after a failure.
unfoldable pub reply_friends : List FriendList → Answer → Option (ℤ × List FriendList)
reply_friends f_lists (answered text) = some (ok, friend_list_deserialize (c_str text) f_lists)
reply_friends f_lists unanswered = some (fail, f_lists)
reply_friends f_lists unfinished = none

unfoldable pub get_friend_list :
    Bytes → List FriendList → Socket → Outcome (Option (ℤ × List FriendList))
get_friend_list user_name f_lists socket = do
  request ← friend_list_serialize msg_id_friend_list user_name
  done (reply_friends f_lists (deal_msg request socket))

unfoldable pub change_user_state : Bytes → UserState → Socket → Outcome (Option ℤ)
change_user_state str_msg state socket = do
  request ← serialize_user_state msg_id_change_user_state str_msg state
  done (reply_number (deal_msg request socket))

unfoldable pub quit_from_server : Bytes → Socket → Outcome (Option ℤ)
quit_from_server user_name socket = do
  request ← serialize_quit msg_id_quit user_name
  done (reply_number (deal_msg request socket))

-- client/deal_talk_data.cpp
unfoldable pub send_msg_to_server : Bytes → Bytes → Socket → Outcome (Option ℤ)
send_msg_to_server c_msg f_name socket = do
  request ← sendmsg_serialize c_msg msg_id_send_msg f_name
  done (reply_number (deal_msg request socket))
