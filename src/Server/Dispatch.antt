-- ===== src/Server/Dispatch.antt =====
-- `deal_msg` of server/server.cpp: one received line, and the loop of a connection's thread.
pub mod Cases
use everyone_talk.Prelude.{Bool, true, false, none, some, [], ◌∷◌, ◌++◌, Bytes, if◌then◌else◌}
use everyone_talk.Int.{ℤ, print_int, int_eq}
use everyone_talk.Outcome.{Outcome, done, store, ◌>>=◌}
use everyone_talk.Common.{
  max_line, newline, msg_id_register, msg_id_login, msg_id_friend_list, msg_id_change_user_state,
  msg_id_send_msg, msg_id_quit,
}
use everyone_talk.Server.State.{Server}
use everyone_talk.Server.Parse.{get_msgtpye}
use everyone_talk.Server.Handlers.{
  Env, register_info, login, get_friend_list, change_user_state, client_quit, sendmsg_to_friend,
}

-- The server after a line, the bytes handed to `writen`, and whether the thread returns.
pub record Reply : Type 0 where
  pub server : Server
  pub written : Bytes
  pub returns : Bool

-- `sprintf(sendline, "%d\n", ret)` into ten bytes, and the write.
unfoldable pub send_number : Server × ℤ → Outcome Reply
send_number (s, ret) = do
  sendline ← store 10 (print_int ret ++ newline ∷ [])
  done (record { server = s; written = sendline; returns = false })

unfoldable pub send_friend_list : Env → Bytes → Server → Outcome Reply
send_friend_list env str_msg_data s = do
  respond ← get_friend_list env str_msg_data s
  sendline ← store max_line (respond ++ newline ∷ [])
  done (record { server = s; written = sendline; returns = false })

-- The `switch`.
unfoldable pub deal_type : Env → ℤ → Bytes → Server → Outcome Reply
deal_type env msg_type str_msg_data s =
    if int_eq msg_type msg_id_register
    then (register_info env str_msg_data s >>= send_number)
    else if int_eq msg_type msg_id_login
    then (login env str_msg_data s >>= send_number)
    else if int_eq msg_type msg_id_friend_list
    then send_friend_list env str_msg_data s
    else if int_eq msg_type msg_id_change_user_state
    then (change_user_state env str_msg_data s >>= send_number)
    else if int_eq msg_type msg_id_send_msg
    then send_number (sendmsg_to_friend str_msg_data s)
    else if int_eq msg_type msg_id_quit
    then done (record { server = (client_quit env str_msg_data s).0; written = []; returns = true })
    else done (record { server = s; written = []; returns = false })

-- The body of the loop behind a successful `Readline`.
unfoldable pub deal_line : Env → Bytes → Server → Outcome Reply
deal_line env msg_recv s = elim (get_msgtpye msg_recv) [
  | none ↦ done (record { server = s; written = []; returns = false })
  | some (msg_type, str_msg_data) ↦ deal_type env msg_type str_msg_data s
]
