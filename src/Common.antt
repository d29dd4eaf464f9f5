-- ===== src/Common.antt =====
-- server/common.h and client/common.h: the constants and structures that both programs share.
use everyone_talk.Prelude.{ℕ, Bytes}
use everyone_talk.Int.{ℤ, pos}

abbrev pub ok : ℤ
ok = pos 0

abbrev pub fail : ℤ
fail = pos 65535

-- The size of every message buffer and of every array in `UserInfo`.
abbrev pub max_line : ℕ
max_line = 1024

-- A `char` array is its text up to the NUL.
pub record UserInfo : Type 0 where
  pub user_name : Bytes
  pub passwd : Bytes
  pub sex : Bytes
  pub birth : Bytes
  pub hometown : Bytes

pub record LoginInfo : Type 0 where
  pub user_name : Bytes
  pub passwd : Bytes
  pub ip : Bytes
  pub port : ℤ

-- `enum user_state`. Both programs cast any number that a message holds to it and print it by `%d`,
-- so a value is any `int`; the named states are the first six.
abbrev pub UserState : Type 0
UserState = ℤ

abbrev pub online : UserState
online = pos 0

abbrev pub offline : UserState
offline = pos 1

abbrev pub leave : UserState
leave = pos 2

abbrev pub busy : UserState
busy = pos 3

abbrev pub not_disturb : UserState
not_disturb = pos 4

abbrev pub stealth : UserState
stealth = pos 5

pub record FriendList : Type 0 where
  pub id : ℤ
  pub user_name : Bytes
  pub state : UserState

abbrev pub msg_id_register : ℤ
msg_id_register = pos 1000

abbrev pub msg_id_login : ℤ
msg_id_login = pos 1001

abbrev pub msg_id_friend_list : ℤ
msg_id_friend_list = pos 1002

abbrev pub msg_id_change_user_state : ℤ
msg_id_change_user_state = pos 1003

abbrev pub msg_id_send_msg : ℤ
msg_id_send_msg = pos 1004

abbrev pub msg_id_quit : ℤ
msg_id_quit = pos 1005

abbrev pub notify_id_friend_online_state : ℤ
notify_id_friend_online_state = pos 5000

abbrev pub notify_id_message_information : ℤ
notify_id_message_information = pos 5001

abbrev pub semicolon : ℕ
semicolon = b';'

abbrev pub comma : ℕ
comma = b','

abbrev pub newline : ℕ
newline = 10
