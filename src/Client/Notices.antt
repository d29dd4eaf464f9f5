-- ===== src/Client/Notices.antt =====
-- `get_notify_type` and `deal_noyify` of client/client_gui.cpp: a line that the server's notifying
-- thread sends to the client. The drawing of the windows is in Client/Drawing.
pub mod Calls
pub mod Effects
pub mod Lines
use everyone_talk.Prelude.{Option, none, some, [], Bytes, codes, drop_last, if◌then◌else◌}
use everyone_talk.Int.{ℤ, atoi, int_eq}
use everyone_talk.CString.{c_str, cut}
use everyone_talk.Common.{
  UserState, semicolon, notify_id_friend_online_state, notify_id_message_information,
}
use everyone_talk.Client.Serialize.{friend_online_state_deserialize}
use everyone_talk.Client.Friends.{FriendWindow, modify_friend_state}
use everyone_talk.Client.Talk.{TalkWindow, recvmsg_from_server}

-- `none` is `return false`.
unfoldable pub get_notify_type : Bytes → Option (ℤ × Bytes)
get_notify_type notify_recv = elim (cut semicolon (drop_last (c_str notify_recv))) [
  | none ↦ none
  | some (notify_type, str_notify_data) ↦ some (atoi (c_str notify_type), str_notify_data)
]

-- What a notice changes: the two windows.
pub record Windows : Type 0 where
  pub friends : FriendWindow
  pub talk : TalkWindow

-- The `switch`. `junk` is what `state` holds where no separator is found.
unfoldable pub deal_notice_type : UserState → ℤ → Bytes → Windows → Windows
deal_notice_type junk notify_type str_notify_data w =
    if int_eq notify_type notify_id_friend_online_state
    then (let (user_name, state) = friend_online_state_deserialize str_notify_data ([], junk) in
        record w { friends = modify_friend_state user_name state w.friends })
    else if int_eq notify_type notify_id_message_information
    then record w { talk = recvmsg_from_server str_notify_data w.talk }
    else w

-- The windows after a line, and what is written back.
unfoldable pub deal_noyify : UserState → Bytes → Windows → Windows × Bytes
deal_noyify junk notify_recv w = elim (get_notify_type notify_recv) [
  | none ↦ (w, codes "hahahahahahahaha\n")
  | some (notify_type, str_notify_data) ↦
      (deal_notice_type junk notify_type str_notify_data w, codes "hahahahahahahaha\n")
]
