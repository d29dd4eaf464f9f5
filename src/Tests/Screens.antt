-- ===== src/Tests/Screens.antt =====
-- Notices, replies, commands and typed lines at the client.
use everyone_talk.Prelude.{◌≡◌, refl, some, List, [], ◌∷◌, Bytes, codes, arith, map}
use everyone_talk.Int.{pos, print_int, digits}
use everyone_talk.Outcome.{store}
use everyone_talk.CString.{c_str}
use everyone_talk.Common.{FriendList, ok, online}
use everyone_talk.Server.State.{TblUser}
use everyone_talk.Server.Logins.{find_state}
use everyone_talk.Server.Handlers.{serialize_string, serialize_users}
use everyone_talk.Wire.Readline.{Read, stream}
use everyone_talk.Wire.Writen.{Write, writen}
use everyone_talk.Client.Friends
use everyone_talk.Client.Friends.{modify_friend_state, is_user_exist}
use everyone_talk.Client.Talk
use everyone_talk.Client.Talk.{recvmsg_from_server, init_talk_lists, add_sent}
use everyone_talk.Client.Notices.{Windows}
use everyone_talk.Client.Requests.{Socket, deal_msg, reply_friends}
use everyone_talk.Client.Keyboard.{get_main_cmd, get_friend_cmd, get_talk_cmd}
use everyone_talk.Client.Keyboard.Bounds.{Typed, command_bounds}
use everyone_talk.Client.SendLoop.{Sending}
use everyone_talk.Protocol.Calls.{friends_reply}
use everyone_talk.Protocol.FriendLists.{IsListed, shown}

abbrev windows : Windows
windows = record { friends = Friends.blank; talk = Talk.blank }

-- The reply "65535" comes in two pieces.
abbrev socket : Socket
socket = record {
  writes = Write.wrote 20 ∷ [];
  buf = [];
  reads = Read.chunk b'6' (codes "55") ∷ Read.interrupted ∷ Read.chunk b'3' (codes "5\n") ∷ [];
}

abbrev amy : TblUser
amy = record {
  id = pos 4;
  user_name = codes "Amy";
  passwd = [];
  sex = [];
  birth = [];
  hometown = [];
}

amy-IsListed : IsListed [] amy
unfolding find_state
amy-IsListed = record {
  name = record { no_semicolon = omega arith; no_nul = omega arith };
  no_comma = omega arith;
  id = omega arith;
  state = omega arith;
}

friends_reply_example :
    reply_friends [] (
      deal_msg
        (codes "1002;Bob\n")
        (record socket { reads = Read.chunk b'4' (codes ",Amy,1;\n") ∷ [] }))
    ≡ some (ok, map (shown []) (amy ∷ []))
unfolding serialize_string serialize_users find_state print_int digits store stream writen c_str
friends_reply_example =
    friends_reply [] (amy ∷ []) (codes "1002;Bob\n") (codes "4,Amy,1;") []
      (record socket { reads = Read.chunk b'4' (codes ",Amy,1;\n") ∷ [] }) (amy-IsListed, tt) refl
      (omega arith) (omega arith) (omega arith) refl refl

command_bounds_example :
    Typed (codes "not_disturb") [] (get_main_cmd (codes "x:not_disturb\n"))
    × Typed (codes "not_disturb") [] (get_friend_cmd (codes ":not_disturb\n"))
    × Typed (codes "not_disturb") [] (get_talk_cmd (codes ":not_disturb\n"))
command_bounds_example =
    command_bounds (codes "x") (codes "not_disturb") [] (omega arith) (omega arith)

abbrev two_friends : List FriendList
two_friends =
    record { id = pos 10; user_name = codes "Amy"; state = online }
    ∷ record { id = pos 12; user_name = codes "Bob"; state = online }
    ∷ []

abbrev opened : Sending
opened = record { window = init_talk_lists (codes "Bob") Talk.blank; requests = [] }

abbrev lines : List Bytes
lines = codes "hi\n" ∷ codes "\n" ∷ codes ":q\n" ∷ codes "x\n" ∷ []

abbrev closed : Sending
closed = record {
  window = add_sent (codes "Amy") (codes "hi") opened.window;
  requests = codes "1004;Bob;hi\n" ∷ [];
}
