-- ===== src/Server/Notify.antt =====
-- The notifying thread: `notify_client` of server/server.cpp with the two printers below it, and
-- server/notify_client.cpp. Here what goes out is the address and the line that `deal_notify` is
-- given; its connection is in Server/Notify/Call.antt.
pub mod Race
pub mod Call
pub mod Descriptors
pub mod Friends
use mathlib.Core.Option
use everyone_talk.Prelude.{
  ℕ, ◌≡◌, refl, Bool, true, false, Option, none, some, List, [], ◌∷◌, ◌++◌, Bytes, if◌then◌else◌,
}
use everyone_talk.Int.{ℤ, pos, print_int, int_eq}
use everyone_talk.Outcome.{Outcome, done, store, ◌>>=◌}
use everyone_talk.CString.{c_str}
use everyone_talk.Common.{
  UserState, max_line, semicolon, newline, notify_id_friend_online_state,
  notify_id_message_information,
}
use everyone_talk.Server.State.{Server, TblUser, TblLogin, Notice}
use everyone_talk.Server.Users.{get_userid_by_username}
use everyone_talk.Server.Friends.{get_friendids_by_userid}
use everyone_talk.Server.Logins.{get_logininfos_by_userid, get_friend_info}

-- What `deal_notify` is called with.
pub record Delivery : Type 0 where
  pub ip : Bytes
  pub port : ℤ
  pub request : Bytes

unfoldable pub deal_state_notify : Bytes → ℤ → Bytes → UserState → Outcome Delivery
deal_state_notify ip port user_name state = do
  request ← store max_line (
      print_int notify_id_friend_online_state
      ++ semicolon ∷ (c_str user_name ++ semicolon ∷ (print_int state ++ newline ∷ [])))
  done (record { ip = ip; port = port; request = request })

unfoldable pub deal_send_msg : Bytes → ℤ → Bytes → Outcome Delivery
deal_send_msg ip port str_msg = do
  request ←
      store max_line
        (print_int notify_id_message_information ++ semicolon ∷ (c_str str_msg ++ newline ∷ []))
  done (record { ip = ip; port = port; request = request })

-- The loop over the friends' logins.
unfoldable pub notify_logins : List TblLogin → Bytes → UserState → Outcome (List Delivery)
notify_logins [] user_name state = done []
notify_logins (t ∷ t_logins) user_name state = do
  first ← deal_state_notify t.ip t.port user_name state
  rest ← notify_logins t_logins user_name state
  done (first ∷ rest)

-- The logins of the friends of the user who is named; `junk` is what `get_userid_by_username`
-- returns for a name that is not there.
unfoldable pub friend_logins : ℤ → Bytes → Server → List TblLogin
friend_logins junk user_name s =
    let user_id = Option.get_or (get_userid_by_username user_name s.users) junk in
    get_logininfos_by_userid (get_friendids_by_userid user_id s.friends) s.logins

-- One round of the loop behind the wait, with nothing happening in between.
unfoldable pub notify_round : ℤ → Server → Outcome (List Delivery)
notify_round junk s =
    if int_eq notice.notify_type notify_id_friend_online_state
    then notify_logins (friend_logins junk notice.change_name s) notice.change_name
        notice.change_state
    else if int_eq notice.notify_type notify_id_message_information
    then (let (ip, port) = get_friend_info notice.msg_name s.logins ([], pos 0) in
        deal_send_msg ip port notice.msg_text >>= λ d. done (d ∷ []))
    else done []
  where
    open s use {notice}
