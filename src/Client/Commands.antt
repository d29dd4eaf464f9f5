-- ===== src/Client/Commands.antt =====
-- The dispatch of commands in client/client_gui.cpp: `deal_main_cmd`, `deal_friend_list_cmd` and
-- `deal_talk_cmd`, with the functions that they call as constructors.
pub mod Numbers
use everyone_talk.Prelude.{
  ℕ, Option, none, some, Bool, true, false, List, [], ◌∷◌, Bytes, codes, bytes_eq, ◌&&◌, leb,
  if◌then◌else◌,
}
use everyone_talk.Int.{ℤ, atoi}
use everyone_talk.CString.{c_str}
use everyone_talk.Common.{FriendList}
use everyone_talk.Client.Friends.{FriendWindow, is_user_exist, friend_lists_up, friend_lists_down}
use everyone_talk.Client.Talk.{TalkWindow, talk_lists_up, talk_lists_down}

pub data MainAction : Type 0 where
  print_register : MainAction
  deal_login_data : MainAction
  help_main : MainAction
  quit_main : Bytes → MainAction
  error_main : MainAction

-- `quit_main` carries the name that `quit_from_server` is called with; it also sets `is_quit`.
unfoldable pub deal_main_cmd : Bytes → MainAction
deal_main_cmd c_cmd =
    if bytes_eq c_cmd (codes "register")
    then print_register
    else if bytes_eq c_cmd (codes "login")
    then deal_login_data
    else if bytes_eq c_cmd (codes "help")
    then help_main
    else if bytes_eq c_cmd (codes "quit")
    then quit_main (codes "none")
    else error_main

pub data FriendAction : Type 0 where
  friends_up friends_down : FriendAction
  modify query show switch : FriendAction
  quit_friends : FriendAction
  help_friends : FriendAction
  deal_talk_data : Bytes → FriendAction
  nobody : FriendAction
  error_friends : FriendAction

-- `strspn(c_key, "123456789") == strlen(c_key)`
unfoldable pub all_digits : Bytes → Bool
all_digits [] = true
all_digits (c ∷ c_key) = (leb b'1' c && leb c b'9') && all_digits c_key

-- The branch for a number. `nobody` is the `if` that is not taken.
unfoldable pub open_talk : Option Bytes → FriendAction
open_talk none = nobody
open_talk (some f_name) = deal_talk_data f_name

-- The last two branches.
unfoldable pub number_cmd : List FriendList → Bytes → FriendAction
number_cmd f_lists [] = error_friends
number_cmd f_lists (c ∷ c_key) =
    if all_digits (c ∷ c_key)
    then open_talk (is_user_exist f_lists (atoi (c ∷ c_key)))
    else error_friends

unfoldable pub deal_friend_list_cmd : List FriendList → Bytes → FriendAction
deal_friend_list_cmd f_lists c_key =
    if bytes_eq c_key (codes "UP")
    then friends_up
    else if bytes_eq c_key (codes "DOWN")
    then friends_down
    else if bytes_eq c_key (codes "modify")
    then modify
    else if bytes_eq c_key (codes "query")
    then query
    else if bytes_eq c_key (codes "show")
    then show
    else if bytes_eq c_key (codes "switch")
    then switch
    else if bytes_eq c_key (codes "quit")
    then quit_friends
    else if bytes_eq c_key (codes "help")
    then help_friends
    else number_cmd f_lists c_key

pub data TalkAction : Type 0 where
  get_send_msg : TalkAction
  nothing : TalkAction
  quit_talk : TalkAction
  help_talk : TalkAction
  talk_up talk_down : TalkAction
  error_talk : TalkAction

-- `nothing` is an empty branch.
unfoldable pub deal_talk_cmd : Bytes → TalkAction
deal_talk_cmd c_key =
    if bytes_eq c_key (codes "send")
    then get_send_msg
    else if bytes_eq c_key (codes "query")
    then nothing
    else if bytes_eq c_key (codes "show")
    then nothing
    else if bytes_eq c_key (codes "quit")
    then quit_talk
    else if bytes_eq c_key (27 ∷ codes "[D")
    then nothing
    else if bytes_eq c_key (27 ∷ codes "[C")
    then nothing
    else if bytes_eq c_key (codes "help")
    then help_talk
    else if bytes_eq c_key (codes "UP")
    then talk_up
    else if bytes_eq c_key (codes "DOWN")
    then talk_down
    else error_talk
