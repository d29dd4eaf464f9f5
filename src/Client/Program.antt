-- ===== src/Client/Program.antt =====
-- The main thread of the client: `main` and the screens of client/client_gui.cpp, with
-- `friend_lists_modify` and `friend_lists_quit` of client/deal_friend_data.cpp and `get_send_msg` of
-- client/deal_talk_data.cpp. The drawing is in Client/Drawing; left out are the flags that only say what is drawn.
pub mod Follows
pub mod Moves
pub mod Keys
pub mod Screens
pub mod Main
pub mod Restore
pub mod Fgets
pub mod SentLine
pub mod Lines
use everyone_talk.Prelude.{
  ℕ, Option, none, some, Bool, true, false, List, [], ◌∷◌, ◌++◌, Bytes, codes, bytes_eq, drop_last,
  ◌==◌, if◌then◌else◌,
}
use everyone_talk.Int.{ℤ, pos, negsuc, int_eq}
use everyone_talk.Outcome.{Outcome}
use everyone_talk.CString.{c_str}
use everyone_talk.Common.{UserInfo, LoginInfo, FriendList, UserState, ok, fail}
use everyone_talk.Client.Friends.{
  init_friend_lists, friend_lists_up, friend_lists_down, init_user_state, deal_user_state,
}
use everyone_talk.Client.Talk.{init_talk_lists, talk_lists_up, talk_lists_down, add_sent}
use everyone_talk.Client.SendLoop.{delete_keys}
use everyone_talk.Client.Requests
use everyone_talk.Client.Keyboard.{
  read_word, get_main_cmd, get_friend_cmd, get_talk_cmd, get_user_state,
}
use everyone_talk.Client.Commands.{MainAction, FriendAction, TalkAction}
use everyone_talk.Client.Commands
use everyone_talk.Client.Config.{read_client_data, restore_client_data}
use everyone_talk.Client.Console.{
  Call, Client, Program, Action, ◌>>=◌, pure, update, look, forever, lift, pause, typed, call,
  scan_word, fgets_line,
}

-- A request is sent if the password was typed twice alike.
unfoldable pub send_register : UserInfo → Bytes → Program ℤ
send_register user_info repasswd =
    if bytes_eq user_info.passwd repasswd
    then call (Call.register_to_server user_info) (Requests.register_to_server user_info)
    else pure fail

unfoldable pub print_register : Action
print_register = do
  user_name ← typed scan_word
  passwd ← typed scan_word
  repasswd ← typed scan_word
  sex ← typed scan_word
  birth ← typed scan_word
  hometown ← typed scan_word
  ret ←
      send_register
        (record {
          user_name = user_name;
          passwd = passwd;
          sex = sex;
          birth = birth;
          hometown = hometown;
        })
        repasswd
  pause

-- An empty line is read again.
unfoldable pub non_empty : Bytes → Option Bytes
non_empty [] = none
non_empty (c ∷ l_data) = some (c ∷ l_data)

-- `l_data[10]` is written as `t_cmd[10]` is: an eleventh key is past its end.
unfoldable pub get_login_data : Program Bytes
get_login_data = forever (typed read_word >>= λ l_data. pure (non_empty l_data))

-- `fgets` and the loop of `get_send_msg`: one line, and `some` at ":q".
unfoldable pub send_typed : Bytes → Bytes → Bytes → Action
send_typed my_name f_name [] = pure tt
send_typed my_name f_name (ch ∷ sendline) = do
  ret ←
      call (Call.send_msg_to_server f_name (ch ∷ sendline))
        (Requests.send_msg_to_server (ch ∷ sendline) f_name)
  update (λ c. record c { talk = add_sent my_name (ch ∷ sendline) c.talk })

unfoldable pub send_or_quit : Bytes → Bytes → Bytes → Program (Option {0} Unit)
send_or_quit my_name f_name sendline =
    if bytes_eq sendline (codes ":q")
    then pure (some tt)
    else (send_typed my_name f_name (delete_keys sendline) >>= λ _. pure none)

unfoldable pub get_send_msg : Bytes → Bytes → Action
get_send_msg my_name f_name =
    forever (typed fgets_line >>= λ line. send_or_quit my_name f_name (drop_last (c_str line)))

-- What the commands of the talk window do; `true` is `is_quit`.
unfoldable pub do_talk : Bytes → Bytes → TalkAction → Program Bool
do_talk my_name f_name TalkAction.get_send_msg = get_send_msg my_name f_name >>= λ _. pure false
do_talk my_name f_name TalkAction.nothing = pure false
do_talk my_name f_name TalkAction.quit_talk = pure true
do_talk my_name f_name TalkAction.help_talk = pause >>= λ _. pure false
do_talk my_name f_name TalkAction.talk_up =
    update (λ c. record c { talk = talk_lists_up c.talk }) >>= λ _. pure false
do_talk my_name f_name TalkAction.talk_down =
    update (λ c. record c { talk = talk_lists_down false c.talk }) >>= λ _. pure false
do_talk my_name f_name TalkAction.error_talk = pause >>= λ _. pure false

abbrev pub break_if : Bool → Option {0} Unit
break_if is_quit = if is_quit then some tt else none

unfoldable pub deal_talk_cmd : Bytes → Bytes → Program Bool
deal_talk_cmd my_name f_name = do
  c_key ← typed get_talk_cmd
  do_talk my_name f_name (Commands.deal_talk_cmd c_key)

unfoldable pub deal_talk_data : Bytes → Bytes → Action
deal_talk_data my_name f_name = do
  _ ← update (λ c. record c { talk = init_talk_lists f_name c.talk })
  forever (deal_talk_cmd my_name f_name >>= λ is_quit. pure (break_if is_quit))

unfoldable pub friend_lists_modify : Bytes → Action
friend_lists_modify user_name = do
  c_key ← typed get_user_state
  u_state ← look (λ c. deal_user_state c.key_map_state c_key c.u_state)
  ret ←
      call (Call.change_user_state user_name u_state) (Requests.change_user_state user_name u_state)
  pure tt

unfoldable pub quit : Bytes → Program Bool
quit user_name = do
  ret ← call (Call.quit_from_server user_name) (Requests.quit_from_server user_name)
  pure true

-- What the commands of the friend window do; `true` is `is_quit`.
unfoldable pub do_friend : List FriendList → Bytes → FriendAction → Program Bool
do_friend f_lists my_name FriendAction.friends_up =
    update (λ c. record c { friends = friend_lists_up f_lists c.friends }) >>= λ _. pure false
do_friend f_lists my_name FriendAction.friends_down =
    update (λ c. record c { friends = friend_lists_down f_lists c.friends }) >>= λ _. pure false
do_friend f_lists my_name FriendAction.modify = friend_lists_modify my_name >>= λ _. pure false
do_friend f_lists my_name FriendAction.query = pure false
do_friend f_lists my_name FriendAction.show = pure false
do_friend f_lists my_name FriendAction.switch = pure false
do_friend f_lists my_name FriendAction.quit_friends = quit my_name
do_friend f_lists my_name FriendAction.help_friends = pause >>= λ _. pure false
do_friend f_lists my_name (FriendAction.deal_talk_data f_name) =
    deal_talk_data my_name f_name >>= λ _. pure false
do_friend f_lists my_name FriendAction.nobody = pure false
do_friend f_lists my_name FriendAction.error_friends = pause >>= λ _. pure false

unfoldable pub deal_friend_list_cmd : List FriendList → Bytes → Program Bool
deal_friend_list_cmd f_lists my_name = do
  c_key ← typed get_friend_cmd
  do_friend f_lists my_name (Commands.deal_friend_list_cmd f_lists c_key)

unfoldable pub deal_friend_data : List FriendList → Bytes → Action
deal_friend_data f_lists my_name = do
  _ ← update (λ c. record c {
    friends = init_friend_lists f_lists c.friends;
    key_map_state = init_user_state c.key_map_state;
  })
  forever (deal_friend_list_cmd f_lists my_name >>= λ is_quit. pure (break_if is_quit))

-- What `get_friend_list` returned: without a list, `is_quit` stays as it was.
unfoldable pub show_friends : Bytes → ℤ × List FriendList → Program Bool
show_friends user_name (ret, f_lists) =
    if int_eq ret ok then (deal_friend_data f_lists user_name >>= λ _. pure true) else pure false

unfoldable pub deal_friend_list : Bytes → Program Bool
deal_friend_list user_name = do
  answer ← call (Call.get_friend_list user_name) (Requests.get_friend_list user_name [])
  show_friends user_name answer

-- What the server answered to the login.
unfoldable pub enter : Bytes → ℤ → Program Bool
enter user_name ret = if int_eq ret (pos 0) then deal_friend_list user_name else pure false

abbrev pub login_info_of : Bytes → Bytes → Client → LoginInfo
login_info_of user_name passwd c = record {
  user_name = user_name;
  passwd = passwd;
  ip = c.c_ip;
  port = c.c_port;
}

unfoldable pub deal_login_data : Program Bool
deal_login_data = do
  user_name ← get_login_data
  passwd ← get_login_data
  login_info ← look (login_info_of user_name passwd)
  ret ← call (Call.login login_info) (Requests.login login_info)
  _ ← pause
  enter user_name ret

-- What the commands of the first screen do; `true` is `is_quit`.
unfoldable pub do_main : MainAction → Program Bool
do_main MainAction.print_register = print_register >>= λ _. pure false
do_main MainAction.deal_login_data = deal_login_data
do_main MainAction.help_main = pause >>= λ _. pure false
do_main (MainAction.quit_main user_name) = quit user_name
do_main MainAction.error_main = pause >>= λ _. pure false

unfoldable pub deal_main_cmd : Program Bool
deal_main_cmd = do c_cmd ← typed get_main_cmd; do_main (Commands.deal_main_cmd c_cmd)

-- The loop of `main`.
unfoldable pub main_loop : Action
main_loop = forever (deal_main_cmd >>= λ is_quit. pure (break_if is_quit))

-- Behind the connection to the server; what `main` returns.
unfoldable pub talk_to_server : Bool → Program ℤ
talk_to_server true = main_loop >>= λ _. pure (pos 0)
talk_to_server false = pure (negsuc 0)

-- `main` with what `client_connect` gives, on config.ini; what it returns, and the file behind it.
unfoldable pub main : Bool → Option Bytes → Program (ℤ × Option Bytes)
main connects file = do
  (read, file') ← lift (read_client_data file)
  _ ← update (λ c. record c { c_ip = read.c_ip; c_port = read.c_port })
  ret ← talk_to_server connects
  file'' ← lift (restore_client_data read.c_port file')
  pure (ret, file'')
