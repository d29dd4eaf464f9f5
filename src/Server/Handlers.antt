-- ===== src/Server/Handlers.antt =====
-- The request handlers of server/server.cpp. Each takes the server's state and the message's text,
-- and gives the new state and the number to be sent back.
use everyone_talk.Prelude.{
  ℕ, ◌+◌, true, ◌&&◌, Option, none, some, List, [], ◌∷◌, ◌++◌, Bytes, bytes_eq, codes,
  if◌then◌else◌,
}
use mathlib.Core.Option
use everyone_talk.Int.{ℤ, pos, print_int}
use everyone_talk.Outcome.{Outcome, done, store, ◌>>=◌}
use everyone_talk.CString.{c_str}
use everyone_talk.Common.{
  UserInfo, LoginInfo, UserState, ok, fail, online, offline, max_line, semicolon, comma,
  notify_id_friend_online_state, notify_id_message_information,
}
use everyone_talk.Server.State.{Server, TblUser, TblLogin}
use everyone_talk.Server.Sql.{Mysql}
use everyone_talk.Server.Users.{insert_user_info, get_friendinfo_by_userid}
use everyone_talk.Server.Friends.{get_friendids_by_userid}
use everyone_talk.Server.Logins.{
  States, insert_login_info, get_logininfo_by_username, get_friendstates_by_userid, find_state,
  update_login_state, update_quit_state,
}
use everyone_talk.Server.Parse.{
  analysis_register_msgdata, analysis_login_msgdata, deserialize_user_state, deserialize_user_msg,
}

-- `struct tm` as `localtime` fills it in.
pub record Tm : Type 0 where
  pub tm_year : ℕ
  pub tm_mon : ℕ
  pub tm_mday : ℕ
  pub tm_hour : ℕ
  pub tm_min : ℕ
  pub tm_sec : ℕ

-- What a handler meets that is not the server's state: the database, the time, and what the local
-- variables hold that the source does not initialise.
pub record Env : Type 0 where
  pub mysql : Mysql
  pub now : Tm
  pub user_info : UserInfo
  pub login_info : LoginInfo
  pub t_login : TblLogin
  pub user_id : ℤ
  pub state : UserState

-- The critical section that `login`, `change_user_state` and `client_quit` end with.
unfoldable pub post_state : Bytes → UserState → Server → Server
post_state user_name state s = record s {
  notice = record notice {
    is_send_client = true;
    notify_type = notify_id_friend_online_state;
    change_name = user_name;
    change_state = state;
  };
}
  where
    open s use {notice}

unfoldable pub register_info : Env → Bytes → Server → Outcome (Server × ℤ)
register_info env str_msg_data s = do
  user_info ← analysis_register_msgdata str_msg_data env.user_info
  s' ← insert_user_info env.user_id user_info s
  done (s', pos 0)

-- The id of the first user with the name and the password; `none` is `return false`.
unfoldable pub is_login_success : LoginInfo → List TblUser → Option ℤ
is_login_success l [] = none
is_login_success l (t ∷ users) =
    if bytes_eq l.user_name t.user_name && bytes_eq l.passwd t.passwd
    then some t.id
    else is_login_success l users

-- `sprintf(login_time, "%d-%d-%d %d:%d:%d", …)`
unfoldable pub print_time : Tm → Outcome Bytes
print_time t = store max_line (
    print_int (pos (t.tm_year + 1900))
    ++ b'-'
      ∷ (print_int (pos (t.tm_mon + 1))
          ++ b'-'
            ∷ (print_int (pos t.tm_mday)
                ++ b' '
                  ∷ (print_int (pos t.tm_hour)
                      ++ b':' ∷ (print_int (pos t.tm_min) ++ b':' ∷ print_int (pos t.tm_sec))))))

-- The row that `login` adds; its `id` is not set.
unfoldable pub login_row : Env → LoginInfo → ℤ → Bytes → TblLogin
login_row env l user_id login_time = record {
  id = env.t_login.id;
  user_name = l.user_name;
  ip = l.ip;
  port = l.port;
  login_time = login_time;
  state = online;
  user_id = user_id;
}

-- What `login` does for a user whom it has found.
unfoldable pub enter : Env → LoginInfo → ℤ → Server → Outcome Server
enter env l user_id s = do
  login_time ← print_time env.now
  s' ← insert_login_info (login_row env l user_id login_time) s
  done (post_state l.user_name online s')

-- The `if` of `login`, on what `is_login_success` has found.
unfoldable pub answer_login : Env → LoginInfo → Option ℤ → Server → Outcome (Server × ℤ)
answer_login env l none s = done (s, fail)
answer_login env l (some user_id) s = do s' ← enter env l user_id s; done (s', ok)

unfoldable pub login : Env → Bytes → Server → Outcome (Server × ℤ)
login env str_msg_data s =
    let l = analysis_login_msgdata str_msg_data env.login_info in
    answer_login env l (is_login_success l s.users) s

-- The loop of `serialize_string`, with `strRespond` so far.
unfoldable pub serialize_users : List TblUser → States → Bytes → Outcome Bytes
serialize_users [] states str_respond = done str_respond
serialize_users (t ∷ t_users) states str_respond = do
  tmpres ← store max_line (
      print_int t.id
      ++ comma
        ∷ (c_str t.user_name
            ++ comma
              ∷ (print_int (Option.get_or (find_state t.id states) offline) ++ semicolon ∷ [])))
  serialize_users t_users states (str_respond ++ tmpres)

unfoldable pub serialize_string : List TblUser → States → Outcome Bytes
serialize_string t_users states = do
  str_respond ← serialize_users t_users states []
  store max_line str_respond

unfoldable pub get_friend_list : Env → Bytes → Server → Outcome Bytes
get_friend_list env str_msg s =
    let t_login = get_logininfo_by_username str_msg s.logins env.t_login in
    let userids = get_friendids_by_userid t_login.user_id s.friends in
    serialize_string (get_friendinfo_by_userid userids s.users)
      (get_friendstates_by_userid userids s.logins [])

unfoldable pub change_user_state : Env → Bytes → Server → Outcome (Server × ℤ)
change_user_state env str_msg s =
    let (user_name, state) = deserialize_user_state str_msg ([], env.state) in
    do
      (s', ret) ← update_login_state env.mysql user_name state s
      done (post_state user_name state s', ret)

unfoldable pub client_quit : Env → Bytes → Server → Server × ℤ
client_quit env str_msg s =
    let (s', ret) = update_quit_state env.mysql str_msg offline s in
    if bytes_eq str_msg (codes "none") then (s, pos 0) else (post_state str_msg offline s', ret)

unfoldable pub sendmsg_to_friend : Bytes → Server → Server × ℤ
sendmsg_to_friend str_msg s =
    let (user_name, user_msg) = deserialize_user_msg str_msg ([], []) in
    (
      record s {
        notice = record notice {
          is_send_client = true;
          notify_type = notify_id_message_information;
          msg_name = user_name;
          msg_text = user_msg;
        };
      },
      pos 0,
    )
  where
    open s use {notice}
