-- ===== src/Server/State.antt =====
-- The server's global variables: the three cached tables and what the handlers leave for the
-- notifying thread. `sent` is every statement that went to the database, oldest first.
use everyone_talk.Prelude.{Bool, false, List, [], Bytes}
use everyone_talk.Int.{ℤ, pos}
use everyone_talk.Common.{UserState}

-- server/tbl_userinfo.h
pub record TblUser : Type 0 where
  pub id : ℤ
  pub user_name : Bytes
  pub passwd : Bytes
  pub sex : Bytes
  pub birth : Bytes
  pub hometown : Bytes

-- server/tbl_friendinfo.h
pub record TblFriend : Type 0 where
  pub id : ℤ
  pub user_id : ℤ
  pub friend_id : ℤ

-- server/tbl_logininfo.h
pub record TblLogin : Type 0 where
  pub id : ℤ
  pub user_name : Bytes
  pub ip : Bytes
  pub port : ℤ
  pub login_time : Bytes
  pub state : UserState
  pub user_id : ℤ

-- `ctrl_sc`, `us_change` and `s_msg`, which `state_mutex` guards.
pub record Notice : Type 0 where
  pub is_send_client : Bool
  pub notify_type : ℤ
  pub change_name : Bytes
  pub change_state : UserState
  pub msg_name : Bytes
  pub msg_text : Bytes

pub record Server : Type 0 where
  pub users : List TblUser
  pub friends : List TblFriend
  pub logins : List TblLogin
  pub notice : Notice
  pub sent : List Bytes

-- Globals before `main`.
abbrev pub start : Server
start = record {
  users = [];
  friends = [];
  logins = [];
  notice = record {
    is_send_client = false;
    notify_type = pos 0;
    change_name = [];
    change_state = pos 0;
    msg_name = [];
    msg_text = [];
  };
  sent = [];
}
