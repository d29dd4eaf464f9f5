-- ===== src/Tests/Exchange.antt =====
-- The requests and replies of Bob and Amy, from one program to the other.
use everyone_talk.Prelude.{
  ◌≡◌, refl, false, true, Exists, some, [], ◌∷◌, ◌++◌, Bytes, codes, arith, map,
}
use everyone_talk.Int.{pos, negsuc, print_int, atoi, digits, value, to_int}
use everyone_talk.Outcome.{done, store}
use everyone_talk.Common.{
  online, leave, notify_id_message_information, notify_id_friend_online_state, msg_id_register,
  msg_id_login,
}
use everyone_talk.CString.{c_str, cut, find}
use everyone_talk.Server.State.{Server, start, TblUser}
use everyone_talk.Server.Sql.{insert_mysql}
use everyone_talk.Server.Users.{insert_user_info}
use everyone_talk.Server.Logins.{States, find_state, insert_login_info}
use everyone_talk.Server.Parse.{
  get_msgtpye, read_field, read_text, read_address, analysis_register_msgdata,
  analysis_login_msgdata, deserialize_user_msg,
}
use everyone_talk.Server.Handlers.{
  sendmsg_to_friend, register_info, login, answer_login, is_login_success, enter, login_row,
  print_time, post_state, serialize_users, serialize_string,
}
use everyone_talk.Server.Dispatch.{deal_line, deal_type, send_number}
use everyone_talk.Server.Invariant.{deal_lines}
use everyone_talk.Client.Serialize.{register_serialize, login_serialize, friend_list_deserialize}
use everyone_talk.Protocol.Fields.{IsField}
use everyone_talk.Protocol.Requests.{register_request, login_request}
use everyone_talk.Protocol.FriendLists.{IsListed, shown, friend_list_reply}
use everyone_talk.Protocol.Sessions.{register_then_login}
use everyone_talk.Tests.Data.{
  no_info, no_login, env, bob, bob_login, bob-HasFields, bob_login-HasLogin,
}

abbrev bob_req : Bytes
bob_req = codes "1000;Bob;pw;m;1992;Bern\n"

abbrev pub bob_login_req : Bytes
bob_login_req = codes "1001;Bob;pw;10.0.0.2;50022\n"

printed_register : register_serialize bob msg_id_register ≡ done bob_req
unfolding register_serialize c_str print_int digits store
printed_register = refl

pub printed_login : login_serialize bob_login msg_id_login ≡ done bob_login_req
unfolding login_serialize c_str print_int digits store
printed_login = refl

register_request_example :
    (text : Bytes) × (get_msgtpye bob_req ≡ some (msg_id_register, text))
    × (analysis_register_msgdata text no_info ≡ done (record bob { hometown = codes "1992" }))
register_request_example = register_request bob no_info bob_req bob-HasFields printed_register

login_request_example :
    (text : Bytes) × (get_msgtpye bob_login_req ≡ some (msg_id_login, text))
    × (analysis_login_msgdata text no_login ≡ bob_login)
login_request_example =
    login_request bob_login no_login bob_login_req bob_login-HasLogin printed_login

bob-IsField : IsField (codes "Bob")
bob-IsField = record { no_semicolon = omega arith; no_nul = omega arith }

abbrev amy_row : TblUser
amy_row = record {
  id = pos 4;
  user_name = codes "Amy";
  passwd = [];
  sex = [];
  birth = [];
  hometown = [];
}

abbrev bob_row : TblUser
bob_row = record {
  id = negsuc 0;
  user_name = codes "Bob";
  passwd = [];
  sex = [];
  birth = [];
  hometown = [];
}

abbrev two_states : States
two_states = (pos 4, leave) ∷ []

amy-IsListed : IsListed two_states amy_row
unfolding find_state
amy-IsListed = record {
  name = record { no_semicolon = omega arith; no_nul = omega arith };
  no_comma = omega arith;
  id = omega arith;
  state = omega arith;
}

bob-IsListed : IsListed two_states bob_row
unfolding find_state
bob-IsListed = record {
  name = record { no_semicolon = omega arith; no_nul = omega arith };
  no_comma = omega arith;
  id = omega arith;
  state = omega arith;
}

friend_list_reply_example :
    friend_list_deserialize (codes "4,Amy,2;-1,Bob,1;" ++ 10 ∷ []) []
    ≡ map (shown two_states) (amy_row ∷ bob_row ∷ [])
unfolding serialize_string serialize_users find_state c_str print_int digits store
friend_list_reply_example =
    friend_list_reply two_states (amy_row ∷ bob_row ∷ []) (codes "4,Amy,2;-1,Bob,1;")
      (amy-IsListed, (bob-IsListed, tt)) refl

abbrev bob_saved : TblUser
bob_saved = record {
  id = pos 7;
  user_name = codes "Bob";
  passwd = codes "pw";
  sex = codes "m";
  birth = codes "1992";
  hometown = codes "1992";
}

abbrev registered : Server
registered = record start {
  users = bob_saved ∷ [];
  sent =
      codes "INSERT INTO user_info(username,passwd,sex,birth,hometown) VALUES (Bob,pw,m,1992,1992"
      ∷ [];
}

dealt_register :
    deal_line env bob_req start
    ≡ done (record { server = registered; written = codes "0\n"; returns = false })
unfolding deal_line deal_type get_msgtpye cut find c_str atoi to_int value register_info
    analysis_register_msgdata read_field store insert_user_info insert_mysql send_number print_int
    digits
dealt_register = refl

abbrev pub messaged : Server
messaged = record registered {
  notice = record {
    is_send_client = true;
    notify_type = notify_id_message_information;
    change_name = [];
    change_state = pos 0;
    msg_name = codes "Amy";
    msg_text = codes "hi";
  };
}

abbrev pub entered : Server
entered = record registered {
  logins =
      record {
        id = negsuc 0;
        user_name = codes "Bob";
        ip = codes "10.0.0.2";
        port = pos 50022;
        login_time = codes "2020-8-6 3:5:52";
        state = online;
        user_id = pos 7;
      }
      ∷ [];
  notice = record {
    is_send_client = true;
    notify_type = notify_id_friend_online_state;
    change_name = codes "Bob";
    change_state = online;
    msg_name = codes "Amy";
    msg_text = codes "hi";
  };
  sent =
      registered.sent
      ++ codes
          "INSERT INTO login_info(user_name,c_ip,c_port,login_time,state,user_id) VALUES ('Bob','10.0.0.2',50022, '2020-8-6 3:5:52',0,7)"
        ∷ [];
}

dealt_between : deal_lines ((env, codes "1004;Amy;hi\n") ∷ []) registered ≡ done messaged
unfolding deal_lines deal_line deal_type get_msgtpye cut find c_str atoi to_int value
    sendmsg_to_friend deserialize_user_msg store send_number print_int digits
dealt_between = refl

dealt_login :
    deal_line env bob_login_req messaged
    ≡ done (record { server = entered; written = codes "0\n"; returns = false })
unfolding deal_line deal_type get_msgtpye cut find c_str atoi to_int value login answer_login
    is_login_success enter login_row print_time insert_login_info post_state analysis_login_msgdata
    read_text read_address store insert_mysql send_number print_int digits
dealt_login = refl

register_then_login_example :
    (codes "0\n" ≡ codes "0\n")
    × (codes "0\n" ≡ codes "0\n")
    × Exists (λ t. (t.user_name ≡ codes "Bob") × (t.state ≡ online)) entered.logins
register_then_login_example =
    register_then_login env env bob bob_login start messaged ((env, codes "1004;Amy;hi\n") ∷ [])
      bob_req bob_login_req (record { server = registered; written = codes "0\n"; returns = false })
      (record { server = entered; written = codes "0\n"; returns = false }) bob-HasFields
      bob_login-HasLogin refl refl printed_register printed_login dealt_register dealt_between
      dealt_login
