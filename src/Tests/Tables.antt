-- ===== src/Tests/Tables.antt =====
-- Bob registers, logs in and quits; the tables, the notices and the buffers at concrete lines.
use everyone_talk.Prelude.{
  length, ◌≡◌, ◌≢◌, ◌≤◌, ◌<◌, ◌⊎◌, ◌↔◌, refl, false, not, filter, bytes_eq, true, Exists, none,
  List, [], ◌∷◌, Bytes, codes, arith,
}
use everyone_talk.Server.Users.{insert_user_info, get_userid_by_username}
use everyone_talk.Server.Sql.{insert_mysql}
use everyone_talk.Int.{ℤ, pos, negsuc, atoi, to_int, value, print_int, digits}
use everyone_talk.Outcome.{done, store, overflow}
use everyone_talk.Common.{ok, fail, online, offline, max_line}
use everyone_talk.Server.State.{Server, start, TblUser, TblLogin}
use everyone_talk.Server.Logins.{insert_login_info, find_login}
use everyone_talk.Server.Parse.{
  read_field, read_text, read_address, get_msgtpye, analysis_register_msgdata,
  analysis_login_msgdata, deserialize_user_state,
}
use everyone_talk.Server.Handlers.{
  answer_login, is_login_success, enter, login_row, print_time, post_state, Env, register_info,
  login, client_quit, change_user_state,
}
use everyone_talk.Server.Dispatch.{Reply, deal_line, deal_type, send_number}
use everyone_talk.Server.Invariant.{deal_lines, Grown, deal_lines-Grown}
use everyone_talk.Server.Accounts.{Entered, Opens, login_cases}
use everyone_talk.Server.Accounts.Register.{row_of, insert_statement, register_info_done}
use everyone_talk.Server.Safety.Logins.{IsTime, login-Answered}
use everyone_talk.Server.Safety.{Answered, written_length, register_overflows}
use everyone_talk.Server.Sessions.{client_quit_cases, change_user_state_logins, Changed}
use everyone_talk.Server.Notify.{friend_logins}
use everyone_talk.Server.Notify.Friends.{HasRow, IsFirstLogin, notified_iff}
use everyone_talk.CString.{c_str, cut, find}
use everyone_talk.Client.Serialize.{register_serialize, login_serialize}
use everyone_talk.Tests.Data.{env, bob, bob-HasFields, bob_login, bob_login-HasLogin}

abbrev bob_row : TblUser
bob_row = record {
  id = pos 7;
  user_name = codes "Bob";
  passwd = codes "pw";
  sex = codes "m";
  birth = codes "1992";
  hometown = codes "1992";
}

abbrev bob_in : TblLogin
bob_in = record {
  id = negsuc 0;
  user_name = codes "Bob";
  ip = codes "10.0.0.2";
  port = pos 50022;
  login_time = codes "2020-8-6 3:5:52";
  state = online;
  user_id = pos 7;
}

-- Bob is registered; with a login of his, the database has nothing more than the tables.
abbrev with_bob : Server
with_bob = record start { users = bob_row ∷ [] }

abbrev bob_online : Server
bob_online = record with_bob {
  logins = bob_in ∷ [];
  friends = record { id = pos 1; user_id = pos 4; friend_id = pos 7 } ∷ [];
  users = bob_row ∷ record bob_row { id = pos 4; user_name = codes "Amy" } ∷ [];
}

abbrev login_text : Bytes
login_text = codes "Bob;pw;10.0.0.2;50022"

abbrev registered : Server
registered = record with_bob {
  sent =
      codes "INSERT INTO user_info(username,passwd,sex,birth,hometown) VALUES (Bob,pw,m,1992,1992"
      ∷ [];
}

abbrev entered : Server
entered = record with_bob {
  logins = bob_in ∷ [];
  notice = record {
    is_send_client = true;
    notify_type = pos 5000;
    change_name = codes "Bob";
    change_state = online;
    msg_name = [];
    msg_text = [];
  };
  sent =
      codes
        "INSERT INTO login_info(user_name,c_ip,c_port,login_time,state,user_id) VALUES ('Bob','10.0.0.2',50022, '2020-8-6 3:5:52',0,7)"
      ∷ [];
}

did_login : login env login_text with_bob ≡ done (entered, ok)
unfolding login answer_login is_login_success enter login_row print_time insert_login_info
    post_state analysis_login_msgdata read_text read_address store insert_mysql cut find c_str atoi
    to_int value print_int digits
did_login = refl

login_cases_example :
    let l = analysis_login_msgdata login_text env.login_info in
    ((ok ≡ ok) × Entered l with_bob entered)
    ⊎ ((ok ≡ fail) × (entered ≡ with_bob) × ¬ Exists (Opens l) with_bob.users)
login_cases_example = login_cases env login_text with_bob entered ok did_login

did_register : register_info env (codes "Bob;pw;m;1992;Bern") start ≡ done (registered, pos 0)
unfolding register_info analysis_register_msgdata read_field store insert_user_info insert_mysql cut
    find c_str
did_register = refl

register_info_done_example :
    (u : _) × (analysis_register_msgdata (codes "Bob;pw;m;1992;Bern") env.user_info ≡ done u)
    × (pos 0 ≡ pos 0)
    × (registered ≡ record start {
      users = row_of env.user_id u ∷ [];
      sent = c_str (insert_statement u) ∷ [];
    })
register_info_done_example =
    register_info_done env (codes "Bob;pw;m;1992;Bern") start registered (pos 0) did_register

abbrev two_lines : List (Env × Bytes)
two_lines = (env, codes "1001;Bob;pw;10.0.0.2;50022\n") ∷ (env, codes "no number\n") ∷ []

did_lines : deal_lines two_lines with_bob ≡ done entered
unfolding deal_lines deal_line deal_type get_msgtpye cut find c_str atoi to_int value login
    answer_login is_login_success enter login_row print_time insert_login_info post_state
    analysis_login_msgdata read_text read_address store insert_mysql send_number print_int digits
did_lines = refl

deal_lines-Grown_example : Grown with_bob.users entered
deal_lines-Grown_example = deal_lines-Grown two_lines with_bob entered did_lines

now-IsTime : IsTime env.now
now-IsTime = record {
  tm_year = omega arith;
  tm_mon = omega arith;
  tm_mday = omega arith;
  tm_hour = omega arith;
  tm_min = omega arith;
  tm_sec = omega arith;
}

login-Answered_example :
    (r : Reply) × (deal_line env (codes "1001;Bob;pw;10.0.0.2;50022\n") with_bob ≡ done r)
    × ((r.written ≡ codes "0\n") ⊎ (r.written ≡ codes "65535\n"))
    × (r.returns ≡ false)
unfolding login_serialize c_str store print_int digits
login-Answered_example =
    login-Answered env bob_login with_bob (codes "1001;Bob;pw;10.0.0.2;50022\n") bob_login-HasLogin
      (omega arith) now-IsTime (omega arith, tt) refl

register_overflows_example :
    ((written_length bob < max_line)
      × Answered (deal_line env (codes "1000;Bob;pw;m;1992;Bern\n") start))
    ⊎ ((max_line ≤ written_length bob)
        × (deal_line env (codes "1000;Bob;pw;m;1992;Bern\n") start ≡ overflow))
unfolding register_serialize c_str store print_int digits
register_overflows_example =
    register_overflows env bob start (codes "1000;Bob;pw;m;1992;Bern\n") bob-HasFields refl

client_quit_cases_example :
    let s' = (client_quit env (codes "Bob") bob_online).0 in
    ((codes "Bob" ≡ codes "none") × (s' ≡ bob_online))
    ⊎ ((codes "Bob" ≢ codes "none")
        × (s'.logins ≡ filter (λ t. not (bytes_eq t.user_name (codes "Bob"))) bob_online.logins)
        × (find_login (codes "Bob") s'.logins ≡ none)
        × (s'.users ≡ bob_online.users)
        × (s'.notice.is_send_client ≡ true)
        × (s'.notice.notify_type ≡ pos 5000)
        × (s'.notice.change_name ≡ codes "Bob")
        × (s'.notice.change_state ≡ offline))
client_quit_cases_example = client_quit_cases env (codes "Bob") bob_online

change_user_state_logins_example :
    let (name, state) = deserialize_user_state (codes "Bob;3") ([], env.state) in
    ((length (print_int state) < 10)
      × ((s' : Server) × (ret : ℤ) × (change_user_state env (codes "Bob;3") bob_online
            ≡ done (s', ret))
          × Changed (codes "Bob") name state bob_online s' ret))
    ⊎ ((10 ≤ length (print_int state))
        × (change_user_state env (codes "Bob;3") bob_online ≡ overflow))
change_user_state_logins_example =
    change_user_state_logins env (codes "Bob;3") (codes "Bob") bob_online

abbrev bobs_row : TblLogin
bobs_row = record bob_in { user_id = pos 7 }

-- Amy, who has the number 4, changes; Bob is her friend.
notified_iff_example : HasRow bobs_row (friend_logins (pos 0) (codes "Amy") bob_online) ↔ (
    Exists (λ f. (f.user_id ≡ pos 4) × (f.friend_id ≡ pos 7)) bob_online.friends
    × IsFirstLogin bobs_row bob_online.logins)
unfolding get_userid_by_username
notified_iff_example = notified_iff (pos 0) (pos 4) (codes "Amy") bobs_row bob_online refl
