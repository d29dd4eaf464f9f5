-- ===== src/Tests/Threads.antt =====
-- A server that loads Bob, accepts two connections and lets him in on the first.
use everyone_talk.Prelude.{◌≡◌, refl, [], ◌∷◌, ◌++◌, Bytes, codes, true}
use everyone_talk.Int.{pos, negsuc, print_int, atoi, digits, value, to_int}
use everyone_talk.Outcome.{done, store}
use everyone_talk.Common.{online}
use everyone_talk.CString.{c_str, cut, find}
use everyone_talk.Server.State.{Server, TblFriend, start}
use everyone_talk.Server.Sql.{Mysql, insert_mysql, select_mysql, connect_mysql}
use everyone_talk.Server.Users.{init_tbl_user}
use everyone_talk.Server.Friends.{init_tbl_friend}
use everyone_talk.Server.Logins.{insert_login_info}
use everyone_talk.Server.Parse.{get_msgtpye, read_text, read_address, analysis_login_msgdata}
use everyone_talk.Server.Handlers.{
  answer_login, is_login_success, enter, login_row, print_time, post_state,
}
use everyone_talk.Server.Handlers
use everyone_talk.Server.Dispatch.{deal_line, deal_type, send_number}
use everyone_talk.Server.Invariant.{Inv, Grown}
use everyone_talk.Server.Connection.{Connection, running, accepted, turn, deal_read, answer, fill}
use everyone_talk.Server.Threads.{init_mysql_table, Serving, Step, Serves}
use everyone_talk.Server.Threads.Reached.{served}
use everyone_talk.Wire.Readline.{chunk, got, readline, readline_loop, my_read, refill, take_byte}
use everyone_talk.Tests.Data.{env}

abbrev mysql : Mysql
mysql = record {
  query = λ sent statement. pos 0;
  store_result = λ sent statement. record {
    fields = codes "id" ∷ codes "username" ∷ codes "passwd" ∷ [];
    rows = (codes "7" ∷ codes "Bob" ∷ codes "pw" ∷ []) ∷ [];
  };
}

abbrev no_row : TblFriend
no_row = record { id = pos 0; user_id = pos 0; friend_id = pos 0 }

abbrev loaded : Server
loaded = record start {
  users =
      record {
        id = pos 7;
        user_name = codes "Bob";
        passwd = codes "pw";
        sex = [];
        birth = [];
        hometown = [];
      }
      ∷ [];
  friends = record no_row { id = pos 7 } ∷ [];
  sent =
      codes "select * from user_info"
      ∷ codes "select * from user_info"
      ∷ codes "select * from friend_info"
      ∷ [];
}

did_load : init_mysql_table true mysql (pos 0) no_row start ≡ (loaded, pos 0)
unfolding init_mysql_table init_tbl_user init_tbl_friend connect_mysql select_mysql c_str atoi
    to_int value
did_load = refl

abbrev request : Bytes
request = codes "1001;Bob;pw;10.0.0.2;50022\n"

abbrev asking : Connection
asking = accepted (chunk b'1' (codes "001;Bob;pw;10.0.0.2;50022\n") ∷ []) loaded

abbrev silent : Connection
silent = accepted [] loaded

abbrev entered : Server
entered = record loaded {
  logins =
      record {
        id = negsuc 0;
        user_name = codes "Bob";
        ip = codes "10.0.0.2";
        port = pos 50022;
        login_time = codes "2020-8-6 3:5:52";
        state = online;
        user_id = pos 7;
      }
      ∷ [];
  notice = record {
    is_send_client = true;
    notify_type = pos 5000;
    change_name = codes "Bob";
    change_state = online;
    msg_name = [];
    msg_text = [];
  };
  sent =
      loaded.sent
      ++ codes
          "INSERT INTO login_info(user_name,c_ip,c_port,login_time,state,user_id) VALUES ('Bob','10.0.0.2',50022, '2020-8-6 3:5:52',0,7)"
        ∷ [];
}

abbrev replied : Connection
replied = record {
  server = entered;
  msg_recv = fill (got 28 request) asking.msg_recv;
  buf = [];
  reads = [];
  written = codes "0\n";
  status = running;
}

dealt : turn env asking ≡ done replied
unfolding turn deal_read answer fill readline readline_loop my_read refill take_byte deal_line
    deal_type get_msgtpye cut find c_str atoi to_int value Handlers.login answer_login
    is_login_success enter login_row print_time insert_login_info post_state analysis_login_msgdata
    read_text read_address store insert_mysql send_number print_int digits
dealt = refl

abbrev listening : Serving
listening = record { server = loaded; buf = []; threads = [] }

abbrev one_thread : Serving
one_thread = record { server = loaded; buf = []; threads = asking ∷ [] }

abbrev two_threads : Serving
two_threads = record { server = loaded; buf = []; threads = asking ∷ silent ∷ [] }

abbrev one_in : Serving
one_in = record { server = entered; buf = []; threads = replied ∷ silent ∷ [] }

Serves-one_in : Serves loaded one_in
Serves-one_in =
    Serves.goes_on two_threads one_in
      (Serves.goes_on one_thread two_threads
        (Serves.goes_on listening one_thread Serves.listens
          (Step.accepts loaded [] [] (chunk b'1' (codes "001;Bob;pw;10.0.0.2;50022\n") ∷ [])))
        (Step.accepts loaded [] (asking ∷ []) []))
      (Step.deals loaded [] [] (silent ∷ []) env asking replied refl dealt)

served_example : Inv entered × Grown loaded.users entered
served_example = served true mysql (pos 0) no_row loaded one_in did_load Serves-one_in
