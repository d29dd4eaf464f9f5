-- ===== src/Tests/Login.antt =====
-- Bob's login from the client to the server and back.
use everyone_talk.Prelude.{◌≡◌, refl, Exists, some, [], ◌∷◌, ◌++◌, codes, arith, ◌⊎◌}
use everyone_talk.Int.{print_int, atoi, digits, value, to_int}
use everyone_talk.Outcome.{done, store}
use everyone_talk.Common.{ok, fail}
use everyone_talk.CString.{c_str, cut, find}
use everyone_talk.Server.Sql.{insert_mysql}
use everyone_talk.Server.Logins.{insert_login_info}
use everyone_talk.Server.Parse.{get_msgtpye, read_text, read_address, analysis_login_msgdata}
use everyone_talk.Server.Handlers.{
  answer_login, is_login_success, enter, login_row, print_time, post_state,
}
use everyone_talk.Server.Handlers
use everyone_talk.Server.Dispatch.{deal_line, deal_type, send_number}
use everyone_talk.Server.Accounts.{Opens, Entered}
use everyone_talk.Server.Connection.{
  Connection, running, rounds, turn, deal_read, answer, fill, go_on,
}
use everyone_talk.Client.Requests
use everyone_talk.Client.Requests.{Socket}
use everyone_talk.Wire.Readline.{chunk, stream, readline, readline_loop, my_read, refill, take_byte}
use everyone_talk.Wire.Writen.{Write, writen}
use everyone_talk.Protocol.Requests.{IsOneLine}
use everyone_talk.Protocol.Exchange.{login_exchange}
use everyone_talk.Tests.Data.{env, bob_login, bob_login-HasLogin}
use everyone_talk.Tests.Exchange.{bob_login_req, printed_login, messaged, entered}

bob_login-IsOneLine : IsOneLine bob_login
bob_login-IsOneLine = record { user_name = omega arith; passwd = omega arith; ip = omega arith }

-- The connection before and after the round, and the client's end of it.
abbrev asking : Connection
asking = record {
  server = messaged;
  msg_recv = [];
  buf = codes "1001;";
  reads = chunk b'B' (codes "ob;pw;10.0.0.2;50022\n") ∷ [];
  written = [];
  status = running;
}

abbrev replied : Connection
replied = record {
  server = entered;
  msg_recv = bob_login_req ++ 0 ∷ [];
  buf = [];
  reads = [];
  written = codes "0\n";
  status = running;
}

abbrev client_end : Socket
client_end = record {
  writes = Write.wrote 3 ∷ Write.wrote 1000 ∷ [];
  buf = [];
  reads = chunk b'0' (codes "\n") ∷ [];
}

ran : rounds (env ∷ []) asking ≡ done replied
unfolding rounds turn deal_read answer fill go_on readline readline_loop my_read refill take_byte
    deal_line deal_type get_msgtpye cut find c_str atoi to_int value Handlers.login answer_login
    is_login_success enter login_row print_time insert_login_info post_state analysis_login_msgdata
    read_text read_address store insert_mysql send_number print_int digits
ran = refl

login_exchange_example :
    ((Requests.login bob_login client_end ≡ done (some ok)) × Entered bob_login messaged entered)
    ⊎ ((Requests.login bob_login client_end ≡ done (some fail))
        × (entered ≡ messaged)
        × ¬ Exists (Opens bob_login) messaged.users)
unfolding writen stream c_str
login_exchange_example =
    login_exchange env bob_login client_end asking replied bob_login_req (codes "0\n") [] []
      bob_login-HasLogin bob_login-IsOneLine printed_login refl refl refl ran refl refl
