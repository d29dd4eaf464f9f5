-- ===== src/Tests/Program.antt =====
-- A run of the client.
use everyone_talk.Prelude.{◌≡◌, refl, arith, some, true, List, none, [], ◌∷◌, ◌++◌, codes}
use everyone_talk.Int.{pos, print_int, digits, atoi, to_int, value}
use everyone_talk.Common.{online}
use everyone_talk.Client.Friends
use everyone_talk.Client.Talk
use everyone_talk.Client.Requests.{Socket}
use everyone_talk.Client.Config
use everyone_talk.Client.Console
use everyone_talk.Client.Program
use everyone_talk.Client.Keyboard
use everyone_talk.Client.Commands
use everyone_talk.Client.Requests
use everyone_talk.Client.Serialize
use everyone_talk.Outcome.{store}
use everyone_talk.CString.{c_str, cut, find}
use everyone_talk.Client.Console.{◌>>=◌, pure, Call, Client, Result, returns}
use everyone_talk.Client.Program.{main, talk_to_server}
use everyone_talk.Client.Program.Restore.{main_restores}
use everyone_talk.Client.Config.{ClientData}
use everyone_talk.Tests.Config.{sample, entry, entry-IsEntry}
use everyone_talk.Client.Program.Follows.{Phase, Follows}
use everyone_talk.Client.Program.Main.{main-Follows}
use everyone_talk.Wire.Readline
use everyone_talk.Wire.Readline.{Read, chunk, readline}
use everyone_talk.Wire.Writen.{Write, writen}

-- A connection that takes a request whole and carries the reply.
abbrev replies : List Read → Socket
replies reads = record { writes = Write.wrote 1000 ∷ []; buf = []; reads = reads }

-- Bob logs in, scrolls, and quits.
abbrev typing : Client
typing = record {
  keys = codes ":login\nBob\n\npw\n " ++ 27 ∷ codes "[B:quit\n";
  sockets =
      replies (chunk b'0' (codes "\n") ∷ [])
      ∷ replies (chunk b'4' (codes ",Amy,2;\n") ∷ [])
      ∷ replies (chunk b'0' (codes "\n") ∷ [])
      ∷ [];
  calls = [];
  friends = Friends.blank;
  talk = Talk.blank;
  key_map_state = [];
  c_ip = [];
  c_port = pos 0;
  u_state = online;
}

main-Follows_example :
    Follows
      (Call.login (record { user_name = codes "Bob"; passwd = codes "pw"; ip = []; port = pos 0 })
        ∷ Call.get_friend_list (codes "Bob")
        ∷ Call.quit_from_server (codes "Bob")
        ∷ [])
      Phase.gone
unfolding main Console.and_then Console.lift Config.read_client_data Config.read_string_value
    Config.header Config.read_int_value Config.write_int_value Config.write_string_value
    Config.ini_write_value Config.restore_client_data Config.ini_read_value Config.increment store
    print_int digits atoi to_int value c_str cut find Program.talk_to_server Program.main_loop
    Program.deal_main_cmd Program.do_main Program.deal_login_data Program.get_login_data
    Program.non_empty Program.enter Program.deal_friend_list Program.show_friends
    Program.deal_friend_data Program.deal_friend_list_cmd Program.do_friend Program.quit
    Console.forever Console.repeat Console.pause Console.getchar Console.taken Console.called
    Console.call_on Keyboard.read_word Keyboard.get_main_cmd Keyboard.get_friend_cmd
    Commands.deal_main_cmd Commands.deal_friend_list_cmd Requests.login Requests.get_friend_list
    Requests.quit_from_server Requests.reply_number Requests.reply_friends Requests.deal_msg
    Requests.read_answer Requests.answer_of readline Readline.readline_loop Readline.my_read writen
    Serialize.login_serialize Serialize.friend_list_serialize Serialize.serialize_quit
main-Follows_example = main-Follows true none typing refl

main_restores_example :
    (read : ClientData) × (read.c_port ≡ pos 50022)
    × (main true (some sample) typing
        ≡ (talk_to_server true >>= λ ret. pure (ret, some sample))
            (record typing { c_ip = read.c_ip; c_port = read.c_port }))
unfolding print_int
main_restores_example = main_restores true 50022 entry typing (omega arith) entry-IsEntry refl refl
