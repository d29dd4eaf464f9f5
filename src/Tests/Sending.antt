-- ===== src/Tests/Sending.antt =====
-- Lines typed into the talk window, as keys and as lines.
use everyone_talk.Prelude.{All, ◌≡◌, refl, [], ◌∷◌, ◌++◌, List, Bytes, codes, map}
use everyone_talk.Int.{pos, print_int, digits}
use everyone_talk.Outcome.{done, store}
use everyone_talk.Common.{online}
use everyone_talk.CString.{c_str}
use everyone_talk.Client.Config
use everyone_talk.Client.Console
use everyone_talk.Client.Console.{Call, Client, returns}
use everyone_talk.Client.Friends
use everyone_talk.Client.Talk
use everyone_talk.Client.Talk.{add_sent}
use everyone_talk.Client.Program
use everyone_talk.Client.Program.Fgets.{IsLineOf}
use everyone_talk.Client.Program.Lines.{get_send_msg_on_lines}
use everyone_talk.Client.Program.SentLine.{concat}
use everyone_talk.Client.Requests
use everyone_talk.Client.Requests.{Socket}
use everyone_talk.Client.SendLoop
use everyone_talk.Client.SendLoop.Shown.{said_lines}
use everyone_talk.Client.Serialize
use everyone_talk.Wire.Readline
use everyone_talk.Wire.Readline.{Read, readline}
use everyone_talk.Wire.Writen.{Write, writen}

-- "hi", a line with only a cursor key, and the end.
abbrev typing : Client
typing = record {
  keys = codes "hi\n" ++ 27 ∷ codes "[A\n:q\nmore";
  sockets =
      record { writes = Write.wrote 1000 ∷ []; buf = []; reads = Read.chunk b'0' (codes "\n") ∷ [] }
      ∷ [];
  calls = [];
  friends = Friends.blank;
  talk = Talk.blank;
  key_map_state = [];
  c_ip = [];
  c_port = pos 0;
  u_state = online;
}

abbrev after : Client
after = record typing {
  keys = codes "more";
  sockets = [];
  calls = Call.send_msg_to_server (codes "Amy") (codes "hi") ∷ [];
  talk = add_sent (codes "Bob") (codes "hi") Talk.blank;
}

get_send_msg_on_lines_example :
    (lines : List Bytes) × (rs' : List Bytes) × (typing.keys ≡ concat lines ++ codes "more")
    × All (IsLineOf 1023) lines
    × (after.calls ≡ map (Call.send_msg_to_server (codes "Amy")) (said_lines lines))
    × (SendLoop.get_send_msg
          (codes "Bob")
          (codes "Amy")
          lines
          (record { window = Talk.blank; requests = [] })
        ≡ done (record { window = after.talk; requests = rs' }, []))
unfolding Program.get_send_msg Console.forever Console.repeat Console.taken Console.fgets_line
    Console.and_then Program.send_or_quit Program.send_typed Console.call_on Console.called c_str
    Config.take_line SendLoop.delete_keys Talk.delete_func_key Talk.delete_loop Talk.without
    Requests.send_msg_to_server Serialize.sendmsg_serialize Requests.reply_number Requests.deal_msg
    Requests.read_answer Requests.answer_of store print_int digits writen readline
    Readline.readline_loop Readline.my_read
get_send_msg_on_lines_example =
    get_send_msg_on_lines (codes "Bob") (codes "Amy") [] typing after refl
