-- ===== src/Tests/Calls.antt =====
-- Notices over connections: server/notify_client.cpp and the client's listening thread.
use everyone_talk.Prelude.{
  ◌≡◌, refl, List, ◌+◌, true, false, some, [], ◌∷◌, Bytes, codes, length, suc, ◌<◌, Lacks, arith,
}
use everyone_talk.Int.{pos, negsuc, print_int, digits}
use everyone_talk.Outcome.{store}
use everyone_talk.CString
use everyone_talk.CString.{c_str}
use everyone_talk.Common.{FriendList, busy, online, newline, max_line}
use everyone_talk.Wire.Readline.{Read, stream, readline}
use everyone_talk.Wire.Readline
use everyone_talk.Wire.Writen.{Write, writen}
use everyone_talk.Server.Notify.{deal_state_notify, deal_send_msg}
use everyone_talk.Server.Notify.Call
use everyone_talk.Server.Notify.Call.{Dial, Wires, deal_notify, deal_notifies}
use everyone_talk.Server.Notify.Descriptors.{failures, failures_leak}
use everyone_talk.Client.Friends
use everyone_talk.Client.Friends.{init_friend_lists}
use everyone_talk.Client.Talk
use everyone_talk.Client.Talk.{init_talk_lists}
use everyone_talk.Client.Talk.Scroll.{first-Shows}
use everyone_talk.Client.Notices
use everyone_talk.Client.Requests
use everyone_talk.Client.Notices.Effects.{StateShown, MessageShown}
use everyone_talk.Client.Notices.Calls
use everyone_talk.Client.Notices.Calls.{Caller, Listening, deal_caller, serve_callers}
use everyone_talk.Client.Notices.Lines.{written_replies, shown_lines, callers_in_order}
use everyone_talk.Server.Connection.Lines.{IsLine}
use everyone_talk.Protocol.NoticeLines.{written_back}
use everyone_talk.Protocol.NoticeCalls.{Sent, state_exchange, message_exchange}

abbrev no_wires : Wires
no_wires = record { opened = pos 3 ∷ []; written = [] }

-- The client takes the line and closes without a reply, and the next client does not take it.
abbrev silent : Dial
silent = record {
  sockfd = pos 8;
  connects = true;
  writes = Write.wrote 4 ∷ Write.wrote 10 ∷ [];
  buf = [];
  reads = Read.end ∷ [];
}

abbrev refused : Dial
refused = record {
  sockfd = pos 9;
  connects = false;
  writes = Write.error ∷ [];
  buf = [];
  reads = [];
}

-- No socket is given.
abbrev no_descriptor : Dial
no_descriptor = record refused { sockfd = negsuc 0 }

abbrev the_dials : List (Bytes × Dial)
the_dials =
    (codes "5000;Bob;3\n", silent)
    ∷ (codes "5000;Bob;3\n", no_descriptor)
    ∷ (codes "5000;Bob;3\n", refused)
    ∷ []

abbrev after_both : Wires
after_both = record { opened = pos 9 ∷ pos 8 ∷ pos 3 ∷ []; written = codes "5000;Bob;3\n" }

failures_leak_example :
    length after_both.opened ≡ length no_wires.opened + failures the_dials no_wires
unfolding deal_notifies deal_notify Call.await_reply writen c_str Call.take_reply readline
    Readline.readline_loop Readline.my_read Call.client_connect
failures_leak_example = failures_leak the_dials no_wires after_both refl

-- Bob's client takes the line in two pieces, and so does the server the answer.
abbrev dial : Dial
dial = record {
  sockfd = pos 8;
  connects = true;
  writes = Write.interrupted ∷ Write.wrote 30 ∷ [];
  buf = [];
  reads = Read.chunk b'h' (codes "ahaha") ∷ Read.chunk b'h' (codes "ahahahaha\n") ∷ [];
}

abbrev state_caller : Caller
state_caller = record {
  writes = Write.wrote 30 ∷ [];
  reads = Read.chunk b'5' (codes "000;B") ∷ Read.chunk b'o' (codes "b;3\n") ∷ [];
  junk = online;
}

abbrev message_caller : Caller
message_caller = record {
  writes = Write.wrote 30 ∷ [];
  reads = Read.chunk b'5' (codes "001;a;b\n") ∷ [];
  junk = online;
}

abbrev bob : FriendList
bob = record { id = pos 7; user_name = codes "Bob"; state = online }

abbrev listening : Listening
listening = record {
  windows = record {
    friends = init_friend_lists (bob ∷ bob ∷ []) Friends.blank;
    talk = init_talk_lists (codes "Bob") Talk.blank;
  };
  buf = [];
  replies = [];
}

state_exchange_example :
    Sent (codes "5000;Bob;3\n") dial no_wires
    × (l' : Listening) × (deal_caller state_caller listening ≡ some l')
    × StateShown (codes "Bob") busy listening.windows l'.windows
unfolding deal_state_notify c_str print_int digits store writen stream written_back deal_caller
    Calls.deal_answer Notices.deal_noyify Notices.get_notify_type Readline.readline
    Readline.readline_loop Readline.my_read CString.cut CString.find Requests.answer_of
state_exchange_example =
    state_exchange (codes "10.0.0.2") (codes "Bob") [] [] (pos 50022) busy
      (record { ip = codes "10.0.0.2"; port = pos 50022; request = codes "5000;Bob;3\n" }) dial
      state_caller listening no_wires (record { no_semicolon = omega arith; no_nul = omega arith })
      (omega arith) (omega arith) refl
      (record { sent = refl; arrives = refl; replied = refl; comes_back = refl })

message_exchange_example :
    Sent (codes "5001;a;b\n") dial no_wires
    × (l' : Listening) × (deal_caller message_caller listening ≡ some l')
    × MessageShown (codes "a;b") listening.windows l'.windows
unfolding deal_send_msg c_str print_int digits store writen stream written_back deal_caller
    Calls.deal_answer Notices.deal_noyify Notices.get_notify_type Readline.readline
    Readline.readline_loop Readline.my_read CString.cut CString.find Requests.answer_of
message_exchange_example =
    message_exchange (codes "10.0.0.2") (codes "a;b") [] [] (pos 50022)
      (record { ip = codes "10.0.0.2"; port = pos 50022; request = codes "5001;a;b\n" }) dial
      message_caller listening no_wires (omega arith) (omega arith) refl (first-Shows (codes "Bob"))
      (record { sent = refl; arrives = refl; replied = refl; comes_back = refl })

line :
    (text : Bytes) → Lacks newline text → Lacks 0 text → suc (length text) < max_line → IsLine text
line text n z k = record { no_newline = n; no_nul = z; fits = k }

-- Both notices, to a client that accepts one connection after the other.
callers_in_order_example :
    (l' : Listening) × (serve_callers (state_caller ∷ message_caller ∷ []) listening ≡ some l')
    × (l'.windows
        ≡ shown_lines
            ((state_caller, codes "5000;Bob;3") ∷ (message_caller, codes "5001;a;b") ∷ [])
            listening.windows)
    × (l'.replies
        ≡ written_replies
            ((state_caller, codes "5000;Bob;3") ∷ (message_caller, codes "5001;a;b") ∷ []))
    × (l'.buf ≡ [])
unfolding Readline.arriving
callers_in_order_example =
    callers_in_order ((state_caller, codes "5000;Bob;3") ∷ (message_caller, codes "5001;a;b") ∷ [])
      listening
      (
        (line (codes "5000;Bob;3") (omega arith) (omega arith) (omega arith), refl),
        ((line (codes "5001;a;b") (omega arith) (omega arith) (omega arith), refl), tt),
      )
      refl
