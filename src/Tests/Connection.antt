-- ===== src/Tests/Connection.antt =====
-- A connection to the server with what it carries.
use everyone_talk.Prelude.{some, true, false, ◌≡◌, refl, List, [], ◌∷◌, ◌++◌, Bytes, codes, arith}
use everyone_talk.Outcome.{store, done, ◌>>=◌}
use everyone_talk.CString.{c_str, cut, find}
use everyone_talk.Server.State.{Server, start}
use everyone_talk.Server.Connection.{Connection, rounds, accepted}
use everyone_talk.Server.Connection.Lines.{IsLine, seen, session}
use everyone_talk.Server.Threads.{Serving}
use everyone_talk.Server.Threads.Turns.{scheduled, seen_of, lone_thread}
use everyone_talk.Server.Threads.Taken.{left_of, second_line_taken}
use everyone_talk.Server.Dispatch.{Reply, deal_line, deal_type, send_number}
use everyone_talk.Server.Parse.{get_msgtpye, deserialize_user_msg}
use everyone_talk.Server.Handlers.{sendmsg_to_friend}
use everyone_talk.Int.{pos, atoi, to_int, value, print_int, digits}
use everyone_talk.Server.Connection.Ends.{error_repeats}
use everyone_talk.Wire.Readline.{Read, chunk, interrupted, error, stream}
use everyone_talk.Tests.Data.{env}

abbrev register_line : Bytes
register_line = codes "1000;Bob;pw;m;1992;Bern"

abbrev message_line : Bytes
message_line = codes "1004;Amy;hi"

register_line-IsLine : IsLine register_line
register_line-IsLine = record { no_newline = omega arith; no_nul = omega arith; fits = omega arith }

message_line-IsLine : IsLine message_line
message_line-IsLine = record { no_newline = omega arith; no_nul = omega arith; fits = omega arith }

-- Two requests and the start of a third, in two pieces.
abbrev pieces : List Read
pieces =
    chunk b'1' (codes "000;Bob;pw;m;")
    ∷ interrupted
    ∷ chunk b'1' (codes "992;Bern\n1004;Amy;hi\n10")
    ∷ []

-- Another thread waits meanwhile.
abbrev lone : Serving
lone = record { server = start; buf = []; threads = accepted [] start ∷ accepted pieces start ∷ [] }

lone_thread_example :
    (scheduled ((1, env) ∷ (1, env) ∷ []) lone >>= λ y. done (seen_of 1 y))
    ≡ (session ((env, register_line) ∷ (env, message_line) ∷ []) start [] >>= λ s. done (some s))
unfolding stream
lone_thread_example =
    lone_thread ((env, register_line) ∷ (env, message_line) ∷ []) (codes "10") 1 lone
      (accepted pieces start) refl refl (register_line-IsLine, (message_line-IsLine, tt)) refl

-- Both lines come in one `read` of the first thread.
abbrev both_lines : List Read
both_lines = chunk b'1' (codes "004;Amy;hi\n1004;Bob;yo\n") ∷ []

abbrev second_message : Bytes
second_message = codes "1004;Bob;yo"

abbrev sharing : Serving
sharing = record {
  server = start;
  buf = [];
  threads = accepted both_lines start ∷ accepted [] start ∷ [];
}

abbrev after_message : Bytes → Bytes → Server
after_message name text = record start {
  notice = record start.notice {
    is_send_client = true;
    notify_type = pos 5001;
    msg_name = name;
    msg_text = text;
  };
}

abbrev zero_reply : Bytes → Bytes → Reply
zero_reply name text = record {
  server = after_message name text;
  written = codes "0\n";
  returns = false;
}

second_line_taken_example :
    (y : Serving) × (scheduled ((0, env) ∷ (1, env) ∷ []) sharing ≡ done y)
    × (left_of 0 y ≡ some (codes "0\n", []))
    × (left_of 1 y ≡ some (codes "0\n", []))
    × (y.server ≡ after_message (codes "Bob") (codes "yo"))
unfolding deal_line deal_type get_msgtpye cut find c_str atoi to_int value sendmsg_to_friend
    deserialize_user_msg send_number store print_int digits
second_line_taken_example =
    second_line_taken 0 1 sharing (accepted both_lines start) (accepted [] start) env env
      message_line second_message b'1' (codes "004;Amy;hi\n1004;Bob;yo\n") []
      (zero_reply (codes "Amy") (codes "hi")) (zero_reply (codes "Bob") (codes "yo")) (λ e. cc e)
      refl refl refl refl message_line-IsLine
      (record { no_newline = omega arith; no_nul = omega arith; fits = omega arith }) refl refl refl
      refl refl

abbrev failing : List Read → Connection
failing reads = record (accepted reads start) { msg_recv = codes "1004;Amy;hi\n" ++ 0 ∷ [] }

error_repeats_example :
    (rounds (env ∷ env ∷ []) (failing (error ∷ error ∷ [])) >>= λ c'. done (seen c'))
    ≡ session ((env, message_line) ∷ (env, message_line) ∷ []) start []
unfolding c_str
error_repeats_example = error_repeats (env ∷ env ∷ []) message_line (failing []) [] refl
