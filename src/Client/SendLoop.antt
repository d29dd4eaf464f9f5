-- ===== src/Client/SendLoop.antt =====
-- `get_send_msg` of client/deal_talk_data.cpp. The lines that `fgets` gives are an argument.
pub mod Shown
use everyone_talk.Prelude.{
  ℕ, Option, none, some, List, [], ◌∷◌, ◌++◌, Bytes, codes, bytes_eq, drop_last, if◌then◌else◌,
}
use everyone_talk.Outcome.{Outcome, done, ◌>>=◌}
use everyone_talk.CString.{c_str}
use everyone_talk.Common.{msg_id_send_msg}
use everyone_talk.Client.Serialize.{sendmsg_serialize}
use everyone_talk.Client.Talk.{TalkWindow, add_sent, delete_func_key}

-- The requests that go out, oldest first, and the window.
pub record Sending : Type 0 where
  pub window : TalkWindow
  pub requests : List Bytes

-- The four calls of `delete_func_key`.
unfoldable pub delete_keys : Bytes → Bytes
delete_keys sendline = delete_func_key (27 ∷ codes "[D") (
    delete_func_key (27 ∷ codes "[C")
      (delete_func_key (27 ∷ codes "[B") (delete_func_key (27 ∷ codes "[A") sendline)))

-- A line that is sent and shown. What the request returns is not looked at.
unfoldable pub send_line : Bytes → Bytes → Bytes → Sending → Outcome Sending
send_line my_name f_name sendline s = do
  request ← sendmsg_serialize sendline msg_id_send_msg f_name
  done (record {
    window = add_sent my_name sendline s.window;
    requests = s.requests ++ request ∷ [];
  })

-- A line without its keys: an empty one is not sent.
unfoldable pub send_cleaned : Bytes → Bytes → Bytes → Sending → Outcome Sending
send_cleaned my_name f_name [] s = done s
send_cleaned my_name f_name (c ∷ sendline) s = send_line my_name f_name (c ∷ sendline) s

-- The loop, to the line ":q" or as far as the lines go, and the lines behind it.
unfoldable pub get_send_msg : Bytes → Bytes → List Bytes → Sending → Outcome (Sending × List Bytes)
get_send_msg my_name f_name [] s = done (s, [])
get_send_msg my_name f_name (line ∷ lines) s =
    let sendline = drop_last (c_str line) in
    let more =
      send_cleaned my_name f_name (delete_keys sendline) s >>= get_send_msg my_name f_name lines in
    if bytes_eq sendline (codes ":q") then done (s, lines) else more
