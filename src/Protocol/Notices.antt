-- ===== src/Protocol/Notices.antt =====
-- The notices that server/server.cpp prints as client/client_gui.cpp deals with them.
use everyone_talk.Prelude.{
  ◌≡◌, refl, ap, [], ◌∷◌, ◌++◌, append_assoc, Bytes, All-append, Lacks, arith,
}
use everyone_talk.Int.{ℤ, IsInt, print_int}
use everyone_talk.Int.RoundTrip.{print_int-Lacks_below}
use everyone_talk.Outcome.{done, store, store_done, >>=-eq-done}
use everyone_talk.CString.{c_str-Lacks, cut_at}
use everyone_talk.Common.{
  UserState, max_line, semicolon, newline, notify_id_friend_online_state,
  notify_id_message_information,
}
use everyone_talk.Server.Parse.{get_msgtpye}
use everyone_talk.Server.Notify.{Delivery, deal_state_notify, deal_send_msg}
use everyone_talk.Client.Serialize.{friend_online_state_deserialize}
use everyone_talk.Client.Friends.{modify_friend_state}
use everyone_talk.Client.Talk.{recvmsg_from_server}
use everyone_talk.Client.Notices.{Windows, get_notify_type, deal_notice_type, deal_noyify}
use everyone_talk.Protocol.Fields.{IsField, atoi-print_int_end, get_msgtpye_line}

-- The client takes the first number off a line as the server does.
get_notify_type-get_msgtpye : (line : Bytes) → get_notify_type line ≡ get_msgtpye line
unfolding get_notify_type get_msgtpye
get_notify_type-get_msgtpye line = refl

deserialize_printed :
    (name : Bytes) (state : UserState) (current : Bytes × UserState)
    → IsField name
    → IsInt state
    → friend_online_state_deserialize (name ++ semicolon ∷ print_int state) current ≡ (name, state)
unfolding friend_online_state_deserialize
deserialize_printed name state current h k = rw (
  friend_online_state_deserialize,
  cut_at semicolon name (print_int state) h.no_semicolon,
  atoi-print_int_end state k,
)

-- A change of state that the notifying thread prints within its buffer reaches the friend's
-- window as it is: the first cell under the name gets the state, and nothing else changes. The
-- name holds no semicolon and no NUL, and the state is an `int`.
pub state_notice :
    (ip name : Bytes) (port : ℤ) (state junk : UserState) (w : Windows) (d : Delivery)
    → IsField name
    → IsInt state
    → deal_state_notify ip port name state ≡ done d
    → (deal_noyify junk d.request w).0
      ≡ record w { friends = modify_friend_state name state w.friends }
unfolding deal_state_notify deal_noyify deal_notice_type
state_notice ip name port state junk w d h k e =
    let (request, printed, made) = >>=-eq-done (store max_line _) _ e in
    let (same, _) = store_done max_line _ printed in
    let text : Bytes = name ++ semicolon ∷ print_int state in
    let sent : d.request ≡ request = cc made in
    let typed =
      get_msgtpye_line notify_id_friend_online_state text (omega arith)
        (All-append _ name _ h.no_nul (omega arith, print_int-Lacks_below 0 state (omega arith))) in
    rw
      (
        sent,
        same,
        c_str-Lacks name h.no_nul,
        ← append_assoc name (semicolon ∷ print_int state) (newline ∷ []),
        deal_noyify,
        get_notify_type-get_msgtpye,
        typed,
      )
      (ap (λ p. record w { friends = modify_friend_state p.0 p.1 w.friends })
        (deserialize_printed name state ([], junk) h k))

-- A message with no NUL that the notifying thread prints within its buffer is added to the talk
-- window as it is, also if it holds semicolons.
pub message_notice :
    (ip msg : Bytes) (port : ℤ) (junk : UserState) (w : Windows) (d : Delivery)
    → Lacks 0 msg
    → deal_send_msg ip port msg ≡ done d
    → (deal_noyify junk d.request w).0 ≡ record w { talk = recvmsg_from_server msg w.talk }
unfolding deal_send_msg deal_noyify deal_notice_type
message_notice ip msg port junk w d k e =
    let (request, printed, made) = >>=-eq-done (store max_line _) _ e in
    let (same, _) = store_done max_line _ printed in
    let sent : d.request ≡ request = cc made in
    rw (
      sent,
      same,
      c_str-Lacks msg k,
      deal_noyify,
      get_notify_type-get_msgtpye,
      get_msgtpye_line notify_id_message_information msg (omega arith) k,
    )
