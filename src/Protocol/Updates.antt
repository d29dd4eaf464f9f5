-- ===== src/Protocol/Updates.antt =====
-- The changes of state and the messages of client/serialize_msg.cpp as server/server.cpp reads them.
use everyone_talk.Prelude.{◌≡◌, some, [], ◌∷◌, ◌++◌, append_assoc, Bytes, All-append, Lacks, arith}
use everyone_talk.Int.{IsInt, print_int}
use everyone_talk.Int.RoundTrip.{print_int-Lacks_below}
use everyone_talk.Outcome.{done, store_done}
use everyone_talk.CString.{c_str-Lacks, cut_at}
use everyone_talk.Common.{
  UserState, max_line, semicolon, newline, msg_id_change_user_state, msg_id_send_msg,
}
use everyone_talk.Server.Parse.{get_msgtpye, deserialize_user_state, deserialize_user_msg}
use everyone_talk.Client.Serialize.{serialize_user_state, sendmsg_serialize}
use everyone_talk.Protocol.Fields.{IsField, atoi-print_int_end, get_msgtpye_line}

-- A change of state that fits its buffer is read back exactly, whatever `int` the state is, for a
-- name with no semicolon and no NUL.
pub state_request :
    (name : Bytes) (state : UserState) (current : Bytes × UserState) (req : Bytes)
    → IsField name
    → IsInt state
    → serialize_user_state msg_id_change_user_state name state ≡ done req
    → (text : Bytes) × (get_msgtpye req ≡ some (msg_id_change_user_state, text))
      × (deserialize_user_state text current ≡ (name, state))
unfolding serialize_user_state deserialize_user_state
state_request name state current req h k e =
    let text : Bytes = name ++ semicolon ∷ print_int state in
    let (same, fits) = store_done max_line _ e in
    (
      text,
      rw
          (
            same,
            c_str-Lacks name h.no_nul,
            ← append_assoc name (semicolon ∷ print_int state) (newline ∷ []),
          )
          (get_msgtpye_line msg_id_change_user_state text (omega arith) (
            All-append _ name _ h.no_nul
              (omega arith, print_int-Lacks_below 0 state (omega arith)))),
      rw (
        deserialize_user_state,
        cut_at semicolon name (print_int state) h.no_semicolon,
        atoi-print_int_end state k,
      ),
    )

-- A message to a friend that fits its buffer is read back exactly, also if it holds semicolons
-- itself, for a name with no semicolon and no NUL and a message with no NUL.
pub message_request :
    (name msg : Bytes) (current : Bytes × Bytes) (req : Bytes)
    → IsField name
    → Lacks 0 msg
    → sendmsg_serialize msg msg_id_send_msg name ≡ done req
    → (text : Bytes) × (get_msgtpye req ≡ some (msg_id_send_msg, text))
      × (deserialize_user_msg text current ≡ (name, msg))
unfolding sendmsg_serialize deserialize_user_msg
message_request name msg current req h k e =
    let text : Bytes = name ++ semicolon ∷ msg in
    let (same, fits) = store_done max_line _ e in
    (
      text,
      rw
          (
            same,
            c_str-Lacks name h.no_nul,
            c_str-Lacks msg k,
            ← append_assoc name (semicolon ∷ msg) (newline ∷ []),
          )
          (get_msgtpye_line msg_id_send_msg text (omega arith)
            (All-append _ name _ h.no_nul (omega arith, k))),
      rw (deserialize_user_msg, cut_at semicolon name msg h.no_semicolon),
    )
