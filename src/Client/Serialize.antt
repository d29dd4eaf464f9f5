-- ===== src/Client/Serialize.antt =====
-- client/serialize_msg.cpp: the messages that the client prints, and those that it reads. Each
-- `pStr` is an array of `MAXLINE` bytes in every caller.
use everyone_talk.Prelude.{ℕ, zero, suc, none, some, List, [], ◌∷◌, ◌++◌, Bytes, length}
use everyone_talk.Int.{ℤ, print_int, atoi}
use everyone_talk.Outcome.{Outcome, store}
use everyone_talk.CString.{c_str, cut, before, after}
use everyone_talk.Common.{
  UserInfo, LoginInfo, FriendList, UserState, max_line, semicolon, comma, newline,
}

unfoldable pub register_serialize : UserInfo → ℤ → Outcome Bytes
register_serialize user_info register_id = store max_line (
    print_int register_id
    ++ semicolon
      ∷ (c_str user_info.user_name
          ++ semicolon
            ∷ (c_str user_info.passwd
                ++ semicolon
                  ∷ (c_str user_info.sex
                      ++ semicolon
                        ∷ (c_str user_info.birth
                            ++ semicolon ∷ (c_str user_info.hometown ++ newline ∷ []))))))

unfoldable pub login_serialize : LoginInfo → ℤ → Outcome Bytes
login_serialize login_info login_id = store max_line (
    print_int login_id
    ++ semicolon
      ∷ (c_str login_info.user_name
          ++ semicolon
            ∷ (c_str login_info.passwd
                ++ semicolon
                  ∷ (c_str login_info.ip
                      ++ semicolon ∷ (print_int login_info.port ++ newline ∷ [])))))

unfoldable pub friend_list_serialize : ℤ → Bytes → Outcome Bytes
friend_list_serialize friend_list_id user_name =
    store max_line (print_int friend_list_id ++ semicolon ∷ (c_str user_name ++ newline ∷ []))

unfoldable pub serialize_user_state : ℤ → Bytes → UserState → Outcome Bytes
serialize_user_state change_id user_name state = store max_line (
    print_int change_id
    ++ semicolon ∷ (c_str user_name ++ semicolon ∷ (print_int state ++ newline ∷ [])))

unfoldable pub serialize_quit : ℤ → Bytes → Outcome Bytes
serialize_quit change_id user_name =
    store max_line (print_int change_id ++ semicolon ∷ (c_str user_name ++ newline ∷ []))

unfoldable pub sendmsg_serialize : Bytes → ℤ → Bytes → Outcome Bytes
sendmsg_serialize c_msg change_id f_name =
    store max_line (
      print_int change_id
      ++ semicolon ∷ (c_str f_name ++ semicolon ∷ (c_str c_msg ++ newline ∷ [])))

-- One round of the loop: `id,name,state`.
unfoldable pub read_friend : Bytes → FriendList
read_friend str_friend =
    let rest = after comma str_friend in
    record {
      id = atoi (c_str (before comma str_friend));
      user_name = before comma rest;
      state = atoi (c_str (after comma rest));
    }

-- The loop cuts one friend off `respond` in each round, so its length is enough fuel.
unfoldable pub deserialize_loop : ℕ → Bytes → List FriendList → List FriendList
deserialize_loop zero respond f_lists = f_lists
deserialize_loop (suc fuel) respond f_lists = elim (cut semicolon respond) [
  | none ↦ f_lists
  | some (str_friend, rest) ↦ deserialize_loop fuel rest (f_lists ++ read_friend str_friend ∷ [])
]

unfoldable pub friend_list_deserialize : Bytes → List FriendList → List FriendList
unfolding deserialize_loop
friend_list_deserialize respond f_lists = deserialize_loop (suc (length respond)) respond f_lists

-- The two reference arguments keep their values where there is no separator.
unfoldable pub friend_online_state_deserialize : Bytes → Bytes × UserState → Bytes × UserState
friend_online_state_deserialize str_notify_data current = elim (cut semicolon str_notify_data) [
  | none ↦ current
  | some (user_name, state) ↦ (user_name, atoi (c_str state))
]
