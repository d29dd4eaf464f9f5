-- ===== src/Server/Parse.antt =====
-- The parts of server/server.cpp that take a received line apart.
use everyone_talk.Prelude.{Option, none, some, Bytes, drop_last}
use everyone_talk.Int.{ℤ, atoi}
use everyone_talk.Outcome.{Outcome, done, store, ◌>>=◌}
use everyone_talk.CString.{c_str, cut}
use everyone_talk.Common.{UserInfo, LoginInfo, UserState, max_line, semicolon}

-- `none` is `return false`.
unfoldable pub get_msgtpye : Bytes → Option (ℤ × Bytes)
get_msgtpye msg_recv = elim (cut semicolon (drop_last (c_str msg_recv))) [
  | none ↦ none
  | some (msg_type, str_msg_data) ↦ some (atoi (c_str msg_type), str_msg_data)
]

-- One `if (pos != npos)` of the function below: `strcpy` of the text up to the separator into an
-- array of `MAXLINE` bytes, and the rest of the message. With no separator nothing changes.
unfoldable pub read_field : (Bytes → UserInfo) → UserInfo → Bytes → Outcome (Bytes × UserInfo)
read_field assign user_info str_msg = elim (cut semicolon str_msg) [
  | none ↦ done (str_msg, user_info)
  | some (field, rest) ↦ do text ← store max_line (c_str field); done (rest, assign text)
]

-- The last `if` writes the text before the fourth separator to `birth` and to `hometown`.
unfoldable pub analysis_register_msgdata : Bytes → UserInfo → Outcome UserInfo
analysis_register_msgdata str_msg u = do
  (str_msg₁, u₁) ← read_field (λ text. record u { user_name = text }) u str_msg
  (str_msg₂, u₂) ← read_field (λ text. record u₁ { passwd = text }) u₁ str_msg₁
  (str_msg₃, u₃) ← read_field (λ text. record u₂ { sex = text }) u₂ str_msg₂
  (_, u₄) ← read_field (λ text. record u₃ { birth = text; hometown = text }) u₃ str_msg₃
  done u₄

-- One of the first two `if`s of the function below; `std::string` fields, so nothing overflows.
unfoldable pub read_text : (Bytes → LoginInfo) → LoginInfo → Bytes → Bytes × LoginInfo
read_text assign login_info str_msg = elim (cut semicolon str_msg) [
  | none ↦ (str_msg, login_info)
  | some (field, rest) ↦ (rest, assign field)
]

-- Its last `if`.
unfoldable pub read_address : LoginInfo → Bytes → LoginInfo
read_address login_info str_msg = elim (cut semicolon str_msg) [
  | none ↦ login_info
  | some (ip, port) ↦ record login_info { ip = ip; port = atoi (c_str port) }
]

unfoldable pub analysis_login_msgdata : Bytes → LoginInfo → LoginInfo
analysis_login_msgdata str_msg l =
    let (str_msg₁, l₁) = read_text (λ text. record l { user_name = text }) l str_msg in
    let (str_msg₂, l₂) = read_text (λ text. record l₁ { passwd = text }) l₁ str_msg₁ in
    read_address l₂ str_msg₂

-- The two reference arguments keep their values where there is no separator.
unfoldable pub deserialize_user_state : Bytes → Bytes × UserState → Bytes × UserState
deserialize_user_state str_msg current = elim (cut semicolon str_msg) [
  | none ↦ current
  | some (user_name, state) ↦ (user_name, atoi (c_str state))
]

unfoldable pub deserialize_user_msg : Bytes → Bytes × Bytes → Bytes × Bytes
deserialize_user_msg str_msg current = elim (cut semicolon str_msg) [
  | none ↦ current
  | some (user_name, user_msg) ↦ (user_name, user_msg)
]
