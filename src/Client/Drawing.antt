-- ===== src/Client/Drawing.antt =====
-- What the client prints: the tables of client/client_gui.cpp, and the windows that
-- client/deal_friend_data.cpp and client/deal_talk_data.cpp fill in.
pub mod Clear
pub mod Fill
pub mod Friends
pub mod Talks
pub mod Refill
pub mod Screens
pub mod TalkScreen
pub mod Cleared
use everyone_talk.Prelude.{
  ℕ, zero, suc, ◌+◌, ◌-◌, List, [], ◌∷◌, ◌++◌, Bytes, codes, length, replicate, take, map,
  if◌then◌else◌,
}
use everyone_talk.Int.{ℤ, pos, int_eq, print_int}
use everyone_talk.CString.{c_str}
use everyone_talk.Common.{FriendList}
use everyone_talk.Client.Friends.{FriendWindow}
use everyone_talk.Client.Talk.{TalkWindow}
use everyone_talk.Client.Terminal.{Out, text, newline, up, down, right, left, erase}
use everyone_talk.Client.Terminal.Rows.{outs}

-- `printf("...\n")`.
abbrev pub line : Bytes → List Out
line t = text t ∷ newline ∷ []

abbrev pub login_table : List Bytes
login_table =
    codes "+----+------+-----------------+"
    ∷ codes "|    |     EveryoneTalk       |"
    ∷ codes "+----+------+-----------------+"
    ∷ codes "| UserName: |                 |"
    ∷ codes "+-----------+-----------------+"
    ∷ codes "| Passwd:   |                 |"
    ∷ codes "+-----------+---+-------------+"
    ∷ codes "|     login     |  register   |"
    ∷ codes "+---------------+-------------+"
    ∷ []

unfoldable pub print_login : List Out
print_login = outs (map line login_table)

abbrev pub register_table : List Bytes
register_table =
    codes "+-----------+-----------------+"
    ∷ codes "| UserInfo  | Value           |"
    ∷ codes "+-----------+-----------------+"
    ∷ codes "| username: |                 |"
    ∷ codes "| passwd:   |                 |"
    ∷ codes "| repasswd: |                 |"
    ∷ codes "| sex:      |                 |"
    ∷ codes "| birth:    |                 |"
    ∷ codes "| hometown: |                 |"
    ∷ codes "+-----------+-----------------+"
    ∷ []

-- The form; the cursor then goes to its first field.
unfoldable pub print_register : List Out
print_register = outs (map line register_table) ++ up 7 ∷ right 15 ∷ []

abbrev pub friend_table : List Bytes
friend_table =
    codes "+--------+--------------+---------+"
    ∷ codes "|         EveryoneTalk            |"
    ∷ codes "+--------+--------------+---------|"
    ∷ codes "|  ID    |  UserName    |  State  |"
    ∷ codes "+--------+--------------+---------|"
    ∷ codes "|        |              |         |"
    ∷ codes "|        |              |         |"
    ∷ codes "|        |              |         |"
    ∷ codes "|        |              |         |"
    ∷ codes "|        |              |         |"
    ∷ codes "|        |              |         |"
    ∷ codes "|        |              |         |"
    ∷ codes "|        |              |         |"
    ∷ codes "|        |              |         |"
    ∷ codes "|        |              |         |"
    ∷ codes "+--------+--------------+---------+"
    ∷ []

unfoldable pub print_friend_list : List Out
print_friend_list = outs (map line friend_table)

abbrev pub talk_table : List Bytes
talk_table =
    codes "+------+------------+----------------+"
    ∷ codes "|                                    |"
    ∷ codes "+------------------------------------|"
    ∷ codes "|                                    |"
    ∷ codes "|                                    |"
    ∷ codes "|                                    |"
    ∷ codes "|                                    |"
    ∷ codes "|                                    |"
    ∷ codes "|                                    |"
    ∷ codes "|                                    |"
    ∷ codes "|                                    |"
    ∷ codes "|                                    |"
    ∷ codes "|                                    |"
    ∷ codes "+------------------------------------+"
    ∷ []

unfoldable pub print_talk : List Out
print_talk = outs (map line talk_table)

unfoldable pub clear_string_surface : ℕ → List Out
clear_string_surface zero = []
clear_string_surface (suc move_up) = up 1 ∷ erase ∷ clear_string_surface move_up

abbrev pub space : ℕ
space = b' '

-- `%2d`: spaces in front.
abbrev pub pad_left : ℕ → Bytes → Bytes
pad_left n s = replicate (n - length s) space ++ s

-- `%-10s` and `%-6d`: spaces behind.
abbrev pub pad_right : ℕ → Bytes → Bytes
pad_right n s = s ++ replicate (n - length s) space

-- One round of the loop of `fill_friend_data`.
unfoldable pub friend_cell : FriendList → List Out
friend_cell f =
    if int_eq f.id (pos 0)
    then newline ∷ []
    else right 3
      ∷ text (pad_left 2 (print_int f.id))
      ∷ right 7
      ∷ text (pad_right 10 (c_str f.user_name))
      ∷ right 5
      ∷ text (pad_right 6 (print_int f.state))
      ∷ newline
      ∷ []

unfoldable pub fill_friend_data : FriendWindow → List Out
fill_friend_data w = up 11 ∷ (outs (map friend_cell w.cells) ++ newline ∷ [])

-- One round of the loop of `fill_talk_data`; its spaces and its bytes are printed one by one.
unfoldable pub talk_cell : Bytes → List Out
talk_cell m = right 1 ∷ text (replicate 36 space) ∷ left 36 ∷ text (take 36 m) ∷ newline ∷ []

unfoldable pub fill_talk_data : TalkWindow → List Out
fill_talk_data w =
    up 13
    ∷ right 16
    ∷ text (c_str w.friend_name)
    ∷ left (16 + length w.friend_name)
    ∷ down 13
    ∷ up 11
    ∷ (outs (map talk_cell w.cells) ++ newline ∷ [])

-- The Enter that `getchar` waits for is echoed as a newline.
unfoldable pub help_cmd : Bytes → List Out
help_cmd c_cmd =
    up 1
    ∷ erase
    ∷ text (codes "Usage:")
    ∷ newline
    ∷ text (c_str c_cmd)
    ∷ newline
    ∷ up 1
    ∷ erase
    ∷ up 1
    ∷ erase
    ∷ []

unfoldable pub deal_error_cmd : List Out
deal_error_cmd =
    up 1 ∷ text (codes "input error. please input help.") ∷ newline ∷ up 1 ∷ left 32 ∷ erase ∷ []
