-- ===== src/Client/Talk.antt =====
-- client/deal_talk_data.cpp: the messages of the talk window, its ten cells, and the clearing of
-- cursor keys from an input line.
pub mod Views
pub mod Scroll
pub mod Keys
pub mod Reopen
use Prim.Native.Nat.{min}
use everyone_talk.Prelude.{
  ℕ, zero, suc, ◌+◌, ◌-◌, ◌≡◌, refl, Bool, true, false, Option, none, some, List, [], ◌∷◌, ◌++◌,
  Bytes, codes, if◌then◌else◌, length, take, drop, get_elem?, ltb, leb, ◌==◌, replicate, ◌&&◌,
}
use everyone_talk.Client.Window.{space_size, shift_left, shift_right}

-- `message_lists`, `print_talk_lists`, `friend_name` and the positions of the window's two ends.
pub record TalkWindow : Type 0 where
  pub messages : List Bytes
  pub cells : List Bytes
  pub friend_name : Bytes
  pub up : ℕ
  pub down : ℕ

-- Globals before `main`.
abbrev pub blank : TalkWindow
blank = record { messages = []; cells = replicate 10 []; friend_name = []; up = 0; down = 0 }

-- With `length = MIN(10, size)`, cell `i` gets message `size - length + i`; the rest stays.
unfoldable pub init_talk_lists : Bytes → TalkWindow → TalkWindow
init_talk_lists f_name w =
    let size = length w.messages in
    let n = min space_size size in
    if size == 0 then record w { friend_name = f_name; up = 0; down = 0 } else record w {
      friend_name = f_name;
      cells = drop (size - n) w.messages ++ drop n w.cells;
      up = size - n;
      down = size - 1;
    }

-- `a[i] = v` within the array.
unfoldable pub write_cell : List Bytes → ℕ → Bytes → List Bytes
write_cell [] i v = []
write_cell (x ∷ cells) zero v = v ∷ cells
write_cell (x ∷ cells) (suc i) v = x ∷ write_cell cells i v

-- The message at `down` goes to the cell of that number. `none` is a read past the last message.
unfoldable pub append_cell : Option Bytes → TalkWindow → TalkWindow
append_cell none w = w
append_cell (some m) w = record w { cells = write_cell w.cells w.down m; down = w.down + 1 }

-- `none` cannot occur behind the tests.
unfoldable pub down_to : Option Bytes → TalkWindow → TalkWindow
down_to none w = w
down_to (some m) w = record w { cells = shift_left w.cells m; up = w.up + 1; down = w.down + 1 }

unfoldable pub talk_lists_down : Bool → TalkWindow → TalkWindow
talk_lists_down is_get_msg w =
    if leb (length w.messages) space_size
    then (if is_get_msg then append_cell (get_elem? w.messages w.down) w else w)
    else if leb (length w.messages) w.down
    then w
    else down_to (get_elem? w.messages w.down) w

unfoldable pub up_to : Option Bytes → TalkWindow → TalkWindow
up_to none w = w
up_to (some m) w = record w { cells = shift_right w.cells m; up = w.up - 1; down = w.down - 1 }

unfoldable pub talk_lists_up : TalkWindow → TalkWindow
talk_lists_up w =
    if ltb (length w.messages) space_size
    then w
    else if w.up == 0
    then w
    else up_to (get_elem? w.messages (w.up - 1)) w

-- `message_lists.push_back(msg)` and `talk_lists_down(true)`.
unfoldable pub add_message : Bytes → TalkWindow → TalkWindow
add_message msg w = talk_lists_down true (record w { messages = w.messages ++ msg ∷ [] })

unfoldable pub recvmsg_from_server : Bytes → TalkWindow → TalkWindow
recvmsg_from_server str_msg w = add_message (w.friend_name ++ b':' ∷ str_msg) w

-- What a sent line adds to the window, in `get_send_msg`.
unfoldable pub add_sent : Bytes → Bytes → TalkWindow → TalkWindow
add_sent my_name sendline w = add_message (my_name ++ b':' ∷ sendline) w

-- `s` begins with `sub`.
unfoldable pub begins : Bytes → Bytes → Bool
begins [] s = true
begins (c ∷ sub) [] = false
begins (c ∷ sub) (d ∷ s) = c == d && begins sub s

-- `send_line.find(strsub)` with the two parts that the loop joins again.
unfoldable pub without : Bytes → Bytes → Option Bytes
unfolding begins
without sub [] = if begins sub [] then some [] else none
without sub (c ∷ s) =
    let later = without sub s in
    if begins sub (c ∷ s)
    then some (drop (length sub) (c ∷ s))
    else elim later [ none ↦ none | some rest ↦ some (c ∷ rest) ]

-- The loop: each round shortens the line, so its length is enough fuel.
unfoldable pub delete_loop : ℕ → Bytes → Bytes → Bytes
delete_loop zero sub s = s
delete_loop (suc fuel) sub s = elim (without sub s) [
  | none ↦ s
  | some rest ↦ delete_loop fuel sub rest
]

unfoldable pub delete_func_key : Bytes → Bytes → Bytes
unfolding delete_loop
delete_func_key sub sendline = delete_loop (suc (length sendline)) sub sendline
