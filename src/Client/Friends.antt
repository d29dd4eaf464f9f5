-- ===== src/Client/Friends.antt =====
-- client/deal_friend_data.cpp: the window of the friend list, the look-up of a friend by number and
-- the names of the states. What prints it is in Client/Drawing.
pub mod Scroll
use Prim.Native.Nat.{min}
use everyone_talk.Prelude.{
  ℕ, suc, ◌+◌, ◌-◌, ◌≡◌, refl, Bool, true, false, Option, none, some, List, [], ◌∷◌, ◌++◌, Bytes,
  bytes_eq, codes, if◌then◌else◌, length, take, drop, get_elem?, ltb, leb, ◌==◌, replicate,
}
use everyone_talk.Int.{ℤ, pos, int_eq}
use everyone_talk.Common.{FriendList, UserState, online, offline, leave, busy, not_disturb, stealth}
use everyone_talk.Client.Window.{space_size, shift_left, shift_right}

-- `print_f_lists` and the positions of its two ends in the list.
pub record FriendWindow : Type 0 where
  pub cells : List FriendList
  pub up : ℕ
  pub down : ℕ

abbrev pub no_friend : FriendList
no_friend = record { id = pos 0; user_name = []; state = online }

-- Globals before `main`.
abbrev pub blank : FriendWindow
blank = record { cells = replicate 10 no_friend; up = 0; down = 0 }

-- Cells behind the end of a short list keep what they held.
unfoldable pub init_friend_lists : List FriendList → FriendWindow → FriendWindow
init_friend_lists f_lists w =
    let n = min space_size (length f_lists) in
    record { cells = take n f_lists ++ drop n w.cells; up = 0; down = n }

-- The loop of `modify_friend_state`: the first cell under the name.
unfoldable pub modify_cells : Bytes → UserState → List FriendList → List FriendList
modify_cells user_name state [] = []
modify_cells user_name state (f ∷ cells) =
    if bytes_eq f.user_name user_name
    then record f { state = state } ∷ cells
    else f ∷ modify_cells user_name state cells

unfoldable pub modify_friend_state : Bytes → UserState → FriendWindow → FriendWindow
modify_friend_state user_name state w = record w { cells = modify_cells user_name state w.cells }

-- `none` cannot occur behind the tests.
unfoldable pub down_to : Option FriendList → FriendWindow → FriendWindow
down_to none w = w
down_to (some f) w = record { cells = shift_left w.cells f; up = w.up + 1; down = w.down + 1 }

unfoldable pub friend_lists_down : List FriendList → FriendWindow → FriendWindow
friend_lists_down f_lists w =
    if ltb (length f_lists) space_size
    then w
    else if leb (length f_lists) w.down
    then w
    else down_to (get_elem? f_lists w.down) w

unfoldable pub up_to : Option FriendList → FriendWindow → FriendWindow
up_to none w = w
up_to (some f) w = record { cells = shift_right w.cells f; up = w.up - 1; down = w.down - 1 }

unfoldable pub friend_lists_up : List FriendList → FriendWindow → FriendWindow
friend_lists_up f_lists w =
    if ltb (length f_lists) space_size
    then w
    else if w.up == 0
    then w
    else up_to (get_elem? f_lists (w.up - 1)) w

-- The name of the first friend with the number; `none` is `return false`.
unfoldable pub is_user_exist : List FriendList → ℤ → Option Bytes
is_user_exist [] user_id = none
is_user_exist (f ∷ f_lists) user_id =
    if int_eq user_id f.id then some f.user_name else is_user_exist f_lists user_id

-- `map<string, user_state>`, in the order of insertion.
abbrev pub KeyMapState : Type 0
KeyMapState = List (Bytes × UserState)

unfoldable pub find_key : Bytes → KeyMapState → Option UserState
find_key key [] = none
find_key key ((k, state) ∷ states) = if bytes_eq k key then some state else find_key key states

-- `map::insert` keeps the entry of a key that is already there.
unfoldable pub insert_key : Bytes → UserState → KeyMapState → KeyMapState
unfolding find_key
insert_key key state states = elim (find_key key states) [
  | none ↦ states ++ (key, state) ∷ []
  | some _ ↦ states
]

unfoldable pub init_user_state : KeyMapState → KeyMapState
unfolding insert_key
init_user_state m = insert_key (codes "ONLINE") stealth (
    insert_key (codes "NOT_DISTURB") not_disturb (
      insert_key (codes "BUSY") busy (
        insert_key (codes "LEAVE") leave
          (insert_key (codes "OFFLINE") offline (insert_key (codes "ONLINE") online m)))))

-- `u_state` keeps the caller's value where the key is not there.
unfoldable pub deal_user_state : KeyMapState → Bytes → UserState → UserState
unfolding find_key
deal_user_state m c_key u_state = elim (find_key c_key m) [ none ↦ u_state | some state ↦ state ]
