-- ===== src/Tests/Terminal.antt =====
-- The client's screens on a terminal of 60 lines and 80 columns.
use everyone_talk.Prelude.{◌≡◌, ℕ, zero, suc, refl, ◌++◌, [], ◌∷◌, codes, replicate, All, arith}
use everyone_talk.Int.{pos, print_int, digits}
use everyone_talk.CString.{c_str}
use everyone_talk.Common.{FriendList, online, busy}
use everyone_talk.Client.Friends.{FriendWindow, no_friend}
use everyone_talk.Client.Talk.{TalkWindow}
use everyone_talk.Client.Terminal.{Grid, step, Terminal, puts, IsPrintable}
use everyone_talk.Client.Drawing.{
  print_login, print_friend_list, print_talk, fill_talk_data, clear_string_surface, help_cmd,
  deal_error_cmd,
}
use everyone_talk.Client.Drawing.Friends.{FitsRow}
use everyone_talk.Client.Drawing.Screens.{Seen, friends_shown}
use everyone_talk.Client.Drawing.Refill.{
  FitsWindow, fills, refill, filled_rows, no_fields, friend_screen,
}
use everyone_talk.Client.Drawing.TalkScreen.{talk_screen, talk_shown}
use everyone_talk.Client.Drawing.Cleared.{Blank, screens_cleared, messages_vanish}

-- A terminal that does all it is told.
abbrev vt : Terminal
vt = record {
  Screen = Grid;
  lines = 60;
  columns = 80;
  put = step;
  view = λ g. g;
  shows = λ o s h. refl;
}

-- The cursor is in line 3, behind a command.
abbrev screen : Grid
screen = record { row = 3; col = 0; cells = λ i j. b'.' }

abbrev bob : FriendList
bob = record { id = pos 7; user_name = codes "Bob"; state = busy }

abbrev friends : FriendWindow
friends = record { cells = bob ∷ replicate 9 no_friend; up = 0; down = 1 }

bob-FitsRow : FitsRow bob
unfolding print_int digits c_str
bob-FitsRow = record {
  id_fits = omega arith;
  name_fits = omega arith;
  name_printable = omega arith;
  state_fits = omega arith;
}

no_friend-FitsRow : FitsRow no_friend
unfolding print_int digits c_str
no_friend-FitsRow = record {
  id_fits = omega arith;
  name_fits = omega arith;
  name_printable = tt;
  state_fits = omega arith;
}

none_there : (n : ℕ) → All FitsRow (replicate n no_friend)
none_there zero = tt
none_there (suc n) = (no_friend-FitsRow, none_there n)

-- Bob comes online again, and the window is filled in once more.
abbrev online_again : FriendWindow
online_again = record {
  cells = record bob { state = online } ∷ replicate 9 no_friend;
  up = 0;
  down = 1;
}

online-FitsRow : FitsRow (record bob { state = online })
unfolding print_int digits
online-FitsRow = record {
  id_fits = bob-FitsRow.id_fits;
  name_fits = bob-FitsRow.name_fits;
  name_printable = bob-FitsRow.name_printable;
  state_fits = omega arith;
}

both-FitsWindow : All FitsWindow (friends ∷ online_again ∷ [])
both-FitsWindow = (
  record { ten = refl; fit = (bob-FitsRow, none_there 9) },
  (record { ten = refl; fit = (online-FitsRow, none_there 9) }, tt),
)

friends_shown_example :
    Seen 16
      (friend_screen (friends ∷ online_again ∷ []))
      screen
      (puts vt (print_friend_list ++ fills (friends ∷ online_again ∷ [])) screen)
friends_shown_example =
    friends_shown vt screen (friends ∷ online_again ∷ []) (omega arith) refl (omega arith)
      both-FitsWindow

-- His row shows the second state.
seen_again :
    filled_rows (replicate 10 no_fields) (friends ∷ online_again ∷ [])
    ≡ record { id = codes " 7"; user_name = codes "Bob       "; state = codes "0     " }
      ∷ replicate 9 no_fields
unfolding filled_rows refill print_int digits c_str
seen_again = refl

abbrev talk : TalkWindow
talk = record {
  messages = codes "Bob:hi" ∷ [];
  cells = codes "Bob:hi" ∷ replicate 9 [];
  friend_name = codes "Bob";
  up = 0;
  down = 1;
}

talk-IsPrintable : All IsPrintable talk.cells
talk-IsPrintable = omega arith

name-IsPrintable : IsPrintable (c_str talk.friend_name)
unfolding c_str
name-IsPrintable = omega arith

talk_shown_example :
    Seen 14 (talk_screen talk) screen (puts vt (print_talk ++ fill_talk_data talk) screen)
unfolding c_str
talk_shown_example =
    talk_shown vt screen talk (omega arith) refl (omega arith) refl talk-IsPrintable
      name-IsPrintable (omega arith)

screens_cleared_example :
    Blank 9 3 5 8 screen (puts vt (print_login ++ clear_string_surface 9) screen)
    × Blank 16 3 5 8 screen (
        puts vt
          ((print_friend_list ++ fills (friends ∷ online_again ∷ [])) ++ clear_string_surface 16)
          screen)
    × Blank 14 3 5 8 screen
        (puts vt ((print_talk ++ fill_talk_data talk) ++ clear_string_surface 14) screen)
unfolding c_str
screens_cleared_example =
    screens_cleared vt screen (friends ∷ online_again ∷ []) talk 5 8 (omega arith) refl
      (omega arith) both-FitsWindow refl talk-IsPrintable name-IsPrintable (omega arith)

messages_vanish_example :
    Blank 2 2 9 9 screen (puts vt (help_cmd (codes ":help")) screen)
    × Blank 1 2 9 9 screen (puts vt deal_error_cmd screen)
unfolding c_str
messages_vanish_example =
    messages_vanish vt screen (codes ":help") 2 9 9 (omega arith) refl refl (omega arith)
      (omega arith) (omega arith)
