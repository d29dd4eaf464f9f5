-- ===== src/Client/Notices/Effects.antt =====
-- What a notice changes in the windows of the client, told apart from how it does: modify_friend_state
-- of client/deal_friend_data.cpp and recvmsg_from_server of client/deal_talk_data.cpp.
use everyone_talk.Prelude.{
  ◌≡◌, refl, if_elim, true, Bool-cases, Option, none, some, List, [], ◌∷◌, ◌++◌, Bytes, bytes_eq,
  bytes_eq_iff, FirstChanged, FirstChanged-here, FirstChanged-skip, inl, inr, leb, length,
  get_elem?,
}
use everyone_talk.Common.{FriendList, UserState}
use everyone_talk.Client.Window.{space_size}
use everyone_talk.Client.Friends.{modify_cells, modify_friend_state}
use everyone_talk.Client.Talk.{
  TalkWindow, append_cell, down_to, talk_lists_down, add_message, recvmsg_from_server,
}
use everyone_talk.Client.Talk.Views.{Shows}
use everyone_talk.Client.Talk.Scroll.{Move, move, moves, moves-Shows}
use everyone_talk.Client.Notices.{Windows}

abbrev pub with_state : UserState → FriendList → FriendList
with_state state f = record f { state = state }

modify_cells-FirstChanged :
    (name : Bytes) (state : UserState) (cells : List FriendList)
    → FirstChanged
        (λ f. f.user_name ≡ name)
        (with_state state)
        cells
        (modify_cells name state cells)
unfolding modify_cells
modify_cells-FirstChanged name state [] = inl (tt, refl)
modify_cells-FirstChanged name state (f ∷ cells) = elim (Bool-cases (bytes_eq f.user_name name)) [
  | inl e ↦
      rw (e, modify_cells)
        (FirstChanged-here _ (with_state state) f cells ((bytes_eq_iff f.user_name name).0 e))
  | inr e ↦
      rw (e, modify_cells)
        (FirstChanged-skip _ (with_state state) f cells _
          (λ same. cc (e, (bytes_eq_iff f.user_name name).1 same))
          (modify_cells-FirstChanged name state cells))
]

-- The first cell under the name has the state; its other fields, the other cells, the ends of the
-- friend window and the talk window are as they were.
pub record StateShown (name : Bytes) (state : UserState) (w w' : Windows) : Type 0 where
  pub cells :
      FirstChanged (λ f. f.user_name ≡ name) (with_state state) w.friends.cells w'.friends.cells
  pub up : w'.friends.up ≡ w.friends.up
  pub down : w'.friends.down ≡ w.friends.down
  pub talk : w'.talk ≡ w.talk

pub modify-StateShown :
    (name : Bytes) (state : UserState) (w : Windows)
    → StateShown name state w (record w { friends = modify_friend_state name state w.friends })
unfolding modify_friend_state
modify-StateShown name state w = record {
  cells = modify_cells-FirstChanged name state w.friends.cells;
  up = refl;
  down = refl;
  talk = refl;
}

-- The messages and the name stay when the window moves.
abbrev SameMessages : TalkWindow → TalkWindow → Type 0
SameMessages w w' = (w'.messages ≡ w.messages) × (w'.friend_name ≡ w.friend_name)

append_cell-SameMessages : (m : Option Bytes) (w : TalkWindow) → SameMessages w (append_cell m w)
unfolding append_cell
append_cell-SameMessages none w = (refl, refl)
append_cell-SameMessages (some m) w = (refl, refl)

down_to-SameMessages : (m : Option Bytes) (w : TalkWindow) → SameMessages w (down_to m w)
unfolding down_to
down_to-SameMessages none w = (refl, refl)
down_to-SameMessages (some m) w = (refl, refl)

received-SameMessages : (w : TalkWindow) → SameMessages w (talk_lists_down true w)
unfolding talk_lists_down
received-SameMessages w =
    if_elim (SameMessages w) (leb (length w.messages) space_size)
      (λ _. append_cell-SameMessages (get_elem? w.messages w.down) w)
      λ _.
        if_elim (SameMessages w) (leb (length w.messages) w.down) (λ _. (refl, refl))
          (λ _. down_to-SameMessages (get_elem? w.messages w.down) w)

received-Shows : (msg : Bytes) (w : TalkWindow) → Shows w → Shows (recvmsg_from_server msg w)
unfolding moves move
received-Shows msg w v = moves-Shows (Move.receive msg ∷ []) w v

-- The text stands behind the messages, under the name of the friend whose window is open; the talk
-- window shows its messages, and the friend window is as it was.
pub record MessageShown (msg : Bytes) (w w' : Windows) : Type 0 where
  pub messages : w'.talk.messages ≡ w.talk.messages ++ (w.talk.friend_name ++ b':' ∷ msg) ∷ []
  pub friend_name : w'.talk.friend_name ≡ w.talk.friend_name
  pub shown : Shows w'.talk
  pub friends : w'.friends ≡ w.friends

pub received-MessageShown :
    (msg : Bytes) (w : Windows)
    → Shows w.talk
    → MessageShown msg w (record w { talk = recvmsg_from_server msg w.talk })
unfolding recvmsg_from_server add_message
received-MessageShown msg w v =
    let added = record w.talk {
      messages = w.talk.messages ++ (w.talk.friend_name ++ b':' ∷ msg) ∷ [];
    } in
    let (messages, friend_name) = received-SameMessages added in
    record {
      messages = messages;
      friend_name = friend_name;
      shown = received-Shows msg w.talk v;
      friends = refl;
    }
