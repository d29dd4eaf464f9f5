-- ===== src/Tests/Windows.antt =====
-- Windows over eleven friends and eleven messages, and an input line with cursor keys.
use everyone_talk.Prelude.{Bytes, ◌≡◌, refl, List, [], ◌∷◌, ◌++◌, codes, arith, replicate}
use everyone_talk.Int.{pos}
use everyone_talk.Common.{FriendList, online, busy}
use everyone_talk.Client.Friends.{
  FriendWindow, init_friend_lists, no_friend, init_user_state, deal_user_state,
}
use everyone_talk.Client.Friends
use everyone_talk.Client.Friends.Scroll as FriendScroll
use everyone_talk.Client.Friends.Scroll.{scroll-Shows, no_stealth}
use everyone_talk.Client.Talk
use everyone_talk.Client.Talk.{
  TalkWindow, init_talk_lists, recvmsg_from_server, without, delete_func_key,
}
use everyone_talk.Client.Talk.Scroll as TalkScroll
use everyone_talk.Client.Talk.Views
use everyone_talk.Client.Talk.Scroll.{first-Shows, moves-Shows}
use everyone_talk.Client.Talk.Keys.{delete_func_key_clean}

abbrev bob : FriendList
bob = record { id = pos 7; user_name = codes "Bob"; state = online }

abbrev eleven_friends : List FriendList
eleven_friends = replicate 10 no_friend ++ bob ∷ []

abbrev friend_moves : List FriendScroll.Move
friend_moves =
    FriendScroll.go_down ∷ FriendScroll.modify (codes "Bob") busy ∷ FriendScroll.go_up ∷ []

scroll-Shows_example : FriendScroll.Shows eleven_friends (
    FriendScroll.moves eleven_friends friend_moves (init_friend_lists eleven_friends Friends.blank))
scroll-Shows_example = scroll-Shows eleven_friends friend_moves Friends.blank (omega arith) refl

abbrev talk_moves : List TalkScroll.Move
talk_moves =
    TalkScroll.receive (codes "hi")
    ∷ TalkScroll.send (codes "Amy") (codes "hello")
    ∷ TalkScroll.go_up
    ∷ []

moves-Shows_example :
    Views.Shows (TalkScroll.moves talk_moves (init_talk_lists (codes "Bob") Talk.blank))
moves-Shows_example =
    moves-Shows talk_moves (init_talk_lists (codes "Bob") Talk.blank) (first-Shows (codes "Bob"))

abbrev many : TalkWindow
many = record Talk.blank { messages = replicate 11 (codes "Bob:hi") }

delete_func_key_clean_example : ¬ (
    (a : Bytes) × (b : Bytes) × (delete_func_key (codes "[A") (codes "x[[AAy")
      ≡ a ++ (codes "[A" ++ b)))
delete_func_key_clean_example = delete_func_key_clean (codes "[A") (codes "x[[AAy") (omega arith)

joined_again : delete_func_key (codes "[A") (codes "x[[AAy") ≡ codes "xy"
unfolding delete_func_key without
joined_again = refl
