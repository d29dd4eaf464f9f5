-- ===== src/Client/Program/Screens.antt =====
-- The order of the calls on each screen of the client, and the end of each loop.
use everyone_talk.Prelude.{
  none, some, Bool, true, false, List, [], ◌∷◌, ◌++◌, Bytes, codes, bytes_eq, drop_last, if_elim,
  arith,
}
use everyone_talk.Int.{ℤ, pos, int_eq}
use everyone_talk.CString.{c_str}
use everyone_talk.Common.{FriendList, ok}
use everyone_talk.Client.Commands.{MainAction, FriendAction, TalkAction}
use everyone_talk.Client.Commands
use everyone_talk.Client.SendLoop.{delete_keys}
use everyone_talk.Client.Console.{Call, Program, and_then, ◌>>=◌, pure, forever}
use everyone_talk.Client.Program.{
  send_typed, send_or_quit, get_send_msg, do_talk, break_if, deal_talk_cmd, deal_talk_data,
  friend_lists_modify, quit, do_friend, deal_friend_list_cmd, deal_friend_data, show_friends,
  deal_friend_list, enter,
}
use everyone_talk.Client.Program.Follows.{
  Phase, Follows, Stays, Takes, Stays->>=, Takes->>=, Takes-Stays, pure-Stays, Stays-from,
  forever-Stays,
}
use everyone_talk.Client.Program.Moves.{typed-Takes, pause-Stays, call-Stays}
use everyone_talk.Client.Program.Keys.{
  get_user_state-Leaves, get_friend_cmd-Leaves, get_talk_cmd-Leaves, fgets_line-Leaves,
}

-- Something that leaves the phase, and then a value.
pub then_pure :
    {A B : Type 0} (phase : Phase) (φ : B → Phase) (b : B) (p : Program A)
    → Stays phase (λ _. φ b) p
    → Stays phase φ (p >>= λ _. pure b)
then_pure phase φ b p h = Stays->>= phase (λ _. φ b) φ p (λ _. pure b) h (λ _. pure-Stays φ b)

-- A screen with its loop.
break_if-Stays :
    (φ : Bool → Phase) (b : Bool)
    → Stays (φ b) (λ o. elim o [ none ↦ φ false | some _ ↦ φ true ]) (pure (break_if b))
break_if-Stays φ true c h = (h, omega arith)
break_if-Stays φ false c h = (h, omega arith)

pub loop-Stays :
    (φ : Bool → Phase) (body : Program Bool)
    → Takes (φ false) φ body
    → Stays (φ false) (λ _. φ true) (forever (body >>= λ b. pure (break_if b)))
loop-Stays φ body h =
    forever-Stays (λ o. elim o [ none ↦ φ false | some _ ↦ φ true ])
      (body >>= λ b. pure (break_if b))
      (Takes->>= (φ false) φ _ body (λ b. pure (break_if b)) h (break_if-Stays φ))

-- The talk window.
send_typed-Stays :
    (my_name f_name sendline : Bytes) (name : Bytes)
    → Stays (Phase.inside name) (λ _. Phase.inside name) (send_typed my_name f_name sendline)
unfolding send_typed
send_typed-Stays my_name f_name [] name = pure-Stays {0} (λ _. Phase.inside name) tt
send_typed-Stays my_name f_name (ch ∷ sendline) name =
    Stays->>= _ (λ _. Phase.inside name) _ _ _
      (call-Stays _ (Phase.inside name) _ _ (λ xs h. Follows.sent xs name f_name (ch ∷ sendline) h))
      (λ _ c h. (h, omega arith))

send_or_quit-Stays :
    (my_name f_name name line : Bytes)
    → Stays (Phase.inside name) (λ _. Phase.inside name) (send_or_quit my_name f_name line)
unfolding send_or_quit
send_or_quit-Stays my_name f_name name line =
    if_elim (Stays (Phase.inside name) (λ _. Phase.inside name)) (bytes_eq line (codes ":q"))
      (λ _ c h. (h, omega arith))
      (λ _.
        then_pure _ (λ _. Phase.inside name) none _
          (send_typed-Stays my_name f_name (delete_keys line) name))

get_send_msg-Stays :
    (my_name f_name name : Bytes)
    → Stays (Phase.inside name) (λ _. Phase.inside name) (get_send_msg my_name f_name)
unfolding get_send_msg
get_send_msg-Stays my_name f_name name =
    forever-Stays (λ _. Phase.inside name) _
      (Takes->>= _ (λ _. Phase.inside name) _ _ _ (typed-Takes _ _ fgets_line-Leaves)
        (λ line. send_or_quit-Stays my_name f_name name (drop_last (c_str line))))

do_talk-Stays :
    (my_name f_name name : Bytes) (action : TalkAction)
    → Stays (Phase.inside name) (λ _. Phase.inside name) (do_talk my_name f_name action)
unfolding do_talk and_then
do_talk-Stays my_name f_name name TalkAction.get_send_msg =
    then_pure _ _ false _ (get_send_msg-Stays my_name f_name name)
do_talk-Stays my_name f_name name TalkAction.nothing = pure-Stays (λ _. Phase.inside name) false
do_talk-Stays my_name f_name name TalkAction.quit_talk = pure-Stays (λ _. Phase.inside name) true
do_talk-Stays my_name f_name name TalkAction.help_talk = then_pure _ _ false _ (pause-Stays _)
do_talk-Stays my_name f_name name TalkAction.talk_up = λ c h. (h, omega arith)
do_talk-Stays my_name f_name name TalkAction.talk_down = λ c h. (h, omega arith)
do_talk-Stays my_name f_name name TalkAction.error_talk = then_pure _ _ false _ (pause-Stays _)

deal_talk_data-Stays :
    (my_name f_name name : Bytes)
    → Stays (Phase.inside name) (λ _. Phase.inside name) (deal_talk_data my_name f_name)
unfolding deal_talk_data deal_talk_cmd
deal_talk_data-Stays my_name f_name name =
    Stays->>= _ (λ _. Phase.inside name) _ _ _ (λ c h. (h, omega arith))
      (λ _.
        loop-Stays (λ _. Phase.inside name) (deal_talk_cmd my_name f_name)
          (Takes->>= _ (λ _. Phase.inside name) _ _ _ (typed-Takes _ _ get_talk_cmd-Leaves)
            (λ c_key. do_talk-Stays my_name f_name name (Commands.deal_talk_cmd c_key))))

-- The friend window; `true` is a quit.
abbrev pub behind : Phase → Bool → Phase
behind phase true = Phase.gone
behind phase false = phase

friend_lists_modify-Stays :
    (name : Bytes) → Stays (Phase.inside name) (λ _. Phase.inside name) (friend_lists_modify name)
unfolding friend_lists_modify
friend_lists_modify-Stays name =
    Stays->>= _ (λ _. Phase.inside name) _ _ _
      (Takes-Stays _ _ _ (typed-Takes _ _ get_user_state-Leaves))
      (λ c_key.
        Stays->>= _ (λ _. Phase.inside name) _ _ _ (λ c h. (h, omega arith))
          (λ u_state.
            then_pure _ (λ _. Phase.inside name) tt _
              (call-Stays _ (Phase.inside name) _ _ (λ xs h. Follows.changed xs name u_state h))))

pub quit-Stays :
    (phase : Phase) (user_name : Bytes)
    → ((xs : List Call)
        → Follows xs phase
        → Follows (xs ++ Call.quit_from_server user_name ∷ []) Phase.gone)
    → Stays phase (behind phase) (quit user_name)
unfolding quit
quit-Stays phase user_name move =
    then_pure phase (behind phase) true _ (call-Stays phase Phase.gone _ _ move)

do_friend-Stays :
    (f_lists : List FriendList) (name : Bytes) (action : FriendAction)
    → Stays (Phase.inside name) (behind (Phase.inside name)) (do_friend f_lists name action)
unfolding do_friend and_then
do_friend-Stays f_lists name FriendAction.friends_up = λ c h. (h, omega arith)
do_friend-Stays f_lists name FriendAction.friends_down = λ c h. (h, omega arith)
do_friend-Stays f_lists name FriendAction.modify =
    then_pure _ (behind (Phase.inside name)) false _ (friend_lists_modify-Stays name)
do_friend-Stays f_lists name FriendAction.query = λ c h. (h, omega arith)
do_friend-Stays f_lists name FriendAction.show = λ c h. (h, omega arith)
do_friend-Stays f_lists name FriendAction.switch = λ c h. (h, omega arith)
do_friend-Stays f_lists name FriendAction.quit_friends =
    quit-Stays (Phase.inside name) name (λ xs h. Follows.left xs name h)
do_friend-Stays f_lists name FriendAction.help_friends =
    then_pure _ (behind (Phase.inside name)) false _ (pause-Stays _)
do_friend-Stays f_lists name (FriendAction.deal_talk_data f_name) =
    then_pure _ (behind (Phase.inside name)) false _ (deal_talk_data-Stays name f_name name)
do_friend-Stays f_lists name FriendAction.nobody = λ c h. (h, omega arith)
do_friend-Stays f_lists name FriendAction.error_friends =
    then_pure _ (behind (Phase.inside name)) false _ (pause-Stays _)

deal_friend_data-Stays :
    (f_lists : List FriendList) (name : Bytes)
    → Stays (Phase.inside name) (λ _. Phase.gone) (deal_friend_data f_lists name)
unfolding deal_friend_data deal_friend_list_cmd
deal_friend_data-Stays f_lists name =
    Stays->>= _ (λ _. Phase.inside name) _ _ _ (λ c h. (h, omega arith))
      (λ _. loop-Stays (behind (Phase.inside name)) (deal_friend_list_cmd f_lists name) (
        Takes->>= _ (λ _. Phase.inside name) _ _ _ (typed-Takes _ _ get_friend_cmd-Leaves)
          (λ c_key. do_friend-Stays f_lists name (Commands.deal_friend_list_cmd f_lists c_key))))

-- The first screen.
show_friends-Stays :
    (name : Bytes) (ret : ℤ) (f_lists : List FriendList)
    → Stays (Phase.asked name) (behind Phase.out) (show_friends name (ret, f_lists))
unfolding show_friends
show_friends-Stays name ret f_lists =
    if_elim (Stays (Phase.asked name) (behind Phase.out)) (int_eq ret ok)
      (λ _.
        Stays-from _ (Phase.inside name) _ _ (λ xs h. Follows.listed xs name h)
          (then_pure _ (behind Phase.out) true _ (deal_friend_data-Stays f_lists name)))
      (λ _. λ c h. (Follows.not_listed c.calls name h, omega arith))

pub enter-Stays :
    (name : Bytes) (ret : ℤ) → Stays (Phase.tried name) (behind Phase.out) (enter name ret)
unfolding enter deal_friend_list
enter-Stays name ret =
    if_elim (Stays (Phase.tried name) (behind Phase.out)) (int_eq ret (pos 0))
      (λ _.
        Stays->>= _ (λ _. Phase.asked name) _ _ _
          (call-Stays _ (Phase.asked name) _ _ (λ xs h. Follows.asked_for xs name h))
          (λ answer. show_friends-Stays name answer.0 answer.1))
      (λ _. λ c h. (Follows.refused c.calls name h, omega arith))
