-- ===== src/Tests/Race.antt =====
-- The slot of the notices: runs of server/server.cpp's `notify_client` beside the handlers.
use everyone_talk.Prelude.{refl, false, [], ◌∷◌, ◌≤◌, length, All, codes}
use everyone_talk.Server.Notify.Race.{
  Post, Sent, Pc, Slot, Reach, put_message, wake, enter_message, address, send_message,
}
use everyone_talk.Server.Notify.Race
use everyone_talk.Server.Notify.Race.Posted.{IsGenuine, sent_is_posted}
use everyone_talk.Server.Notify.Race.Losses.{wrong_receiver}
use everyone_talk.Server.Notify.Race.Quiet.{Alone, stay, move, Sends, quiet_round}
use everyone_talk.Server.Notify.Race.Returns.{Returns}

sent_is_posted_example :
    let s = (wrong_receiver (codes "Bob") (codes "Amy") (codes "hi") (codes "psst")).0 in
    All (IsGenuine s.posted) s.sent × (s.rounds ≤ length s.posted)
sent_is_posted_example =
    sent_is_posted (wrong_receiver (codes "Bob") (codes "Amy") (codes "hi") (codes "psst")).1

-- A message to Bob is posted, and the thread goes round once.
abbrev hi_posted : Slot
hi_posted = put_message Race.start (codes "Bob") (codes "hi")

hi_run : Alone hi_posted (record hi_posted {
  flag = false;
  rounds = 1;
  sent = Sent.message_sent (codes "Bob") (codes "hi") ∷ [];
})
hi_run =
    move (move (move (move stay (wake _ refl refl)) (enter_message _ refl refl)) (address _ refl))
      (send_message _ (codes "Bob") refl)

quiet_round_example : Sends Race.message_information hi_posted (record hi_posted {
  flag = false;
  rounds = 1;
  sent = Sent.message_sent (codes "Bob") (codes "hi") ∷ [];
})
quiet_round_example = quiet_round refl refl hi_run refl refl
