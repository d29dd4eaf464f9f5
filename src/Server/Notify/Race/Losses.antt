-- ===== src/Server/Notify/Race/Losses.antt =====
-- Interleavings of `notify_client` and the handlers in which a notice is lost or misdirected.
use everyone_talk.Prelude.{◌≡◌, refl, false, [], ◌∷◌, Bytes}
use everyone_talk.Common.{UserState}
use everyone_talk.Server.Notify.Race.{
  Slot, Reach, start, change, message, change_sent, message_sent, waiting, post_change,
  post_message, moves, wake, enter_state, enter_message, look_up, send_change, end_change, address,
  send_message, here, next,
}

-- A second change that comes before the thread wakes replaces the first: both are posted, the flag
-- is clear and the thread waits again, but only the second was sent, to the one friend found.
pub first_change_lost :
    (a b : Bytes) (p q : UserState)
    → (s : Slot) × Reach start s
      × (s.posted ≡ change a p ∷ change b q ∷ [])
      × (s.sent ≡ change_sent b b q ∷ [])
      × (s.flag ≡ false)
      × (s.pc ≡ waiting)
first_change_lost a b p q =
    let both = next (next here (post_change _ a p)) (post_change _ b q) in
    let found =
      next (next (next both (moves (wake _ refl refl))) (moves (enter_state _ refl refl)))
        (moves (look_up _ 1 refl)) in
    (
      _,
      next (next found (moves (send_change _ b 0 refl))) (moves (end_change _ b refl)),
      refl,
      refl,
      refl,
      refl,
    )

-- A change that comes while the thread goes through two friends of a user: the first gets the change
-- of that user, the second the change of the other user, whose friend it need not be.
pub wrong_friends :
    (a b : Bytes) (p q : UserState)
    → (s : Slot) × Reach start s
      × (s.posted ≡ change a p ∷ change b q ∷ [])
      × (s.sent ≡ change_sent a a p ∷ change_sent a b q ∷ [])
wrong_friends a b p q =
    let woken = next (next here (post_change _ a p)) (moves (wake _ refl refl)) in
    let found = next (next woken (moves (enter_state _ refl refl))) (moves (look_up _ 2 refl)) in
    let first = next (next found (moves (send_change _ a 1 refl))) (post_change _ b q) in
    (_, next first (moves (send_change _ a 0 refl)), refl, refl)

-- One run in which a second message comes between the look-up of the first receiver's address and the
-- print: the second text is sent to the first receiver, the first text to nobody, and the thread then
-- sends the second message to its own receiver too. A receiver here is a name, logged in or not.
pub wrong_receiver :
    (a b text secret : Bytes)
    → (s : Slot) × Reach start s
      × (s.posted ≡ message a text ∷ message b secret ∷ [])
      × (s.sent ≡ message_sent a secret ∷ message_sent b secret ∷ [])
      × (s.flag ≡ false)
      × (s.pc ≡ waiting)
wrong_receiver a b text secret =
    let woken = next (next here (post_message _ a text)) (moves (wake _ refl refl)) in
    let found = next (next woken (moves (enter_message _ refl refl))) (moves (address _ refl)) in
    let first = next (next found (post_message _ b secret)) (moves (send_message _ a refl)) in
    let again = next (next first (moves (wake _ refl refl))) (moves (enter_message _ refl refl)) in
    (
      _,
      next (next again (moves (address _ refl))) (moves (send_message _ b refl)),
      refl,
      refl,
      refl,
      refl,
    )
