-- ===== src/Server/Notify/Race.antt =====
-- The notice is one slot, which the handlers write under the mutex and the notifying thread clears
-- under it, but reads after it has unlocked. Steps of that thread and of the handlers interleave.
pub mod Posted
pub mod Losses
pub mod Quiet
pub mod Returns
use everyone_talk.Prelude.{
  ℕ, suc, ◌≡◌, refl, subst, Bool, true, false, List, [], ◌∷◌, ◌++◌, Bytes, Exists, Exists-last,
  Exists-before, arith, length, length-append, All, All-append, ◌+◌, ◌≤◌,
}
use everyone_talk.Int.{pos}
use everyone_talk.Common.{UserState}

-- A posted notice: a change of state, or a message.
pub data Post : Type 0 where
  change : Bytes → UserState → Post
  message : Bytes → Bytes → Post

-- What the notifying thread has sent: to a friend of the first name the change of the second, or
-- to the named user a message.
pub data Sent : Type 0 where
  change_sent : (friends_of : Bytes) (user_name : Bytes) (state : UserState) → Sent
  message_sent : (user_name : Bytes) (text : Bytes) → Sent

-- The values of `notify_type` that are ever there: the zero of the start, and the two that are written.
pub data NotifyType : Type 0 where
  no_type : NotifyType
  friend_online_state : NotifyType
  message_information : NotifyType

-- Where the thread stands: waiting for the flag; behind the unlock; in the case of a change of state;
-- in the loop over the logins of the friends of a name, of which so many are left; in the case of a
-- message; behind the look-up of the address of a name.
pub data Pc : Type 0 where
  waiting : Pc
  unlocked : Pc
  state_case : Pc
  looping : (friends_of : Bytes) (left : ℕ) → Pc
  message_case : Pc
  addressed : (user_name : Bytes) → Pc

-- The slot, the thread, and the history of both sides; `rounds` counts how often the thread woke up.
pub record Slot : Type 0 where
  pub flag : Bool
  pub notify_type : NotifyType
  pub change_name : Bytes
  pub change_state : UserState
  pub msg_name : Bytes
  pub msg_text : Bytes
  pub pc : Pc
  pub posted : List Post
  pub sent : List Sent
  pub rounds : ℕ

-- Before the first post the flag is clear.
abbrev pub start : Slot
start = record {
  flag = false;
  notify_type = NotifyType.no_type;
  change_name = [];
  change_state = pos 0;
  msg_name = [];
  msg_text = [];
  pc = Pc.waiting;
  posted = [];
  sent = [];
  rounds = 0;
}

abbrev pub put_change : Slot → Bytes → UserState → Slot
put_change s name state = record s {
  flag = true;
  notify_type = friend_online_state;
  change_name = name;
  change_state = state;
  posted = s.posted ++ change name state ∷ [];
}

abbrev pub put_message : Slot → Bytes → Bytes → Slot
put_message s name text = record s {
  flag = true;
  notify_type = message_information;
  msg_name = name;
  msg_text = text;
  posted = s.posted ++ message name text ∷ [];
}

-- The steps of `notify_client`. The names, the state and the text are read where the source reads
-- them, each time again. The number of logins that the look-up finds is any. What is printed for a
-- receiver counts as sent, whether or not that user is logged in and `deal_notify` succeeds, neither
-- of which the loop looks at.
pub data ThreadStep : Slot → Slot → Type 0 where
  wake :
      (s : Slot)
      → s.pc ≡ waiting
      → s.flag ≡ true
      → ThreadStep s (record s { flag = false; pc = unlocked; rounds = s.rounds + 1 })
  enter_state :
      (s : Slot)
      → s.pc ≡ unlocked
      → s.notify_type ≡ friend_online_state
      → ThreadStep s (record s { pc = state_case })
  enter_message :
      (s : Slot)
      → s.pc ≡ unlocked
      → s.notify_type ≡ message_information
      → ThreadStep s (record s { pc = message_case })
  enter_default :
      (s : Slot)
      → s.pc ≡ unlocked
      → s.notify_type ≡ no_type
      → ThreadStep s (record s { pc = waiting })
  look_up :
      (s : Slot) (found : ℕ)
      → s.pc ≡ state_case
      → ThreadStep s (record s { pc = looping s.change_name found })
  send_change :
      (s : Slot) (name : Bytes) (left : ℕ)
      → s.pc ≡ looping name (suc left)
      → ThreadStep s (record s {
        pc = looping name left;
        sent = s.sent ++ change_sent name s.change_name s.change_state ∷ [];
      })
  end_change :
      (s : Slot) (name : Bytes) → s.pc ≡ looping name 0 → ThreadStep s (record s { pc = waiting })
  address : (s : Slot) → s.pc ≡ message_case → ThreadStep s (record s { pc = addressed s.msg_name })
  send_message :
      (s : Slot) (name : Bytes)
      → s.pc ≡ addressed name
      → ThreadStep s (record s { pc = waiting; sent = s.sent ++ message_sent name s.msg_text ∷ [] })

-- A handler posts, or the thread moves.
pub data Step : Slot → Slot → Type 0 where
  post_change : (s : Slot) (name : Bytes) (state : UserState) → Step s (put_change s name state)
  post_message : (s : Slot) (name text : Bytes) → Step s (put_message s name text)
  moves : {s t : Slot} → ThreadStep s t → Step s t

pub data Reach : Slot → Slot → Type 0 where
  here : {s : Slot} → Reach s s
  next : {s t u : Slot} → Reach s t → Step t u → Reach s u

abbrev pub Posted : Slot → Post → Type 0
Posted s p = Exists (λ q. q ≡ p) s.posted
