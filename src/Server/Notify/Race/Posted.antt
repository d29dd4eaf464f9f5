-- ===== src/Server/Notify/Race/Posted.antt =====
-- What the notifying thread sends was posted before.
use everyone_talk.Prelude.{
  ℕ, suc, ◌≡◌, refl, subst, Bool, true, false, List, [], ◌∷◌, ◌++◌, Bytes, Exists, Exists-last,
  Exists-before, arith, length, length-append, All, All-append, ◌+◌, ◌≤◌,
}
use everyone_talk.Common.{UserState}
use everyone_talk.Server.Notify.Race.{
  Post, Sent, Pc, Slot, start, ThreadStep, Step, Reach, Posted, put_change, put_message, change,
  message, change_sent, message_sent, friend_online_state, message_information, waiting, unlocked,
  state_case, looping, message_case, addressed, post_change, post_message, moves, wake, enter_state,
  enter_message, enter_default, look_up, send_change, end_change, address, send_message, here, next,
}

abbrev ChangePosted : List Post → Bytes → Type 0
ChangePosted posted name = (state : UserState) × Exists (λ q. q ≡ change name state) posted

-- What was sent was posted, and so was a change of the user whose friends got it, or a message to
-- the user who got it.
abbrev pub IsGenuine : List Post → Sent → Type 0
IsGenuine posted (change_sent friends_of user_name state) =
    ChangePosted posted friends_of × Exists (λ q. q ≡ change user_name state) posted
IsGenuine posted (message_sent user_name text) =
    ((other : Bytes) × Exists (λ q. q ≡ message user_name other) posted)
    × ((other : Bytes) × Exists (λ q. q ≡ message other text) posted)

abbrev flag_count : Bool → ℕ
flag_count true = 1
flag_count false = 0

-- What the thread has found out so far, and may rely on.
abbrev Knows : Slot → Pc → Type 0
Knows s waiting = Unit {0}
Knows s unlocked = Unit {0}
Knows s state_case = Posted s (change s.change_name s.change_state)
Knows s (looping name left) =
    ChangePosted s.posted name × Posted s (change s.change_name s.change_state)
Knows s message_case = Posted s (message s.msg_name s.msg_text)
Knows s (addressed name) =
    ((other : Bytes) × Posted s (message name other)) × Posted s (message s.msg_name s.msg_text)

pub record Inv (s : Slot) : Type 0 where
  pub slot_change :
      s.notify_type ≡ friend_online_state → Posted s (change s.change_name s.change_state)
  pub slot_message : s.notify_type ≡ message_information → Posted s (message s.msg_name s.msg_text)
  pub knows : Knows s s.pc
  pub genuine : All (IsGenuine s.posted) s.sent
  pub counted : s.rounds + flag_count s.flag ≤ length s.posted

All-IsGenuine :
    (posted more : List Post) (sent : List Sent)
    → All (IsGenuine posted) sent
    → All (IsGenuine (posted ++ more)) sent
All-IsGenuine posted more [] h = tt
All-IsGenuine posted more (change_sent a b st ∷ sent) (((e, p), q), h) = (
  ((e, Exists-before _ posted more p), Exists-before _ posted more q),
  All-IsGenuine posted more sent h,
)
All-IsGenuine posted more (message_sent a m ∷ sent) (((t, p), (b, q)), h) = (
  ((t, Exists-before _ posted more p), (b, Exists-before _ posted more q)),
  All-IsGenuine posted more sent h,
)

change-Knows :
    (s : Slot) (name : Bytes) (state : UserState) (pc : Pc)
    → Knows s pc
    → Knows (put_change s name state) pc
change-Knows s name state waiting h = tt
change-Knows s name state unlocked h = tt
change-Knows s name state state_case h = Exists-last _ s.posted (change name state) refl
change-Knows s name state (looping n left) ((e, p), q) =
    ((e, Exists-before _ s.posted _ p), Exists-last _ s.posted (change name state) refl)
change-Knows s name state message_case h = Exists-before _ s.posted _ h
change-Knows s name state (addressed n) ((e, p), q) =
    ((e, Exists-before _ s.posted _ p), Exists-before _ s.posted _ q)

message-Knows :
    (s : Slot) (name text : Bytes) (pc : Pc) → Knows s pc → Knows (put_message s name text) pc
message-Knows s name text waiting h = tt
message-Knows s name text unlocked h = tt
message-Knows s name text state_case h = Exists-before _ s.posted _ h
message-Knows s name text (looping n left) ((e, p), q) =
    ((e, Exists-before _ s.posted _ p), Exists-before _ s.posted _ q)
message-Knows s name text message_case h = Exists-last _ s.posted (message name text) refl
message-Knows s name text (addressed n) ((e, p), q) =
    ((e, Exists-before _ s.posted _ p), Exists-last _ s.posted (message name text) refl)

-- A move that posts and sends nothing and leaves the slot as it is.
keep-Inv : {s : Slot} (pc : Pc) → Inv s → Knows s pc → Inv (record s { pc = pc })
keep-Inv pc v k = record {
  slot_change = v.slot_change;
  slot_message = v.slot_message;
  knows = k;
  genuine = v.genuine;
  counted = v.counted;
}

-- A move that sends.
send-Inv :
    {s : Slot} (pc : Pc) (d : Sent)
    → Inv s
    → Knows s pc
    → IsGenuine s.posted d
    → Inv (record s { pc = pc; sent = s.sent ++ d ∷ [] })
send-Inv {s} pc d v k g = record {
  slot_change = v.slot_change;
  slot_message = v.slot_message;
  knows = k;
  genuine = All-append _ s.sent _ v.genuine (g, tt);
  counted = v.counted;
}

ThreadStep-Inv : {s t : Slot} → ThreadStep s t → Inv s → Inv t
ThreadStep-Inv (wake s w f) v = record {
  slot_change = v.slot_change;
  slot_message = v.slot_message;
  knows = tt;
  genuine = v.genuine;
  counted = ground (arith, v.counted);
}
ThreadStep-Inv (enter_state s u c) v = keep-Inv state_case v (v.slot_change c)
ThreadStep-Inv (enter_message s u c) v = keep-Inv message_case v (v.slot_message c)
ThreadStep-Inv (enter_default s u c) v = keep-Inv waiting v tt
ThreadStep-Inv (look_up s n p) v =
    let known : Knows s state_case = subst (Knows s) p v.knows in
    keep-Inv (looping s.change_name n) v ((s.change_state, known), known)
ThreadStep-Inv (send_change s name left p) v =
    let known : Knows s (looping name (suc left)) = subst (Knows s) p v.knows in
    send-Inv (looping name left) (change_sent name s.change_name s.change_state) v known known
ThreadStep-Inv (end_change s name p) v = keep-Inv waiting v tt
ThreadStep-Inv (address s p) v =
    let known : Knows s message_case = subst (Knows s) p v.knows in
    keep-Inv (addressed s.msg_name) v ((s.msg_text, known), known)
ThreadStep-Inv (send_message s name p) v =
    let (to, text) : Knows s (addressed name) = subst (Knows s) p v.knows in
    send-Inv waiting (message_sent name s.msg_text) v tt (to, (s.msg_name, text))

Step-Inv : {s t : Slot} → Step s t → Inv s → Inv t
Step-Inv (post_change s name state) v = record {
  slot_change = λ _. Exists-last _ s.posted (change name state) refl;
  slot_message = λ e. cc e;
  knows = change-Knows s name state s.pc v.knows;
  genuine = All-IsGenuine s.posted _ s.sent v.genuine;
  counted = ground (arith, length-append s.posted (change name state ∷ []), v.counted);
}
Step-Inv (post_message s name text) v = record {
  slot_change = λ e. cc e;
  slot_message = λ _. Exists-last _ s.posted (message name text) refl;
  knows = message-Knows s name text s.pc v.knows;
  genuine = All-IsGenuine s.posted _ s.sent v.genuine;
  counted = ground (arith, length-append s.posted (message name text ∷ []), v.counted);
}
Step-Inv (moves m) v = ThreadStep-Inv m v

start-Inv : Inv start
start-Inv = record {
  slot_change = λ e. cc e;
  slot_message = λ e. cc e;
  knows = tt;
  genuine = tt;
  counted = omega arith;
}

Reach-Inv : {s t : Slot} → Reach s t → Inv s → Inv t
Reach-Inv here v = v
Reach-Inv (next r st) v = Step-Inv st (Reach-Inv r v)

-- However the handlers and the notifying thread interleave, with each look at the slot by the
-- thread as one step: of each change that was sent, the change was posted before, and so was one of
-- the user whose friends got it; of each message, a message with its text and a message to its
-- receiver were posted before; and the thread woke up at most as often as something was posted.
pub sent_is_posted :
    {s : Slot} → Reach start s → All (IsGenuine s.posted) s.sent × (s.rounds ≤ length s.posted)
sent_is_posted r = let v = Reach-Inv r start-Inv in (v.genuine, omega (arith, v.counted))
