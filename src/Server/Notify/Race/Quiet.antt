-- ===== src/Server/Notify/Race/Quiet.antt =====
-- A round of `notify_client` in which no handler posts.
use everyone_talk.Prelude.{
  ℕ, zero, suc, ◌≡◌, refl, sym, ◌∙◌, ap, subst, Bool, true, false, List, [], ◌∷◌, ◌++◌, Bytes,
  append_assoc, append-nil, replicate,
}
use everyone_talk.Server.Notify.Race.{
  Sent, Pc, NotifyType, Slot, ThreadStep, change_sent, message_sent, no_type, friend_online_state,
  message_information, waiting, unlocked, state_case, looping, message_case, addressed, wake,
  enter_state, enter_message, enter_default, look_up, send_change, end_change, address,
  send_message,
}

-- The thread moves, and nothing else happens.
pub data Alone : Slot → Slot → Type 0 where
  stay : {s : Slot} → Alone s s
  move : {s t u : Slot} → Alone s t → ThreadStep t u → Alone s u

-- So much of the notice is out: the change in the slot, each time to a friend of its own user.
abbrev Sending : Slot → Slot → ℕ → Type 0
Sending s t n =
    t.sent ≡ s.sent ++ replicate n (change_sent s.change_name s.change_name s.change_state)

-- What a whole round sends: a change any number of times, a message once.
abbrev pub Sends : NotifyType → Slot → Slot → Type 0
Sends no_type s t = t.sent ≡ s.sent
Sends friend_online_state s t = (n : ℕ) × Sending s t n
Sends message_information s t = t.sent ≡ s.sent ++ message_sent s.msg_name s.msg_text ∷ []

-- How far the thread is.
abbrev Stage : Slot → Slot → Pc → Bool → Type 0
Stage s t waiting true = t.sent ≡ s.sent
Stage s t waiting false = Sends s.notify_type s t
Stage s t unlocked f = (f ≡ false) × (t.sent ≡ s.sent)
Stage s t state_case f = (f ≡ false) × (s.notify_type ≡ friend_online_state) × (t.sent ≡ s.sent)
Stage s t (looping name left) f =
    (f ≡ false)
    × (s.notify_type ≡ friend_online_state)
    × (name ≡ s.change_name)
    × ((n : ℕ) × Sending s t n)
Stage s t message_case f = (f ≡ false) × (s.notify_type ≡ message_information) × (t.sent ≡ s.sent)
Stage s t (addressed name) f =
    (f ≡ false) × (s.notify_type ≡ message_information) × (name ≡ s.msg_name) × (t.sent ≡ s.sent)

-- The slot stays as it was.
record Kept (s t : Slot) : Type 0 where
  pub type_kept : t.notify_type ≡ s.notify_type
  pub change_name_kept : t.change_name ≡ s.change_name
  pub change_state_kept : t.change_state ≡ s.change_state
  pub msg_name_kept : t.msg_name ≡ s.msg_name
  pub msg_text_kept : t.msg_text ≡ s.msg_text

keep-Kept :
    {s t : Slot} (flag : Bool) (pc : Pc) (sent : List Sent) (rounds : ℕ)
    → Kept s t
    → Kept s (record t { flag = flag; pc = pc; sent = sent; rounds = rounds })
keep-Kept flag pc sent rounds k = record {
  type_kept = k.type_kept;
  change_name_kept = k.change_name_kept;
  change_state_kept = k.change_state_kept;
  msg_name_kept = k.msg_name_kept;
  msg_text_kept = k.msg_text_kept;
}

ThreadStep-Kept : {s t u : Slot} → ThreadStep t u → Kept s t → Kept s u
ThreadStep-Kept (wake t w f) k = keep-Kept _ _ _ _ k
ThreadStep-Kept (enter_state t p c) k = keep-Kept _ _ _ _ k
ThreadStep-Kept (enter_message t p c) k = keep-Kept _ _ _ _ k
ThreadStep-Kept (enter_default t p c) k = keep-Kept _ _ _ _ k
ThreadStep-Kept (look_up t n p) k = keep-Kept _ _ _ _ k
ThreadStep-Kept (send_change t name left p) k = keep-Kept _ _ _ _ k
ThreadStep-Kept (end_change t name p) k = keep-Kept _ _ _ _ k
ThreadStep-Kept (address t p) k = keep-Kept _ _ _ _ k
ThreadStep-Kept (send_message t name p) k = keep-Kept _ _ _ _ k

replicate-last : {A : Type 0} (n : ℕ) (a : A) → replicate n a ++ a ∷ [] ≡ replicate (suc n) a
replicate-last zero a = refl
replicate-last (suc n) a = ap (a ∷◌) (replicate-last n a)

Alone-Kept : {s t : Slot} → Alone s t → Kept s t
Alone-Kept stay = record {
  type_kept = refl;
  change_name_kept = refl;
  change_state_kept = refl;
  msg_name_kept = refl;
  msg_text_kept = refl;
}
Alone-Kept (move r m) = ThreadStep-Kept m (Alone-Kept r)

-- One more of the same.
sent-Sending :
    {s t : Slot} {name : Bytes} (n : ℕ)
    → Kept s t
    → name ≡ s.change_name
    → Sending s t n
    → t.sent ++ change_sent name t.change_name t.change_state ∷ []
      ≡ s.sent ++ replicate (suc n) (change_sent s.change_name s.change_name s.change_state)
sent-Sending {s} {t} n k a e =
    let d = change_sent s.change_name s.change_name s.change_state in
    cc (
      e,
      a,
      k.change_name_kept,
      k.change_state_kept,
      append_assoc s.sent (replicate n d) (d ∷ []),
      replicate-last n d,
    )

Stage-at : (s t : Slot) {pc : Pc} → Stage s t t.pc t.flag → t.pc ≡ pc → Stage s t pc t.flag
Stage-at s t h p = subst (λ pc. Stage s t pc t.flag) p h

Stage-waiting :
    (s u : Slot) {type : NotifyType}
    → u.flag ≡ false
    → s.notify_type ≡ type
    → Sends type s u
    → Stage s u waiting u.flag
Stage-waiting s u f c e = subst (Stage s u waiting) (sym f) (subst (λ ty. Sends ty s u) (sym c) e)

Stage-moved :
    {s t u : Slot} → ThreadStep t u → Kept s t → Stage s t t.pc t.flag → Stage s u u.pc u.flag
Stage-moved {s} (wake t w f) k h = (refl, subst (Stage s t waiting) f (Stage-at s t h w))
Stage-moved {s} (enter_state t p c) k h =
    let (f, e) = Stage-at s t h p in (f, sym k.type_kept ∙ c, e)
Stage-moved {s} (enter_message t p c) k h =
    let (f, e) = Stage-at s t h p in (f, sym k.type_kept ∙ c, e)
Stage-moved {s} (enter_default t p c) k h =
    let (f, e) = Stage-at s t h p in Stage-waiting s _ f (sym k.type_kept ∙ c) e
Stage-moved {s} (look_up t n p) k h =
    let (f, c, e) = Stage-at s t h p in (f, c, k.change_name_kept, (0, e ∙ sym (append-nil s.sent)))
Stage-moved {s} (send_change t name left p) k h =
    let (f, c, a, (n, e)) = Stage-at s t h p in (f, c, a, (suc n, sent-Sending n k a e))
Stage-moved {s} (end_change t name p) k h =
    let (f, c, a, e) = Stage-at s t h p in Stage-waiting s _ f c e
Stage-moved {s} (address t p) k h = let (f, c, e) = Stage-at s t h p in (f, c, k.msg_name_kept, e)
Stage-moved {s} (send_message t name p) k h =
    let (f, c, a, e) = Stage-at s t h p in Stage-waiting s _ f c (cc (a, e, k.msg_text_kept))

Alone-Stage : {s t : Slot} → s.pc ≡ waiting → s.flag ≡ true → Alone s t → Stage s t t.pc t.flag
Alone-Stage {s} w f stay =
    subst (λ pc. Stage s s pc s.flag) (sym w) (subst (Stage s s waiting) (sym f) refl)
Alone-Stage w f (move r m) = Stage-moved m (Alone-Kept r) (Alone-Stage w f r)

-- When something is posted and no handler posts again before the thread waits and the flag is
-- clear, what the thread has sent is that notice and nothing else: a change, each time as that of the
-- user whose friends get it, or a message, once and to its receiver.
pub quiet_round :
    {s t : Slot}
    → s.pc ≡ waiting
    → s.flag ≡ true
    → Alone s t
    → t.pc ≡ waiting
    → t.flag ≡ false
    → Sends s.notify_type s t
quiet_round {s} {t} w f r w' f' =
    subst (Stage s t waiting) f' (subst (λ pc. Stage s t pc t.flag) w' (Alone-Stage w f r))
