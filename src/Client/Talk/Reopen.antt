-- ===== src/Client/Talk/Reopen.antt =====
-- What opening the talk window again does, once there are ten messages.
use Prim.Native.Nat.{min}
use everyone_talk.Prelude.{
  ℕ, zero, suc, ◌-◌, ◌≤◌, ◌<◌, ◌≡◌, refl, ◌∙◌, ap, if_elim, some, List, [], ◌∷◌, ◌++◌, append-nil,
  Bytes, arith, length, length-append, length-drop, drop, get_elem?, leb, ◌==◌,
}
use everyone_talk.Client.Window.{space_size, shift_left}
use everyone_talk.Client.Talk.{
  TalkWindow, init_talk_lists, down_to, talk_lists_down, add_message, recvmsg_from_server,
}

shift_left-append :
    (x : Bytes) (cells : List Bytes) (a : Bytes) → shift_left (x ∷ cells) a ≡ cells ++ a ∷ []
unfolding shift_left
shift_left-append x [] a = refl
shift_left-append x (y ∷ cells) a = ap (λ l. y ∷ l) (shift_left-append y cells a)

shift_left-drop :
    (u : ℕ) (xs : List Bytes) (a : Bytes)
    → u < length xs
    → shift_left (drop u xs) a ≡ drop (suc u) xs ++ a ∷ []
shift_left-drop u [] a h = absurd (omega (arith, h))
shift_left-drop zero (x ∷ xs) a h = shift_left-append x xs a
shift_left-drop (suc u) (x ∷ xs) a h = shift_left-drop u xs a (omega (arith, h))

get_elem?-before :
    (xs : List Bytes) (m : Bytes) (n : ℕ) (a : Bytes)
    → get_elem? xs n ≡ some a
    → get_elem? (xs ++ m ∷ []) n ≡ some a
get_elem?-before [] m n a h = cc
get_elem?-before (x ∷ xs) m zero a h = h
get_elem?-before (x ∷ xs) m (suc n) a h = get_elem?-before xs m n a h

-- The window as opening it leaves it.
abbrev opened : Bytes → TalkWindow → TalkWindow
opened f_name w = record w {
  friend_name = f_name;
  cells = drop (length w.messages - 10) w.messages;
  up = length w.messages - 10;
  down = length w.messages - 1;
}

drop_ten : (cells : List Bytes) → length cells ≡ 10 → drop 10 cells ≡ []
drop_ten cells h = go (drop 10 cells) (length-drop 10 cells)
  where
    go : (xs : List Bytes) → length xs ≡ length cells - 10 → xs ≡ []
    go [] e = refl
    go (x ∷ xs) e = absurd (omega (arith, h, e))

init-opened :
    (f_name : Bytes) (w : TalkWindow)
    → 10 ≤ length w.messages
    → length w.cells ≡ 10
    → init_talk_lists f_name w ≡ opened f_name w
unfolding init_talk_lists
init-opened f_name w h k =
    let full : min 10 (length w.messages) ≡ 10 = omega (arith, h) in
    if_elim (λ x. x ≡ opened f_name w) (length w.messages == 0) (λ none_yet. absurd (ground arith))
      (λ _. rw (full, drop_ten w.cells k, append-nil (drop (length w.messages - 10) w.messages)))

-- Once there are ten messages or more, the first message that arrives after the window of ten
-- cells was opened again is not shown: the last cell repeats the message before it.
pub reopened_repeats :
    (f_name str_msg last : Bytes) (w : TalkWindow)
    → 10 ≤ length w.messages
    → length w.cells ≡ 10
    → get_elem? w.messages (length w.messages - 1) ≡ some last
    → (recvmsg_from_server str_msg (init_talk_lists f_name w)).cells
      ≡ drop (length w.messages - 9) w.messages ++ last ∷ []
unfolding recvmsg_from_server add_message talk_lists_down down_to
reopened_repeats f_name str_msg last w h k e =
    let m : Bytes = f_name ++ b':' ∷ str_msg in
    let all : List Bytes = w.messages ++ m ∷ [] in
    let more = length-append w.messages (m ∷ []) in
    let result : List Bytes = drop (length w.messages - 9) w.messages ++ last ∷ [] in
    let next : suc (length w.messages - 10) ≡ length w.messages - 9 = omega (arith, h) in
    rw (init-opened f_name w h k) (
      if_elim (λ (x : TalkWindow). x.cells ≡ result) (leb (length all) space_size)
        (λ few. absurd (ground (arith, more)))
        λ _.
          if_elim (λ (x : TalkWindow). x.cells ≡ result) (leb (length all) (length w.messages - 1))
            (λ past. absurd (ground (arith, more)))
            λ _. rw (get_elem?-before w.messages m (length w.messages - 1) last e) (
              shift_left-drop (length w.messages - 10) w.messages last (omega (arith, h))
              ∙ ap (λ n. drop n w.messages ++ last ∷ []) next))
