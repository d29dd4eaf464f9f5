-- ===== src/Client/Talk/Scroll.antt =====
-- The talk window under any messages and any scrolling, from the start of the program, and what
-- opening it again does.
use everyone_talk.Prelude.{
  ℕ, zero, suc, ◌+◌, ◌≤◌, ◌<◌, ◌≡◌, refl, sym, ◌∙◌, ap, if_elim, Bool, true, false, some, List, [],
  ◌∷◌, ◌++◌, append-nil, append_assoc, Bytes, arith, length, length-append, length-drop, take, drop,
  get_elem?, leb, inl, inr, replicate,
}
use everyone_talk.Client.Window.{space_size}
use everyone_talk.Client.Talk.{
  TalkWindow, blank, init_talk_lists, write_cell, append_cell, talk_lists_down, talk_lists_up,
  add_message, recvmsg_from_server, add_sent,
}
use everyone_talk.Client.Talk.Views.{IsShort, IsLong, Shows, view, IsLong-down, IsLong-up}

module _ {ℓ} {A : Type ℓ} where
  get_elem?-last : (xs : List A) (a : A) → get_elem? (xs ++ a ∷ []) (length xs) ≡ some a
  get_elem?-last [] a = refl
  get_elem?-last (x ∷ xs) a = get_elem?-last xs a

  take_append : (n : ℕ) (xs ys : List A) → n ≤ length xs → take n (xs ++ ys) ≡ take n xs
  take_append zero xs ys h = refl
  take_append (suc n) [] ys h = absurd (omega arith)
  take_append (suc n) (x ∷ xs) ys h = ap (λ l. x ∷ l) (take_append n xs ys (omega arith))

  drop_append : (u : ℕ) (xs ys : List A) → u ≤ length xs → drop u (xs ++ ys) ≡ drop u xs ++ ys
  drop_append zero xs ys h = refl
  drop_append (suc u) [] ys h = absurd (omega arith)
  drop_append (suc u) (x ∷ xs) ys h = drop_append u xs ys (omega arith)

  -- A message at the end does not change a window before it.
  window_append :
      (u : ℕ) (xs ys : List A)
      → u + 10 ≤ length xs
      → take 10 (drop u (xs ++ ys)) ≡ take 10 (drop u xs)
  window_append u xs ys h =
      ap (take 10) (drop_append u xs ys (omega (arith, h)))
      ∙ take_append 10 (drop u xs) ys (omega (arith, length-drop u xs, h))

  take_all : (n : ℕ) (xs : List A) → length xs ≡ n → take n xs ≡ xs
  take_all zero [] h = refl
  take_all zero (x ∷ xs) h = absurd (omega (arith, h))
  take_all (suc n) [] h = refl
  take_all (suc n) (x ∷ xs) h = ap (λ l. x ∷ l) (take_all n xs (omega (arith, h)))

write_cell_at :
    (ms rest : List Bytes) (r v : Bytes)
    → write_cell (ms ++ r ∷ rest) (length ms) v ≡ ms ++ v ∷ rest
unfolding write_cell
write_cell_at [] rest r v = refl
write_cell_at (m ∷ ms) rest r v = ap (λ l. m ∷ l) (write_cell_at ms rest r v)

short_down : (w : TalkWindow) → IsShort w → talk_lists_down false w ≡ w
unfolding talk_lists_down
short_down w v = let few = v.few in ground arith

short_up : (w : TalkWindow) → IsShort w → talk_lists_up w ≡ w
unfolding talk_lists_up
short_up w v = let top = v.top in ground arith

pushed : TalkWindow → Bytes → TalkWindow
pushed w m = record w { messages = w.messages ++ m ∷ [] }

IsLong-add : (w : TalkWindow) (m : Bytes) → IsLong w → IsLong (add_message m w)
unfolding add_message
IsLong-add w m v =
    let more = length-append w.messages (m ∷ []) in
    IsLong-down true (record w { messages = w.messages ++ m ∷ [] }) (omega (arith, more, v.many))
      (record {
        cells =
            v.cells
            ∙ sym (window_append w.up w.messages (m ∷ []) (omega (arith, v.ends, v.within)));
        ends = v.ends;
        within = omega (arith, more, v.within);
      })

length-zero {ℓ} : {A : Type ℓ} (xs : List A) → length xs ≡ 0 → xs ≡ []
length-zero [] h = refl
length-zero (x ∷ xs) h = absurd (omega (arith, h))

-- The eleventh message makes the window move for the first time.
IsShort-full :
    (w : TalkWindow) (m : Bytes) → IsShort w → length w.messages ≡ 10 → IsLong (add_message m w)
unfolding add_message
IsShort-full w m v full =
    let more = length-append w.messages (m ∷ []) in
    let nothing : v.rest ≡ [] = length-zero v.rest (omega (arith, v.ten, full)) in
    let shown : w.cells ≡ w.messages =
      v.cells ∙ ap (◌++◌ w.messages) nothing ∙ append-nil w.messages in
    let window : take 10 (drop 0 (w.messages ++ m ∷ [])) ≡ w.messages =
      window_append 0 w.messages (m ∷ []) (omega (arith, full)) ∙ take_all 10 w.messages full in
    IsLong-down true (record w { messages = w.messages ++ m ∷ [] }) (omega (arith, more, full))
      (record {
        cells = shown ∙ sym window ∙ ap (λ n. take 10 (drop n (w.messages ++ m ∷ []))) (sym v.top);
        ends = omega (arith, v.end, v.top, full);
        within = omega (arith, v.end, more);
      })

-- With room left, the message goes to the next cell.
room_add :
    (w : TalkWindow) (m : Bytes) (rest : List Bytes)
    → w.cells ≡ w.messages ++ rest
    → length w.messages + length rest ≡ 10
    → length w.messages < 10
    → w.up ≡ 0
    → w.down ≡ length w.messages
    → IsShort (append_cell (some m) (record w { messages = w.messages ++ m ∷ [] }))
unfolding append_cell
room_add w m [] cells ten room top end = absurd (omega (arith, ten, room))
room_add w m (r ∷ rest) cells ten room top end =
    let more = length-append w.messages (m ∷ []) in
    record {
      few = omega (arith, more, room);
      rest = rest;
      cells =
          ap (λ c. write_cell c w.down m) cells
          ∙ ap (λ n. write_cell (w.messages ++ r ∷ rest) n m) end
          ∙ write_cell_at w.messages rest r m
          ∙ sym (append_assoc w.messages (m ∷ []) rest);
      ten = omega (arith, more, ten);
      top = top;
      end = omega (arith, more, end);
    }

IsShort-room :
    (w : TalkWindow) (m : Bytes) → IsShort w → length w.messages < 10 → IsShort (add_message m w)
unfolding add_message talk_lists_down
IsShort-room w m v room =
    let more = length-append w.messages (m ∷ []) in
    let last : get_elem? (w.messages ++ m ∷ []) w.down ≡ some m =
      ap (get_elem? (w.messages ++ m ∷ [])) v.end ∙ get_elem?-last w.messages m in
    if_elim IsShort (leb (length (w.messages ++ m ∷ [])) space_size)
      (λ _. rw last (room_add w m v.rest v.cells v.ten room v.top v.end))
      (λ many. absurd (ground (arith, more)))

add-Shows : (w : TalkWindow) (m : Bytes) → Shows w → Shows (add_message m w)
add-Shows w m (inr v) = inr (IsLong-add w m v)
add-Shows w m (inl v) = if_full (leb 10 (length w.messages)) refl
  where
    if_full : (b : Bool) → leb 10 (length w.messages) ≡ b → Shows (add_message m w)
    if_full true e = let few = v.few in inr (IsShort-full w m v (ground arith))
    if_full false e = inl (IsShort-room w m v (ground arith))

-- What happens to an open window: the user's keys, lines that are sent, messages that arrive.
pub data Move : Type 0 where
  go_down go_up : Move
  receive : Bytes → Move
  send : Bytes → Bytes → Move

unfoldable pub move : Move → TalkWindow → TalkWindow
move go_down w = talk_lists_down false w
move go_up w = talk_lists_up w
move (receive str_msg) w = recvmsg_from_server str_msg w
move (send my_name sendline) w = add_sent my_name sendline w

unfoldable pub moves : List Move → TalkWindow → TalkWindow
unfolding move
moves [] w = w
moves (m ∷ ms) w = moves ms (move m w)

move-Shows : (m : Move) (w : TalkWindow) → Shows w → Shows (move m w)
unfolding move recvmsg_from_server add_sent
move-Shows go_down w (inl v) = rw (short_down w v) (inl v)
move-Shows go_down w (inr v) = inr (IsLong-down false w v.many (view w v))
move-Shows go_up w (inl v) = rw (short_up w v) (inl v)
move-Shows go_up w (inr v) = inr (IsLong-up w v)
move-Shows (receive str_msg) w v = add-Shows w (w.friend_name ++ b':' ∷ str_msg) v
move-Shows (send my_name sendline) w v = add-Shows w (my_name ++ b':' ∷ sendline) v

-- While a window that shows its messages stays open, it goes on showing them, whatever is received,
-- sent or scrolled: all of up to ten, else ten consecutive ones from `up` on.
pub moves-Shows : (ms : List Move) (w : TalkWindow) → Shows w → Shows (moves ms w)
unfolding moves
moves-Shows [] w v = v
moves-Shows (m ∷ ms) w v = moves-Shows ms (move m w) (move-Shows m w v)

-- The first window that is opened, before any message, is one.
pub first-Shows : (f_name : Bytes) → Shows (init_talk_lists f_name blank)
unfolding init_talk_lists
first-Shows f_name = inl (record {
  few = omega arith;
  rest = replicate 10 [];
  cells = refl;
  ten = omega arith;
  top = refl;
  end = refl;
})
