-- ===== src/Client/Talk/Views.antt =====
-- What the cells of the talk window show, and the moves over more than ten messages.
use everyone_talk.Prelude.{
  ℕ, suc, ◌+◌, ◌-◌, ◌≤◌, ◌<◌, ◌≡◌, sym, ◌∙◌, ap, subst, if_elim, Bool, some, List, ◌++◌, Bytes,
  arith, length, take, drop, get_elem?, ltb, leb, ◌==◌, ◌⊎◌,
}
use everyone_talk.Client.Window.{space_size, shift_left, shift_right}
use everyone_talk.Client.Window.Laws.{shift_left_window, shift_right_window, get_elem?-some}
use everyone_talk.Client.Talk.{TalkWindow, down_to, talk_lists_down, up_to, talk_lists_up}

-- Up to ten messages: all are shown, in order, from the first cell on.
pub record IsShort (w : TalkWindow) : Type 0 where
  pub few : length w.messages ≤ 10
  pub rest : List Bytes
  pub cells : w.cells ≡ w.messages ++ rest
  pub ten : length w.messages + length rest ≡ 10
  pub top : w.up ≡ 0
  pub end : w.down ≡ length w.messages

-- More than ten: the cells are the ten messages from `up` on.
pub record IsLong (w : TalkWindow) : Type 0 where
  pub many : 10 < length w.messages
  pub cells : w.cells ≡ take 10 (drop w.up w.messages)
  pub ends : w.down ≡ w.up + 10
  pub within : w.down ≤ length w.messages

abbrev pub Shows : TalkWindow → Type 0
Shows w = IsShort w ⊎ IsLong w

-- A window whose cells are the ten messages from `up` on.
pub record View (w : TalkWindow) : Type 0 where
  pub cells : w.cells ≡ take 10 (drop w.up w.messages)
  pub ends : w.down ≡ w.up + 10
  pub within : w.down ≤ length w.messages

module _ (w : TalkWindow) (v : View w) where
  pub down_to-View :
      (m : Bytes)
      → get_elem? w.messages w.down ≡ some m
      → w.down < length w.messages
      → View (down_to (some m) w)
  unfolding down_to
  down_to-View m e more =
      let at : get_elem? w.messages (w.up + 10) ≡ some m =
        subst (λ n. get_elem? w.messages n ≡ some m) v.ends e in
      let next : suc w.up ≡ w.up + 1 = omega arith in
      record {
        cells =
            ap (λ c. shift_left c m) v.cells
            ∙ shift_left_window 9 w.up w.messages m at
            ∙ ap (λ n. take 10 (drop n w.messages)) next;
        ends = omega (arith, v.ends);
        within = omega (arith, more);
      }

  pub up_to-View :
      (u : ℕ) (m : Bytes) → w.up ≡ suc u → get_elem? w.messages u ≡ some m → View (up_to (some m) w)
  unfolding up_to
  up_to-View u m top e =
      let below : w.up - 1 ≡ u = omega (arith, top) in
      let cells : w.cells ≡ take 10 (drop (suc u) w.messages) =
        v.cells ∙ ap (λ n. take 10 (drop n w.messages)) top in
      record {
        cells =
            ap (λ c. shift_right c m) cells
            ∙ shift_right_window 9 u w.messages m e (omega (arith, v.ends, v.within, top))
            ∙ ap (λ n. take 10 (drop n w.messages)) (sym below);
        ends = omega (arith, v.ends, top);
        within = omega (arith, v.within);
      }

pub view : (w : TalkWindow) → IsLong w → View w
view w v = record { cells = v.cells; ends = v.ends; within = v.within }

pub long : (w : TalkWindow) → 10 < length w.messages → View w → IsLong w
long w h v = record { many = h; cells = v.cells; ends = v.ends; within = v.within }

-- The step down over more than ten messages, with or without a new one.
pub IsLong-down :
    (is_get_msg : Bool) (w : TalkWindow)
    → 10 < length w.messages
    → View w
    → IsLong (talk_lists_down is_get_msg w)
unfolding talk_lists_down down_to
IsLong-down is_get_msg w many v =
    if_elim IsLong (leb (length w.messages) space_size) (λ few. absurd (ground arith))
      λ _.
        if_elim IsLong (leb (length w.messages) w.down) (λ _. long w many v)
          λ more.
            let below : w.down < length w.messages = ground arith in
            let (m, e) = get_elem?-some w.messages w.down below in
            rw e (long (down_to (some m) w) many (down_to-View w v m e below))

pub IsLong-up : (w : TalkWindow) → IsLong w → IsLong (talk_lists_up w)
unfolding talk_lists_up up_to
IsLong-up w v =
    if_elim IsLong (ltb (length w.messages) space_size) (λ _. v)
      λ _.
        if_elim IsLong (w.up == 0) (λ _. v)
          λ more.
            let top : w.up ≡ suc (w.up - 1) = ground arith in
            let (m, e) =
              get_elem?-some w.messages (w.up - 1) (omega (arith, v.ends, v.within, top)) in
            rw e (long (up_to (some m) w) v.many (up_to-View w (view w v) (w.up - 1) m top e))
