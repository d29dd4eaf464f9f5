-- ===== src/Client/Friends/Scroll.antt =====
-- The window of a friend list under any scrolling and any changes of state, and the names of states.
use Prim.Native.Nat.{min}
use everyone_talk.Prelude.{
  ℕ, zero, suc, ◌+◌, ◌-◌, ◌≤◌, ◌<◌, ◌≡◌, ◌≢◌, refl, sym, ◌∙◌, ap, subst, if_elim, if_cases, All,
  some, List, [], ◌∷◌, ◌++◌, append-nil, map, Bytes, bytes_eq, codes, arith, length, take, drop,
  get_elem?, ltb, leb, ◌==◌, inl, inr, Option-cases,
}
use everyone_talk.Int.{ℤ}
use everyone_talk.Common.{FriendList, UserState, stealth, online, offline, leave, busy, not_disturb}
use everyone_talk.Client.Window.{space_size, shift_left, shift_right}
use everyone_talk.Client.Window.Laws.{
  shift_left_window, shift_right_window, map-shift_left, map-shift_right, map-take, get_elem?-map,
  get_elem?-some,
}
use everyone_talk.Client.Friends.{
  FriendWindow, init_friend_lists, modify_cells, modify_friend_state, down_to, friend_lists_down,
  up_to, friend_lists_up, init_user_state, deal_user_state, KeyMapState, find_key,
}

-- What a cell shows but for the state.
abbrev pub key : FriendList → ℤ × Bytes
key f = (f.id, f.user_name)

-- The window of a list of ten friends or more: the ten cells are the ten friends from `up` on.
pub record Shows (xs : List FriendList) (w : FriendWindow) : Type 0 where
  pub cells : map key w.cells ≡ take 10 (drop w.up (map key xs))
  pub ends : w.down ≡ w.up + 10
  pub within : w.down ≤ length xs

length-map {ℓ κ} :
    {A : Type ℓ} {B : Type κ} (f : A → B) (xs : List A) → length (map f xs) ≡ length xs
length-map f [] = refl
length-map f (x ∷ xs) = ap suc (length-map f xs)

key-modify_cells :
    (name : Bytes) (state : UserState) (cells : List FriendList)
    → map key (modify_cells name state cells) ≡ map key cells
unfolding modify_cells
key-modify_cells name state [] = refl
key-modify_cells name state (f ∷ cells) = ground (arith, key-modify_cells name state cells)

module _ (xs : List FriendList) (w : FriendWindow) (v : Shows xs w) where
  down_to-Shows :
      (f : FriendList)
      → get_elem? xs w.down ≡ some f
      → w.down < length xs
      → Shows xs (down_to (some f) w)
  unfolding down_to
  down_to-Shows f e more =
      let at : get_elem? (map key xs) (w.up + 10) ≡ some (key f) =
        subst (λ n. get_elem? (map key xs) n ≡ some (key f)) v.ends
          (get_elem?-map key xs w.down f e) in
      let next : suc w.up ≡ w.up + 1 = omega arith in
      record {
        cells =
            map-shift_left key w.cells f
            ∙ ap (λ c. shift_left c (key f)) v.cells
            ∙ shift_left_window 9 w.up (map key xs) (key f) at
            ∙ ap (λ n. take 10 (drop n (map key xs))) next;
        ends = omega (arith, v.ends);
        within = omega (arith, more);
      }

  down-Shows : Shows xs (friend_lists_down xs w)
  unfolding friend_lists_down
  down-Shows =
      if_elim (Shows xs) (ltb (length xs) space_size) (λ _. v)
        λ _.
          if_elim (Shows xs) (leb (length xs) w.down) (λ _. v)
            λ more.
              let below : w.down < length xs = ground arith in
              let (f, e) = get_elem?-some xs w.down below in rw e (down_to-Shows f e below)

  up_to-Shows :
      (u : ℕ) (f : FriendList)
      → w.up ≡ suc u
      → get_elem? xs u ≡ some f
      → Shows xs (up_to (some f) w)
  unfolding up_to
  up_to-Shows u f top e =
      let below : w.up - 1 ≡ u = omega (arith, top) in
      let cells : map key w.cells ≡ take 10 (drop (suc u) (map key xs)) =
        v.cells ∙ ap (λ n. take 10 (drop n (map key xs))) top in
      record {
        cells =
            map-shift_right key w.cells f
            ∙ ap (λ c. shift_right c (key f)) cells
            ∙ shift_right_window 9 u (map key xs) (key f) (get_elem?-map key xs u f e)
                (omega (arith, length-map key xs, v.ends, v.within, top))
            ∙ ap (λ n. take 10 (drop n (map key xs))) (sym below);
        ends = omega (arith, v.ends, top);
        within = omega (arith, v.within);
      }

  up-Shows : Shows xs (friend_lists_up xs w)
  unfolding friend_lists_up
  up-Shows =
      if_elim (Shows xs) (ltb (length xs) space_size) (λ _. v)
        λ _.
          if_elim (Shows xs) (w.up == 0) (λ _. v)
            λ more.
              let top : w.up ≡ suc (w.up - 1) = ground arith in
              let (f, e) = get_elem?-some xs (w.up - 1) (omega (arith, v.ends, v.within, top)) in
              rw e (up_to-Shows (w.up - 1) f top e)

  modify-Shows : (name : Bytes) (state : UserState) → Shows xs (modify_friend_state name state w)
  unfolding modify_friend_state
  modify-Shows name state = record {
    cells = key-modify_cells name state w.cells ∙ v.cells;
    ends = v.ends;
    within = v.within;
  }

drop_all {ℓ} : {A : Type ℓ} (n : ℕ) (cells : List A) → length cells ≡ n → drop n cells ≡ []
drop_all zero [] h = refl
drop_all zero (x ∷ cells) h = absurd (omega (arith, h))
drop_all (suc n) [] h = refl
drop_all (suc n) (x ∷ cells) h = drop_all n cells (omega (arith, h))

init-Shows :
    (xs : List FriendList) (w : FriendWindow)
    → 10 ≤ length xs
    → length w.cells ≡ 10
    → Shows xs (init_friend_lists xs w)
unfolding init_friend_lists
init-Shows xs w h k =
    let full : min 10 (length xs) ≡ 10 = omega (arith, h) in
    rw full (record {
      cells =
          ap (map key) (ap (◌++◌ (take 10 xs)) (drop_all 10 w.cells k) ∙ append-nil (take 10 xs))
          ∙ map-take key 10 xs;
      ends = omega arith;
      within = h;
    })

-- The client's own keys, and the changes of state that arrive meanwhile.
pub data Move : Type 0 where
  go_down go_up : Move
  modify : Bytes → UserState → Move

unfoldable pub move : List FriendList → Move → FriendWindow → FriendWindow
move xs go_down w = friend_lists_down xs w
move xs go_up w = friend_lists_up xs w
move xs (modify name state) w = modify_friend_state name state w

unfoldable pub moves : List FriendList → List Move → FriendWindow → FriendWindow
unfolding move
moves xs [] w = w
moves xs (m ∷ ms) w = moves xs ms (move xs m w)

move-Shows :
    (xs : List FriendList) (m : Move) (w : FriendWindow) → Shows xs w → Shows xs (move xs m w)
unfolding move
move-Shows xs go_down w v = down-Shows xs w v
move-Shows xs go_up w v = up-Shows xs w v
move-Shows xs (modify name state) w v = modify-Shows xs w v name state

moves-Shows :
    (xs : List FriendList) (ms : List Move) (w : FriendWindow)
    → Shows xs w
    → Shows xs (moves xs ms w)
unfolding moves
moves-Shows xs [] w v = v
moves-Shows xs (m ∷ ms) w v = moves-Shows xs ms (move xs m w) (move-Shows xs m w v)

-- From the first display of a list of ten friends or more in the ten cells, whatever keys are
-- pressed and whatever changes of state arrive, the cells name ten consecutive friends of the
-- list, which start at `up` and end before `down`, within the list.
pub scroll-Shows :
    (xs : List FriendList) (ms : List Move) (w : FriendWindow)
    → 10 ≤ length xs
    → length w.cells ≡ 10
    → Shows xs (moves xs ms (init_friend_lists xs w))
scroll-Shows xs ms w h k = moves-Shows xs ms (init_friend_lists xs w) (init-Shows xs w h k)

-- The table as it is after all six insertions: the sixth finds its key taken.
abbrev five_states : KeyMapState
five_states =
    (codes "ONLINE", online)
    ∷ (codes "OFFLINE", offline)
    ∷ (codes "LEAVE", leave)
    ∷ (codes "BUSY", busy)
    ∷ (codes "NOT_DISTURB", not_disturb)
    ∷ []

init_user_state-five : init_user_state [] ≡ five_states
unfolding init_user_state
init_user_state-five = refl

find_key-ne :
    (m : KeyMapState) (c_key : Bytes) (state st : UserState)
    → All (λ e. e.1 ≢ state) m
    → find_key c_key m ≡ some st
    → st ≢ state
unfolding find_key
find_key-ne [] c_key state st h e = cc
find_key-ne ((k, s) ∷ m) c_key state st h e =
    if_cases (bytes_eq k c_key) e (λ same. subst (λ x. x ≢ state) (cc same) h.0)
      (λ later. find_key-ne m c_key state st h.1 later)

-- No command sets the state STEALTH, unless the variable held it before: its entry in the table
-- of states stands under a name that is there already, so the look-up never gives it.
pub no_stealth :
    (c_key : Bytes) (u_state : UserState)
    → u_state ≢ stealth
    → deal_user_state (init_user_state []) c_key u_state ≢ stealth
unfolding deal_user_state
no_stealth c_key u_state h = elim (Option-cases (find_key c_key five_states)) [
  | inl e ↦ rw (init_user_state-five, e) h
  | inr (st, e) ↦
      rw (init_user_state-five, e)
        (find_key-ne five_states c_key stealth st
          (λ x. cc x, (λ x. cc x, (λ x. cc x, (λ x. cc x, (λ x. cc x, tt))))) e)
]
