-- ===== src/Client/Drawing/Refill.antt =====
-- The rows of the friend list as `fill_friend_data` of client/deal_friend_data.cpp changes them, time
-- after time.
use everyone_talk.Prelude.{
  ℕ, suc, ◌<◌, ◌≡◌, refl, ap, List, [], ◌∷◌, ◌++◌, Bytes, codes, All, length, arith, map, replicate,
  if_elim, zero,
}
use everyone_talk.Int.{pos, int_eq}
use everyone_talk.Common.{FriendList}
use everyone_talk.Client.Friends.{FriendWindow}
use everyone_talk.Client.Terminal.{Out}
use everyone_talk.Client.Terminal.Rows.{DrawsRow}
use everyone_talk.Client.Drawing.{fill_friend_data, friend_cell}
use everyone_talk.Client.Drawing.Friends.{
  Fields, IsWide, FitsRow, friend_row, refilled, friend_cell-DrawsRow, fields_of-IsWide,
}

-- The row of a friend that is not there.
abbrev pub no_fields : Fields
no_fields = record { id = codes "  "; user_name = codes "          "; state = codes "      " }

-- The five lines above the friends and the one below.
abbrev pub friend_head : List Bytes
friend_head =
    codes "+--------+--------------+---------+"
    ∷ codes "|         EveryoneTalk            |"
    ∷ codes "+--------+--------------+---------|"
    ∷ codes "|  ID    |  UserName    |  State  |"
    ∷ codes "+--------+--------------+---------|"
    ∷ []

abbrev pub friend_foot : List Bytes
friend_foot = codes "+--------+--------------+---------+" ∷ []

-- Each row by its cell.
unfoldable pub refill : List Fields → List FriendList → List Fields
refill [] cells = []
refill (old ∷ olds) [] = []
refill (old ∷ olds) (f ∷ cells) = refilled old f ∷ refill olds cells

-- The rows once the window was filled in with each of these cells, one after another.
unfoldable pub filled_rows : List Fields → List FriendWindow → List Fields
filled_rows olds [] = olds
filled_rows olds (w ∷ ws) = filled_rows (refill olds w.cells) ws

-- The head, the rows, the foot.
abbrev pub between : List Fields → List Bytes
between olds = friend_head ++ (map friend_row olds ++ friend_foot)

-- What is to be seen: at first the ten rows are empty.
abbrev pub friend_screen : List FriendWindow → List Bytes
friend_screen ws = between (filled_rows (replicate 10 no_fields) ws)

-- Ten cells whose texts fit.
pub record FitsWindow (w : FriendWindow) : Type 0 where
  pub ten : length w.cells ≡ 10
  pub fit : All FitsRow w.cells

abbrev pub fills : List FriendWindow → List Out
fills [] = []
fills (w ∷ ws) = fill_friend_data w ++ fills ws

abbrev pub zip : List Fields → List FriendList → List (Fields × FriendList)
zip [] cells = []
zip (old ∷ olds) [] = []
zip (old ∷ olds) (f ∷ cells) = (old, f) ∷ zip olds cells

-- The rows and the cells of pairs.
pub zip_maps :
    (olds : List Fields) (cells : List FriendList)
    → length olds ≡ length cells
    → (length (zip olds cells) ≡ length olds)
      × (map (λ x. friend_cell x.1) (zip olds cells) ≡ map friend_cell cells)
      × (map (λ x. friend_row x.0) (zip olds cells) ≡ map friend_row olds)
      × (map (λ x. friend_row (refilled x.0 x.1)) (zip olds cells)
          ≡ map friend_row (refill olds cells))
unfolding refill
zip_maps [] [] h = (refl, refl, refl, refl)
zip_maps [] (f ∷ cells) h = absurd (omega (arith, h))
zip_maps (old ∷ olds) [] h = absurd (omega (arith, h))
zip_maps (old ∷ olds) (f ∷ cells) h =
    let (size, outs_same, old_same, new_same) = zip_maps olds cells (omega (arith, h)) in
    (
      ap suc size,
      ap (friend_cell f ∷◌) outs_same,
      ap (friend_row old ∷◌) old_same,
      ap (friend_row (refilled old f) ∷◌) new_same,
    )

pub all_pairs :
    (lines columns : ℕ) (wide : 38 < columns) (olds : List Fields) (cells : List FriendList)
    → All IsWide olds
    → All FitsRow cells
    → All
        (λ x.
          DrawsRow lines columns (friend_cell x.1, friend_row x.0, friend_row (refilled x.0 x.1)))
        (zip olds cells)
all_pairs lines columns wide [] cells h k = tt
all_pairs lines columns wide (old ∷ olds) [] h k = tt
all_pairs lines columns wide (old ∷ olds) (f ∷ cells) (h, hs) (k, ks) = (
  friend_cell-DrawsRow lines columns wide old f h k,
  all_pairs lines columns wide olds cells hs ks,
)

pub refill-IsWide :
    (olds : List Fields) (cells : List FriendList)
    → All IsWide olds
    → All FitsRow cells
    → length olds ≡ length cells
    → All IsWide (refill olds cells) × (length (refill olds cells) ≡ length olds)
unfolding refill
refill-IsWide [] cells h k n = (tt, refl)
refill-IsWide (old ∷ olds) [] h k n = absurd (omega (arith, n))
refill-IsWide (old ∷ olds) (f ∷ cells) (h, hs) (k, ks) n =
    let (rest, size) = refill-IsWide olds cells hs ks (omega (arith, n)) in
    ((if_elim IsWide (int_eq f.id (pos 0)) (λ e. h) (λ e. fields_of-IsWide f k), rest), ap suc size)

pub blank-IsWide : (n : ℕ) → All IsWide (replicate n no_fields)
blank-IsWide zero = tt
blank-IsWide (suc n) =
    (record { id_wide = refl; name_wide = refl; state_wide = refl }, blank-IsWide n)
