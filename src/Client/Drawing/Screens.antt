-- ===== src/Client/Drawing/Screens.antt =====
-- The friend list on a terminal, filled in time after time.
use everyone_talk.Prelude.{
  ℕ, suc, ◌+◌, ◌<◌, ◌≡◌, refl, sym, ap, subst, ◌∙◌, List, [], ◌∷◌, ◌++◌, Bytes, All, length, arith,
  map, replicate,
}
use everyone_talk.Common.{FriendList}
use everyone_talk.Client.Friends.{FriendWindow}
use everyone_talk.Client.Terminal.{
  Out, Grid, up, newline, draw, draw-append, AllSafe, AllSafe-append, Terminal, puts, shown_after,
}
use everyone_talk.Client.Terminal.Rows.{RowsShow, RowsShow-front, RowsShow-back, Drawn, outs}
use everyone_talk.Client.Drawing.{
  line, friend_table, print_friend_list, fill_friend_data, friend_cell,
}
use everyone_talk.Client.Drawing.Clear.{fit-FitsLine, table_Drawn}
use everyone_talk.Client.Drawing.Fill.{Filled, fill-Filled, middle_Drawn}
use everyone_talk.Client.Drawing.Friends.{Fields, IsWide, friend_row, refilled}
use everyone_talk.Client.Drawing.Refill.{
  no_fields, friend_foot, friend_head, refill, filled_rows, between, friend_screen, FitsWindow,
  fills, zip, zip_maps, all_pairs, refill-IsWide, blank-IsWide,
}

pub map_const : {A : Type 0} (b : Bytes) (xs : List A) → map (λ x. b) xs ≡ replicate (length xs) b
map_const b [] = refl
map_const b (x ∷ xs) = ap (b ∷◌) (map_const b xs)

pub length-map : {A : Type 0} (f : A → Bytes) (xs : List A) → length (map f xs) ≡ length xs
length-map f [] = refl
length-map f (x ∷ xs) = ap suc (length-map f xs)

module _ (lines columns : ℕ) (wide : 38 < columns) (g : Grid) (low : g.row + 16 < lines) where
  -- Filling the window in once more.
  once_more :
      (olds : List Fields) (w : FriendWindow) (g1 : Grid)
      → All IsWide olds
      → length olds ≡ 10
      → FitsWindow w
      → Drawn 16 (between olds) g g1
      → AllSafe lines columns (fill_friend_data w) g1
        × Drawn 16 (between (refill olds w.cells)) g (draw (fill_friend_data w) g1)
  unfolding fill_friend_data
  once_more olds w g1 h ten fits d =
      let xs : List (Fields × FriendList) = zip olds w.cells in
      let (size, outs_same, old_same, new_same) = zip_maps olds w.cells (ten ∙ sym fits.ten) in
      let (_, ten') = refill-IsWide olds w.cells h fits.fit (ten ∙ sym fits.ten) in
      let mids : List Bytes = map friend_row olds in
      let (safe, filled) =
        fill-Filled lines columns (λ x. friend_cell x.1) (λ x. friend_row x.0)
          (λ x. friend_row (refilled x.0 x.1)) xs g1 (g.row + 5)
          (all_pairs lines columns wide olds w.cells h fits.fit) (size ∙ ten)
          (omega (arith, d.row_after)) d.col_after (omega (arith, d.row_after, low))
          (subst (RowsShow g1.cells (g.row + 5)) (sym old_same) (
            RowsShow-front g1.cells (g.row + 5) mids friend_foot
              (RowsShow-back g1.cells g.row friend_head (mids ++ friend_foot) d.rows))) in
      let news : List Fields = refill olds w.cells in
      let renewed : Filled (g.row + 5) (map friend_row news) g1 (draw (fill_friend_data w) g1) =
        subst
          (λ os.
            Filled (g.row + 5) (map friend_row news) g1
              (draw (up 11 ∷ (outs os ++ newline ∷ [])) g1))
          outs_same
          (subst
            (λ ts.
              Filled (g.row + 5) ts g1
                (draw (up 11 ∷ (outs (map (λ x. friend_cell x.1) xs) ++ newline ∷ [])) g1))
            new_same filled) in
      (
        subst (λ os. AllSafe lines columns (up 11 ∷ (outs os ++ newline ∷ [])) g1) outs_same safe,
        middle_Drawn 16 friend_head mids (map friend_row news) friend_foot g g1 _
            (length-map friend_row olds ∙ ten) (length-map friend_row news ∙ ten' ∙ ten) refl d
            renewed,
      )

  -- And again and again.
  fills-Drawn :
      (olds : List Fields) (ws : List FriendWindow) (g1 : Grid)
      → All IsWide olds
      → length olds ≡ 10
      → All FitsWindow ws
      → Drawn 16 (between olds) g g1
      → AllSafe lines columns (fills ws) g1
        × Drawn 16 (between (filled_rows olds ws)) g (draw (fills ws) g1)
  unfolding filled_rows
  fills-Drawn olds [] g1 h ten fits d = (tt, d)
  fills-Drawn olds (w ∷ ws) g1 h ten (f, fits) d =
      let (safe, once) = once_more olds w g1 h ten f d in
      let (wide', ten') = refill-IsWide olds w.cells h f.fit (ten ∙ sym f.ten) in
      let (safe', more) =
        fills-Drawn (refill olds w.cells) ws (draw (fill_friend_data w) g1) wide' (ten' ∙ ten) fits
          once in
      (
        AllSafe-append lines columns (fill_friend_data w) (fills ws) g1 safe safe',
        subst (Drawn 16 (between (filled_rows (refill olds w.cells) ws)) g)
            (sym (draw-append (fill_friend_data w) (fills ws) g1)) more,
      )

  pub friends_Drawn :
      (ws : List FriendWindow)
      → All FitsWindow ws
      → g.col ≡ 0
      → let os = print_friend_list ++ fills ws in
        AllSafe lines columns os g × Drawn 16 (friend_screen ws) g (draw os g)
  unfolding print_friend_list
  friends_Drawn ws fits c =
      let table : List Out = outs (map line friend_table) in
      let (safe, printed) =
        table_Drawn lines columns friend_table g (fit-FitsLine columns friend_table wide refl) c
          low in
      let (safe', d) =
        fills-Drawn (replicate 10 no_fields) ws (draw table g) (blank-IsWide 10) refl fits
          printed in
      (
        AllSafe-append lines columns table (fills ws) g safe safe',
        subst (Drawn 16 (friend_screen ws) g) (sym (draw-append table (fills ws) g)) d,
      )

-- These rows are to be seen, from the row of the first grid on, and the cursor is at the start of the
-- row so many below.
pub record Seen (n : ℕ) (ts : List Bytes) (g g' : Grid) : Type 0 where
  pub row_after : g'.row ≡ g.row + n
  pub col_after : g'.col ≡ 0
  pub rows : RowsShow g'.cells g.row ts

-- What a sequence that stays on the screen draws is seen.
pub seen_after :
    (t : Terminal) (os : List Out) (s : t.Screen) (n : ℕ) (ts : List Bytes)
    → AllSafe t.lines t.columns os (t.view s)
    → Drawn n ts (t.view s) (draw os (t.view s))
    → Seen n ts (t.view s) (t.view (puts t os s))
seen_after t os s n ts safe d =
    subst (Seen n ts (t.view s)) (sym (shown_after t os s safe))
      (record { row_after = d.row_after; col_after = d.col_after; rows = d.rows })

-- On any terminal of more than 38 columns, with the cursor at the start of a line and sixteen lines
-- below it: printing the table of friends, and then filling in one window after another, shows the
-- head, one row for each of the ten cells, and the foot, each column in its place. A row shows the last
-- friend that its cell held, whatever was there before, and a cell with the number 0 leaves its row. The
-- cursor is at the start of the line below each time. The numbers have two characters at most, the names
-- ten printable ones, and the states six.
pub friends_shown :
    (t : Terminal) (s : t.Screen) (ws : List FriendWindow)
    → 38 < t.columns
    → (t.view s).col ≡ 0
    → (t.view s).row + 16 < t.lines
    → All FitsWindow ws
    → Seen 16 (friend_screen ws) (t.view s) (t.view (puts t (print_friend_list ++ fills ws) s))
friends_shown t s ws wide c low fits =
    let (safe, d) = friends_Drawn t.lines t.columns wide (t.view s) low ws fits c in
    seen_after t (print_friend_list ++ fills ws) s 16 (friend_screen ws) safe d
