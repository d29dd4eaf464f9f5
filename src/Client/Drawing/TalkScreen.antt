-- ===== src/Client/Drawing/TalkScreen.antt =====
-- The whole talk window on the screen: the friend's name in the head, and the ten messages.
use everyone_talk.Prelude.{
  ℕ, suc, ◌+◌, ◌-◌, ◌<◌, ◌≤◌, ◌≡◌, refl, sym, ap, subst, ◌∙◌, List, [], ◌∷◌, ◌++◌, Bytes, codes,
  All, append_assoc, length, inl, inr, arith, map, replicate,
}
use everyone_talk.CString.{c_str, length-c_str-le}
use everyone_talk.Client.Talk.{TalkWindow}
use everyone_talk.Client.Terminal.{
  Out, Cells, Grid, draw, draw-append, paint, IsPrintable, AllSafe, AllSafe-append, newline, text,
  right, left, up, down, Terminal, puts,
}
use everyone_talk.Client.Terminal.Paint.{ShowsAt, ShowsAt-same, over, paint_other}
use everyone_talk.Client.Terminal.Rows.{
  RowsShow, RowsShow-frame, RowsShow-front, RowsShow-back, Frame, Drawn, DrawsRow, outs,
}
use everyone_talk.Client.Drawing.{line, talk_cell, talk_table, print_talk, fill_talk_data, space}
use everyone_talk.Client.Drawing.Clear.{fit-FitsLine, table_Drawn}
use everyone_talk.Client.Drawing.Fill.{length-replicate, fill-Filled, middle_Drawn}
use everyone_talk.Client.Drawing.Talks.{talk_row, shown_part, replicate_split, talk_cell-DrawsRow}
use everyone_talk.Client.Drawing.Screens.{map_const, length-map, Seen, seen_after}

-- The row of the friend's name.
abbrev pub name_row : Bytes → Bytes
name_row name =
    codes "|               " ++ (name ++ (replicate (21 - length name) space ++ codes "|"))

abbrev talk_head : Bytes → List Bytes
talk_head name =
    codes "+------+------------+----------------+"
    ∷ name_row name
    ∷ codes "+------------------------------------|"
    ∷ []

abbrev talk_foot : List Bytes
talk_foot = codes "+------------------------------------+" ∷ []

-- What is to be seen.
abbrev pub talk_screen : TalkWindow → List Bytes
talk_screen w =
    talk_head (c_str w.friend_name) ++ (map (λ m. talk_row (shown_part m)) w.cells ++ talk_foot)

-- The name over the blank row.
painted_name :
    (name : Bytes) (r q : ℕ) (cells : Cells)
    → q ≡ 16
    → length name ≤ 20
    → ShowsAt cells r 0 (talk_row (replicate 36 space))
    → ShowsAt (paint name r q cells) r 0 (name_row name)
painted_name name r q cells at fits s =
    let rest : Bytes = replicate (21 - length name) space in
    let split : replicate 21 space ++ codes "|"
        ≡ replicate (length name) space ++ (rest ++ codes "|") =
      ap (λ u. u ++ codes "|")
        (replicate_split 21 (length name) (21 - length name) (omega (arith, fits)))
      ∙ append_assoc (replicate (length name) space) rest (codes "|") in
    over name (codes "|               ") (replicate (length name) space) (rest ++ codes "|") r q
      cells at (sym (length-replicate (length name) space))
      (subst (λ u. ShowsAt cells r 0 (codes "|               " ++ u)) split s)

all_cells :
    (lines columns : ℕ) (wide : 38 < columns) (cells : List Bytes)
    → All IsPrintable cells
    → All
        (λ m.
          DrawsRow lines columns
            (talk_cell m, talk_row (replicate 36 space), talk_row (shown_part m)))
        cells
all_cells lines columns wide [] h = tt
all_cells lines columns wide (m ∷ cells) (h, hs) = (
  talk_cell-DrawsRow lines columns wide (replicate 36 space) m refl h,
  all_cells lines columns wide cells hs,
)

-- The name is put into the printed table.
abbrev put_name : TalkWindow → List Out
put_name w =
    up 13 ∷ right 16 ∷ text (c_str w.friend_name) ∷ left (16 + length w.friend_name) ∷ down 13 ∷ []

abbrev mids : List Bytes
mids = replicate 10 (talk_row (replicate 36 space))

name_Drawn :
    (lines columns : ℕ) (w : TalkWindow) (g g1 : Grid)
    → 38 < columns
    → IsPrintable (c_str w.friend_name)
    → length (c_str w.friend_name) ≤ 20
    → g.row + 14 < lines
    → Drawn 14 talk_table g g1
    → AllSafe lines columns (put_name w) g1
      × Drawn 14 (talk_head (c_str w.friend_name) ++ (mids ++ talk_foot)) g (draw (put_name w) g1)
name_Drawn lines columns w g g1 wide ok fits low d =
    let name : Bytes = c_str w.friend_name in
    let r1 : g1.row - 13 ≡ suc g.row = omega (arith, d.row_after) in
    let q : g1.col + 16 ≡ 16 = omega (arith, d.col_after) in
    let g2 : Grid = draw (put_name w) g1 in
    let frame : Frame g1.cells g2.cells (suc g.row) 1 = λ i j out.
      paint_other name (g1.row - 13) (g1.col + 16) i j g1.cells
        (elim out [ inl a ↦ omega (arith, a, r1) | inr a ↦ omega (arith, a, r1) ]) in
    let (top, (blank, lower)) = d.rows in
    let named : ShowsAt g2.cells (suc g.row) 0 (name_row name) =
      subst (λ r. ShowsAt (paint name r (g1.col + 16) g1.cells) (suc g.row) 0 (name_row name))
        (sym r1) (painted_name name (suc g.row) (g1.col + 16) g1.cells q fits blank) in
    (
      (
        omega arith,
        (
          (omega arith, omega (arith, d.col_after, wide)),
          (
            (ok, omega (arith, q, fits, wide)),
            (omega arith, ((omega arith, omega (arith, r1, low)), tt)),
          ),
        ),
      ),
      record {
        row_after = omega (arith, d.row_after);
        col_after = omega (arith, d.col_after, length-c_str-le w.friend_name);
        rows = (
          ShowsAt-same g1.cells g2.cells g.row 0 (codes "+------+------------+----------------+")
              (λ j a b. frame g.row j (inl (omega arith))) top,
          (
            named,
            RowsShow-frame g1.cells g2.cells (suc g.row) 1 (suc (suc g.row))
                (codes "+------------------------------------|" ∷ (mids ++ talk_foot)) frame
                (inr (omega arith)) lower,
          ),
        );
        frame = λ i j out.
            frame i j (elim out [ inl a ↦ inl (omega (arith, a)) | inr a ↦ inr (omega (arith, a)) ])
            ∙ d.frame i j out;
      },
    )

pub talks_Drawn :
    (lines columns : ℕ) (w : TalkWindow) (g : Grid)
    → 38 < columns
    → length w.cells ≡ 10
    → All IsPrintable w.cells
    → IsPrintable (c_str w.friend_name)
    → length (c_str w.friend_name) ≤ 20
    → g.col ≡ 0
    → g.row + 14 < lines
    → let os = print_talk ++ fill_talk_data w in
      AllSafe lines columns os g × Drawn 14 (talk_screen w) g (draw os g)
unfolding print_talk fill_talk_data
talks_Drawn lines columns w g wide ten fits ok short c low =
    let old = λ (m : Bytes). talk_row (replicate 36 space) in
    let new = λ (m : Bytes). talk_row (shown_part m) in
    let name : Bytes = c_str w.friend_name in
    let table : List Out = outs (map line talk_table) in
    let rows_out : List Out = up 11 ∷ (outs (map talk_cell w.cells) ++ newline ∷ []) in
    let (safe, printed) =
      table_Drawn lines columns talk_table g (fit-FitsLine columns talk_table wide refl) c low in
    let g1 : Grid = draw table g in
    let (safe', named) = name_Drawn lines columns w g g1 wide ok short low printed in
    let g2 : Grid = draw (put_name w) g1 in
    let empty : RowsShow g2.cells (g.row + 3) (map old w.cells) =
      subst (RowsShow g2.cells (g.row + 3))
        (sym (
          map_const (talk_row (replicate 36 space)) w.cells
          ∙ ap (λ n. replicate n (talk_row (replicate 36 space))) ten))
        (RowsShow-front g2.cells (g.row + 3) mids talk_foot
          (RowsShow-back g2.cells g.row (talk_head name) (mids ++ talk_foot) named.rows)) in
    let (safe'', filled) =
      fill-Filled lines columns talk_cell old new w.cells g2 (g.row + 3)
        (all_cells lines columns wide w.cells fits) ten (omega (arith, named.row_after))
        named.col_after (omega (arith, named.row_after, low)) empty in
    (
      AllSafe-append lines columns table (put_name w ++ rows_out) g safe
          (AllSafe-append lines columns (put_name w) rows_out g1 safe' safe''),
      subst (Drawn 14 (talk_screen w) g) (sym (draw-append table (put_name w ++ rows_out) g)) (
          middle_Drawn 14 (talk_head name) mids (map new w.cells) talk_foot g g2 (draw rows_out g2)
            refl (length-map new w.cells ∙ ten) refl named filled),
    )

-- On any terminal of more than 38 columns, with the cursor at the start of a line and fourteen lines
-- below it: printing the table of the talk and filling it in shows the friend's name in the head, one row
-- for each of the ten cells with the first 36 bytes of its message, and the foot, and the cursor is at
-- the start of the line below. The messages are printable, and so is the name, which has at most twenty
-- bytes.
pub talk_shown :
    (t : Terminal) (s : t.Screen) (w : TalkWindow)
    → 38 < t.columns
    → (t.view s).col ≡ 0
    → (t.view s).row + 14 < t.lines
    → length w.cells ≡ 10
    → All IsPrintable w.cells
    → IsPrintable (c_str w.friend_name)
    → length (c_str w.friend_name) ≤ 20
    → Seen 14 (talk_screen w) (t.view s) (t.view (puts t (print_talk ++ fill_talk_data w) s))
talk_shown t s w wide c low ten fits ok short =
    let (safe, d) = talks_Drawn t.lines t.columns w (t.view s) wide ten fits ok short c low in
    seen_after t (print_talk ++ fill_talk_data w) s 14 (talk_screen w) safe d
