-- ===== src/Client/Drawing/Cleared.antt =====
-- What is left on the screen once a table, or the help, is cleared away.
use everyone_talk.Prelude.{
  ℕ, suc, ◌+◌, ◌-◌, ◌<◌, ◌≤◌, ◌≡◌, ◌≢◌, refl, sym, subst, ◌∙◌, List, [], ◌∷◌, ◌++◌, Bytes, codes,
  All, length, ◌⊎◌, inl, inr, arith, map, true, false, Bool-cases, leb, ltb, ◌&&◌, if◌then◌else◌,
  if_elim,
}
use everyone_talk.CString.{c_str}
use everyone_talk.Client.Friends.{FriendWindow}
use everyone_talk.Client.Talk.{TalkWindow}
use everyone_talk.Client.Terminal.{
  Out, Cells, Grid, step, draw, IsPrintable, AllSafe, Terminal, puts, shown_after, up, erase, paint,
}
use everyone_talk.Client.Terminal.Paint.{paint_other}
use everyone_talk.Client.Terminal.Rows.{Drawn, outs}
use everyone_talk.Client.Drawing.{
  line, space, login_table, print_login, print_friend_list, print_talk, fill_talk_data,
  clear_string_surface, help_cmd, deal_error_cmd,
}
use everyone_talk.Client.Drawing.Clear.{
  fit-FitsLine, table_Drawn, Cleared, Drawn-Cleared, erase_row, erase_other,
}
use everyone_talk.Client.Drawing.Screens.{friends_Drawn}
use everyone_talk.Client.Drawing.Refill.{FitsWindow, fills}
use everyone_talk.Client.Drawing.TalkScreen.{talks_Drawn}

-- The cursor is at the start of that row, that row and those below are blank, so many, and this cell is
-- blank among them and as it was elsewhere.
pub record Blank (n r i j : ℕ) (g g' : Grid) : Type 0 where
  pub row_after : g'.row ≡ r
  pub col_after : g'.col ≡ 0
  pub cell_after : g'.cells i j ≡ (if leb r i && ltb i (r + n) then space else g.cells i j)

inside : (r i n : ℕ) → (leb r i && ltb i (r + n)) ≡ true → (r ≤ i) × (i < r + n)
inside r i n h = (ground (arith, h), ground (arith, h))

outside : (r i n : ℕ) → (leb r i && ltb i (r + n)) ≡ false → (i < r) ⊎ (r + n ≤ i)
outside r i n h = elim (Bool-cases (leb r i)) [
  | inl e ↦ inr (ground (arith, e, h))
  | inr e ↦ inl (ground (arith, e))
]

Cleared-Blank : (n r i j : ℕ) (g g' : Grid) → Cleared n r g g' → Blank n r i j g g'
Cleared-Blank n r i j g g' k = record {
  row_after = k.row_after;
  col_after = k.col_after;
  cell_after =
      if_elim (λ x. g'.cells i j ≡ x) (leb r i && ltb i (r + n))
        (λ e. let (low, high) = inside r i n e in k.blank i j low high)
        (λ e. k.frame i j (outside r i n e));
}

puts-Blank :
    (t : Terminal) (os : List Out) (s : t.Screen) (n i j : ℕ) (ts : List Bytes)
    → AllSafe t.lines t.columns os (t.view s)
    → Drawn n ts (t.view s) (draw os (t.view s))
    → Blank n (t.view s).row i j (t.view s) (t.view (puts t (os ++ clear_string_surface n) s))
puts-Blank t os s n i j ts safe d =
    let (safe', k) = Drawn-Cleared t.lines t.columns n ts os (t.view s) safe d in
    subst (Blank n (t.view s).row i j (t.view s))
      (sym (shown_after t (os ++ clear_string_surface n) s safe'))
      (Cleared-Blank n (t.view s).row i j (t.view s) _ k)

login_Drawn :
    (lines columns : ℕ) (g : Grid)
    → 38 < columns
    → g.col ≡ 0
    → g.row + 9 < lines
    → AllSafe lines columns print_login g × Drawn 9 login_table g (draw print_login g)
unfolding print_login
login_Drawn lines columns g wide c low =
    table_Drawn lines columns login_table g (fit-FitsLine columns login_table wide refl) c low

-- Each of the three screens is as high as what clears it: after the login form and 9 lines cleared,
-- after the friend list, filled in any number of times, and 16, and after the talk filled in and 14, the cursor is back where
-- the screen began, the lines of the screen are blank, and every other cell is as before. The texts
-- fit their columns, and the terminal has more than 38 columns and enough lines.
pub screens_cleared :
    (t : Terminal) (s : t.Screen) (ws : List FriendWindow) (v : TalkWindow) (i j : ℕ)
    → 38 < t.columns
    → (t.view s).col ≡ 0
    → (t.view s).row + 16 < t.lines
    → All FitsWindow ws
    → length v.cells ≡ 10
    → All IsPrintable v.cells
    → IsPrintable (c_str v.friend_name)
    → length (c_str v.friend_name) ≤ 20
    → let g = t.view s in
      Blank 9 g.row i j g (t.view (puts t (print_login ++ clear_string_surface 9) s))
      × Blank 16 g.row i j g
          (t.view (puts t ((print_friend_list ++ fills ws) ++ clear_string_surface 16) s))
      × Blank 14 g.row i j g
          (t.view (puts t ((print_talk ++ fill_talk_data v) ++ clear_string_surface 14) s))
screens_cleared t s ws v i j wide c low fits ten' texts ok short =
    let g = t.view s in
    let (safe, d) = login_Drawn t.lines t.columns g wide c (omega (arith, low)) in
    let (safe', d') = friends_Drawn t.lines t.columns wide g low ws fits c in
    let (safe'', d'') =
      talks_Drawn t.lines t.columns v g wide ten' texts ok short c (omega (arith, low)) in
    (
      puts-Blank t _ s 9 i j _ safe d,
      puts-Blank t _ s 16 i j _ safe' d',
      puts-Blank t _ s 14 i j _ safe'' d'',
    )

-- The help is a table of two lines that is cleared away.
help_Blank :
    (t : Terminal) (s : t.Screen) (c_cmd : Bytes) (r i j : ℕ)
    → 38 < t.columns
    → (t.view s).row ≡ suc r
    → (t.view s).col ≡ 0
    → r + 2 < t.lines
    → IsPrintable (c_str c_cmd)
    → length (c_str c_cmd) < t.columns
    → Blank 2 r i j (t.view s) (t.view (puts t (help_cmd c_cmd) s))
unfolding help_cmd clear_string_surface
help_Blank t s c_cmd r i j wide at c low ok fits =
    let g = t.view s in
    let g0 : Grid = step erase (step (up 1) g) in
    let top : g0.row ≡ r = omega (arith, at) in
    let texts : List Bytes = codes "Usage:" ∷ c_str c_cmd ∷ [] in
    let (usage, _) = fit-FitsLine t.columns (codes "Usage:" ∷ []) wide refl in
    let (safe, d) =
      table_Drawn t.lines t.columns texts g0 (usage, ((ok, fits), tt)) c
        (omega (arith, top, low)) in
    let (safe', k) = Drawn-Cleared t.lines t.columns 2 texts (outs (map line texts)) g0 safe d in
    let k' : Cleared 2 r g0 (draw (help_cmd c_cmd) g) =
      subst (λ a. Cleared 2 a g0 (draw (help_cmd c_cmd) g)) top k in
    subst (Blank 2 r i j g) (sym (shown_after t (help_cmd c_cmd) s (omega arith, (tt, safe'))))
      (record {
        row_after = k'.row_after;
        col_after = k'.col_after;
        cell_after =
            if_elim (λ x. (draw (help_cmd c_cmd) g).cells i j ≡ x) (leb r i && ltb i (r + 2))
              (λ e. let (above, below) = inside r i 2 e in k'.blank i j above below)
              (λ e.
                let out = outside r i 2 e in
                let other : i ≢ g.row - 1 = elim out [
                  | inl a ↦ omega (arith, a, at)
                  | inr a ↦ omega (arith, a, at)
                ] in
                k'.frame i j out ∙ erase_other (g.row - 1) g.col i j g.cells other);
      })

error_Blank :
    (t : Terminal) (s : t.Screen) (r i j : ℕ)
    → 38 < t.columns
    → (t.view s).row ≡ suc r
    → (t.view s).col ≡ 0
    → r + 2 < t.lines
    → Blank 1 r i j (t.view s) (t.view (puts t deal_error_cmd s))
unfolding deal_error_cmd
error_Blank t s r i j wide at c low =
    let g = t.view s in
    let message : Bytes = codes "input error. please input help." in
    let ((ok, fits), _) = fit-FitsLine t.columns (message ∷ []) wide refl in
    let top : g.row - 1 ≡ r = omega (arith, at) in
    let painted : Cells = paint message (g.row - 1) g.col g.cells in
    subst (Blank 1 r i j g)
      (sym (
        shown_after t deal_error_cmd s (
          omega arith,
          (
            (ok, omega (arith, c, wide)),
            (omega (arith, at, low), (omega arith, (omega arith, (tt, tt)))),
          ),
        )))
      (record {
        row_after = omega (arith, at);
        col_after = omega arith;
        cell_after =
            if_elim (λ x. (draw deal_error_cmd g).cells i j ≡ x) (leb r i && ltb i (r + 1))
              (λ e.
                let (above, below) = inside r i 1 e in
                erase_row (suc (g.row - 1) - 1) (0 - 32) i j painted (omega arith)
                  (omega (arith, above, below, at)))
              (λ e.
                let out = outside r i 1 e in
                let other : i ≢ r = elim out [
                  | inl a ↦ omega (arith, a)
                  | inr a ↦ omega (arith, a)
                ] in
                erase_other (suc (g.row - 1) - 1) (0 - 32) i j painted (omega (arith, other, at))
                ∙ paint_other message (g.row - 1) g.col i j g.cells (omega (arith, other, at)));
      })

-- The help and the message of an error, each caused by a command in the line above the cursor, are gone
-- once Enter is pressed: the cursor is at the start of that line, this line (and after the help the
-- next) is blank, and every other cell is as before. The help is printable and shorter than a line.
pub messages_vanish :
    (t : Terminal) (s : t.Screen) (c_cmd : Bytes) (r i j : ℕ)
    → 38 < t.columns
    → (t.view s).row ≡ suc r
    → (t.view s).col ≡ 0
    → r + 2 < t.lines
    → IsPrintable (c_str c_cmd)
    → length (c_str c_cmd) < t.columns
    → Blank 2 r i j (t.view s) (t.view (puts t (help_cmd c_cmd) s))
      × Blank 1 r i j (t.view s) (t.view (puts t deal_error_cmd s))
messages_vanish t s c_cmd r i j wide at c low ok fits =
    (help_Blank t s c_cmd r i j wide at c low ok fits, error_Blank t s r i j wide at c low)
