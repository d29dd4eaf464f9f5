-- ===== src/Client/Drawing/Friends.antt =====
-- The friend list as `print_friend_list` and `fill_friend_data` put it on the screen.
use everyone_talk.Prelude.{
  ℕ, ◌+◌, ◌-◌, ◌<◌, ◌≤◌, ◌≡◌, ◌≢◌, refl, sym, ap, subst, ◌∙◌, [], ◌∷◌, ◌++◌, Bytes, codes,
  All-append, length, length-append, inl, inr, arith, replicate, Bool-cases, append_assoc,
  if◌then◌else◌,
}
use everyone_talk.Int.{pos, int_eq, print_int}
use everyone_talk.Int.RoundTrip.{print_int-All}
use everyone_talk.CString.{c_str}
use everyone_talk.Common.{FriendList}
use everyone_talk.Client.Terminal.{
  Cells, Grid, draw, paint, IsPrintable, AllSafe, newline, text, right,
}
use everyone_talk.Client.Terminal.Paint.{ShowsAt, over, paint_other}
use everyone_talk.Client.Terminal.Rows.{Drawn, DrawsRow}
use everyone_talk.Client.Drawing.{friend_cell, space, pad_left, pad_right}
use everyone_talk.Client.Drawing.Fill.{length-replicate, replicate-IsPrintable}

-- What a row of the friend list holds between its bars.
pub record Fields : Type 0 where
  pub id : Bytes
  pub user_name : Bytes
  pub state : Bytes

pub record IsWide (f : Fields) : Type 0 where
  pub id_wide : length f.id ≡ 2
  pub name_wide : length f.user_name ≡ 10
  pub state_wide : length f.state ≡ 6

abbrev pub friend_row : Fields → Bytes
friend_row f =
    codes "|  "
    ++ (f.id ++ (codes "    |  " ++ (f.user_name ++ (codes "  |  " ++ (f.state ++ codes " |")))))

-- A friend's three columns.
abbrev pub fields_of : FriendList → Fields
fields_of f = record {
  id = pad_left 2 (print_int f.id);
  user_name = pad_right 10 (c_str f.user_name);
  state = pad_right 6 (print_int f.state);
}

-- A cell that is not in use leaves its row as it is.
abbrev pub refilled : Fields → FriendList → Fields
refilled old f = if int_eq f.id (pos 0) then old else fields_of f

-- A friend whose texts fit the columns.
pub record FitsRow (f : FriendList) : Type 0 where
  pub id_fits : length (print_int f.id) ≤ 2
  pub name_fits : length (c_str f.user_name) ≤ 10
  pub name_printable : IsPrintable (c_str f.user_name)
  pub state_fits : length (print_int f.state) ≤ 6

length-pad_left : (n : ℕ) (s : Bytes) → length s ≤ n → length (pad_left n s) ≡ n
length-pad_left n s h = omega (
  arith,
  length-append (replicate (n - length s) space) s,
  length-replicate (n - length s) space,
  h,
)

length-pad_right : (n : ℕ) (s : Bytes) → length s ≤ n → length (pad_right n s) ≡ n
length-pad_right n s h = omega (
  arith,
  length-append s (replicate (n - length s) space),
  length-replicate (n - length s) space,
  h,
)

pub fields_of-IsWide : (f : FriendList) → FitsRow f → IsWide (fields_of f)
fields_of-IsWide f h = record {
  id_wide = length-pad_left 2 (print_int f.id) h.id_fits;
  name_wide = length-pad_right 10 (c_str f.user_name) h.name_fits;
  state_wide = length-pad_right 6 (print_int f.state) h.state_fits;
}

-- The front of a row as one text.
front :
    (a b w : Bytes)
    → codes "|  " ++ (a ++ (codes "    |  " ++ (b ++ (codes "  |  " ++ w))))
      ≡ (codes "|  " ++ (a ++ (codes "    |  " ++ (b ++ codes "  |  ")))) ++ w
front a b w =
    ap (λ u. codes "|  " ++ u)
      (ap (λ u. a ++ (codes "    |  " ++ u)) (sym (append_assoc b (codes "  |  ") w))
        ∙ sym (append_assoc a (codes "    |  " ++ (b ++ codes "  |  ")) w))

-- The three texts painted over those of the row.
painted_row :
    (old new : Fields) (r p q m : ℕ) (cells : Cells)
    → p ≡ 3
    → q ≡ 12
    → m ≡ 27
    → IsWide old
    → IsWide new
    → ShowsAt cells r 0 (friend_row old)
    → ShowsAt
        (paint new.state r m (paint new.user_name r q (paint new.id r p cells)))
        r
        0
        (friend_row new)
painted_row old new r p q m cells at3 at12 at27 h k s =
    let c1 : Cells = paint new.id r p cells in
    let c2 : Cells = paint new.user_name r q c1 in
    let z1 : Bytes = codes "  |  " ++ (old.state ++ codes " |") in
    let tail1 : Bytes = codes "    |  " ++ (old.user_name ++ z1) in
    let x2 : Bytes = codes "|  " ++ (new.id ++ codes "    |  ") in
    let x3 : Bytes =
      codes "|  " ++ (new.id ++ (codes "    |  " ++ (new.user_name ++ codes "  |  "))) in
    let assoc =
      λ (w : Bytes). ap (λ u. codes "|  " ++ u) (append_assoc new.id (codes "    |  ") w) in
    let one : ShowsAt c1 r 0 (codes "|  " ++ (new.id ++ tail1)) =
      over new.id (codes "|  ") old.id tail1 r p cells at3 (k.id_wide ∙ sym h.id_wide) s in
    let two : ShowsAt c2 r 0 (x2 ++ (new.user_name ++ z1)) =
      over new.user_name x2 old.user_name z1 r q c1
        (omega (arith, length-append new.id (codes "    |  "), k.id_wide, at12))
        (k.name_wide ∙ sym h.name_wide)
        (subst (ShowsAt c1 r 0) (sym (assoc (old.user_name ++ z1))) one) in
    let three : ShowsAt (paint new.state r m c2) r 0 (x3 ++ (new.state ++ codes " |")) =
      over new.state x3 old.state (codes " |") r m c2
        (omega (
          arith,
          length-append new.id (codes "    |  " ++ (new.user_name ++ codes "  |  ")),
          length-append new.user_name (codes "  |  "),
          k.id_wide,
          k.name_wide,
          at27,
        ))
        (k.state_wide ∙ sym h.state_wide)
        (subst (ShowsAt c2 r 0)
          (assoc (new.user_name ++ z1) ∙ front new.id new.user_name (old.state ++ codes " |"))
          two) in
    subst (ShowsAt (paint new.state r m c2) r 0)
      (sym (front new.id new.user_name (new.state ++ codes " |"))) three

module _ (lines columns : ℕ) (wide : 38 < columns) where
  -- A cell in use.
  used_cell :
      (old : Fields) (f : FriendList) (g : Grid)
      → IsWide old
      → FitsRow f
      → g.col ≡ 0
      → g.row + 1 < lines
      → ShowsAt g.cells g.row 0 (friend_row old)
      → let new = fields_of f in
        let os =
          right 3
          ∷ text new.id
          ∷ right 7
          ∷ text new.user_name
          ∷ right 5
          ∷ text new.state
          ∷ newline
          ∷ [] in
        AllSafe lines columns os g × Drawn 1 (friend_row new ∷ []) g (draw os g)
  used_cell old f g h k c low s =
      let new : Fields = fields_of f in
      let w = fields_of-IsWide f k in
      let blanks = replicate-IsPrintable in
      let at3 : g.col + 3 ≡ 3 = omega (arith, c) in
      let at12 : g.col + 3 + length new.id + 7 ≡ 12 = omega (arith, c, w.id_wide) in
      let at27 : g.col + 3 + length new.id + 7 + length new.user_name + 5 ≡ 27 =
        omega (arith, c, w.id_wide, w.name_wide) in
      (
        (
          (omega arith, omega (arith, c, wide)),
          (
            (
              All-append _ (replicate (2 - length (print_int f.id)) space) _ (blanks _)
                  (print_int-All f.id),
              omega (arith, c, wide, w.id_wide),
            ),
            (
              (omega arith, omega (arith, at12, wide)),
              (
                (
                  All-append _ (c_str f.user_name) _ k.name_printable (blanks _),
                  omega (arith, at12, wide, w.name_wide),
                ),
                (
                  (omega arith, omega (arith, at27, wide)),
                  (
                    (
                      All-append _ (print_int f.state) _ (print_int-All f.state) (blanks _),
                      omega (arith, at27, wide, w.state_wide),
                    ),
                    (omega (arith, low), tt),
                  ),
                ),
              ),
            ),
          ),
        ),
        record {
          row_after = omega arith;
          col_after = refl;
          rows = (painted_row old new g.row _ _ _ g.cells at3 at12 at27 h w s, tt);
          frame = λ i j out.
              let other : i ≢ g.row = elim out [
                | inl a ↦ omega (arith, a)
                | inr a ↦ omega (arith, a)
              ] in
              paint_other new.state g.row _ i j _ other
              ∙ paint_other new.user_name g.row _ i j _ other
              ∙ paint_other new.id g.row _ i j g.cells other;
        },
      )

  -- One round of the loop.
  pub friend_cell-DrawsRow :
      (old : Fields) (f : FriendList)
      → IsWide old
      → FitsRow f
      → DrawsRow lines columns (friend_cell f, friend_row old, friend_row (refilled old f))
  unfolding friend_cell
  friend_cell-DrawsRow old f h k g c low s = elim (Bool-cases (int_eq f.id (pos 0))) [
    | inl e ↦ rw e (
      (omega (arith, low), tt),
      record { row_after = omega arith; col_after = refl; rows = (s, tt); frame = λ i j out. refl },
    )
    | inr e ↦ rw e (used_cell old f g h k c low s)
  ]
