-- ===== src/Client/Drawing/Fill.antt =====
-- The ten rows of a window, filled in between the lines of a table.
use everyone_talk.Prelude.{
  ℕ, zero, suc, ◌+◌, ◌<◌, ◌≡◌, refl, sym, ap, subst, ◌∙◌, List, [], ◌∷◌, ◌++◌, Bytes, All, length,
  inl, inr, arith, map, replicate,
}
use everyone_talk.Client.Terminal.{
  Out, Grid, step, draw, draw-append, IsPrintable, AllSafe, AllSafe-append, newline, up,
}
use everyone_talk.Client.Terminal.Rows.{
  RowsShow, RowsShow-frame, RowsShow-append, RowsShow-front, RowsShow-back, Frame, Drawn, outs,
  rows_Drawn, DrawsRow,
}
use everyone_talk.Client.Drawing.{space}

pub length-replicate : (n : ℕ) (b : ℕ) → length (replicate n b) ≡ n
length-replicate zero b = refl
length-replicate (suc n) b = ap suc (length-replicate n b)

pub replicate-IsPrintable : (n : ℕ) → IsPrintable (replicate n space)
replicate-IsPrintable zero = tt
replicate-IsPrintable (suc n) = ((omega arith, omega arith), replicate-IsPrintable n)

-- The ten rows, and the cursor back where it was.
pub record Filled (r : ℕ) (ts : List Bytes) (g g' : Grid) : Type 0 where
  pub row_after : g'.row ≡ g.row
  pub col_after : g'.col ≡ 0
  pub rows : RowsShow g'.cells r ts
  pub frame : Frame g.cells g'.cells r 10

module _ (lines columns : ℕ) {A : Type 0} (os : A → List Out) (old new : A → Bytes) where
  abbrev fill : List A → List Out
  fill xs = up 11 ∷ (outs (map os xs) ++ newline ∷ [])

  pub fill-Filled :
      (xs : List A) (g : Grid) (r : ℕ)
      → All (λ x. DrawsRow lines columns (os x, old x, new x)) xs
      → length xs ≡ 10
      → g.row ≡ r + 11
      → g.col ≡ 0
      → g.row < lines
      → RowsShow g.cells r (map old xs)
      → AllSafe lines columns (fill xs) g × Filled r (map new xs) g (draw (fill xs) g)
  fill-Filled xs g r h n at c k s =
      let g1 : Grid = step (up 11) g in
      let top : r ≡ g1.row = omega (arith, at) in
      let body : List Out = outs (map os xs) in
      let (safe, d) =
        rows_Drawn lines columns os old new xs g1 h c (omega (arith, at, n, k))
          (subst (λ a. RowsShow g.cells a (map old xs)) top s) in
      let ten : Frame g.cells (draw body g1).cells r 10 =
        subst (Frame g.cells (draw body g1).cells r) n
          (subst (λ a. Frame g.cells (draw body g1).cells a (length xs)) (sym top) d.frame) in
      (
        (
          omega arith,
          AllSafe-append lines columns body (newline ∷ []) g1 safe
              (omega (arith, d.row_after, n, at, k), tt),
        ),
        subst (Filled r (map new xs) g) (sym (draw-append body (newline ∷ []) g1)) (record {
          row_after = omega (arith, d.row_after, n, at);
          col_after = refl;
          rows = subst (λ a. RowsShow (draw body g1).cells a (map new xs)) (sym top) d.rows;
          frame = ten;
        }),
      )

-- A table whose ten rows in the middle are filled in.
pub middle_Drawn :
    (n : ℕ) (head mids news foot : List Bytes) (g g1 g2 : Grid)
    → length mids ≡ 10
    → length news ≡ 10
    → n ≡ length head + 10 + length foot
    → Drawn n (head ++ (mids ++ foot)) g g1
    → Filled (g.row + length head) news g1 g2
    → Drawn n (head ++ (news ++ foot)) g g2
middle_Drawn n head mids news foot g g1 g2 old_ten new_ten size d f =
    let r : ℕ = g.row + length head in
    let lower = RowsShow-back g1.cells g.row head (mids ++ foot) d.rows in
    let last = RowsShow-back g1.cells r mids foot lower in
    record {
      row_after = f.row_after ∙ d.row_after;
      col_after = f.col_after;
      rows =
          RowsShow-append g2.cells g.row head (news ++ foot)
            (RowsShow-frame g1.cells g2.cells r 10 g.row head f.frame (inl (omega arith))
              (RowsShow-front g1.cells g.row head (mids ++ foot) d.rows))
            (RowsShow-append g2.cells r news foot f.rows (
              subst (λ m. RowsShow g2.cells (r + m) foot) (old_ten ∙ sym new_ten)
                (RowsShow-frame g1.cells g2.cells r 10 (r + length mids) foot f.frame
                  (inr (omega (arith, old_ten))) last)));
      frame = λ i j out.
          f.frame i j
            (elim out [ inl a ↦ inl (omega (arith, a)) | inr a ↦ inr (omega (arith, a, size)) ])
          ∙ d.frame i j out;
    }
