-- ===== src/Client/Drawing/Clear.antt =====
-- Tables printed and cleared away.
use everyone_talk.Prelude.{
  ℕ, zero, suc, ◌+◌, ◌-◌, ◌<◌, ◌≤◌, ◌≡◌, ◌≢◌, refl, sym, ap, subst, ◌∙◌, List, [], ◌∷◌, ◌++◌, Bytes,
  All, length, Bool-cases, Bool, true, inl, inr, arith, map, leb, ltb, ◌&&◌,
}
use everyone_talk.Client.Terminal.{
  Out, Cells, Grid, step, draw, draw-append, IsPrintable, AllSafe, AllSafe-append, erase_from, up,
  erase,
}
use everyone_talk.Client.Terminal.Paint.{ShowsAt, ShowsAt-paint, paint_other}
use everyone_talk.Client.Terminal.Rows.{RowsShow, Frame, Drawn, outs, rows_Drawn, DrawsRow}
use everyone_talk.Client.Drawing.{line, clear_string_surface, space}

-- A line that fits the screen.
abbrev pub FitsLine : ℕ → Bytes → Type 0
FitsLine columns t = IsPrintable t × (length t < columns)

-- A test for lines of 38 printable bytes at most.
abbrev printable : Bytes → Bool
printable [] = true
printable (b ∷ t) = leb 32 b && ltb b 127 && printable t

abbrev pub fit : List Bytes → Bool
fit [] = true
fit (t ∷ ts) = printable t && leb (length t) 38 && fit ts

printable-IsPrintable : (t : Bytes) → printable t ≡ true → IsPrintable t
printable-IsPrintable [] h = tt
printable-IsPrintable (b ∷ t) h =
    ((ground (arith, h), ground (arith, h)), printable-IsPrintable t (ground (arith, h)))

pub fit-FitsLine :
    (columns : ℕ) (ts : List Bytes) → 38 < columns → fit ts ≡ true → All (FitsLine columns) ts
fit-FitsLine columns [] k h = tt
fit-FitsLine columns (t ∷ ts) k h = (
  (printable-IsPrintable t (ground (arith, h)), ground (arith, h, k)),
  fit-FitsLine columns ts k (ground (arith, h)),
)

pub line-DrawsRow :
    (lines columns : ℕ) (t old : Bytes)
    → FitsLine columns t
    → DrawsRow lines columns (line t, old, t)
line-DrawsRow lines columns t old (p, fits) g c k s = (
  ((p, omega (arith, fits, c)), (omega (arith, k), tt)),
  record {
    row_after = omega arith;
    col_after = refl;
    rows = (
      subst (λ d. ShowsAt (draw (line t) g).cells g.row d t) c
          (ShowsAt-paint t g.row g.col g.cells),
      tt,
    );
    frame = λ i j out. elim out [
      | inl a ↦ paint_other t g.row g.col i j g.cells (omega (arith, a))
      | inr a ↦ paint_other t g.row g.col i j g.cells (omega (arith, a))
    ];
  },
)

map_same : (ts : List Bytes) → map (λ t. t) ts ≡ ts
map_same [] = refl
map_same (t ∷ ts) = ap (t ∷◌) (map_same ts)

empty_rows : (cells : Cells) (r : ℕ) (ts : List Bytes) → RowsShow cells r (map (λ t. []) ts)
empty_rows cells r [] = tt
empty_rows cells r (t ∷ ts) = (tt, empty_rows cells (suc r) ts)

all_lines :
    (lines columns : ℕ) (ts : List Bytes)
    → All (FitsLine columns) ts
    → All (λ t. DrawsRow lines columns (line t, [], t)) ts
all_lines lines columns [] h = tt
all_lines lines columns (t ∷ ts) (h, hs) =
    (line-DrawsRow lines columns t [] h, all_lines lines columns ts hs)

-- A table.
pub table_Drawn :
    (lines columns : ℕ) (ts : List Bytes) (g : Grid)
    → All (FitsLine columns) ts
    → g.col ≡ 0
    → g.row + length ts < lines
    → AllSafe lines columns (outs (map line ts)) g
      × Drawn (length ts) ts g (draw (outs (map line ts)) g)
table_Drawn lines columns ts g h c k =
    let (safe, drawn) =
      rows_Drawn lines columns line (λ t. []) (λ t. t) ts g (all_lines lines columns ts h) c k
        (empty_rows g.cells g.row ts) in
    (safe, subst (λ us. Drawn (length ts) us g (draw (outs (map line ts)) g)) (map_same ts) drawn)

-- So many rows above the cursor are blank, nothing else has changed, and the cursor stands in the first
-- of them.
pub record Cleared (n r : ℕ) (g g' : Grid) : Type 0 where
  pub row_after : g'.row ≡ r
  pub col_after : g'.col ≡ 0
  pub blank : (i j : ℕ) → r ≤ i → i < r + n → g'.cells i j ≡ space
  pub frame : Frame g.cells g'.cells r n

pub erase_row : (r c i j : ℕ) (cells : Cells) → c ≡ 0 → i ≡ r → erase_from r c cells i j ≡ space
erase_row r c i j cells z h = ground (arith, z, h)

pub erase_other : (r c i j : ℕ) (cells : Cells) → i ≢ r → erase_from r c cells i j ≡ cells i j
erase_other r c i j cells h = ground (arith, h)

pub clear_Cleared :
    (lines columns n r : ℕ) (g : Grid)
    → g.row ≡ r + n
    → g.col ≡ 0
    → AllSafe lines columns (clear_string_surface n) g
      × Cleared n r g (draw (clear_string_surface n) g)
unfolding clear_string_surface
clear_Cleared lines columns zero r g h c = (
  tt,
  record {
    row_after = omega (arith, h);
    col_after = c;
    blank = λ i j a b. absurd (omega (arith, a, b));
    frame = λ i j out. refl;
  },
)
clear_Cleared lines columns (suc n) r g h c =
    let g1 : Grid = step erase (step (up 1) g) in
    let (safe, k) = clear_Cleared lines columns n r g1 (omega (arith, h)) c in
    (
      (omega arith, (tt, safe)),
      record {
        row_after = k.row_after;
        col_after = k.col_after;
        blank = λ i j a b. elim (Bool-cases (ltb i (r + n))) [
          | inl e ↦ k.blank i j a (ground (arith, e))
          | inr e ↦
              k.frame i j (inr (ground (arith, e)))
              ∙ erase_row (g.row - 1) g.col i j g.cells c (ground (arith, e, h, b))
        ];
        frame = λ i j out.
            k.frame i j (elim out [ inl a ↦ inl a | inr a ↦ inr (omega (arith, a)) ])
            ∙ erase_other (g.row - 1) g.col i j g.cells
                (elim out [ inl a ↦ omega (arith, a, h) | inr a ↦ omega (arith, a, h) ]);
      },
    )

-- Whatever was drawn in so many rows, clearing them leaves them blank and all else as it was.
pub Drawn-Cleared :
    (lines columns n : ℕ) (ts : List Bytes) (os : List Out) (g : Grid)
    → AllSafe lines columns os g
    → Drawn n ts g (draw os g)
    → AllSafe lines columns (os ++ clear_string_surface n) g
      × Cleared n g.row g (draw (os ++ clear_string_surface n) g)
Drawn-Cleared lines columns n ts os g safe drawn =
    let (safe', k) =
      clear_Cleared lines columns n g.row (draw os g) drawn.row_after drawn.col_after in
    (
      AllSafe-append lines columns os (clear_string_surface n) g safe safe',
      subst (Cleared n g.row g) (sym (draw-append os (clear_string_surface n) g)) (record {
        row_after = k.row_after;
        col_after = k.col_after;
        blank = k.blank;
        frame = λ i j out. k.frame i j out ∙ drawn.frame i j out;
      }),
    )
