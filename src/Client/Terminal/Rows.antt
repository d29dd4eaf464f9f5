-- ===== src/Client/Terminal/Rows.antt =====
-- Rows drawn one below the other.
use everyone_talk.Prelude.{
  ℕ, suc, ◌+◌, ◌<◌, ◌≤◌, ◌≡◌, refl, sym, subst, ◌∙◌, List, [], ◌∷◌, ◌++◌, Bytes, All, length, ◌⊎◌,
  inl, inr, arith, map,
}
use everyone_talk.Client.Terminal.{Out, Cells, Grid, draw, draw-append, AllSafe, AllSafe-append}
use everyone_talk.Client.Terminal.Paint.{ShowsAt, ShowsAt-same}

-- From a row on, each row begins with its text.
abbrev pub RowsShow : Cells → ℕ → List Bytes → Type 0
RowsShow cells r [] = Unit {0}
RowsShow cells r (t ∷ ts) = ShowsAt cells r 0 t × RowsShow cells (suc r) ts

-- Nothing changes but in so many rows.
abbrev pub Frame : Cells → Cells → ℕ → ℕ → Type 0
Frame cells cells' r n = (i j : ℕ) → (i < r) ⊎ (r + n ≤ i) → cells' i j ≡ cells i j

pub RowsShow-frame :
    (cells cells' : Cells) (r n a : ℕ) (ts : List Bytes)
    → Frame cells cells' r n
    → (a + length ts ≤ r) ⊎ (r + n ≤ a)
    → RowsShow cells a ts
    → RowsShow cells' a ts
RowsShow-frame cells cells' r n a [] f h k = tt
RowsShow-frame cells cells' r n a (t ∷ ts) f (inl h) (k, ks) = (
  ShowsAt-same cells cells' a 0 t (λ j x y. f a j (inl (omega (arith, h)))) k,
  RowsShow-frame cells cells' r n (suc a) ts f (inl (omega (arith, h))) ks,
)
RowsShow-frame cells cells' r n a (t ∷ ts) f (inr h) (k, ks) = (
  ShowsAt-same cells cells' a 0 t (λ j x y. f a j (inr h)) k,
  RowsShow-frame cells cells' r n (suc a) ts f (inr (omega (arith, h))) ks,
)

pub RowsShow-append :
    (cells : Cells) (r : ℕ) (ts us : List Bytes)
    → RowsShow cells r ts
    → RowsShow cells (r + length ts) us
    → RowsShow cells r (ts ++ us)
RowsShow-append cells r [] us h k = subst (λ a. RowsShow cells a us) (omega arith) k
RowsShow-append cells r (t ∷ ts) us (h, hs) k =
    (h, RowsShow-append cells (suc r) ts us hs (subst (λ a. RowsShow cells a us) (omega arith) k))

pub RowsShow-front :
    (cells : Cells) (r : ℕ) (ts us : List Bytes) → RowsShow cells r (ts ++ us) → RowsShow cells r ts
RowsShow-front cells r [] us h = tt
RowsShow-front cells r (t ∷ ts) us (h, hs) = (h, RowsShow-front cells (suc r) ts us hs)

pub RowsShow-back :
    (cells : Cells) (r : ℕ) (ts us : List Bytes)
    → RowsShow cells r (ts ++ us)
    → RowsShow cells (r + length ts) us
RowsShow-back cells r [] us h = subst (λ a. RowsShow cells a us) (omega arith) h
RowsShow-back cells r (t ∷ ts) us (h, hs) =
    subst (λ a. RowsShow cells a us) (omega arith) (RowsShow-back cells (suc r) ts us hs)

-- From one grid to the other these rows were drawn, so many, and nothing else, and the cursor is at the
-- start of the row below.
pub record Drawn (n : ℕ) (ts : List Bytes) (g g' : Grid) : Type 0 where
  pub row_after : g'.row ≡ g.row + n
  pub col_after : g'.col ≡ 0
  pub rows : RowsShow g'.cells g.row ts
  pub frame : Frame g.cells g'.cells g.row n

-- One row and those below.
pub Drawn-then :
    (n : ℕ) (t : Bytes) (ts : List Bytes) (g g1 g2 : Grid)
    → Drawn 1 (t ∷ []) g g1
    → Drawn n ts g1 g2
    → Drawn (suc n) (t ∷ ts) g g2
Drawn-then n t ts g g1 g2 h k = record {
  row_after = omega (arith, h.row_after, k.row_after);
  col_after = k.col_after;
  rows = (
    ShowsAt-same g1.cells g2.cells g.row 0 t
        (λ j a b. k.frame g.row j (inl (omega (arith, h.row_after)))) h.rows.0,
    subst (λ a. RowsShow g2.cells a ts) (omega (arith, h.row_after)) k.rows,
  );
  frame = λ i j out. elim out [
    | inl a ↦ k.frame i j (inl (omega (arith, a, h.row_after))) ∙ h.frame i j (inl a)
    | inr a ↦
        k.frame i j (inr (omega (arith, a, h.row_after))) ∙ h.frame i j (inr (omega (arith, a)))
  ];
}

-- One sequence for each row.
abbrev pub outs : List (List Out) → List Out
outs [] = []
outs (o ∷ os) = o ++ outs os

module _ (lines columns : ℕ) where
  -- A sequence that draws the row where the cursor stands at the start, over what it showed.
  abbrev pub DrawsRow : List Out × Bytes × Bytes → Type 0
  DrawsRow (os, old, new) =
      (g : Grid)
      → g.col ≡ 0
      → g.row + 1 < lines
      → ShowsAt g.cells g.row 0 old
      → AllSafe lines columns os g × Drawn 1 (new ∷ []) g (draw os g)

  pub rows_Drawn :
      {A : Type 0} (os : A → List Out) (old new : A → Bytes) (xs : List A) (g : Grid)
      → All (λ x. DrawsRow (os x, old x, new x)) xs
      → g.col ≡ 0
      → g.row + length xs < lines
      → RowsShow g.cells g.row (map old xs)
      → AllSafe lines columns (outs (map os xs)) g
        × Drawn (length xs) (map new xs) g (draw (outs (map os xs)) g)
  rows_Drawn os old new [] g h c k s =
      (tt, record { row_after = omega arith; col_after = c; rows = tt; frame = λ i j out. refl })
  rows_Drawn os old new (x ∷ xs) g (h, hs) c k (s, ss) =
      let (safe, first) = h g c (omega (arith, k)) s in
      let g1 : Grid = draw (os x) g in
      let next_row : suc g.row ≡ g1.row = omega (arith, first.row_after) in
      let below : RowsShow g1.cells g1.row (map old xs) =
        subst (λ a. RowsShow g1.cells a (map old xs)) next_row
          (RowsShow-frame g.cells g1.cells g.row 1 (suc g.row) (map old xs) first.frame
            (inr (omega arith)) ss) in
      let (safe', rest) =
        rows_Drawn os old new xs g1 hs first.col_after (omega (arith, k, first.row_after)) below in
      let rest_out : List Out = outs (map os xs) in
      (
        AllSafe-append lines columns (os x) rest_out g safe safe',
        subst (Drawn (suc (length xs)) (new x ∷ map new xs) g) (sym (draw-append (os x) rest_out g))
            (Drawn-then (length xs) (new x) (map new xs) g g1 (draw rest_out g1) first rest),
      )
