-- ===== src/Client/Drawing/Talks.antt =====
-- The talk window as `print_talk` and `fill_talk_data` put it on the screen.
use everyone_talk.Prelude.{
  ℕ, zero, suc, ◌+◌, ◌-◌, ◌<◌, ◌≤◌, ◌≡◌, ◌≢◌, refl, sym, ap, subst, ◌∙◌, [], ◌∷◌, ◌++◌, Bytes,
  codes, append_assoc, length, inl, inr, arith, replicate, take,
}
use everyone_talk.Client.Terminal.{Cells, paint, IsPrintable}
use everyone_talk.Client.Terminal.Paint.{ShowsAt, over, paint_other}
use everyone_talk.Client.Terminal.Rows.{DrawsRow}
use everyone_talk.Client.Drawing.{talk_cell, space, pad_right}
use everyone_talk.Client.Drawing.Fill.{length-replicate, replicate-IsPrintable}

-- A row of the talk window between its bars.
abbrev pub talk_row : Bytes → Bytes
talk_row a = codes "|" ++ (a ++ codes "|")

-- The part of a message that is shown, with spaces behind it.
abbrev pub shown_part : Bytes → Bytes
shown_part m = pad_right 36 (take 36 m)

length-take_le : (n : ℕ) (m : Bytes) → length (take n m) ≤ n
length-take_le zero m = omega arith
length-take_le (suc n) [] = omega arith
length-take_le (suc n) (b ∷ m) = omega (arith, length-take_le n m)

take-IsPrintable : (n : ℕ) (m : Bytes) → IsPrintable m → IsPrintable (take n m)
take-IsPrintable zero m h = tt
take-IsPrintable (suc n) [] h = tt
take-IsPrintable (suc n) (b ∷ m) (h, hs) = (h, take-IsPrintable n m hs)

pub replicate_split :
    (t k n : ℕ) → t ≡ k + n → replicate t space ≡ replicate k space ++ replicate n space
replicate_split t zero n h = let same : t ≡ n = omega (arith, h) in ap (λ m. replicate m space) same
replicate_split t (suc k) n h =
    let same : t ≡ suc (k + n) = omega (arith, h) in
    ap (λ m. replicate m space) same ∙ ap (space ∷◌) (replicate_split (k + n) k n refl)

-- Spaces over the row, and then the message over the spaces.
painted_talk :
    (a m : Bytes) (r p q : ℕ) (cells : Cells)
    → p ≡ 1
    → q ≡ 1
    → length a ≡ 36
    → length m ≤ 36
    → ShowsAt cells r 0 (talk_row a)
    → ShowsAt (paint m r q (paint (replicate 36 space) r p cells)) r 0 (talk_row (pad_right 36 m))
painted_talk a m r p q cells at at' wide fits s =
    let c1 : Cells = paint (replicate 36 space) r p cells in
    let rest : Bytes = replicate (36 - length m) space in
    let one : ShowsAt c1 r 0 (codes "|" ++ (replicate 36 space ++ codes "|")) =
      over (replicate 36 space) (codes "|") a (codes "|") r p cells at (sym wide) s in
    let split : replicate 36 space ++ codes "|"
        ≡ replicate (length m) space ++ (rest ++ codes "|") =
      ap (λ u. u ++ codes "|") (replicate_split 36 (length m) (36 - length m) (omega (arith, fits)))
      ∙ append_assoc (replicate (length m) space) rest (codes "|") in
    let two : ShowsAt (paint m r q c1) r 0 (codes "|" ++ (m ++ (rest ++ codes "|"))) =
      over m (codes "|") (replicate (length m) space) (rest ++ codes "|") r q c1 at'
        (sym (length-replicate (length m) space))
        (subst (λ u. ShowsAt c1 r 0 (codes "|" ++ u)) split one) in
    subst (λ u. ShowsAt (paint m r q c1) r 0 (codes "|" ++ u))
      (sym (append_assoc m rest (codes "|"))) two

module _ (lines columns : ℕ) (wide : 38 < columns) where
  -- One round of the loop.
  pub talk_cell-DrawsRow :
      (a m : Bytes)
      → length a ≡ 36
      → IsPrintable m
      → DrawsRow lines columns (talk_cell m, talk_row a, talk_row (shown_part m))
  unfolding talk_cell
  talk_cell-DrawsRow a m full ok g c low s =
      let at1 : g.col + 1 ≡ 1 = omega (arith, c) in
      let back : g.col + 1 + 36 - 36 ≡ 1 = omega (arith, c) in
      let short = length-take_le 36 m in
      (
        (
          (omega arith, omega (arith, c, wide)),
          (
            (replicate-IsPrintable 36, omega (arith, c, wide)),
            (
              omega arith,
              (
                (take-IsPrintable 36 m ok, omega (arith, back, short, wide)),
                (omega (arith, low), tt),
              ),
            ),
          ),
        ),
        record {
          row_after = omega arith;
          col_after = refl;
          rows = (painted_talk a (take 36 m) g.row _ _ g.cells at1 back full short s, tt);
          frame = λ i j out.
              let other : i ≢ g.row = elim out [
                | inl x ↦ omega (arith, x)
                | inr x ↦ omega (arith, x)
              ] in
              paint_other (take 36 m) g.row _ i j _ other
              ∙ paint_other (replicate 36 space) g.row _ i j g.cells other;
        },
      )
