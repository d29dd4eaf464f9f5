-- ===== src/Client/Terminal/Paint.antt =====
-- What painting a text and erasing keep, and what they show.
use everyone_talk.Prelude.{
  ℕ, suc, ◌+◌, ◌<◌, ◌≤◌, ◌≡◌, ◌≢◌, refl, sym, ◌∙◌, [], ◌∷◌, ◌++◌, Bytes, length, ◌⊎◌, inl, inr,
  arith, subst,
}
use everyone_talk.Client.Terminal.{Cells, paint}

-- A text stands in a row from a column on.
abbrev pub ShowsAt : Cells → ℕ → ℕ → Bytes → Type 0
ShowsAt cells r c [] = Unit {0}
ShowsAt cells r c (x ∷ t) = (cells r c ≡ x) × ShowsAt cells r (suc c) t

pub paint_other :
    (t : Bytes) (r c i j : ℕ) (cells : Cells) → i ≢ r → paint t r c cells i j ≡ cells i j
paint_other [] r c i j cells h = refl
paint_other (x ∷ t) r c i j cells h = ground (arith, paint_other t r (suc c) i j cells h)

pub paint_left :
    (t : Bytes) (r c i j : ℕ) (cells : Cells) → j < c → paint t r c cells i j ≡ cells i j
paint_left [] r c i j cells h = refl
paint_left (x ∷ t) r c i j cells h =
    ground (arith, paint_left t r (suc c) i j cells (omega (arith, h)))

pub paint_right :
    (t : Bytes) (r c i j : ℕ) (cells : Cells) → c + length t ≤ j → paint t r c cells i j ≡ cells i j
paint_right [] r c i j cells h = refl
paint_right (x ∷ t) r c i j cells h =
    ground (arith, paint_right t r (suc c) i j cells (omega (arith, h)), h)

-- A text behind another.
pub ShowsAt-append :
    (cells : Cells) (r c : ℕ) (t u : Bytes)
    → ShowsAt cells r c t
    → ShowsAt cells r (c + length t) u
    → ShowsAt cells r c (t ++ u)
ShowsAt-append cells r c [] u h k = subst (λ d. ShowsAt cells r d u) (omega arith) k
ShowsAt-append cells r c (x ∷ t) u (h, hs) k =
    (h, ShowsAt-append cells r (suc c) t u hs (subst (λ d. ShowsAt cells r d u) (omega arith) k))

pub ShowsAt-front :
    (cells : Cells) (r c : ℕ) (t u : Bytes) → ShowsAt cells r c (t ++ u) → ShowsAt cells r c t
ShowsAt-front cells r c [] u h = tt
ShowsAt-front cells r c (x ∷ t) u (h, hs) = (h, ShowsAt-front cells r (suc c) t u hs)

pub ShowsAt-back :
    (cells : Cells) (r c : ℕ) (t u : Bytes)
    → ShowsAt cells r c (t ++ u)
    → ShowsAt cells r (c + length t) u
ShowsAt-back cells r c [] u h = subst (λ d. ShowsAt cells r d u) (omega arith) h
ShowsAt-back cells r c (x ∷ t) u (h, hs) =
    subst (λ d. ShowsAt cells r d u) (omega arith) (ShowsAt-back cells r (suc c) t u hs)

-- The same cells.
pub ShowsAt-same :
    (cells cells' : Cells) (r c : ℕ) (t : Bytes)
    → ((j : ℕ) → c ≤ j → j < c + length t → cells' r j ≡ cells r j)
    → ShowsAt cells r c t
    → ShowsAt cells' r c t
ShowsAt-same cells cells' r c [] h k = tt
ShowsAt-same cells cells' r c (x ∷ t) h (k, ks) = (
  h c (omega arith) (omega arith) ∙ k,
  ShowsAt-same cells cells' r (suc c) t (λ j a b. h j (omega (arith, a)) (omega (arith, b))) ks,
)

-- A painted text is shown.
pub ShowsAt-paint : (t : Bytes) (r c : ℕ) (cells : Cells) → ShowsAt (paint t r c cells) r c t
ShowsAt-paint [] r c cells = tt
ShowsAt-paint (x ∷ t) r c cells = (
  ground arith,
  ShowsAt-same (paint t r (suc c) cells) (paint (x ∷ t) r c cells) r (suc c) t
      (λ j a b. ground (arith, a)) (ShowsAt-paint t r (suc c) cells),
)

-- Painting beside a text leaves it.
pub ShowsAt-beside :
    (t u : Bytes) (r c d : ℕ) (cells : Cells)
    → (d + length u ≤ c) ⊎ (c + length t ≤ d)
    → ShowsAt cells r d u
    → ShowsAt (paint t r c cells) r d u
ShowsAt-beside t u r c d cells (inl h) k =
    ShowsAt-same cells (paint t r c cells) r d u
      (λ j a b. paint_left t r c r j cells (omega (arith, h, b))) k
ShowsAt-beside t u r c d cells (inr h) k =
    ShowsAt-same cells (paint t r c cells) r d u
      (λ j a b. paint_right t r c r j cells (omega (arith, h, a))) k

-- A text painted over the middle of another.
pub ShowsAt-over :
    (t x y z : Bytes) (r c : ℕ) (cells : Cells)
    → length t ≡ length y
    → ShowsAt cells r c (x ++ (y ++ z))
    → ShowsAt (paint t r (c + length x) cells) r c (x ++ (t ++ z))
ShowsAt-over t x y z r c cells same h =
    let back = ShowsAt-back cells r c x (y ++ z) h in
    let far =
      subst (λ n. ShowsAt cells r (c + length x + n) z) (sym same)
        (ShowsAt-back cells r (c + length x) y z back) in
    let painted : Cells = paint t r (c + length x) cells in
    ShowsAt-append painted r c x (t ++ z)
      (ShowsAt-beside t x r (c + length x) c cells (inl (omega arith))
        (ShowsAt-front cells r c x (y ++ z) h))
      (ShowsAt-append painted r (c + length x) t z (ShowsAt-paint t r (c + length x) cells) (
        ShowsAt-beside t z r (c + length x) (c + length x + length t) cells (inr (omega arith))
          far))

-- A text painted over a part of a row, at the column where that part begins.
pub over :
    (t x y z : Bytes) (r d : ℕ) (cells : Cells)
    → d ≡ length x
    → length t ≡ length y
    → ShowsAt cells r 0 (x ++ (y ++ z))
    → ShowsAt (paint t r d cells) r 0 (x ++ (t ++ z))
over t x y z r d cells at same h =
    subst (λ e. ShowsAt (paint t r e cells) r 0 (x ++ (t ++ z))) (omega (arith, at))
      (ShowsAt-over t x y z r 0 cells same h)
