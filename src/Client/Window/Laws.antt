-- ===== src/Client/Window/Laws.antt =====
-- A window of a list that is shifted by one is the next window of the list.
use everyone_talk.Prelude.{
  ℕ, zero, suc, ◌+◌, ◌≤◌, ◌<◌, ◌≡◌, refl, ◌∙◌, ap, some, none, List, [], ◌∷◌, map, arith, length,
  length-drop, take, drop, drop_last, get_elem?,
}
use everyone_talk.Client.Window.{shift_left, shift_right}

module _ {ℓ} {A : Type ℓ} where
  shift_left-take :
      (n : ℕ) (xs : List A) (a : A)
      → get_elem? xs (suc n) ≡ some a
      → shift_left (take (suc n) xs) a ≡ take (suc n) (drop 1 xs)
  unfolding shift_left
  shift_left-take n [] a h = cc
  shift_left-take n (x ∷ []) a h = cc
  shift_left-take zero (x ∷ y ∷ xs) a h = cc
  shift_left-take (suc n) (x ∷ y ∷ xs) a h = ap (λ l. y ∷ l) (shift_left-take n (y ∷ xs) a h)

  pub get_elem?-drop : (u n : ℕ) (xs : List A) → get_elem? (drop u xs) n ≡ get_elem? xs (u + n)
  get_elem?-drop zero n xs = ap (get_elem? xs) (omega arith)
  get_elem?-drop (suc u) n [] = refl
  get_elem?-drop (suc u) n (x ∷ xs) =
      let next : suc (u + n) ≡ suc u + n = omega arith in
      get_elem?-drop u n xs ∙ ap (get_elem? (x ∷ xs)) next

  drop-drop : (u : ℕ) (xs : List A) → drop 1 (drop u xs) ≡ drop (suc u) xs
  drop-drop zero xs = refl
  drop-drop (suc u) [] = refl
  drop-drop (suc u) (x ∷ xs) = drop-drop u xs

  drop_last-take :
      (n : ℕ) (xs : List A) → suc n ≤ length xs → drop_last (take (suc n) xs) ≡ take n xs
  drop_last-take n [] h = absurd (omega arith)
  drop_last-take zero (x ∷ xs) h = refl
  drop_last-take (suc n) (x ∷ []) h = absurd (omega arith)
  drop_last-take (suc n) (x ∷ y ∷ xs) h = ap (λ l. x ∷ l) (drop_last-take n (y ∷ xs) (omega arith))

  drop_at :
      (u : ℕ) (xs : List A) (a : A) → get_elem? xs u ≡ some a → drop u xs ≡ a ∷ drop (suc u) xs
  drop_at u [] a h = cc
  drop_at zero (x ∷ xs) a h = cc
  drop_at (suc u) (x ∷ xs) a h = drop_at u xs a h

  shift_right-take :
      (n : ℕ) (ys : List A) (a : A)
      → suc n ≤ length ys
      → shift_right (take (suc n) ys) a ≡ a ∷ take n ys
  unfolding shift_right
  shift_right-take n [] a h = absurd (omega arith)
  shift_right-take n (y ∷ ys) a h = ap (λ l. a ∷ l) (drop_last-take n (y ∷ ys) h)

  -- The window moves down by one, ...
  pub shift_left_window :
      (n u : ℕ) (xs : List A) (a : A)
      → get_elem? xs (u + suc n) ≡ some a
      → shift_left (take (suc n) (drop u xs)) a ≡ take (suc n) (drop (suc u) xs)
  shift_left_window n u xs a h =
      shift_left-take n (drop u xs) a (get_elem?-drop u (suc n) xs ∙ h)
      ∙ ap (take (suc n)) (drop-drop u xs)

  -- ... and up by one.
  pub shift_right_window :
      (n u : ℕ) (xs : List A) (a : A)
      → get_elem? xs u ≡ some a
      → suc u + suc n ≤ length xs
      → shift_right (take (suc n) (drop (suc u) xs)) a ≡ take (suc n) (drop u xs)
  shift_right_window n u xs a h k =
      rw (drop_at u xs a h)
        (shift_right-take n (drop (suc u) xs) a (omega (arith, length-drop (suc u) xs, k)))

  pub get_elem?-some : (xs : List A) (n : ℕ) → n < length xs → (a : A) × (get_elem? xs n ≡ some a)
  get_elem?-some [] n h = absurd (omega arith)
  get_elem?-some (x ∷ xs) zero h = (x, refl)
  get_elem?-some (x ∷ xs) (suc n) h = get_elem?-some xs n (omega arith)

  pub get_elem?-none : (xs : List A) (n : ℕ) → length xs ≤ n → get_elem? xs n ≡ none
  get_elem?-none [] n h = refl
  get_elem?-none (x ∷ xs) zero h = absurd (omega arith)
  get_elem?-none (x ∷ xs) (suc n) h = get_elem?-none xs n (omega arith)

  pub length-shift_left : (cells : List A) (a : A) → length (shift_left cells a) ≡ length cells
  unfolding shift_left
  length-shift_left [] a = refl
  length-shift_left (x ∷ []) a = refl
  length-shift_left (x ∷ y ∷ cells) a = ap suc (length-shift_left (y ∷ cells) a)

module _ {ℓ κ} {A : Type ℓ} {B : Type κ} (f : A → B) where
  pub map-shift_left :
      (cells : List A) (a : A) → map f (shift_left cells a) ≡ shift_left (map f cells) (f a)
  unfolding shift_left
  map-shift_left [] a = refl
  map-shift_left (x ∷ []) a = refl
  map-shift_left (x ∷ y ∷ cells) a = ap (λ l. f y ∷ l) (map-shift_left (y ∷ cells) a)

  map-drop_last : (cells : List A) → map f (drop_last cells) ≡ drop_last (map f cells)
  map-drop_last [] = refl
  map-drop_last (x ∷ []) = refl
  map-drop_last (x ∷ y ∷ cells) = ap (λ l. f x ∷ l) (map-drop_last (y ∷ cells))

  pub map-shift_right :
      (cells : List A) (a : A) → map f (shift_right cells a) ≡ shift_right (map f cells) (f a)
  unfolding shift_right
  map-shift_right [] a = refl
  map-shift_right (x ∷ cells) a = ap (λ l. f a ∷ l) (map-drop_last (x ∷ cells))

  pub map-take : (n : ℕ) (xs : List A) → map f (take n xs) ≡ take n (map f xs)
  map-take zero xs = refl
  map-take (suc n) [] = refl
  map-take (suc n) (x ∷ xs) = ap (λ l. f x ∷ l) (map-take n xs)

  pub get_elem?-map :
      (xs : List A) (n : ℕ) (a : A) → get_elem? xs n ≡ some a → get_elem? (map f xs) n ≡ some (f a)
  get_elem?-map [] n a h = cc
  get_elem?-map (x ∷ xs) zero a h = cc
  get_elem?-map (x ∷ xs) (suc n) a h = get_elem?-map xs n a h
