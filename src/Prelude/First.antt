-- ===== src/Prelude/First.antt =====
-- A list in which the first element that meets a condition, and no other, is changed.
use mathlib.Core.Path.{◌≡◌, refl, ap}
use mathlib.Core.Logic.{◌⊎◌, inl, inr}
use mathlib.Core.List.{List, [], ◌∷◌, ◌++◌}
use everyone_talk.Prelude.Lists.{All}

module _ {ℓ κ} {A : Type ℓ} (P : A → Type κ) (f : A → A) where
  -- None meets it and the list is the same, or the first that does is changed and the rest is kept.
  abbrev pub FirstChanged : List A → List A → Type (ℓ ⊔ κ)
  FirstChanged xs ys =
      (All (λ x. ¬ P x) xs × (ys ≡ xs))
      ⊎ ((a : List A) × (x : A) × (b : List A) × (xs ≡ a ++ x ∷ b)
          × All (λ x. ¬ P x) a
          × P x
          × (ys ≡ a ++ f x ∷ b))

  pub FirstChanged-here : (x : A) (xs : List A) → P x → FirstChanged (x ∷ xs) (f x ∷ xs)
  FirstChanged-here x xs h = inr ([], x, xs, refl, tt, h, refl)

  pub FirstChanged-skip :
      (x : A) (xs ys : List A) → ¬ P x → FirstChanged xs ys → FirstChanged (x ∷ xs) (x ∷ ys)
  FirstChanged-skip x xs ys h (inl (none_meets, same)) = inl ((h, none_meets), ap (λ l. x ∷ l) same)
  FirstChanged-skip x xs ys h (inr (a, y, b, split, before, meets, changed)) =
      inr (x ∷ a, y, b, ap (λ l. x ∷ l) split, (h, before), meets, ap (λ l. x ∷ l) changed)
