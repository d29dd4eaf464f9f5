-- ===== src/Client/Window.antt =====
-- The two arrays of ten cells through which the client shows a longer list, and how the loops of
-- `friend_lists_down`, `friend_lists_up`, `talk_lists_down` and `talk_lists_up` shift them.
pub mod Laws
use everyone_talk.Prelude.{ℕ, ◌≡◌, refl, List, [], ◌∷◌, drop_last}

abbrev pub space_size : ℕ
space_size = 10

module _ {ℓ} {A : Type ℓ} where
  -- `for (i = 0; i < 9; i++) a[i] = a[i + 1]; a[i] = last`
  unfoldable pub shift_left : List A → A → List A
  shift_left [] last = []
  shift_left (x ∷ []) last = last ∷ []
  shift_left (x ∷ y ∷ cells) last = y ∷ shift_left (y ∷ cells) last

  -- `for (i = 9; i > 0; i--) a[i] = a[i - 1]; a[i] = first`
  unfoldable pub shift_right : List A → A → List A
  shift_right [] first = []
  shift_right (x ∷ cells) first = first ∷ drop_last (x ∷ cells)
