-- ===== src/Wire/Writen.antt =====
-- `writen`. What `write` gives, call by call, is an argument: how many bytes it took (of those left
-- at most all), an interrupted call, or nothing or another error.
use everyone_talk.Prelude.{
  ℕ, zero, suc, ◌≡◌, ◌≢◌, refl, ◌∙◌, ap, List, [], ◌∷◌, ◌++◌, append_assoc, append-nil, sym, Bytes,
  take, drop, ◌⊎◌, inl, inr,
}

pub data Write : Type 0 where
  wrote : ℕ → Write
  interrupted : Write
  error : Write

-- `n` after all bytes, -1, or a call that has not returned yet.
pub data Result : Type 0 where
  all : Result
  failed : Result
  waits : Result

-- The loop over the bytes that are left, with the bytes that went out. `wrote k` takes `k + 1`.
unfoldable pub writen : Bytes → List Write → Bytes × Result
writen [] writes = ([], all)
writen (c ∷ left) [] = ([], waits)
writen (c ∷ left) (interrupted ∷ writes) = writen (c ∷ left) writes
writen (c ∷ left) (error ∷ writes) = ([], failed)
writen (c ∷ left) (wrote k ∷ writes) =
    let (out, result) = writen (drop k left) writes in (c ∷ (take k left ++ out), result)

take-append-drop : (k : ℕ) (left : Bytes) → take k left ++ drop k left ≡ left
take-append-drop zero left = refl
take-append-drop (suc k) [] = refl
take-append-drop (suc k) (c ∷ left) = ap (λ l. c ∷ l) (take-append-drop k left)

-- What goes out is a beginning of the text, and all of it where `writen` reports success: nothing is
-- lost, repeated or reordered, however `write` splits the text.
pub writen_prefix :
    (text : Bytes) (writes : List Write)
    → (rest : Bytes) × ((writen text writes).0 ++ rest ≡ text)
      × ((rest ≡ []) ⊎ ((writen text writes).1 ≢ all))
unfolding writen
writen_prefix [] writes = ([], refl, inl refl)
writen_prefix (c ∷ left) [] = (c ∷ left, refl, inr (λ e. cc e))
writen_prefix (c ∷ left) (interrupted ∷ writes) = writen_prefix (c ∷ left) writes
writen_prefix (c ∷ left) (error ∷ writes) = (c ∷ left, refl, inr (λ e. cc e))
writen_prefix (c ∷ left) (wrote k ∷ writes) =
    let (rest, whole, none_left) = writen_prefix (drop k left) writes in
    (
      rest,
      ap (λ l. c ∷ l)
          (append_assoc (take k left) (writen (drop k left) writes).0 rest
            ∙ ap (◌++◌ (take k left)) whole
            ∙ take-append-drop k left),
      none_left,
    )

-- What goes out if all of it does.
pub writen-all :
    (text : Bytes) (writes : List Write)
    → (writen text writes).1 ≡ all
    → (writen text writes).0 ≡ text
writen-all text writes sent =
    let (rest, whole, none_left) = writen_prefix text writes in
    elim none_left [
      | inl e ↦
          sym (append-nil (writen text writes).0)
          ∙ ap (λ r. (writen text writes).0 ++ r) (sym e)
          ∙ whole
      | inr e ↦ absurd (e sent)
    ]
