-- ===== src/Outcome.antt =====
-- What a C function does with a fixed array: it is done with a value, or it has written past the
-- end of the array, which is undefined behaviour, so nothing is said of what follows.
use everyone_talk.Prelude.{ℕ, ◌≤◌, ◌<◌, ◌≡◌, refl, Bytes, length, ltb, if◌then◌else◌, arith}

pub data Outcome {ℓ} (A : Type ℓ) : Type ℓ where
  done : A → Outcome A
  overflow : Outcome A

infixl 5 ◌>>=◌
abbrev pub ◌>>=◌ {ℓ κ} : {A : Type ℓ} {B : Type κ} → Outcome A → (A → Outcome B) → Outcome B
done a >>= f = f a
overflow >>= f = overflow

-- A C string stored in a `char` array of the given size: its text and the NUL must fit.
unfoldable pub store : ℕ → Bytes → Outcome Bytes
store size s = if ltb (length s) size then done s else overflow

pub store_fits : (size : ℕ) (s : Bytes) → length s < size → store size s ≡ done s
unfolding store
store_fits size s h = ground arith

pub store_done :
    (size : ℕ) (s : Bytes) {t : Bytes} → store size s ≡ done t → (t ≡ s) × (length s < size)
unfolding store
store_done size s h = ground arith

-- Inversion of a bind that is done.
pub >>=-eq-done {ℓ κ} :
    {A : Type ℓ} {B : Type κ} (m : Outcome A) (f : A → Outcome B) {b : B}
    → (m >>= f) ≡ done b
    → (a : A) × (m ≡ done a) × (f a ≡ done b)
>>=-eq-done (done a) f h = (a, refl, h)
>>=-eq-done overflow f h = cc

pub >>=_assoc {ℓ κ μ} :
    {A : Type ℓ} {B : Type κ} {C : Type μ} (m : Outcome A) (f : A → Outcome B) (g : B → Outcome C)
    → (m >>= f >>= g) ≡ (m >>= λ a. f a >>= g)
>>=_assoc (done a) f g = refl
>>=_assoc overflow f g = refl

pub store_overflow : (size : ℕ) (s : Bytes) → size ≤ length s → store size s ≡ overflow
unfolding store
store_overflow size s h = ground arith
