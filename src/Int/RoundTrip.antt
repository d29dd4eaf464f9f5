-- ===== src/Int/RoundTrip.antt =====
-- `atoi` reads back what `sprintf("%d")` prints, whatever non-digit follows; which bytes a print is
-- made of, and how many.
use Prim.Native.Nat.{min}
use everyone_talk.Prelude.{
  ℕ, zero, suc, ◌+◌, ◌-◌, ◌/◌, ◌%◌, ◌^◌, ◌≤◌, ◌<◌, ◌≡◌, ◌≢◌, refl, false, [], ◌∷◌, ◌++◌, Bytes, All,
  Lacks, length, arith, ◌∙◌,
}
use everyone_talk.Int.{
  ℤ, pos, negsuc, IsInt, digits, print_int, value, atoi, strtol, skip_spaces, to_int, long_neg,
  is_digit,
}

-- The text does not go on with a digit.
abbrev pub Stops : Bytes → Type 0
Stops [] = Unit
Stops (c ∷ s) = is_digit c ≡ false

abbrev IsDigit : ℕ → Type 0
IsDigit c = (b'0' ≤ c) × (c ≤ b'9')

digits_ne_nil : (f n : ℕ) (out : Bytes) → out ≢ [] → digits f n out ≢ []
unfolding digits
digits_ne_nil zero n out h = h
digits_ne_nil (suc f) n out h = ground (arith, digits_ne_nil f (n / 10) ((b'0' + n % 10) ∷ out))

digits-ne-nil : (f n : ℕ) (out : Bytes) → digits (suc f) n out ≢ []
unfolding digits
digits-ne-nil f n out = ground (arith, digits_ne_nil f (n / 10) ((b'0' + n % 10) ∷ out))

digits-IsDigit : (f n : ℕ) (out : Bytes) → All IsDigit out → All IsDigit (digits f n out)
unfolding digits
digits-IsDigit zero n out h = h
digits-IsDigit (suc f) n out h = ground (arith, digits-IsDigit f (n / 10) ((b'0' + n % 10) ∷ out))

-- Reading the digits of `n` and then `out` gives what reading `out` behind `n` gives.
value-digits : (f n : ℕ) (out : Bytes) → n < f → value 0 (digits f n out) ≡ value n out
unfolding digits value
value-digits zero n out h = absurd (omega arith)
value-digits (suc f) n out h = ground (arith, value-digits f (n / 10) ((b'0' + n % 10) ∷ out))

digits-append : (f n : ℕ) (out rest : Bytes) → digits f n out ++ rest ≡ digits f n (out ++ rest)
unfolding digits
digits-append zero n out rest = refl
digits-append (suc f) n out rest =
    ground (arith, digits-append f (n / 10) ((b'0' + n % 10) ∷ out) rest)

value_stop : (n : ℕ) (rest : Bytes) → Stops rest → value n rest ≡ n
unfolding value
value_stop n [] h = refl
value_stop n (c ∷ rest) h = ground arith

skip_spaces_digit : (c : ℕ) (s : Bytes) → IsDigit c → skip_spaces (c ∷ s) ≡ c ∷ s
unfolding skip_spaces
skip_spaces_digit c s h = ground arith

-- A text of digits is read as their value.
strtol_digits :
    (s : Bytes)
    → All IsDigit s
    → s ≢ []
    → (rest : Bytes)
    → strtol (skip_spaces (s ++ rest)) ≡ pos (min (value 0 (s ++ rest)) (2 ^ 63 - 1))
unfolding strtol
strtol_digits [] h k rest = absurd (k refl)
strtol_digits (c ∷ s) h k rest = rw (skip_spaces_digit c (s ++ rest) h.0) (ground arith)

to_int_pos : (n : ℕ) → n < 2 ^ 31 → to_int (pos (min n (2 ^ 63 - 1))) ≡ pos n
unfolding to_int
to_int_pos n h = ground arith

to_int_neg : (n : ℕ) → n < 2 ^ 31 → to_int (long_neg (suc n)) ≡ negsuc n
unfolding to_int long_neg
to_int_neg n h = ground arith

value_print : (n : ℕ) (rest : Bytes) → Stops rest → value 0 (digits (suc n) n [] ++ rest) ≡ n
value_print n rest k =
    rw digits-append (value-digits (suc n) n rest (omega arith) ∙ value_stop n rest k)

atoi_pos :
    (n : ℕ) (rest : Bytes) → n < 2 ^ 31 → Stops rest → atoi (digits (suc n) n [] ++ rest) ≡ pos n
unfolding atoi
atoi_pos n rest h k =
    rw
      (
        strtol_digits (digits (suc n) n []) (digits-IsDigit (suc n) n [] tt) (digits-ne-nil n n [])
            rest,
        value_print n rest k,
      )
      (to_int_pos n h)

atoi_neg :
    (n : ℕ) (rest : Bytes)
    → n < 2 ^ 31
    → Stops rest
    → atoi (b'-' ∷ digits (suc (suc n)) (suc n) [] ++ rest) ≡ negsuc n
unfolding atoi strtol skip_spaces
atoi_neg n rest h k = rw (value_print (suc n) rest k) (to_int_neg n h)

-- Every `int` that `sprintf` prints is read back by `atoi`, whatever non-digit follows.
pub atoi-print_int : (z : ℤ) (rest : Bytes) → IsInt z → Stops rest → atoi (print_int z ++ rest) ≡ z
unfolding print_int
atoi-print_int (pos n) rest h k = atoi_pos n rest h k
atoi-print_int (negsuc n) rest h k = atoi_neg n rest h k

digit-Lacks : (b : ℕ) (s : Bytes) → b'9' < b → All IsDigit s → Lacks b s
digit-Lacks b [] h k = tt
digit-Lacks b (c ∷ s) h (d, k) = (omega arith, digit-Lacks b s h k)

low-Lacks : (b : ℕ) (s : Bytes) → b < b'0' → All IsDigit s → Lacks b s
low-Lacks b [] h k = tt
low-Lacks b (c ∷ s) h (d, k) = (omega arith, low-Lacks b s h k)

-- A print is made of digits and a sign: no separator, newline or NUL.
pub print_int-Lacks_above : (b : ℕ) (z : ℤ) → b'9' < b → Lacks b (print_int z)
unfolding print_int
print_int-Lacks_above b (pos n) h = digit-Lacks b _ h (digits-IsDigit (suc n) n [] tt)
print_int-Lacks_above b (negsuc n) h =
    (omega arith, digit-Lacks b _ h (digits-IsDigit (suc (suc n)) (suc n) [] tt))

pub print_int-Lacks_below : (b : ℕ) (z : ℤ) → b < b'-' → Lacks b (print_int z)
unfolding print_int
print_int-Lacks_below b (pos n) h = low-Lacks b _ (omega arith) (digits-IsDigit (suc n) n [] tt)
print_int-Lacks_below b (negsuc n) h =
    (omega arith, low-Lacks b _ (omega arith) (digits-IsDigit (suc (suc n)) (suc n) [] tt))

length-digits :
    (k f n : ℕ) (out : Bytes) → n < 10 ^ suc k → length (digits f n out) ≤ suc k + length out
unfolding digits
length-digits k zero n out h = omega arith
length-digits zero (suc f) n out h = ground arith
length-digits (suc k) (suc f) n out h =
    ground (arith, length-digits k f (n / 10) ((b'0' + n % 10) ∷ out))

-- The longest print of an `int` is that of the least, eleven bytes.
pub length-print_int : (z : ℤ) → IsInt z → length (print_int z) ≤ 11
unfolding print_int
length-print_int (pos n) h = omega (arith, length-digits 9 (suc n) n [] (omega arith))
length-print_int (negsuc n) h =
    omega (arith, length-digits 9 (suc (suc n)) (suc n) [] (omega arith))

-- A number below 100 has two digits at most.
pub length-print_int_below_100 : (n : ℕ) → n < 100 → length (print_int (pos n)) ≤ 2
unfolding print_int
length-print_int_below_100 n h = omega (arith, length-digits 1 (suc n) n [] (omega (arith, h)))

between : (s : Bytes) → All IsDigit s → All (λ b. (b' ' ≤ b) × (b < 127)) s
between [] h = tt
between (c ∷ s) (h, hs) = ((omega (arith, h.0), omega (arith, h.1)), between s hs)

-- A print is printable.
pub print_int-All : (z : ℤ) → All (λ b. (b' ' ≤ b) × (b < 127)) (print_int z)
unfolding print_int
print_int-All (pos n) = between _ (digits-IsDigit (suc n) n [] tt)
print_int-All (negsuc n) =
    ((omega arith, omega arith), between _ (digits-IsDigit (suc (suc n)) (suc n) [] tt))
