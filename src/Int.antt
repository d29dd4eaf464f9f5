-- ===== src/Int.antt =====
-- The C `int`, its print by `sprintf("%d")` and its reading by `atoi`. Both ends of the protocol
-- carry every number this way. `atoi` is glibc's: `(int)strtol(s, NULL, 10)`, where `strtol` skips
-- white space, takes one sign and saturates at the bounds of a 64-bit `long`.
pub mod RoundTrip
use Prim.Native.Nat.{min}
use everyone_talk.Prelude.{
  ℕ, zero, suc, ◌+◌, ◌-◌, ◌*◌, ◌/◌, ◌%◌, ◌^◌, ◌<◌, ◌≡◌, ◌↔◌, refl, Bool, ◌&&◌, ◌||◌, [], ◌∷◌, Bytes,
  codes, ltb, leb, ◌==◌, if◌then◌else◌, arith,
}

-- `negsuc n` is -(n + 1).
pub data ℤ : Type 0 where
  pos : ℕ → ℤ
  negsuc : ℕ → ℤ

-- A value that a 32-bit `int` holds.
abbrev pub IsInt : ℤ → Type 0
IsInt (pos n) = n < 2 ^ 31
IsInt (negsuc n) = n < 2 ^ 31

abbrev pub int_eq : ℤ → ℤ → Bool
int_eq (pos m) (pos n) = m == n
int_eq (pos m) (negsuc n) = Bool.false
int_eq (negsuc m) (pos n) = Bool.false
int_eq (negsuc m) (negsuc n) = m == n

pub int_eq-eq : (a b : ℤ) → int_eq a b ≡ Bool.true → a ≡ b
int_eq-eq (pos m) (pos n) h = ground arith
int_eq-eq (pos m) (negsuc n) h = cc
int_eq-eq (negsuc m) (pos n) h = cc
int_eq-eq (negsuc m) (negsuc n) h = ground arith

pub int_eq_refl : (a : ℤ) → int_eq a a ≡ Bool.true
int_eq_refl (pos m) = ground arith
int_eq_refl (negsuc m) = ground arith

pub int_eq_iff : (a b : ℤ) → (int_eq a b ≡ Bool.true) ↔ (a ≡ b)
int_eq_iff a b = (int_eq-eq a b, λ e. rw e (int_eq_refl b))

-- The conversion to `int`: the low 32 bits, read in two's complement.
low_bits : ℤ → ℕ
low_bits (pos n) = n % 2 ^ 32
low_bits (negsuc n) = 2 ^ 32 - 1 - n % 2 ^ 32

unfoldable pub to_int : ℤ → ℤ
unfolding low_bits
to_int z = if ltb (low_bits z) (2 ^ 31) then pos (low_bits z) else negsuc (2 ^ 32 - 1 - low_bits z)

-- `digits fuel n out` puts the decimal digits of `n` in front of `out`; `n + 1` is enough fuel.
unfoldable pub digits : ℕ → ℕ → Bytes → Bytes
digits zero n out = out
digits (suc f) n out =
    let rest = digits f (n / 10) ((b'0' + n % 10) ∷ out) in
    if ltb n 10 then (b'0' + n) ∷ out else rest

-- `sprintf("%d")`.
unfoldable pub print_int : ℤ → Bytes
unfolding digits
print_int (pos n) = digits (suc n) n []
print_int (negsuc n) = b'-' ∷ digits (suc (suc n)) (suc n) []

abbrev pub is_digit : ℕ → Bool
is_digit c = leb b'0' c && leb c b'9'

abbrev is_space : ℕ → Bool
is_space c = c == 32 || (leb 9 c && leb c 13)

-- The number that the leading digits spell behind `n`, with no bound.
unfoldable pub value : ℕ → Bytes → ℕ
value n [] = n
value n (c ∷ s) = let more = value (n * 10 + (c - b'0')) s in if is_digit c then more else n

skip_spaces : Bytes → Bytes
skip_spaces [] = []
skip_spaces (c ∷ s) = let rest = skip_spaces s in if is_space c then rest else c ∷ s

neg : ℕ → ℤ
neg zero = pos 0
neg (suc n) = negsuc n

long_pos : ℕ → ℤ
long_pos n = pos (min n (2 ^ 63 - 1))

long_neg : ℕ → ℤ
unfolding neg
long_neg n = neg (min n (2 ^ 63))

strtol : Bytes → ℤ
unfolding value long_pos long_neg
strtol [] = pos 0
strtol (c ∷ s) =
    if c == b'-'
    then long_neg (value 0 s)
    else if c == b'+'
    then long_pos (value 0 s)
    else long_pos (value 0 (c ∷ s))

unfoldable pub atoi : Bytes → ℤ
unfolding to_int strtol skip_spaces
atoi s = to_int (strtol (skip_spaces s))

pub print_zero : print_int (pos 0) ≡ codes "0"
unfolding print_int
print_zero = refl

pub print_fail : print_int (pos 65535) ≡ codes "65535"
unfolding print_int
print_fail = refl

atoi_signed : atoi (codes " -42\n") ≡ negsuc 41
unfolding atoi
atoi_signed = refl

atoi_empty : atoi [] ≡ pos 0
unfolding atoi
atoi_empty = refl

atoi_wraps : atoi (codes "3000000000") ≡ negsuc 1294967295
unfolding atoi
atoi_wraps = refl

atoi_saturates : atoi (codes "99999999999999999999") ≡ negsuc 0
unfolding atoi
atoi_saturates = refl
