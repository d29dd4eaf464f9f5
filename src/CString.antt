-- ===== src/CString.antt =====
-- The string operations of the source: the text of a C string, `find` and `substr` of
-- `std::string`, with what they do on a text that is cut at a separator.
use everyone_talk.Prelude.{
  ℕ, suc, ◌≤◌, ◌≡◌, refl, ap, Option, none, some, [], ◌∷◌, ◌++◌, Bytes, Lacks, length, take, drop,
  arith, ◌==◌, if◌then◌else◌,
}
use mathlib.Core.Option

-- The bytes before the first NUL: `string s = buf`, and what `%s` prints of `s.c_str()`.
unfoldable pub c_str : Bytes → Bytes
c_str [] = []
c_str (c ∷ s) = if c == 0 then [] else c ∷ c_str s

-- `s.find(b)`, with `none` for `npos`.
unfoldable pub find : ℕ → Bytes → Option ℕ
find b [] = none
find b (c ∷ s) = if c == b then some 0 else Option.map suc (find b s)

pub c_str-Lacks : (s : Bytes) → Lacks 0 s → c_str s ≡ s
unfolding c_str
c_str-Lacks [] h = refl
c_str-Lacks (c ∷ s) h = ground (arith, c_str-Lacks s h.1)

pub Lacks-c_str : (s : Bytes) → Lacks 0 (c_str s)
unfolding c_str
Lacks-c_str [] = tt
Lacks-c_str (c ∷ s) = ground (arith, Lacks-c_str s)

pub length-c_str-le : (s : Bytes) → length (c_str s) ≤ length s
unfolding c_str
length-c_str-le [] = omega arith
length-c_str-le (c ∷ s) = ground (arith, length-c_str-le s)

pub find_at : (b : ℕ) (u v : Bytes) → Lacks b u → find b (u ++ b ∷ v) ≡ some (length u)
unfolding find
find_at b [] v h = ground arith
find_at b (c ∷ u) v h = ground (arith, find_at b u v h.1)

pub find-Lacks : (b : ℕ) (s : Bytes) → Lacks b s → find b s ≡ none
unfolding find
find-Lacks b [] h = refl
find-Lacks b (c ∷ s) h = ground (arith, find-Lacks b s h.1)

pub take_at : (u v : Bytes) → take (length u) (u ++ v) ≡ u
take_at [] v = refl
take_at (c ∷ u) v = ap (λ l. c ∷ l) (take_at u v)

pub drop_at : (u v : Bytes) (b : ℕ) → drop (suc (length u)) (u ++ b ∷ v) ≡ v
drop_at [] v b = refl
drop_at (c ∷ u) v b = drop_at u v b

-- `pos = s.find(b)` with `s.substr(0, pos)` and `s.substr(pos + 1)`, where `b` was found.
unfoldable pub cut : ℕ → Bytes → Option (Bytes × Bytes)
cut b s = elim (find b s) [ none ↦ none | some p ↦ some (take p s, drop (suc p) s) ]

-- The same two where the source does not test `pos`: at `npos`, that is -1, both are the whole text.
unfoldable pub before : ℕ → Bytes → Bytes
before b s = elim (find b s) [ none ↦ s | some p ↦ take p s ]

unfoldable pub after : ℕ → Bytes → Bytes
after b s = elim (find b s) [ none ↦ s | some p ↦ drop (suc p) s ]

pub cut_at : (b : ℕ) (u v : Bytes) → Lacks b u → cut b (u ++ b ∷ v) ≡ some (u, v)
unfolding cut
cut_at b u v h = rw (find_at b u v h, cut, take_at u (b ∷ v), drop_at u v b)

pub cut-Lacks : (b : ℕ) (s : Bytes) → Lacks b s → cut b s ≡ none
unfolding cut
cut-Lacks b s h = rw (find-Lacks b s h, cut)

pub before_at : (b : ℕ) (u v : Bytes) → Lacks b u → before b (u ++ b ∷ v) ≡ u
unfolding before
before_at b u v h = rw (find_at b u v h, before, take_at u (b ∷ v))

pub after_at : (b : ℕ) (u v : Bytes) → Lacks b u → after b (u ++ b ∷ v) ≡ v
unfolding after
after_at b u v h = rw (find_at b u v h, after, drop_at u v b)

-- A text with a NUL behind it, whatever follows.
pub c_str-append : (s rest : Bytes) → Lacks 0 s → c_str (s ++ 0 ∷ rest) ≡ s
unfolding c_str
c_str-append [] rest h = refl
c_str-append (c ∷ s) rest h = ground (arith, c_str-append s rest h.1)
