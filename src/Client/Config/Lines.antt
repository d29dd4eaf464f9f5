-- ===== src/Client/Config/Lines.antt =====
-- What the loops of client/read_config.cpp find in a file of lines.
use everyone_talk.Prelude.{
  ℕ, zero, suc, ◌+◌, ◌-◌, ◌≤◌, ◌<◌, ◌≡◌, refl, ap, ◌∙◌, Bool, true, false, not, ◌&&◌, ◌||◌, some,
  none, List, [], ◌∷◌, ◌++◌, append_assoc, Bytes, All, Lacks, length, length-append, ◌==◌,
  if◌then◌else◌, arith,
}
use everyone_talk.Common.{newline}
use everyone_talk.Client.Config.{
  max_len, Stream, take_line, fgets, starts, is_skipped, is_header, find_section, find_key,
  read_key, read_line, value_of, cut_end, copy_value,
}

-- A line, without its newline, that one `fgets` takes whole.
pub record IsLine (line : Bytes) : Type 0 where
  pub no_newline : Lacks newline line
  pub fits : length line < max_len - 1

abbrev pub ended : Bytes → Bytes
ended line = line ++ newline ∷ []

-- Lines, each with its newline, in front of the rest of a file.
abbrev pub lines_then : List Bytes → Bytes → Bytes
lines_then [] rest = rest
lines_then (line ∷ lines) rest = ended line ++ lines_then lines rest

abbrev pub at : Bytes → Bytes → Stream
at behind ahead = record { behind = behind; ahead = ahead; eof = false }

take_line_line :
    (n : ℕ) (line rest : Bytes)
    → Lacks newline line
    → length line < n
    → take_line n (ended line ++ rest) ≡ (ended line, rest, false)
unfolding take_line
take_line_line zero line rest h l = absurd (omega (arith, l))
take_line_line (suc n) [] rest h l = refl
take_line_line (suc n) (c ∷ line) rest (h, hs) l =
    let differs : (c == newline) ≡ false = ground (arith, h) in
    rw (take_line_line n line rest hs (omega (arith, l)), differs) refl

pub fgets_line :
    (behind line rest : Bytes)
    → IsLine line
    → fgets (at behind (ended line ++ rest)) ≡ (ended line, at (behind ++ ended line) rest)
unfolding fgets
fgets_line behind line rest h = rw (take_line_line (max_len - 1) line rest h.no_newline h.fits) refl

-- The outer loops pass over the line.
abbrev pub passed : Bytes → Bytes → Bool
passed section line = is_skipped (ended line) || not (starts section (ended line))

-- The inner loops pass over the line.
abbrev pub other : Bytes → Bytes → Bool
other key line = not (starts key (ended line)) && not (is_header (ended line))

-- The branches of the two kinds of loop.
section_branch :
    {A : Type 0} (x y : A) (a b : Bool)
    → (a || not b) ≡ false
    → (if a then x else if b then y else x) ≡ y
section_branch x y true b h = cc
section_branch x y false true h = refl
section_branch x y false false h = cc

passed_branch :
    {A : Type 0} (x y : A) (a b : Bool)
    → (a || not b) ≡ true
    → (if a then x else if b then y else x) ≡ x
passed_branch x y true b h = refl
passed_branch x y false true h = cc
passed_branch x y false false h = refl

other_branch :
    {A : Type 0} (x y z : A) (a b : Bool)
    → (not a && not b) ≡ true
    → (if a then x else if b then y else z) ≡ z
other_branch x y z true b h = cc
other_branch x y z false true h = cc
other_branch x y z false false h = refl

pub find_section_line :
    (section : Bytes) (lines : List Bytes) (head rest behind : Bytes) (fuel : ℕ)
    → length lines < fuel
    → All (λ l. IsLine l × (passed section l ≡ true)) lines
    → IsLine head
    → passed section head ≡ false
    → find_section fuel section (at behind (lines_then lines (ended head ++ rest)))
      ≡ some (at (behind ++ lines_then lines (ended head)) rest)
unfolding find_section
find_section_line section lines head rest behind zero l h i p = absurd (omega (arith, l))
find_section_line section [] head rest behind (suc fuel) l h i p =
    rw (fgets_line behind head rest i) (section_branch _ _ _ _ p)
find_section_line section (line ∷ lines) head rest behind (suc fuel) l ((i', q), h) i p =
    rw (fgets_line behind line (lines_then lines (ended head ++ rest)) i') (
      passed_branch _ _ _ _ q
      ∙ find_section_line section lines head rest (behind ++ ended line) fuel (omega (arith, l)) h i
          p
      ∙ ap (λ b. some (at b rest))
          (append_assoc behind (ended line) (lines_then lines (ended head))))

pub find_key_line :
    (key : Bytes) (lines : List Bytes) (old rest behind : Bytes) (fuel : ℕ)
    → length lines < fuel
    → All (λ l. IsLine l × (other key l ≡ true)) lines
    → IsLine old
    → starts key (ended old) ≡ true
    → find_key fuel key (at behind (lines_then lines (ended old ++ rest)))
      ≡ some (ended old, at (behind ++ lines_then lines (ended old)) rest)
unfolding find_key
find_key_line key lines old rest behind zero l h i p = absurd (omega (arith, l))
find_key_line key [] old rest behind (suc fuel) l h i p = rw (fgets_line behind old rest i, p) refl
find_key_line key (line ∷ lines) old rest behind (suc fuel) l ((i', q), h) i p =
    rw (fgets_line behind line (lines_then lines (ended old ++ rest)) i') (
      other_branch _ _ _ _ _ q
      ∙ find_key_line key lines old rest (behind ++ ended line) fuel (omega (arith, l)) h i p
      ∙ ap (λ b. some (ended old, at b rest))
          (append_assoc behind (ended line) (lines_then lines (ended old))))

pub read_key_line :
    (key val : Bytes) (lines : List Bytes) (old rest behind : Bytes) (fuel : ℕ)
    → length lines < fuel
    → All (λ l. IsLine l × (other key l ≡ true)) lines
    → IsLine old
    → starts key (ended old) ≡ true
    → (text value : Bytes) → value_of key (ended old) ≡ some text
    → cut_end (copy_value text val) ≡ some value
    → read_key fuel key val (at behind (lines_then lines (ended old ++ rest))) ≡ value
unfolding read_key read_line
read_key_line key val lines old rest behind zero l h i p text value v c = absurd (omega (arith, l))
read_key_line key val [] old rest behind (suc fuel) l h i p text value v c =
    rw (fgets_line behind old rest i, p, v, read_line, c) refl
read_key_line key val (line ∷ lines) old rest behind (suc fuel) l ((i', q), h) i p text value v c =
    rw (fgets_line behind line (lines_then lines (ended old ++ rest)) i') (
      other_branch _ _ _ _ _ q
      ∙ read_key_line key val lines old rest (behind ++ ended line) fuel (omega (arith, l)) h i p
          text value v c)

-- There are no more lines than bytes.
pub length-lines_then :
    (lines : List Bytes) (rest : Bytes)
    → length lines + length rest ≤ length (lines_then lines rest)
length-lines_then [] rest = omega arith
length-lines_then (line ∷ lines) rest = omega (
  arith,
  length-lines_then lines rest,
  length-append line (newline ∷ []),
  length-append (ended line) (lines_then lines rest),
)

-- At the end of the file.
find_section_end :
    (section behind : Bytes) (fuel : ℕ) → find_section fuel section (at behind []) ≡ none
unfolding find_section fgets take_line is_skipped
find_section_end section behind zero = refl
find_section_end section behind (suc zero) = refl
find_section_end section behind (suc (suc fuel)) = refl

-- A file without the section.
pub find_section-none :
    (section : Bytes) (lines : List Bytes) (behind : Bytes) (fuel : ℕ)
    → All (λ l. IsLine l × (passed section l ≡ true)) lines
    → find_section fuel section (at behind (lines_then lines [])) ≡ none
unfolding find_section
find_section-none section [] behind fuel h = find_section_end section behind fuel
find_section-none section (line ∷ lines) behind zero h = refl
find_section-none section (line ∷ lines) behind (suc fuel) ((i, q), h) =
    rw (fgets_line behind line (lines_then lines []) i)
      (passed_branch _ _ _ _ q ∙ find_section-none section lines (behind ++ ended line) fuel h)
