-- ===== src/Client/Program/Keys.antt =====
-- What the client reads leaves fewer keys.
use everyone_talk.Prelude.{
  ℕ, zero, suc, ◌≤◌, ◌<◌, ◌≡◌, refl, Option, none, some, Option-cases, ◌⊎◌, inl, inr, Bool, true,
  false, [], ◌∷◌, Bytes, length, length-drop, drop, take, if_elim, Bool-cases, ltb, ◌==◌,
  if◌then◌else◌, arith,
}
use everyone_talk.Outcome.{Outcome, done, overflow, store, ◌>>=◌}
use everyone_talk.CString.{c_str, cut, find}
use everyone_talk.Common.{newline, max_line}
use everyone_talk.Client.Keyboard.{
  read_word, get_main_cmd, get_friend_cmd, get_talk_cmd, get_user_state,
}
use everyone_talk.Client.Config.{take_line}
use everyone_talk.Client.Console.{scan_word, rest_of_word, skip_spaces, fgets_line, is_space}
use everyone_talk.Client.Program.Moves.{Leaves}

Leaves-more {ℓ} :
    {A : Type ℓ} (m n : ℕ) (o : Outcome (Option (A × Bytes))) → Leaves m o → m ≤ n → Leaves n o
Leaves-more m n overflow h l = tt
Leaves-more m n (done none) h l = tt
Leaves-more m n (done (some (a, keys))) h l = omega (arith, h, l)

cut_rest : (b : ℕ) (s u v : Bytes) → cut b s ≡ some (u, v) → length v < length s
unfolding cut find
cut_rest b [] u v h = cc
cut_rest b (c ∷ s) u v h = elim (Option-cases (find b (c ∷ s))) [
  | inl e ↦ absurd (let h' : none ≡ some (u, v) = rw (cut, e) at h in cc h')
  | inr (p, e) ↦
      let h' : some (take p (c ∷ s), drop p s) ≡ some (u, v) = rw (cut, e) at h in
      let same : v ≡ drop p s = cc h' in rw same (omega (arith, length-drop p s))
]

store-Leaves :
    (n : ℕ) (word rest : Bytes)
    → length rest < n
    → Leaves n (store 10 word >>= λ t_cmd. done (some (c_str t_cmd, rest)))
unfolding store
store-Leaves n word rest l =
    if_elim (λ o. Leaves n (o >>= λ t_cmd. done (some (c_str t_cmd, rest)))) (ltb (length word) 10)
      (λ _. l) (λ _. tt)

pub read_word-Leaves : (keys : Bytes) → Leaves (length keys) (read_word keys)
unfolding read_word
read_word-Leaves keys = elim (Option-cases (cut newline keys)) [
  | inl e ↦
      rw (read_word, e) (if_elim (Leaves (length keys)) (ltb 10 (length keys)) (λ _. tt) (λ _. tt))
  | inr ((word, rest), e) ↦
      rw (read_word, e) (store-Leaves (length keys) word rest (cut_rest newline keys word rest e))
]

pub get_main_cmd-Leaves : (keys : Bytes) → Leaves (length keys) (get_main_cmd keys)
unfolding get_main_cmd
get_main_cmd-Leaves [] = tt
get_main_cmd-Leaves (ch ∷ keys) = elim (Bool-cases (ch == b':')) [
  | inl e ↦
      rw (get_main_cmd, e) (Leaves-more (length keys) _ _ (read_word-Leaves keys) (omega arith))
  | inr e ↦
      rw (get_main_cmd, e) (Leaves-more (length keys) _ _ (get_main_cmd-Leaves keys) (omega arith))
]

pub get_user_state-Leaves : (keys : Bytes) → Leaves (length keys) (get_user_state keys)
unfolding get_user_state
get_user_state-Leaves keys = get_main_cmd-Leaves keys

-- A branch on a key.
branch-Leaves {ℓ} :
    {A : Type ℓ} (n : ℕ) (b : Bool) (o o' : Outcome (Option (A × Bytes)))
    → Leaves n o
    → Leaves n o'
    → Leaves n (elim b [ true ↦ o | false ↦ o' ])
branch-Leaves n true o o' h h' = h
branch-Leaves n false o o' h h' = h'

pub get_friend_cmd-Leaves : (keys : Bytes) → Leaves (length keys) (get_friend_cmd keys)
unfolding get_friend_cmd
get_friend_cmd-Leaves [] = tt
get_friend_cmd-Leaves (ch ∷ []) =
    branch-Leaves 1 (ch == b':') _ _ (Leaves-more 0 1 _ (read_word-Leaves []) (omega arith)) tt
get_friend_cmd-Leaves (ch ∷ a ∷ []) =
    branch-Leaves 2 (ch == b':') _ _ (Leaves-more 1 2 _ (read_word-Leaves (a ∷ [])) (omega arith)) (
      branch-Leaves 2 (ch == 27) _ _ tt
        (Leaves-more 1 2 _ (get_friend_cmd-Leaves (a ∷ [])) (omega arith)))
get_friend_cmd-Leaves (ch ∷ a ∷ b ∷ keys) =
    let n = length (ch ∷ a ∷ b ∷ keys) in
    branch-Leaves n (ch == b':') _ _
      (Leaves-more _ n _ (read_word-Leaves (a ∷ b ∷ keys)) (omega arith))
      (branch-Leaves n (ch == 27) _ _
        (branch-Leaves n (b == b'A') _ _ (omega arith) (
          branch-Leaves n (b == b'B') _ _ (omega arith)
            (Leaves-more _ n _ (get_friend_cmd-Leaves keys) (omega arith))))
        (Leaves-more _ n _ (get_friend_cmd-Leaves (a ∷ b ∷ keys)) (omega arith)))

pub get_talk_cmd-Leaves : (keys : Bytes) → Leaves (length keys) (get_talk_cmd keys)
unfolding get_talk_cmd
get_talk_cmd-Leaves keys = get_friend_cmd-Leaves keys

length-skip_spaces : (keys : Bytes) → length (skip_spaces keys) ≤ length keys
unfolding skip_spaces
length-skip_spaces [] = omega arith
length-skip_spaces (c ∷ keys) = ground (arith, length-skip_spaces keys)

-- `%s` may read no key, but the white space behind the word stays.
abbrev WordLeft : ℕ → Option (Bytes × Bytes) → Type 0
WordLeft n none = Unit
WordLeft n (some (word, rest)) = length rest < n

add_letter-WordLeft :
    (n : ℕ) (b : Bool) (c : ℕ) (o o' : Option (Bytes × Bytes))
    → WordLeft (suc n) o
    → WordLeft n o'
    → WordLeft
        (suc n)
        (if b then o else elim o' [ none ↦ none | some (word, rest) ↦ some (c ∷ word, rest) ])
add_letter-WordLeft n true c o o' h k = h
add_letter-WordLeft n false c o none h k = tt
add_letter-WordLeft n false c o (some (word, rest)) h k = omega (arith, k)

word-WordLeft : (keys : Bytes) → WordLeft (suc (length keys)) (rest_of_word keys)
unfolding rest_of_word
word-WordLeft [] = tt
word-WordLeft (c ∷ keys) =
    add_letter-WordLeft (suc (length keys)) (is_space c) c (some ([], c ∷ keys)) (rest_of_word keys)
      (omega arith) (word-WordLeft keys)

scan_word-WordLeft :
    (n : ℕ) (keys : Bytes) (o : Option (Bytes × Bytes))
    → WordLeft n o
    → Leaves {A = Bytes} n (elim o as (λ _. Outcome (Option (Bytes × Bytes))) [
      | none ↦ if ltb max_line (length keys) then overflow else done none
      | some (word, rest) ↦
          if ltb (length word) max_line then done (some (c_str word, rest)) else overflow
    ])
scan_word-WordLeft n keys none h =
    if_elim (Leaves n) (ltb max_line (length keys)) (λ _. tt) (λ _. tt)
scan_word-WordLeft n keys (some (word, rest)) h =
    if_elim (Leaves n) (ltb (length word) max_line) (λ _. h) (λ _. tt)

pub scan_word-Leaves : (keys : Bytes) → Leaves (suc (length keys)) (scan_word keys)
unfolding scan_word
scan_word-Leaves keys =
    Leaves-more (suc (length (skip_spaces keys))) _ _
      (scan_word-WordLeft (suc (length (skip_spaces keys))) (skip_spaces keys) _
        (word-WordLeft (skip_spaces keys)))
      (omega (arith, length-skip_spaces keys))

take_line-rest : (n : ℕ) (s : Bytes) → length (take_line n s).1 ≤ length s
unfolding take_line
take_line-rest zero s = omega arith
take_line-rest (suc n) [] = omega arith
take_line-rest (suc n) (c ∷ s) = ground (arith, take_line-rest n s)

take_line-less :
    (n : ℕ) (s : Bytes)
    → ((take_line (suc n) s).2 ≡ true) ⊎ (length (take_line (suc n) s).1 < length s)
unfolding take_line
take_line-less n [] = inl refl
take_line-less n (c ∷ s) = inr (ground (arith, take_line-rest n s))

pub fgets_line-Leaves : (keys : Bytes) → Leaves (length keys) (fgets_line keys)
unfolding fgets_line
fgets_line-Leaves keys = elim (take_line-less 1022 keys) [
  | inl e ↦ rw (fgets_line, e) tt
  | inr l ↦ if_elim (Leaves (length keys)) (take_line 1023 keys).2 (λ _. tt) (λ _. l)
]
