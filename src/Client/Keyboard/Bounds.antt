-- ===== src/Client/Keyboard/Bounds.antt =====
-- Which commands fit the ten bytes that the three screens read them into.
use everyone_talk.Prelude.{
  ◌≤◌, ◌<◌, ◌≡◌, refl, Bool-cases, false, ltb, Option, some, [], ◌∷◌, ◌++◌, Bytes, Lacks, length,
  ◌==◌, arith, ◌⊎◌, inl, inr,
}
use everyone_talk.Outcome.{Outcome, done, overflow, store_fits, store_overflow}
use everyone_talk.CString.{c_str, cut_at}
use everyone_talk.Common.{newline}
use everyone_talk.Client.Keyboard.{read_word, get_main_cmd, get_friend_cmd, get_talk_cmd}

-- What a screen gets of a typed word, and what is left of the keys, or the write past the array.
abbrev pub Typed : Bytes → Bytes → Outcome (Option (Bytes × Bytes)) → Type 0
Typed word rest o =
    ((length word < 10) × (o ≡ done (some (c_str word, rest))))
    ⊎ ((10 ≤ length word) × (o ≡ overflow))

read_word-Typed :
    (word rest : Bytes) → Lacks newline word → Typed word rest (read_word (word ++ newline ∷ rest))
unfolding read_word
read_word-Typed word rest h = elim (Bool-cases (ltb (length word) 10)) [
  | inl short ↦
      let fits : length word < 10 = ground arith in
      inl (fits, rw (read_word, cut_at newline word rest h, store_fits 10 word fits))
  | inr too_long ↦
      let long : 10 ≤ length word = ground arith in
      inr (long, rw (read_word, cut_at newline word rest h, store_overflow 10 word long))
]

get_main_cmd-skip :
    (before keys : Bytes)
    → Lacks b':' before
    → get_main_cmd (before ++ b':' ∷ keys) ≡ read_word keys
unfolding get_main_cmd
get_main_cmd-skip [] keys h = refl
get_main_cmd-skip (c ∷ before) keys (h, hs) =
    let differs : (c == b':') ≡ false = ground (arith, h) in
    rw (get_main_cmd, differs) (get_main_cmd-skip before keys hs)

get_friend_cmd-colon : (keys : Bytes) → get_friend_cmd (b':' ∷ keys) ≡ read_word keys
unfolding get_friend_cmd
get_friend_cmd-colon [] = refl
get_friend_cmd-colon (a ∷ []) = refl
get_friend_cmd-colon (a ∷ b ∷ keys) = refl

-- A word with no newline that is typed behind a colon reaches each of the three screens if it has
-- at most nine bytes, and is written past the end of the array if it has more. Other keys before
-- the colon are skipped on the first screen.
pub command_bounds :
    (before word rest : Bytes)
    → Lacks b':' before
    → Lacks newline word
    → Typed word rest (get_main_cmd (before ++ b':' ∷ (word ++ newline ∷ rest)))
      × Typed word rest (get_friend_cmd (b':' ∷ (word ++ newline ∷ rest)))
      × Typed word rest (get_talk_cmd (b':' ∷ (word ++ newline ∷ rest)))
unfolding get_talk_cmd
command_bounds before word rest h k =
    let typed = read_word-Typed word rest k in
    (
      rw (get_main_cmd-skip before (word ++ newline ∷ rest) h) typed,
      rw (get_friend_cmd-colon (word ++ newline ∷ rest)) typed,
      rw (get_friend_cmd-colon (word ++ newline ∷ rest)) typed,
    )
