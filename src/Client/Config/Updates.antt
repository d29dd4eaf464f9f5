-- ===== src/Client/Config/Updates.antt =====
-- What a write of client/read_config.cpp makes of a file, and what a later read finds there.
use everyone_talk.Prelude.{
  ℕ, suc, ◌+◌, ◌-◌, ◌<◌, ◌≡◌, refl, sym, ap, ◌∙◌, true, false, List, [], ◌∷◌, ◌++◌, append_assoc,
  Bytes, All, All-append, Lacks, length, length-append, drop, arith,
}
use everyone_talk.CString.{c_str, c_str-Lacks, take_at}
use everyone_talk.Client.Config.{starts, fuel_for, overlay, write_over, write_content}
use everyone_talk.Client.Config.Lines.{
  IsLine, ended, lines_then, passed, other, find_section_line, find_key_line, length-lines_then,
}

-- A file, split at the line of a section and at the first line of a key in it.
pub record Entry : Type 0 where
  pub before : List Bytes
  pub head : Bytes
  pub between : List Bytes
  pub old : Bytes
  pub post : Bytes

abbrev pub file_of : Entry → Bytes → Bytes
file_of e rest = lines_then e.before (ended e.head ++ lines_then e.between rest)

abbrev pub content : Entry → Bytes
content e = file_of e (ended e.old ++ e.post)

pub record IsEntry (section key : Bytes) (e : Entry) : Type 0 where
  pub no_section : All (λ l. IsLine l × (passed section l ≡ true)) e.before
  pub head_line : IsLine e.head
  pub heads : passed section e.head ≡ false
  pub no_key : All (λ l. IsLine l × (other key l ≡ true)) e.between
  pub old_line : IsLine e.old
  pub no_nul : Lacks 0 e.old
  pub keyed : starts key (ended e.old) ≡ true

-- What stands before the line of the key.
abbrev front : Entry → Bytes
front e = lines_then e.before (ended e.head) ++ lines_then e.between []

lines_then-append :
    (lines : List Bytes) (a b : Bytes) → lines_then lines (a ++ b) ≡ lines_then lines a ++ b
lines_then-append [] a b = refl
lines_then-append (line ∷ lines) a b =
    ap (λ t. ended line ++ t) (lines_then-append lines a b)
    ∙ sym (append_assoc (ended line) (lines_then lines a) b)

file_of-front : (e : Entry) (rest : Bytes) → file_of e rest ≡ front e ++ rest
file_of-front e rest =
    let h : lines_then e.between rest ≡ lines_then e.between [] ++ rest =
      lines_then-append e.between [] rest in
    let k = lines_then-append e.before (ended e.head) (lines_then e.between [] ++ rest) in
    rw h
      (k ∙ sym (append_assoc (lines_then e.before (ended e.head)) (lines_then e.between []) rest))

drop_front : (u v : Bytes) (n : ℕ) → drop (length u + n) (u ++ v) ≡ drop n v
drop_front [] v n = let z : 0 + n ≡ n = omega arith in ap (λ k. drop k v) z
drop_front (c ∷ u) v n =
    let next : suc (length u) + n ≡ suc (length u + n) = omega arith in
    ap (λ k. drop k (c ∷ (u ++ v))) next ∙ drop_front u v n

overlay_at :
    (u text v : Bytes) → overlay (length u) text (u ++ v) ≡ u ++ (text ++ drop (length text) v)
unfolding overlay
overlay_at u text v = rw (overlay, take_at u v, drop_front u v (length text)) refl

pub before_fuel : (e : Entry) (rest : Bytes) → length e.before < fuel_for (file_of e rest)
before_fuel e rest =
    omega (arith, length-lines_then e.before (ended e.head ++ lines_then e.between rest))

pub between_fuel : (e : Entry) (rest : Bytes) → length e.between < fuel_for (file_of e rest)
between_fuel e rest = omega (
  arith,
  length-lines_then e.before (ended e.head ++ lines_then e.between rest),
  length-append (ended e.head) (lines_then e.between rest),
  length-lines_then e.between rest,
)

position :
    (e : Entry)
    → length (lines_then e.before (ended e.head) ++ lines_then e.between (ended e.old))
        - length (ended e.old)
      ≡ length (front e)
position e =
    let a = lines_then e.before (ended e.head) in
    let b = lines_then e.between [] in
    rw (lines_then-append e.between [] (ended e.old)) (
      omega (
        arith,
        length-append a (b ++ ended e.old),
        length-append b (ended e.old),
        length-append a b,
      ))

module _ (section key : Bytes) (e : Entry) (h : IsEntry section key e) where
  -- A write puts its text over the file from the line of the key on, and leaves all else: a text as
  -- long as that line replaces it, a longer one takes the start of what follows it, and behind a
  -- shorter one the end of that line stays.
  pub write_content-file_of :
      (text : Bytes)
      → write_content section key text (content e)
        ≡ file_of e (text ++ drop (length text) (ended e.old ++ e.post))
  unfolding write_content write_over
  write_content-file_of text =
      let f =
        find_section_line section e.before e.head (lines_then e.between (ended e.old ++ e.post)) []
          (fuel_for (content e)) (before_fuel e (ended e.old ++ e.post)) h.no_section h.head_line
          h.heads in
      let g =
        find_key_line key e.between e.old e.post (lines_then e.before (ended e.head))
          (fuel_for (content e)) (between_fuel e (ended e.old ++ e.post)) h.no_key h.old_line
          h.keyed in
      let nul : c_str (ended e.old) ≡ ended e.old =
        c_str-Lacks (ended e.old) (All-append _ e.old _ h.no_nul (omega arith)) in
      rw (write_content, f, g, write_over, nul, position e)
        (ap (overlay (length (front e)) text) (file_of-front e (ended e.old ++ e.post))
          ∙ overlay_at (front e) text (ended e.old ++ e.post)
          ∙ sym (file_of-front e (text ++ drop (length text) (ended e.old ++ e.post))))
