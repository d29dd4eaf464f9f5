-- ===== src/Client/Config.antt =====
-- client/read_config.cpp: values under keys in a section of "config.ini", read line by line and written
-- in place. A file is its bytes; `none` is one that cannot be opened.
pub mod Lines
pub mod Updates
pub mod Entries
pub mod Values
use everyone_talk.Prelude.{
  ℕ, zero, suc, ◌+◌, ◌-◌, Bool, true, false, ◌||◌, Option, none, some, [], ◌∷◌, ◌++◌, Bytes, codes,
  length, take, drop, ◌==◌, if◌then◌else◌,
}
use everyone_talk.Int.{ℤ, pos, negsuc, print_int, atoi}
use everyone_talk.Outcome.{Outcome, done, store, ◌>>=◌}
use everyone_talk.CString.{c_str, cut}
use everyone_talk.Common.{max_line, newline}
use everyone_talk.Client.Talk.{begins}

-- The sizes of `sect`, `strValue`, `lineContent` and `strWrite`.
abbrev pub max_len : ℕ
max_len = 256

abbrev pub carriage_return : ℕ
carriage_return = 13

-- An open file: what stands before and behind its position, and `feof`.
pub record Stream : Type 0 where
  pub behind : Bytes
  pub ahead : Bytes
  pub eof : Bool

-- The bytes that `fgets` takes, at most the number, those left, and whether it has met the end.
unfoldable pub take_line : ℕ → Bytes → Bytes × Bytes × Bool
take_line zero s = ([], s, false)
take_line (suc n) [] = ([], [], true)
take_line (suc n) (c ∷ s) =
    let (line, rest, eof) = take_line n s in
    if c == newline then (c ∷ [], s, false) else (c ∷ line, rest, eof)

-- `fgets` into `lineContent`, which holds zeros before.
unfoldable pub fgets : Stream → Bytes × Stream
unfolding take_line
fgets f =
    let (line, rest, eof) = take_line (max_len - 1) f.ahead in
    (line, record { behind = f.behind ++ line; ahead = rest; eof = eof })

-- `strncmp(lineContent, text, strlen(text)) == 0`
unfoldable pub starts : Bytes → Bytes → Bool
unfolding begins
starts text line = begins text (c_str line)

-- A comment, an empty line, or nothing.
unfoldable pub is_skipped : Bytes → Bool
is_skipped [] = true
is_skipped (c ∷ line) = c == b';' || c == 0 || c == carriage_return || c == newline

unfoldable pub is_header : Bytes → Bool
is_header [] = false
is_header (c ∷ line) = c == b'['

-- The outer loop of both functions below: the file behind the line of the section. Each round takes
-- a byte or meets the end, so two more than the file's bytes are enough fuel.
unfoldable pub find_section : ℕ → Bytes → Stream → Option Stream
find_section zero section f = none
find_section (suc fuel) section f =
    let (line, f') = fgets f in
    let more = find_section fuel section f' in
    if f.eof
    then none
    else if is_skipped line
    then more
    else if starts section line
    then some f'
    else more

-- The inner loop of `IniWriteValue`: the line of the key, and the file behind it.
unfoldable pub find_key : ℕ → Bytes → Stream → Option (Bytes × Stream)
find_key zero key f = none
find_key (suc fuel) key f =
    let (line, f') = fgets f in
    let more = find_key fuel key f' in
    if f.eof
    then none
    else if starts key line
    then some (line, f')
    else if is_header line
    then none
    else more

-- The text of a line behind the first `=` that follows the key.
unfoldable pub value_of : Bytes → Bytes → Option Bytes
value_of key line = elim (cut b'=' (drop (length key) (c_str line))) [
  | none ↦ none
  | some (_, text) ↦ some text
]

-- The text up to a carriage return or a newline, where there is one.
unfoldable pub cut_end : Bytes → Option Bytes
cut_end [] = none
cut_end (c ∷ val) =
    let more = cut_end val in
    if c == carriage_return || c == newline
    then some []
    else elim more [ none ↦ none | some text ↦ some (c ∷ text) ]

-- What `val` holds after `strncpy`, which writes no NUL.
unfoldable pub copy_value : Bytes → Bytes → Bytes
copy_value text val = text ++ drop (length text) val

-- What the inner loop of `IniReadValue` does with the line of the key: it ends with a value, or goes on
-- with what `val` then holds.
unfoldable pub read_line : Bytes → Option Bytes → (Bytes → Bytes) → Bytes
read_line val none more = val
read_line val (some text) more = elim (cut_end (copy_value text val)) [
  | none ↦ more (copy_value text val)
  | some value ↦ value
]

-- The inner loop of `IniReadValue`; `val` is the text in the caller's array, zeros behind it.
unfoldable pub read_key : ℕ → Bytes → Bytes → Stream → Bytes
read_key zero key val f = val
read_key (suc fuel) key val f =
    let (line, f') = fgets f in
    let found = read_line val (value_of key line) (λ v. read_key fuel key v f') in
    let more = read_key fuel key val f' in
    if f.eof then val else if starts key line then found else if is_header line then val else more

abbrev pub opened : Bytes → Stream
opened content = record { behind = []; ahead = content; eof = false }

abbrev pub fuel_for : Bytes → ℕ
fuel_for content = suc (suc (length content))

unfoldable pub ini_read_value : Bytes → Bytes → Bytes → Option Bytes → Bytes
ini_read_value section key val none = val
ini_read_value section key val (some content) =
    elim (find_section (fuel_for content) section (opened content)) [
      | none ↦ val
      | some f ↦ read_key (fuel_for content) key val f
    ]

unfoldable pub header : Bytes → Outcome Bytes
header section = store max_len (b'[' ∷ (section ++ b']' ∷ []))

unfoldable pub read_string_value : Bytes → Bytes → Bytes → Option Bytes → Outcome Bytes
read_string_value section key val file = do
  sect ← header section
  done (ini_read_value sect key val file)

unfoldable pub read_int_value : Bytes → Bytes → Option Bytes → Outcome ℤ
read_int_value section key file = do
  str_value ← read_string_value section key [] file
  done (atoi (c_str str_value))

-- `fputs` over what stands at the position.
unfoldable pub overlay : ℕ → Bytes → Bytes → Bytes
overlay position text content =
    take position content ++ (text ++ drop (position + length text) content)

-- The line of the key is written over from its start on.
unfoldable pub write_over : Bytes → Bytes → Option (Bytes × Stream) → Bytes
write_over content str_write none = content
write_over content str_write (some (line, f)) =
    overlay (length f.behind - length (c_str line)) str_write content

-- The loops of `IniWriteValue`.
unfoldable pub write_content : Bytes → Bytes → Bytes → Bytes → Bytes
write_content section key str_write content =
    elim (find_section (fuel_for content) section (opened content)) [
      | none ↦ content
      | some f ↦ write_over content str_write (find_key (fuel_for content) key f)
    ]

unfoldable pub ini_write_value : Bytes → Bytes → Bytes → Option Bytes → Outcome (Option Bytes)
ini_write_value section key val file = do
  str_write ← store max_len (key ++ b'=' ∷ (val ++ newline ∷ []))
  done (elim file [
    | none ↦ none
    | some content ↦ some (write_content section key str_write content)
  ])

unfoldable pub write_string_value : Bytes → Bytes → Bytes → Option Bytes → Outcome (Option Bytes)
write_string_value section key val file = do
  sect ← header section
  ini_write_value sect key val file

unfoldable pub write_int_value : Bytes → Bytes → ℤ → Option Bytes → Outcome (Option Bytes)
write_int_value section key val file = do
  str_value ← store max_len (print_int val)
  write_string_value section key str_value file

-- `tc_port++`; the greatest `int` is left out, where the source overflows.
unfoldable pub increment : ℤ → ℤ
increment (pos n) = pos (n + 1)
increment (negsuc zero) = pos 0
increment (negsuc (suc n)) = negsuc n

-- What `read_client_data` assigns.
pub record ClientData : Type 0 where
  pub c_ip : Bytes
  pub c_port : ℤ
  pub s_ip : Bytes
  pub s_port : ℤ

-- The values, and the file with the next port.
unfoldable pub read_client_data : Option Bytes → Outcome (ClientData × Option Bytes)
read_client_data file = do
  c_ip ← read_string_value (codes "section") (codes "c_ip") [] file
  c_port ← read_int_value (codes "section") (codes "c_port") file
  s_ip ← read_string_value (codes "section") (codes "s_ip") [] file
  s_port ← read_int_value (codes "section") (codes "s_port") file
  file' ← write_int_value (codes "section") (codes "c_port") (increment c_port) file
  done (record { c_ip = c_ip; c_port = c_port; s_ip = s_ip; s_port = s_port }, file')

unfoldable pub restore_client_data : ℤ → Option Bytes → Outcome (Option Bytes)
restore_client_data val_port file = write_int_value (codes "section") (codes "c_port") val_port file
