-- ===== src/Client/Config/Values.antt =====
-- The values that client/read_config.cpp reads and writes: what a read gives after a write, what the
-- client restores, and a section or a key that the file lacks.
use everyone_talk.Prelude.{
  Option, drop-length-append, ℕ, suc, ◌+◌, ◌-◌, ◌<◌, ◌≡◌, refl, sym, ap, ◌∙◌, true, some, List, [],
  ◌∷◌, ◌++◌, append-nil, Bytes, All, Lacks, length, length-append, drop, arith, codes,
}
use everyone_talk.Int.{pos, IsInt, print_int, atoi}
use everyone_talk.Int.RoundTrip.{atoi-print_int, print_int-Lacks_below, length-print_int}
use everyone_talk.Outcome.{done, store, store_fits, ◌>>=◌}
use everyone_talk.CString.{c_str, c_str-Lacks}
use everyone_talk.Common.{newline}
use everyone_talk.Client.Config.{ClientData}
use everyone_talk.Client.Config.{
  max_len, fuel_for, write_content, ini_write_value, ini_read_value, write_string_value,
  read_string_value, write_int_value, read_int_value, header, increment, read_client_data,
  restore_client_data,
}
use everyone_talk.Client.Config.Lines.{IsLine, ended, lines_then, passed, find_section-none}
use everyone_talk.Client.Config.Updates.{Entry, IsEntry, content}
use everyone_talk.Client.Config.Entries.{
  IsValue, entry_line, updated, updated-IsEntry, ini_write_value-updated, ini_read_value-entry_line,
}

-- `[section]`
abbrev pub bracketed : Bytes → Bytes
bracketed section = b'[' ∷ (section ++ b']' ∷ [])

header-bracketed :
    (section : Bytes) → length section < max_len - 2 → header section ≡ done (bracketed section)
unfolding header
header-bracketed section h =
    store_fits max_len (bracketed section) (omega (arith, h, length-append section (b']' ∷ [])))

module _ (section key val val₀ : Bytes) (e : Entry) where
  -- A value written under a key of a section is the one that the next read gives, whatever the caller's
  -- array held, where the file has the section and the key, and the name of the section, and the key
  -- with the value, fit the arrays, and key and value hold no newline or NUL, the value no carriage
  -- return.
  pub write_string_value-read :
      length section < max_len - 2
      → Lacks newline key × Lacks 0 key
      → IsValue key val
      → IsEntry (bracketed section) key e
      → (write_string_value section key val (some (content e))
          >>= read_string_value section key val₀)
        ≡ done val
  unfolding write_string_value read_string_value
  write_string_value-read fits k v h =
      let sect = header-bracketed section fits in
      let write = ini_write_value-updated (bracketed section) key k e h val v in
      let read =
        ini_read_value-entry_line (bracketed section) key k (updated key val e)
          (updated-IsEntry (bracketed section) key k e h val v) val val₀ v refl in
      rw (write_string_value, read_string_value, sect, write, read) refl

updated_post :
    (key val : Bytes) (e : Entry)
    → length (entry_line key val) ≡ length e.old
    → drop (length (ended (entry_line key val))) (ended e.old ++ e.post) ≡ e.post
updated_post key val e l =
    let same : length (ended (entry_line key val)) ≡ length (ended e.old) = omega (
      arith,
      l,
      length-append (entry_line key val) (newline ∷ []),
      length-append e.old (newline ∷ []),
    ) in
    rw same (drop-length-append (ended e.old) e.post)

-- A value written over one of the same length, and that one written over it again.
updated-restores :
    (key val was : Bytes) (e : Entry)
    → e.old ≡ entry_line key was
    → length val ≡ length was
    → content (updated key was (updated key val e)) ≡ content e
updated-restores key val was e o l =
    let n : length (entry_line key val) ≡ length (entry_line key was) =
      omega (arith, l, length-append key (b'=' ∷ val), length-append key (b'=' ∷ was)) in
    let first = updated_post key val e (n ∙ ap length (sym o)) in
    let second = updated_post key was (updated key val e) (sym n) in rw (second, first, o) refl

abbrev pub section_name : Bytes
section_name = codes "section"

abbrev pub c_port_name : Bytes
c_port_name = codes "c_port"

print_int-IsValue : (n : ℕ) → IsInt (pos n) → IsValue c_port_name (print_int (pos n))
print_int-IsValue n h = record {
  no_newline = print_int-Lacks_below newline (pos n) (omega arith);
  no_return = print_int-Lacks_below 13 (pos n) (omega arith);
  no_nul = print_int-Lacks_below 0 (pos n) (omega arith);
  fits = omega (arith, length-print_int (pos n) h);
}

c_port_line : Lacks newline c_port_name × Lacks 0 c_port_name
c_port_line = omega arith

-- The port of the client written and read.
module _ (n : ℕ) (b : IsInt (pos n)) (e : Entry)
    (h : IsEntry (bracketed section_name) c_port_name e) where
  write_int_value-port :
      write_int_value section_name c_port_name (pos n) (some (content e))
      ≡ done (some (content (updated c_port_name (print_int (pos n)) e)))
  unfolding write_int_value write_string_value
  write_int_value-port =
      let fits : store max_len (print_int (pos n)) ≡ done (print_int (pos n)) =
        store_fits max_len (print_int (pos n)) (omega (arith, length-print_int (pos n) b)) in
      let write =
        ini_write_value-updated (bracketed section_name) c_port_name c_port_line e h
          (print_int (pos n)) (print_int-IsValue n b) in
      rw
        (
          write_int_value,
          fits,
          write_string_value,
          header-bracketed section_name (omega arith),
          write,
        )
        refl

  read_int_value-port :
      e.old ≡ entry_line c_port_name (print_int (pos n))
      → atoi (c_str (ini_read_value (bracketed section_name) c_port_name [] (some (content e))))
        ≡ pos n
  read_int_value-port o =
      let v = print_int-IsValue n b in
      rw
        (
          ini_read_value-entry_line (bracketed section_name) c_port_name c_port_line e h
              (print_int (pos n)) [] v o,
          c_str-Lacks (print_int (pos n)) v.no_nul,
        )
        (ap atoi (sym (append-nil (print_int (pos n)))) ∙ atoi-print_int (pos n) [] b tt)

-- A client that starts raises the port in the file by one, and a restoring of the port that it has read
-- leaves the file as it was.
pub read_client_data-restore :
    (port : ℕ) (e : Entry)
    → IsInt (pos (suc port))
    → IsEntry (bracketed section_name) c_port_name e
    → e.old ≡ entry_line c_port_name (print_int (pos port))
    → length (print_int (pos (port + 1))) ≡ length (print_int (pos port))
    → (read : ClientData) × (file' : Option Bytes) × (read_client_data (some (content e))
        ≡ done (read, file'))
      × (read.c_port ≡ pos port)
      × (restore_client_data read.c_port file' ≡ done (some (content e)))
unfolding read_client_data restore_client_data read_int_value read_string_value header store
    increment
read_client_data-restore port e b h o l =
    let small : IsInt (pos port) = omega (arith, b) in
    let next : IsInt (pos (port + 1)) = omega (arith, b) in
    let v = print_int-IsValue (port + 1) next in
    let e' = updated c_port_name (print_int (pos (port + 1))) e in
    let found = read_int_value-port port small e h o in
    let write = write_int_value-port (port + 1) next e h in
    let restore = write_int_value-port port small e' (
      updated-IsEntry (bracketed section_name) c_port_name c_port_line e h
        (print_int (pos (port + 1))) v) in
    let same =
      updated-restores c_port_name (print_int (pos (port + 1))) (print_int (pos port)) e o l in
    let file = some (content e) in
    let read : ClientData = record {
      c_ip = ini_read_value (bracketed section_name) (codes "c_ip") [] file;
      c_port = pos port;
      s_ip = ini_read_value (bracketed section_name) (codes "s_ip") [] file;
      s_port = atoi (c_str (ini_read_value (bracketed section_name) (codes "s_port") [] file));
    } in
    (read, some (content e'), rw (found, write) refl, refl, rw (restore, same) refl)

-- A file that lacks the section is left as it is, and a read of it leaves the caller's array as it is.
pub missing_section :
    (section key val val₀ : Bytes) (lines : List Bytes)
    → length section < max_len - 2
    → suc (length key + length val) < max_len - 1
    → All (λ l. IsLine l × (passed (bracketed section) l ≡ true)) lines
    → let file = some (lines_then lines []) in
      (write_string_value section key val file ≡ done file)
      × (read_string_value section key val₀ file ≡ done val₀)
unfolding write_string_value read_string_value ini_write_value ini_read_value write_content
missing_section section key val val₀ lines fits small h =
    let text = key ++ b'=' ∷ (val ++ newline ∷ []) in
    let stored : store max_len text ≡ done text = store_fits max_len text (
      omega (
        arith,
        small,
        length-append key (b'=' ∷ (val ++ newline ∷ [])),
        length-append val (newline ∷ []),
      )) in
    let sect = header-bracketed section fits in
    let gone = find_section-none (bracketed section) lines [] (fuel_for (lines_then lines [])) h in
    (rw (sect, stored, write_content, gone) refl, rw (sect, ini_read_value, gone) refl)
