-- ===== src/Client/Config/Entries.antt =====
-- The line of a key and its value: how client/read_config.cpp writes one and takes it apart again.
use everyone_talk.Prelude.{
  drop-length-append, suc, ◌+◌, ◌-◌, ◌<◌, ◌≡◌, refl, sym, ◌∙◌, true, some, [], ◌∷◌, ◌++◌,
  append_assoc, Bytes, All-append, Lacks, length, length-append, drop, arith,
}
use everyone_talk.Outcome.{done, store, store_fits}
use everyone_talk.CString.{c_str, c_str-Lacks, cut_at}
use everyone_talk.Common.{newline}
use everyone_talk.Client.Talk.{begins}
use everyone_talk.Client.Config.{
  max_len, carriage_return, starts, value_of, cut_end, copy_value, fuel_for, ini_write_value,
  ini_read_value,
}
use everyone_talk.Client.Config.Lines.{IsLine, ended, lines_then, find_section_line, read_key_line}
use everyone_talk.Client.Config.Updates.{
  Entry, content, IsEntry, write_content-file_of, before_fuel, between_fuel,
}

-- A value that can be written and read.
pub record IsValue (key val : Bytes) : Type 0 where
  pub no_newline : Lacks newline val
  pub no_return : Lacks carriage_return val
  pub no_nul : Lacks 0 val
  pub fits : suc (length key + length val) < max_len - 1

cut_end_value :
    (val rest : Bytes)
    → Lacks newline val
    → Lacks carriage_return val
    → cut_end (val ++ newline ∷ rest) ≡ some val
unfolding cut_end
cut_end_value [] rest h k = refl
cut_end_value (c ∷ val) rest h k = ground (arith, cut_end_value val rest h.1 k.1)

begins-append : (s t : Bytes) → begins s (s ++ t) ≡ true
unfolding begins
begins-append [] t = refl
begins-append (c ∷ s) t = ground (arith, begins-append s t)

abbrev pub entry_line : Bytes → Bytes → Bytes
entry_line key val = key ++ b'=' ∷ val

-- The key and the value of a line, with what the array holds behind the value.
module _ (key val : Bytes) (k : Lacks newline key × Lacks 0 key) (v : IsValue key val) where
  pub entry_line-IsLine : IsLine (entry_line key val)
  entry_line-IsLine = record {
    no_newline = All-append _ key _ k.0 (omega arith, v.no_newline);
    fits = omega (arith, v.fits, length-append key (b'=' ∷ val));
  }

  entry_line_no_nul : Lacks 0 (entry_line key val)
  entry_line_no_nul = All-append _ key _ k.1 (omega arith, v.no_nul)

  entry_line_text : c_str (ended (entry_line key val)) ≡ key ++ b'=' ∷ (val ++ newline ∷ [])
  entry_line_text =
      c_str-Lacks (ended (entry_line key val))
        (All-append _ (entry_line key val) _ entry_line_no_nul (omega arith))
      ∙ append_assoc key (b'=' ∷ val) (newline ∷ [])

  entry_line-starts : starts key (ended (entry_line key val)) ≡ true
  unfolding starts
  entry_line-starts = rw (starts, entry_line_text) (begins-append key _)

  value_of-entry_line : value_of key (ended (entry_line key val)) ≡ some (val ++ newline ∷ [])
  unfolding value_of
  value_of-entry_line =
      rw
        (
          value_of,
          entry_line_text,
          drop-length-append key (b'=' ∷ (val ++ newline ∷ [])),
          cut_at b'=' [] (val ++ newline ∷ []) tt,
        )
        refl

-- The file with another value under the key.
abbrev pub updated : Bytes → Bytes → Entry → Entry
updated key val e = record e {
  old = entry_line key val;
  post = drop (length (ended (entry_line key val))) (ended e.old ++ e.post);
}

module _ (section key : Bytes) (k : Lacks newline key × Lacks 0 key) (e : Entry)
    (h : IsEntry section key e) where
  pub updated-IsEntry : (val : Bytes) → IsValue key val → IsEntry section key (updated key val e)
  updated-IsEntry val v = record {
    no_section = h.no_section;
    head_line = h.head_line;
    heads = h.heads;
    no_key = h.no_key;
    old_line = entry_line-IsLine key val k v;
    no_nul = entry_line_no_nul key val k v;
    keyed = entry_line-starts key val k v;
  }

  pub ini_write_value-updated :
      (val : Bytes)
      → IsValue key val
      → ini_write_value section key val (some (content e))
        ≡ done (some (content (updated key val e)))
  unfolding ini_write_value
  ini_write_value-updated val v =
      let text = ended (entry_line key val) in
      let same : key ++ b'=' ∷ (val ++ newline ∷ []) ≡ text =
        sym (append_assoc key (b'=' ∷ val) (newline ∷ [])) in
      let fits : store max_len text ≡ done text = store_fits max_len text (
        omega (
          arith,
          v.fits,
          length-append (entry_line key val) (newline ∷ []),
          length-append key (b'=' ∷ val),
        )) in
      rw (ini_write_value, same, fits, write_content-file_of section key e h text) refl

  pub ini_read_value-entry_line :
      (val val₀ : Bytes)
      → IsValue key val
      → e.old ≡ entry_line key val
      → ini_read_value section key val₀ (some (content e)) ≡ val
  unfolding ini_read_value copy_value
  ini_read_value-entry_line val val₀ v o =
      let f =
        find_section_line section e.before e.head (lines_then e.between (ended e.old ++ e.post)) []
          (fuel_for (content e)) (before_fuel e (ended e.old ++ e.post)) h.no_section h.head_line
          h.heads in
      let text = val ++ newline ∷ [] in
      let cuts : cut_end (copy_value text val₀) ≡ some val =
        rw (append_assoc val (newline ∷ []) (drop (length text) val₀))
          (cut_end_value val _ v.no_newline v.no_return) in
      rw (ini_read_value, f)
        (read_key_line key val₀ e.between e.old e.post (lines_then e.before (ended e.head))
          (fuel_for (content e)) (between_fuel e (ended e.old ++ e.post)) h.no_key h.old_line
          h.keyed text val (rw o (value_of-entry_line key val k v)) cuts)
