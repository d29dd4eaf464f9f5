-- ===== src/Protocol/Fields.antt =====
-- The texts that a message may carry between its separators, and the first field of a line.
use everyone_talk.Prelude.{
  ◌≡◌, sym, ◌∙◌, ap, some, [], ◌∷◌, ◌++◌, append_assoc, append-nil, Bytes, All-append, Lacks, arith,
  drop_last-append,
}
use everyone_talk.Int.{ℤ, IsInt, print_int, atoi}
use everyone_talk.Int.RoundTrip.{atoi-print_int, print_int-Lacks_above, print_int-Lacks_below}
use everyone_talk.CString.{c_str, c_str-Lacks, cut_at}
use everyone_talk.Common.{semicolon, newline}
use everyone_talk.Server.Parse.{get_msgtpye}

-- A field: no separator, no NUL.
pub record IsField (s : Bytes) : Type 0 where
  pub no_semicolon : Lacks semicolon s
  pub no_nul : Lacks 0 s

pub atoi-print_int_end : (z : ℤ) → IsInt z → atoi (c_str (print_int z)) ≡ z
atoi-print_int_end z h =
    rw (c_str-Lacks (print_int z) (print_int-Lacks_below 0 z (omega arith)))
      (ap atoi (sym (append-nil (print_int z))) ∙ atoi-print_int z [] h tt)

-- The number in front of a line is cut off and read back.
pub get_msgtpye_line :
    (id : ℤ) (text : Bytes)
    → IsInt id
    → Lacks 0 text
    → get_msgtpye (print_int id ++ semicolon ∷ (text ++ newline ∷ [])) ≡ some (id, text)
unfolding get_msgtpye
get_msgtpye_line id text h k = rw (
  get_msgtpye,
  c_str-Lacks (print_int id ++ semicolon ∷ (text ++ newline ∷ [])) (
      All-append _ (print_int id) _ (print_int-Lacks_below 0 id (omega arith))
        (omega arith, All-append _ text _ k (omega arith))),
  ← append_assoc (print_int id) (semicolon ∷ text) (newline ∷ []),
  drop_last-append (print_int id ++ semicolon ∷ text) newline,
  cut_at semicolon (print_int id) text (print_int-Lacks_above semicolon id (omega arith)),
  atoi-print_int_end id h,
)
