-- ===== src/Wire/Readline.antt =====
-- `my_read` and `readline`. What `read` gives, call by call, is an argument: a chunk of at least one
-- byte, the end of the stream, an interrupted call or another error. The static `read_buf` is the
-- bytes of the last chunk that are not handed out yet.
use everyone_talk.Prelude.{
  ℕ, zero, suc, ◌+◌, ◌-◌, ◌<◌, ◌≡◌, false, ◌∙◌, ap, List, [], ◌∷◌, ◌++◌, append_assoc, append-nil,
  Bytes, Lacks, length, ◌==◌, if◌then◌else◌, arith,
}
use everyone_talk.Common.{newline}

pub data Read : Type 0 where
  chunk : ℕ → Bytes → Read
  end : Read
  interrupted : Read
  error : Read

-- 1 with a byte, 0, -1, or a call that has not returned yet.
pub data Rc : Type 0 where
  byte : ℕ → Rc
  at_end : Rc
  failed : Rc
  waits : Rc

-- The `again` loop.
unfoldable pub refill : List Read → Rc × Bytes × List Read
refill [] = (waits, [], [])
refill (chunk c bs ∷ reads) = (byte c, bs, reads)
refill (end ∷ reads) = (at_end, [], reads)
refill (interrupted ∷ reads) = refill reads
refill (error ∷ reads) = (failed, [], reads)

unfoldable pub my_read : Bytes → List Read → Rc × Bytes × List Read
unfolding refill
my_read [] reads = refill reads
my_read (c ∷ buf) reads = (byte c, buf, reads)

-- What `readline` returns: `n` and the text, `n - 1` at the end of the stream, or -1.
pub data Line : Type 0 where
  got : ℕ → Bytes → Line
  ended : ℕ → Bytes → Line
  broken : Bytes → Line
  pending : Bytes → Line

-- The body of the `for` loop on what `my_read` gave; `text` is what stands in the caller's array,
-- and `more` the rest of the loop.
unfoldable pub take_byte :
    ℕ
    → Bytes
    → (ℕ → Bytes → Bytes → List Read → Line × Bytes × List Read)
    → Rc × Bytes × List Read
    → Line × Bytes × List Read
take_byte n text more (byte c, buf, reads) =
    let next = more (n + 1) (text ++ c ∷ []) buf reads in
    if c == newline then (got n (text ++ c ∷ []), buf, reads) else next
take_byte n text more (at_end, buf, reads) = (ended (n - 1) text, buf, reads)
take_byte n text more (failed, buf, reads) = (broken text, buf, reads)
take_byte n text more (waits, buf, reads) = (pending text, buf, reads)

-- The `for` loop with `left` rounds to go.
unfoldable pub readline_loop : ℕ → ℕ → Bytes → Bytes → List Read → Line × Bytes × List Read
unfolding take_byte
readline_loop zero n text buf reads = (got n text, buf, reads)
readline_loop (suc left) n text buf reads =
    take_byte n text (readline_loop left) (my_read buf reads)

unfoldable pub readline : ℕ → Bytes → List Read → Line × Bytes × List Read
readline maxlen buf reads = readline_loop (maxlen - 1) 1 [] buf reads

-- The bytes that arrive before the stream ends or fails.
unfoldable pub arriving : List Read → Bytes
arriving [] = []
arriving (chunk c bs ∷ reads) = c ∷ (bs ++ arriving reads)
arriving (interrupted ∷ reads) = arriving reads
arriving (end ∷ reads) = []
arriving (error ∷ reads) = []

-- The stream from here on: what is left of the last chunk, and what arrives.
unfoldable pub stream : Bytes → List Read → Bytes
unfolding arriving
stream buf reads = buf ++ arriving reads

refill_byte :
    (reads : List Read) (c : ℕ) (s : Bytes)
    → arriving reads ≡ c ∷ s
    → (buf' : Bytes) × (reads' : List Read) × (refill reads ≡ (byte c, buf', reads'))
      × (stream buf' reads' ≡ s)
unfolding refill stream
refill_byte [] c s h = cc
refill_byte (chunk d bs ∷ reads) c s h = (bs, reads, ground arith, ground arith)
refill_byte (interrupted ∷ reads) c s h = refill_byte reads c s h
refill_byte (end ∷ reads) c s h = cc
refill_byte (error ∷ reads) c s h = cc

my_read_byte :
    (buf : Bytes) (reads : List Read) (c : ℕ) (s : Bytes)
    → stream buf reads ≡ c ∷ s
    → (buf' : Bytes) × (reads' : List Read) × (my_read buf reads ≡ (byte c, buf', reads'))
      × (stream buf' reads' ≡ s)
unfolding my_read stream
my_read_byte [] reads c s h = refill_byte reads c s h
my_read_byte (d ∷ buf) reads c s h = (buf, reads, ground arith, ground arith)

-- The stream that `readline` leaves.
abbrev pub left_over : Line × Bytes × List Read → Bytes
left_over r = stream r.1 r.2

loop_line :
    (left n : ℕ) (text u v buf : Bytes) (reads : List Read)
    → stream buf reads ≡ u ++ newline ∷ v
    → Lacks newline u
    → length u < left
    → let r = readline_loop left n text buf reads in
      (r.0 ≡ got (n + length u) (text ++ (u ++ newline ∷ []))) × (left_over r ≡ v)
unfolding readline_loop
loop_line zero n text u v buf reads h k l = absurd (omega (arith, l))
loop_line (suc left) n text [] v buf reads h k l =
    let (buf', reads', e, s) = my_read_byte buf reads newline v h in
    rw e (ap (λ m. got m (text ++ newline ∷ [])) (omega arith), s)
loop_line (suc left) n text (c ∷ u) v buf reads h (k, ks) l =
    let (buf', reads', e, s) = my_read_byte buf reads c (u ++ newline ∷ v) h in
    let (line, rest) =
      loop_line left (n + 1) (text ++ c ∷ []) u v buf' reads' s ks (omega (arith, l)) in
    let differs : (c == newline) ≡ false = ground (arith, k) in
    let count : n + 1 + length u ≡ n + suc (length u) = omega arith in
    rw (e, differs) (line ∙ cc (count, append_assoc text (c ∷ []) (u ++ newline ∷ [])), rest)

loop_full :
    (left n : ℕ) (text u v buf : Bytes) (reads : List Read)
    → stream buf reads ≡ u ++ v
    → Lacks newline u
    → length u ≡ left
    → let r = readline_loop left n text buf reads in
      (r.0 ≡ got (n + left) (text ++ u)) × (left_over r ≡ v)
unfolding readline_loop
loop_full zero n text [] v buf reads h k l =
    let count : n ≡ n + 0 = omega arith in (cc (count, append-nil text), h)
loop_full zero n text (c ∷ u) v buf reads h k l = absurd (omega (arith, l))
loop_full (suc left) n text [] v buf reads h k l = absurd (omega (arith, l))
loop_full (suc left) n text (c ∷ u) v buf reads h (k, ks) l =
    let (buf', reads', e, s) = my_read_byte buf reads c (u ++ v) h in
    let (line, rest) =
      loop_full left (n + 1) (text ++ c ∷ []) u v buf' reads' s ks (omega (arith, l)) in
    let differs : (c == newline) ≡ false = ground (arith, k) in
    let count : n + 1 + left ≡ n + suc left = omega arith in
    rw (e, differs) (line ∙ cc (count, append_assoc text (c ∷ []) u), rest)

-- A line that fits, with its newline and the NUL, is read whole and alone, and the stream goes on
-- behind it, however the system cuts the stream into chunks and whatever calls are interrupted.
pub readline_line :
    (maxlen : ℕ) (u v buf : Bytes) (reads : List Read)
    → stream buf reads ≡ u ++ newline ∷ v
    → Lacks newline u
    → suc (length u) < maxlen
    → let r = readline maxlen buf reads in
      (r.0 ≡ got (suc (length u)) (u ++ newline ∷ [])) × (left_over r ≡ v)
unfolding readline
readline_line maxlen u v buf reads h k l =
    let (line, rest) = loop_line (maxlen - 1) 1 [] u v buf reads h k (omega (arith, l)) in
    let count : 1 + length u ≡ suc (length u) = omega arith in
    (line ∙ ap (λ m. got m (u ++ newline ∷ [])) count, rest)

-- A line that does not fit is cut behind `maxlen - 1` bytes, and its rest is read as the next line.
-- The number returned is then `maxlen`, one more than the bytes read.
pub readline_cut :
    (maxlen : ℕ) (u v buf : Bytes) (reads : List Read)
    → stream buf reads ≡ u ++ v
    → Lacks newline u
    → suc (length u) ≡ maxlen
    → let r = readline maxlen buf reads in (r.0 ≡ got maxlen u) × (left_over r ≡ v)
unfolding readline
readline_cut maxlen u v buf reads h k l =
    let (line, rest) = loop_full (maxlen - 1) 1 [] u v buf reads h k (omega (arith, l)) in
    let count : 1 + (maxlen - 1) ≡ maxlen = omega (arith, l) in
    (line ∙ ap (λ m. got m u) count, rest)
