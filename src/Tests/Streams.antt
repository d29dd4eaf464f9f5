-- ===== src/Tests/Streams.antt =====
-- Streams that arrive and go out in pieces.
use everyone_talk.Prelude.{◌≡◌, refl, List, [], ◌∷◌, codes, arith}
use everyone_talk.Wire.Readline.{
  Read, chunk, interrupted, end, got, stream, readline, left_over, readline_line,
}

abbrev reads : List Read
reads = chunk b'o' (codes "b") ∷ interrupted ∷ chunk 10 (codes "x") ∷ end ∷ []

readline_line_example :
    let r = readline 1024 (codes "B") reads in
    (r.0 ≡ got 4 (codes "Bob\n")) × (left_over r ≡ codes "x")
unfolding stream
readline_line_example =
    readline_line 1024 (codes "Bob") (codes "x") (codes "B") reads refl (omega arith) (omega arith)
