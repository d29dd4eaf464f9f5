-- ===== src/Server/Threads/Taken.antt =====
-- Two threads of server/server.cpp on the one buffer of server/readline_server.cpp.
use mathlib.Core.Option
use everyone_talk.Prelude.{
  ℕ, zero, suc, ◌+◌, ◌-◌, ◌<◌, ◌≡◌, ◌≢◌, refl, sym, ap, ◌∙◌, false, Option, some, List, [], ◌∷◌,
  ◌++◌, append_assoc, Bytes, Lacks, All-append, length, ◌==◌, get_elem?, arith,
}
use everyone_talk.Outcome.{done, ◌>>=◌}
use everyone_talk.CString.{c_str, c_str-Lacks, c_str-append}
use everyone_talk.Common.{max_line, newline}
use everyone_talk.Server.Handlers.{Env}
use everyone_talk.Server.Dispatch.{Reply, deal_line}
use everyone_talk.Server.Connection.{Connection, running, turn, deal_read, fill, answer, go_on}
use everyone_talk.Server.Connection.Lines.{IsLine, deal_line-c_str}
use everyone_talk.Server.Threads.{Serving}
use everyone_talk.Server.Threads.Turns.{
  stored, entering, thread_turn, scheduled, get_elem?-put_thread, get_elem?-put_thread_ne,
}
use everyone_talk.Wire.Readline.{Read, Line, chunk, got, my_read, refill, readline_loop, readline}

-- A line that is in the buffer is read from there, and no `read` is made.
loop_buffered :
    (left n : ℕ) (text u v : Bytes) (reads : List Read)
    → Lacks newline u
    → length u < left
    → readline_loop left n text (u ++ newline ∷ v) reads
      ≡ (got (n + length u) (text ++ (u ++ newline ∷ [])), v, reads)
unfolding readline_loop my_read
loop_buffered zero n text u v reads k l = absurd (omega (arith, l))
loop_buffered (suc left) n text [] v reads k l =
    ap (λ m. (got m (text ++ newline ∷ []), v, reads)) (omega arith)
loop_buffered (suc left) n text (c ∷ u) v reads (k, ks) l =
    let later = loop_buffered left (n + 1) (text ++ c ∷ []) u v reads ks (omega (arith, l)) in
    let differs : (c == newline) ≡ false = ground (arith, k) in
    let count : n + 1 + length u ≡ n + suc (length u) = omega arith in
    rw differs (
      later
      ∙ ap (λ m. (got m ((text ++ c ∷ []) ++ (u ++ newline ∷ [])), v, reads)) count
      ∙ ap (λ t. (got (n + suc (length u)) t, v, reads))
          (append_assoc text (c ∷ []) (u ++ newline ∷ [])))

-- A line on a thread's connection, with what stands behind it in the buffer.
abbrev got_line : Connection → Bytes → Bytes → List Read → Connection
got_line c line v reads = record c {
  msg_recv = fill (got (suc (length line)) (line ++ newline ∷ [])) c.msg_recv;
  buf = v;
  reads = reads;
}

turn_buffered :
    (env : Env) (c : Connection) (line v : Bytes) (reads : List Read)
    → readline max_line c.buf c.reads ≡ readline max_line (line ++ newline ∷ v) reads
    → IsLine line
    → turn env c ≡ (
        deal_line env (line ++ newline ∷ []) c.server >>= λ r.
        done (answer (got_line c line v reads) r))
unfolding turn deal_read fill readline
turn_buffered env c line v reads same h =
    let text : Bytes = line ++ newline ∷ [] in
    let read =
      same
      ∙ loop_buffered (max_line - 1) 1 [] line v reads h.no_newline
          (let fits = h.fits in omega (arith, fits)) in
    let one : 1 + length line ≡ suc (length line) = omega arith in
    let whole = read ∙ ap (λ m. (got m text, v, reads)) one in
    let msg = fill (got (suc (length line)) text) c.msg_recv in
    let taken : c_str msg ≡ c_str text =
      c_str-append text _ (All-append _ line _ h.no_nul (omega arith))
      ∙ sym (c_str-Lacks text (All-append _ line _ h.no_nul (omega arith))) in
    ap
      (λ (r : Line × Bytes × List Read).
        deal_read env r.0 (record c { msg_recv = fill r.0 c.msg_recv; buf = r.1; reads = r.2 }))
      whole
    ∙ ap (λ o. o >>= λ r. done (answer (got_line c line v reads) r))
        (deal_line-c_str env msg text c.server taken)

-- What a thread has written, and the reads that it has not made.
abbrev pub left_of : ℕ → Serving → Option (Bytes × List Read)
left_of i x = Option.map (λ c. (c.written, c.reads)) (get_elem? x.threads i)

thread_turn-some :
    (env : Env) (i : ℕ) (x : Serving) (c : Connection)
    → get_elem? x.threads i ≡ some c
    → c.status ≡ running
    → thread_turn env i x ≡ (turn env (entering x c) >>= λ c'. done (stored i x c'))
unfolding thread_turn go_on
thread_turn-some env i x c h on = rw (thread_turn, h, on)

-- If one `read` on a client's connection brings two lines, each of which fits and holds no NUL, to
-- an empty buffer, and the rounds of that client's thread and then of another client's come next, the
-- other thread makes no `read` of its own: it deals with the second line and writes the reply to
-- its own client, and the first thread has written the reply to the first line alone.
pub second_line_taken :
    (a b : ℕ) (x : Serving) (ca cb : Connection) (env env' : Env) (line other : Bytes) (k : ℕ)
    (ks : Bytes) (more : List Read) (r r' : Reply)
    → a ≢ b
    → get_elem? x.threads a ≡ some ca
    → get_elem? x.threads b ≡ some cb
    → ca.status ≡ running
    → cb.status ≡ running
    → IsLine line
    → IsLine other
    → x.buf ≡ []
    → ca.reads ≡ chunk k ks ∷ more
    → k ∷ ks ≡ line ++ newline ∷ (other ++ newline ∷ [])
    → deal_line env (line ++ newline ∷ []) x.server ≡ done r
    → deal_line env' (other ++ newline ∷ []) r.server ≡ done r'
    → (y : Serving) × (scheduled ((a, env) ∷ (b, env') ∷ []) x ≡ done y)
      × (left_of a y ≡ some (ca.written ++ r.written, more))
      × (left_of b y ≡ some (cb.written ++ r'.written, cb.reads))
      × (y.server ≡ r'.server)
unfolding scheduled stored answer readline readline_loop my_read refill
second_line_taken a b x ca cb env env' line other k ks more r r' ne ha hb oa ob la lb empty arrived
      both first second =
    let c1 = answer (got_line (entering x ca) line (other ++ newline ∷ []) more) r in
    let x1 = stored a x c1 in
    let c2 = answer (got_line (entering x1 cb) other [] cb.reads) r' in
    let same : readline max_line x.buf ca.reads
        ≡ readline max_line (line ++ newline ∷ (other ++ newline ∷ [])) more =
      ap (λ d. readline max_line d ca.reads) empty
      ∙ ap (readline max_line []) arrived
      ∙ ap (λ d. readline max_line d more) both in
    let turn1 : thread_turn env a x ≡ done x1 =
      thread_turn-some env a x ca ha oa
      ∙ ap (λ o. o >>= λ c'. done (stored a x c'))
          (turn_buffered env (entering x ca) line (other ++ newline ∷ []) more same la
            ∙ ap
                (λ o. o >>= λ q.
                  done (answer (got_line (entering x ca) line (other ++ newline ∷ []) more) q))
                first) in
    let still : get_elem? x1.threads b ≡ some cb =
      get_elem?-put_thread_ne a b c1 x.threads ne ∙ hb in
    let turn2 : thread_turn env' b x1 ≡ done (stored b x1 c2) =
      thread_turn-some env' b x1 cb still ob
      ∙ ap (λ o. o >>= λ c'. done (stored b x1 c'))
          (turn_buffered env' (entering x1 cb) other [] cb.reads refl lb
            ∙ ap (λ o. o >>= λ q. done (answer (got_line (entering x1 cb) other [] cb.reads) q))
                second) in
    (
      stored b x1 c2,
      ap (λ o. o >>= scheduled ((b, env') ∷ [])) turn1 ∙ ap (λ o. o >>= scheduled []) turn2,
      ap (Option.map (λ c. (c.written, c.reads))) (
          get_elem?-put_thread_ne b a c2 x1.threads (λ e. ne (sym e))
          ∙ get_elem?-put_thread a c1 x.threads ha),
      ap (Option.map (λ c. (c.written, c.reads))) (get_elem?-put_thread b c2 x1.threads still),
      refl,
    )
