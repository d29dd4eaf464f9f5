-- ===== src/Server/Connection/Ends.antt =====
-- The loop behind the end of the stream, and after an error of `read`.
use everyone_talk.Prelude.{
  ◌≡◌, refl, ap, ◌∙◌, false, List, [], ◌∷◌, ◌++◌, Bytes, length, replicate, map,
}
use everyone_talk.Outcome.{done, ◌>>=◌}
use everyone_talk.CString.{c_str}
use everyone_talk.Common.{max_line, newline}
use everyone_talk.Server.Handlers.{Env}
use everyone_talk.Server.Dispatch.{Reply, deal_line}
use everyone_talk.Server.Connection.{
  running, Connection, fill, answer, deal_read, turn, go_on, rounds,
}
use everyone_talk.Server.Connection.Lines.{seen, session, deal_line-c_str, rest_of_round}
use everyone_talk.Wire.Readline.{
  Read, end, error, readline, readline_loop, my_read, refill, take_byte, ended, broken,
}

readline-end : (reads : List Read) → readline max_line [] (end ∷ reads) ≡ (ended 0 [], [], reads)
unfolding readline readline_loop my_read refill take_byte
readline-end reads = refl

readline-error : (reads : List Read) → readline max_line [] (error ∷ reads) ≡ (broken [], [], reads)
unfolding readline readline_loop my_read refill take_byte
readline-error reads = refl

-- A connection with nothing in `readline`'s buffer.
abbrev at_reads : Connection → List Read → Connection
at_reads c reads = record c { buf = []; reads = reads; status = running }

turn-end :
    (env : Env) (c : Connection) (reads : List Read)
    → turn env (at_reads c (end ∷ reads))
      ≡ done (at_reads (record c { msg_recv = fill (ended 0 []) c.msg_recv }) reads)
unfolding turn deal_read
turn-end env c reads = rw (readline-end reads) refl

-- Once the client has closed its connection, the thread does nothing and never ends: after any number
-- of rounds it still runs, with the tables and the replies as they were.
pub end_spins :
    (envs : List Env) (c : Connection) (reads : List Read)
    → (rounds envs (at_reads c (replicate (length envs) end ++ reads)) >>= λ x. done (seen x))
      ≡ done (c.server, c.written, running)
unfolding rounds go_on
end_spins [] c reads = refl
end_spins (env ∷ envs) c reads =
    rw (turn-end env c (replicate (length envs) end ++ reads))
      (end_spins envs (record c { msg_recv = fill (ended 0 []) c.msg_recv }) reads)

turn-error :
    (env : Env) (c : Connection) (reads : List Read)
    → turn env (at_reads c (error ∷ reads))
      ≡ (deal_line env c.msg_recv c.server >>= λ r. done (answer (at_reads c reads) r))
unfolding turn deal_read fill
turn-error env c reads = rw (readline-error reads) refl

answer-running :
    (c : Connection) (reads : List Read) (r : Reply)
    → r.returns ≡ false
    → answer (at_reads c reads) r ≡ at_reads (answer c r) reads
unfolding answer
answer-running c reads r e = rw e refl

-- Each time that `read` fails, the request that `msg_recv` still holds is dealt with once more, and
-- answered once more, until it is a quit.
pub error_repeats :
    (envs : List Env) (line : Bytes) (c : Connection) (reads : List Read)
    → c_str c.msg_recv ≡ c_str (line ++ newline ∷ [])
    → (rounds envs (at_reads c (replicate (length envs) error ++ reads)) >>= λ x. done (seen x))
      ≡ session (map (λ env. (env, line)) envs) c.server c.written
unfolding rounds session answer
error_repeats [] line c reads h = refl
error_repeats (env ∷ envs) line c reads h =
    let more = replicate (length envs) error ++ reads in
    rw (turn-error env c more, deal_line-c_str env c.msg_recv (line ++ newline ∷ []) c.server h)
      (rest_of_round (deal_line env (line ++ newline ∷ []) c.server) envs
        (map (λ e. (e, line)) envs) (at_reads c more) c.written refl
        (λ r e.
          ap (λ x. rounds envs x >>= λ y. done (seen y)) (answer-running c more r e)
          ∙ error_repeats envs line (answer c r) reads h))
