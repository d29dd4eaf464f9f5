-- ===== src/Server/Connection/Lines.antt =====
-- The loop against its specification: lines dealt with one after another, until a quit.
use everyone_talk.Prelude.{
  suc, ◌<◌, ◌≡◌, refl, sym, ap, ◌∙◌, false, List, [], ◌∷◌, ◌++◌, append_assoc, Bytes, Bool-cases,
  inl, inr, All, All-append, Lacks, length, map, arith, if◌then◌else◌,
}
use everyone_talk.Outcome.{Outcome, done, overflow, ◌>>=◌}
use everyone_talk.CString.{c_str, c_str-Lacks, c_str-append}
use everyone_talk.Common.{max_line, newline}
use everyone_talk.Server.State.{Server}
use everyone_talk.Server.Parse.{get_msgtpye}
use everyone_talk.Server.Handlers.{Env}
use everyone_talk.Server.Dispatch.{Reply, deal_line}
use everyone_talk.Server.Connection.{
  Status, running, returned, Connection, fill, answer, deal_read, turn, go_on, rounds,
}
use everyone_talk.Wire.Readline.{stream, readline, readline_line, got}

-- What others see of a connection.
abbrev pub Seen : Type 0
Seen = Server × Bytes × Status

abbrev pub seen : Connection → Seen
seen c = (c.server, c.written, c.status)

-- The specification: lines, without their newlines, each with what its round meets.
abbrev pub answered : (Server → Bytes → Outcome Seen) → Bytes → Reply → Outcome Seen
answered more out r =
    if r.returns
    then done (r.server, out ++ r.written, returned)
    else more r.server (out ++ r.written)

unfoldable pub session : List (Env × Bytes) → Server → Bytes → Outcome Seen
session [] s out = done (s, out, running)
session ((env, line) ∷ lines) s out =
    deal_line env (line ++ newline ∷ []) s >>= answered (session lines) out

-- A line that fits `msg_recv`.
pub record IsLine (line : Bytes) : Type 0 where
  pub no_newline : Lacks newline line
  pub no_nul : Lacks 0 line
  pub fits : suc (length line) < max_line

abbrev pub sent_bytes : List (Env × Bytes) → Bytes
sent_bytes [] = []
sent_bytes ((env, line) ∷ lines) = line ++ newline ∷ sent_bytes lines

-- Only the text of `msg_recv` counts.
pub deal_line-c_str :
    (env : Env) (a b : Bytes) (s : Server)
    → c_str a ≡ c_str b
    → deal_line env a s ≡ deal_line env b s
unfolding deal_line get_msgtpye
deal_line-c_str env a b s h = rw (deal_line, get_msgtpye, h)

module _ (env : Env) (line rest : Bytes) (c : Connection) where
  turn-line :
      stream c.buf c.reads ≡ line ++ newline ∷ rest
      → IsLine line
      → (c' : Connection) × (stream c'.buf c'.reads ≡ rest)
        × (c'.server ≡ c.server)
        × (c'.written ≡ c.written)
        × (turn env c ≡ (deal_line env (line ++ newline ∷ []) c.server >>= λ r. done (answer c' r)))
  unfolding turn deal_read fill
  turn-line arrives h =
      let (read, left) =
        readline_line max_line line rest c.buf c.reads arrives h.no_newline h.fits in
      let r = readline max_line c.buf c.reads in
      let text : Bytes = line ++ newline ∷ [] in
      let same : c_str (fill (got (suc (length line)) text) c.msg_recv) ≡ c_str text =
        c_str-append text _ (All-append _ line _ h.no_nul (omega arith))
        ∙ sym (c_str-Lacks text (All-append _ line _ h.no_nul (omega arith))) in
      (
        record c {
          msg_recv = fill (got (suc (length line)) text) c.msg_recv;
          buf = r.1;
          reads = r.2;
        },
        left,
        refl,
        refl,
        rw read (rw (deal_line-c_str env _ text c.server same)),
      )

-- The rest of a round, in the loop and in the specification.
pub rest_of_round :
    (o : Outcome Reply) (envs : List Env) (lines : List (Env × Bytes)) (c : Connection)
    (out : Bytes)
    → c.written ≡ out
    → ((r : Reply)
        → r.returns ≡ false
        → (rounds envs (answer c r) >>= λ x. done (seen x))
          ≡ session lines r.server (out ++ r.written))
    → ((o >>= λ r. done (answer c r)) >>= (λ c'. go_on c'.status (rounds envs) c') >>= λ x.
        done (seen x))
      ≡ (o >>= answered (session lines) out)
unfolding go_on answer
rest_of_round overflow envs lines c out w more = refl
rest_of_round (done r) envs lines c out w more = elim (Bool-cases r.returns) [
  | inl e ↦ rw (e, w) refl
  | inr e ↦ rw (e, go_on) (rw e at (more r e))
]

-- The rounds of one thread between which no other thread reads: a connection that carries lines, each
-- of which fits `msg_recv` with its newline and holds no NUL, in whatever pieces, is dealt with as the specification deals with the lines: each as one request, in
-- order, each reply written before the next line is read, and nothing after a quit.
pub rounds_refine :
    (lines : List (Env × Bytes)) (rest : Bytes) (c : Connection)
    → All (λ l. IsLine l.1) lines
    → stream c.buf c.reads ≡ sent_bytes lines ++ rest
    → c.status ≡ running
    → (rounds (map (λ l. l.0) lines) c >>= λ c'. done (seen c')) ≡ session lines c.server c.written
unfolding rounds session answer
rounds_refine [] rest c h arrives on = rw on
rounds_refine ((env, line) ∷ lines) rest c (h, hs) arrives on =
    let (c', left, server, out, dealt) =
      turn-line env line (sent_bytes lines ++ rest) c
        (arrives ∙ append_assoc line (newline ∷ sent_bytes lines) rest) h in
    rw dealt (
      rest_of_round (deal_line env (line ++ newline ∷ []) c.server) (map (λ l. l.0) lines) lines c'
        c.written out
        (λ r e.
          rounds_refine lines rest (answer c' r) hs left
            (ap (λ b. if b then returned else running) e)
          ∙ ap (λ w. session lines r.server (w ++ r.written)) out))
