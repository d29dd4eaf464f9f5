-- ===== src/Server/Threads/Turns.antt =====
-- Rounds of the threads of server/server.cpp in a given order, on the one buffer that `readline` of
-- server/readline_server.cpp keeps for all of them.
use mathlib.Core.Option
use everyone_talk.Prelude.{
  ℕ, zero, suc, ◌≡◌, ◌≢◌, refl, sym, ap, ◌∙◌, Option, none, some, List, [], ◌∷◌, ◌++◌, Bytes, All,
  map, get_elem?,
}
use everyone_talk.Outcome.{Outcome, done, overflow, ◌>>=◌, >>=_assoc}
use everyone_talk.Server.Handlers.{Env}
use everyone_talk.Server.Connection.{
  Connection, Status, running, returned, blocked, turn, go_on, rounds,
}
use everyone_talk.Server.Connection.Lines.{Seen, seen, session, IsLine, sent_bytes, rounds_refine}
use everyone_talk.Server.Threads.{Serving}
use everyone_talk.Wire.Readline.{stream}

unfoldable pub put_thread : ℕ → Connection → List Connection → List Connection
put_thread i c [] = []
put_thread zero c (x ∷ threads) = c ∷ threads
put_thread (suc i) c (x ∷ threads) = x ∷ put_thread i c threads

-- The thread with the shared tables and the shared buffer, and both behind its round.
abbrev pub entering : Serving → Connection → Connection
entering x c = record c { server = x.server; buf = x.buf }

unfoldable pub stored : ℕ → Serving → Connection → Serving
unfolding put_thread
stored i x c = record { server = c.server; buf = c.buf; threads = put_thread i c x.threads }

-- One round of the thread of that number; one that has returned or waits makes none.
unfoldable pub thread_turn : Env → ℕ → Serving → Outcome Serving
unfolding stored go_on
thread_turn env i x = elim (get_elem? x.threads i) [
  | none ↦ done x
  | some c ↦ go_on c.status (turn env) (entering x c) >>= λ c'. done (stored i x c')
]

-- Rounds of the threads in this order.
unfoldable pub scheduled : List (ℕ × Env) → Serving → Outcome Serving
unfolding thread_turn
scheduled [] x = done x
scheduled ((i, env) ∷ turns) x = thread_turn env i x >>= scheduled turns

pub get_elem?-put_thread :
    (i : ℕ) (c' : Connection) (threads : List Connection) {c : Connection}
    → get_elem? threads i ≡ some c
    → get_elem? (put_thread i c' threads) i ≡ some c'
unfolding put_thread
get_elem?-put_thread i c' [] h = cc h
get_elem?-put_thread zero c' (x ∷ threads) h = refl
get_elem?-put_thread (suc i) c' (x ∷ threads) h = get_elem?-put_thread i c' threads h

pub get_elem?-put_thread_ne :
    (i j : ℕ) (c' : Connection) (threads : List Connection)
    → i ≢ j
    → get_elem? (put_thread i c' threads) j ≡ get_elem? threads j
unfolding put_thread
get_elem?-put_thread_ne i j c' [] h = refl
get_elem?-put_thread_ne zero zero c' (x ∷ threads) h = absurd (h refl)
get_elem?-put_thread_ne zero (suc j) c' (x ∷ threads) h = refl
get_elem?-put_thread_ne (suc i) zero c' (x ∷ threads) h = refl
get_elem?-put_thread_ne (suc i) (suc j) c' (x ∷ threads) h =
    get_elem?-put_thread_ne i j c' threads (λ e. h (ap suc e))

-- What others see of the thread of that number.
abbrev pub seen_of : ℕ → Serving → Option Seen
seen_of i x = Option.map (λ c. (x.server, c.written, c.status)) (get_elem? x.threads i)

stay_seen :
    (status : Status) (c : Connection)
    → (go_on status (rounds []) c >>= λ c'. done (some (seen c'))) ≡ done (some (seen c))
unfolding go_on rounds
stay_seen running c = refl
stay_seen returned c = refl
stay_seen blocked c = refl

module _ (env : Env) (envs : List Env) (i : ℕ) (x : Serving)
    (after : (c' : Connection)
      → (scheduled (map (λ env. (i, env)) envs) (stored i x c') >>= λ y. done (seen_of i y))
        ≡ (go_on c'.status (rounds envs) c' >>= λ d. done (some (seen d)))) where
  ran :
      (o : Outcome Connection)
      → ((o >>= λ c'. done (stored i x c')) >>= scheduled (map (λ env. (i, env)) envs) >>= λ y.
          done (seen_of i y))
        ≡ ((o >>= λ c'. go_on c'.status (rounds envs) c') >>= λ d. done (some (seen d)))
  ran overflow = refl
  ran (done c') = after c'

  -- A first round and those behind it.
  first_round :
      (status : Status) (c : Connection)
      → c.status ≡ status
      → ((go_on status (turn env) c >>= λ c'. done (stored i x c'))
          >>= scheduled (map (λ env. (i, env)) envs)
          >>= λ y. done (seen_of i y))
        ≡ (go_on status (rounds (env ∷ envs)) c >>= λ c'. done (some (seen c')))
  unfolding go_on rounds
  first_round running c e = ran (turn env c)
  first_round returned c e =
      after c ∙ ap (λ st. go_on st (rounds envs) c >>= λ d. done (some (seen d))) e
  first_round blocked c e =
      after c ∙ ap (λ st. go_on st (rounds envs) c >>= λ d. done (some (seen d))) e

-- If no other thread comes in between, the rounds of a thread are those of its connection.
scheduled-rounds :
    (envs : List Env) (i : ℕ) (x : Serving) (c : Connection)
    → get_elem? x.threads i ≡ some c
    → (scheduled (map (λ env. (i, env)) envs) x >>= λ y. done (seen_of i y))
      ≡ (go_on c.status (rounds envs) (entering x c) >>= λ c'. done (some (seen c')))
unfolding scheduled thread_turn
scheduled-rounds [] i x c h =
    ap (λ o. done (Option.map (λ t. (x.server, t.written, t.status)) o)) h
    ∙ sym (stay_seen c.status (entering x c))
scheduled-rounds (env ∷ envs) i x c h =
    ap
      (λ (o : Option Connection).
        elim o [
          | none ↦ done x
          | some d ↦ go_on d.status (turn env) (entering x d) >>= λ c'. done (stored i x c')
        ]
        >>= scheduled (map (λ env. (i, env)) envs)
        >>= λ y. done (seen_of i y))
      h
    ∙ first_round env envs i x
        (λ c'. scheduled-rounds envs i (stored i x c') c' (get_elem?-put_thread i c' x.threads h))
        c.status (entering x c) refl

-- If one thread of the server makes its rounds and no other thread comes in between, and what is left
-- in the shared buffer and arrives at its connection are lines, each of which fits `msg_recv` with
-- its newline and holds no NUL, in whatever pieces, the lines are dealt with as the specification
-- deals with them: each as one request, in order, each reply written before the next line is read,
-- and nothing after a quit.
pub lone_thread :
    (lines : List (Env × Bytes)) (rest : Bytes) (i : ℕ) (x : Serving) (c : Connection)
    → get_elem? x.threads i ≡ some c
    → c.status ≡ running
    → All (λ l. IsLine l.1) lines
    → stream x.buf c.reads ≡ sent_bytes lines ++ rest
    → (scheduled (map (λ env. (i, env)) (map (λ l. l.0) lines)) x >>= λ y. done (seen_of i y))
      ≡ (session lines x.server c.written >>= λ s. done (some s))
unfolding go_on
lone_thread lines rest i x c h on fit arrives =
    scheduled-rounds (map (λ l. l.0) lines) i x c h
    ∙ ap
        (λ st.
          go_on st (rounds (map (λ l. l.0) lines)) (entering x c) >>= λ c'. done (some (seen c')))
        on
    ∙ sym (
        >>=_assoc (rounds (map (λ l. l.0) lines) (entering x c)) (λ c'. done (seen c'))
          (λ s. done (some s)))
    ∙ ap (λ o. o >>= λ s. done (some s)) (rounds_refine lines rest (entering x c) fit arrives on)
