-- ===== src/Client/Program/Moves.antt =====
-- What the reading of keys, a pause, a call and a value that may not fit do to the order of the calls.
use everyone_talk.Prelude.{
  ℕ, suc, ◌≤◌, ◌<◌, Option, none, some, List, [], ◌∷◌, ◌++◌, Bytes, length, arith,
}
use everyone_talk.Outcome.{Outcome, done, overflow}
use everyone_talk.Client.Requests.{Socket}
use everyone_talk.Client.Console.{
  Call, Client, and_then, pure, lift, pause, getchar, taken, typed, called, call_on, call,
}
use everyone_talk.Client.Program.Follows.{Phase, Follows, Holds, Holds-weaken, Stays, Takes}

-- What is read leaves fewer keys than the number.
abbrev pub Leaves {ℓ} : {A : Type ℓ} → ℕ → Outcome (Option (A × Bytes)) → Type 0
Leaves n overflow = Unit
Leaves n (done none) = Unit
Leaves n (done (some (a, keys))) = length keys < n

taken-Holds {ℓ} :
    {A : Type ℓ} (phase : Phase) (n : ℕ) (c : Client) (o : Outcome (Option (A × Bytes)))
    → Leaves n o
    → Follows c.calls phase
    → Holds (λ a c'. Follows c'.calls phase × (length c'.keys < n)) (taken c o)
unfolding taken
taken-Holds phase n c overflow l h = tt
taken-Holds phase n c (done none) l h = (phase, h)
taken-Holds phase n c (done (some (a, keys))) l h = (h, l)

pub typed-Takes {ℓ} :
    {A : Type ℓ} (phase : Phase) (read : Bytes → Outcome (Option (A × Bytes)))
    → ((keys : Bytes) → Leaves (length keys) (read keys))
    → Takes phase (λ _. phase) (typed read)
typed-Takes phase read l c h = taken-Holds phase (length c.keys) c (read c.keys) (l c.keys) h

pub typed-Stays {ℓ} :
    {A : Type ℓ} (phase : Phase) (read : Bytes → Outcome (Option (A × Bytes)))
    → ((keys : Bytes) → Leaves (suc (length keys)) (read keys))
    → Stays phase (λ _. phase) (typed read)
typed-Stays phase read l c h =
    Holds-weaken _ _ (taken c (read c.keys))
      (taken-Holds phase (suc (length c.keys)) c (read c.keys) (l c.keys) h)
      (λ a c' (q, m). (q, omega (arith, m)))

pause-Holds :
    (phase : Phase) (c : Client) (keys : Bytes)
    → Follows c.calls phase
    → Holds {0}
        (λ a c'. Follows c'.calls phase × (length c'.keys ≤ length keys))
        (and_then (λ ch. pure tt) (getchar c keys))
unfolding and_then getchar
pause-Holds phase c [] h = (phase, h)
pause-Holds phase c (ch ∷ keys) h = (h, omega arith)

pub pause-Stays : (phase : Phase) → Stays phase (λ _. phase) pause
unfolding pause
pause-Stays phase c h = pause-Holds phase c c.keys h

called-Holds {ℓ} :
    {A : Type ℓ} (phase : Phase) (n : ℕ) (c : Client) (o : Outcome (Option A))
    → length c.keys ≤ n
    → Follows c.calls phase
    → Holds (λ a c'. Follows c'.calls phase × (length c'.keys ≤ n)) (called c o)
unfolding called
called-Holds phase n c overflow l h = tt
called-Holds phase n c (done none) l h = (phase, h)
called-Holds phase n c (done (some a)) l h = (h, l)

call_on-Holds {ℓ} :
    {A : Type ℓ} (phase phase' : Phase) (x : Call) (request : Socket → Outcome (Option A))
    (c : Client) (sockets : List Socket)
    → Follows c.calls phase
    → Follows (c.calls ++ x ∷ []) phase'
    → Holds
        (λ a c'. Follows c'.calls phase' × (length c'.keys ≤ length c.keys))
        (call_on x request c sockets)
unfolding call_on
call_on-Holds phase phase' x request c [] h k = (phase, h)
call_on-Holds phase phase' x request c (socket ∷ sockets) h k =
    called-Holds phase' (length c.keys) _ (request socket) (omega arith) k

pub call-Stays {ℓ} :
    {A : Type ℓ} (phase phase' : Phase) (x : Call) (request : Socket → Outcome (Option A))
    → ((xs : List Call) → Follows xs phase → Follows (xs ++ x ∷ []) phase')
    → Stays phase (λ _. phase') (call x request)
call-Stays phase phase' x request move c h =
    call_on-Holds phase phase' x request c c.sockets h (move c.calls h)

lift-Holds {ℓ} :
    {A : Type ℓ} (phase : Phase) (o : Outcome A) (c : Client)
    → Follows c.calls phase
    → Holds (λ a c'. Follows c'.calls phase × (length c'.keys ≤ length c.keys)) (lift o c)
unfolding lift
lift-Holds phase overflow c h = tt
lift-Holds phase (done a) c h = (h, omega arith)

pub lift-Stays {ℓ} :
    {A : Type ℓ} (phase : Phase) (o : Outcome A) → Stays phase (λ _. phase) (lift o)
lift-Stays phase o c h = lift-Holds phase o c h
