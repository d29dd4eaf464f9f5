-- ===== src/Client/Console.antt =====
-- What the main thread of the client works with, and how its functions are composed: each takes the
-- state and returns, writes past the end of an array, or waits for a key or a reply.
use everyone_talk.Prelude.{
  ℕ, zero, suc, ◌-◌, Option, none, some, Bool, List, [], ◌∷◌, ◌++◌, Bytes, length, ◌==◌, ◌||◌, ◌&&◌,
  leb, ltb, if◌then◌else◌,
}
use everyone_talk.Int.{ℤ}
use everyone_talk.Outcome.{Outcome, done, overflow}
use everyone_talk.CString.{c_str}
use everyone_talk.Common.{UserInfo, LoginInfo, UserState, max_line}
use everyone_talk.Client.Friends.{FriendWindow, KeyMapState}
use everyone_talk.Client.Talk.{TalkWindow}
use everyone_talk.Client.Requests.{Socket}
use everyone_talk.Client.Config.{take_line}

-- A call of one of the functions that send a request.
pub data Call : Type 0 where
  register_to_server : UserInfo → Call
  login : LoginInfo → Call
  get_friend_list : Bytes → Call
  change_user_state : Bytes → UserState → Call
  send_msg_to_server : Bytes → Bytes → Call
  quit_from_server : Bytes → Call

-- The keys that `getchar`, `scanf` and `fgets` will give, in order; `g_sockfd` from each request to
-- come on; the calls made, oldest first; the windows and the table of states; the global `c_ip` and
-- `c_port`; and what the uninitialised `u_state` of `friend_lists_modify` holds.
pub record Client : Type 0 where
  pub keys : Bytes
  pub sockets : List Socket
  pub calls : List Call
  pub friends : FriendWindow
  pub talk : TalkWindow
  pub key_map_state : KeyMapState
  pub c_ip : Bytes
  pub c_port : ℤ
  pub u_state : UserState

-- `endless` stands for a loop that has used up its fuel.
pub data Result {ℓ} (A : Type ℓ) : Type ℓ where
  returns : A → Client → Result A
  overflows : Result A
  waits : Client → Result A
  endless : Result A

abbrev pub Program {ℓ} : Type ℓ → Type ℓ
Program A = Client → Result A

unfoldable pub and_then {ℓ κ} : {A : Type ℓ} {B : Type κ} → (A → Program B) → Result A → Result B
and_then f (returns a c) = f a c
and_then f overflows = overflows
and_then f (waits c) = waits c
and_then f endless = endless

infixl 5 ◌>>=◌
abbrev pub ◌>>=◌ {ℓ κ} : {A : Type ℓ} {B : Type κ} → Program A → (A → Program B) → Program B
(p >>= f) = λ c. and_then f (p c)

abbrev pub Action : Type 0
Action = Program {0} Unit

abbrev pub pure {ℓ} : {A : Type ℓ} → A → Program A
pure a = λ c. returns a c

abbrev pub update : (Client → Client) → Action
update f = λ c. returns tt (f c)

-- What the state holds.
abbrev pub look {ℓ} : {A : Type ℓ} → (Client → A) → Program A
look f = λ c. returns (f c) c

-- `while (1)` around a body that gives `some` where it breaks off.
unfoldable pub repeat {ℓ} : {A : Type ℓ} → ℕ → Program (Option A) → Program A
repeat zero body = λ c. endless
repeat (suc fuel) body = body >>= λ o. elim o [ none ↦ repeat fuel body | some a ↦ pure a ]

-- Each round takes a key or breaks off, so one round more than there are keys is enough.
unfoldable pub forever {ℓ} : {A : Type ℓ} → Program (Option A) → Program A
forever body = λ c. repeat (suc (length c.keys)) body c

-- A value that may not fit its array.
unfoldable pub lift {ℓ} : {A : Type ℓ} → Outcome A → Program A
lift overflow c = overflows
lift (done a) c = returns a c

unfoldable pub getchar : Client → List ℕ → Result ℕ
getchar c [] = waits c
getchar c (ch ∷ keys) = returns ch (record c { keys = keys })

-- A pause.
unfoldable pub pause : Action
pause = λ c. and_then (λ ch. pure tt) (getchar c c.keys)

-- Keys that are read up to some point: what they spell and those behind.
unfoldable pub taken {ℓ} : {A : Type ℓ} → Client → Outcome (Option (A × Bytes)) → Result A
taken c overflow = overflows
taken c (done none) = waits c
taken c (done (some (a, keys))) = returns a (record c { keys = keys })

abbrev pub typed {ℓ} : {A : Type ℓ} → (Bytes → Outcome (Option (A × Bytes))) → Program A
typed read = λ c. taken c (read c.keys)

-- A call with the socket that it meets.
unfoldable pub called {ℓ} : {A : Type ℓ} → Client → Outcome (Option A) → Result A
called c overflow = overflows
called c (done none) = waits c
called c (done (some a)) = returns a c

unfoldable pub call_on {ℓ} :
    {A : Type ℓ} → Call → (Socket → Outcome (Option A)) → Client → List Socket → Result A
call_on x request c [] = waits c
call_on x request c (socket ∷ sockets) =
    called (record c { sockets = sockets; calls = c.calls ++ x ∷ [] }) (request socket)

abbrev pub call {ℓ} : {A : Type ℓ} → Call → (Socket → Outcome (Option A)) → Program A
call x request = λ c. call_on x request c c.sockets

abbrev pub is_space : ℕ → Bool
is_space c = c == 32 || (leb 9 c && leb c 13)

-- The word that `%s` reads, and the keys from the white space behind it on.
unfoldable pub rest_of_word : Bytes → Option (Bytes × Bytes)
rest_of_word [] = none
rest_of_word (c ∷ keys) =
    let more = rest_of_word keys in
    if is_space c
    then some ([], c ∷ keys)
    else elim more [ none ↦ none | some (word, rest) ↦ some (c ∷ word, rest) ]

unfoldable pub skip_spaces : Bytes → Bytes
skip_spaces [] = []
skip_spaces (c ∷ keys) = let more = skip_spaces keys in if is_space c then more else c ∷ keys

-- `scanf("%s", a)` into an array of `MAXLINE` bytes.
unfoldable pub scan_word : Bytes → Outcome (Option (Bytes × Bytes))
scan_word keys = elim (rest_of_word (skip_spaces keys)) [
  | none ↦ if ltb max_line (length (skip_spaces keys)) then overflow else done none
  | some (word, rest) ↦
      if ltb (length word) max_line then done (some (c_str word, rest)) else overflow
]

-- `fgets(sendline, MAXLINE, stdin)`; it waits for a newline or the last byte that fits.
unfoldable pub fgets_line : Bytes → Outcome (Option (Bytes × Bytes))
unfolding take_line
fgets_line keys =
    let (line, rest, eof) = take_line (max_line - 1) keys in
    if eof then done none else done (some (line, rest))
