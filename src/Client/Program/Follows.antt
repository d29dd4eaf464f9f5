-- ===== src/Client/Program/Follows.antt =====
-- The order of the calls that a client makes, and how it is kept by the functions that are composed.
use everyone_talk.Prelude.{
  ℕ, zero, suc, ◌≤◌, ◌<◌, Option, none, some, List, [], ◌∷◌, ◌++◌, Bytes, codes, length, arith,
}
use everyone_talk.Common.{UserInfo, LoginInfo, UserState}
use everyone_talk.Client.Console.{
  Call, Client, Result, returns, overflows, waits, endless, Program, and_then, ◌>>=◌, pure, repeat,
  forever,
}

-- Logged out, a login tried, the list of friends asked for, in the windows, or past the quit.
pub data Phase : Type 0 where
  out : Phase
  tried asked inside : Bytes → Phase
  gone : Phase

-- The calls in order, and the phase behind them.
pub data Follows : List Call → Phase → Type 0 where
  nothing : Follows [] Phase.out
  registered :
      (xs : List Call) (user_info : UserInfo)
      → Follows xs Phase.out
      → Follows (xs ++ Call.register_to_server user_info ∷ []) Phase.out
  logged_in :
      (xs : List Call) (l : LoginInfo)
      → Follows xs Phase.out
      → Follows (xs ++ Call.login l ∷ []) (Phase.tried l.user_name)
  refused : (xs : List Call) (name : Bytes) → Follows xs (Phase.tried name) → Follows xs Phase.out
  asked_for :
      (xs : List Call) (name : Bytes)
      → Follows xs (Phase.tried name)
      → Follows (xs ++ Call.get_friend_list name ∷ []) (Phase.asked name)
  not_listed :
      (xs : List Call) (name : Bytes) → Follows xs (Phase.asked name) → Follows xs Phase.out
  listed :
      (xs : List Call) (name : Bytes)
      → Follows xs (Phase.asked name)
      → Follows xs (Phase.inside name)
  changed :
      (xs : List Call) (name : Bytes) (state : UserState)
      → Follows xs (Phase.inside name)
      → Follows (xs ++ Call.change_user_state name state ∷ []) (Phase.inside name)
  sent :
      (xs : List Call) (name f_name text : Bytes)
      → Follows xs (Phase.inside name)
      → Follows (xs ++ Call.send_msg_to_server f_name text ∷ []) (Phase.inside name)
  left :
      (xs : List Call) (name : Bytes)
      → Follows xs (Phase.inside name)
      → Follows (xs ++ Call.quit_from_server name ∷ []) Phase.gone
  stopped :
      (xs : List Call)
      → Follows xs Phase.out
      → Follows (xs ++ Call.quit_from_server (codes "none") ∷ []) Phase.gone

-- What holds of a result: `Q` of one that returns, the order of the calls of one that waits, and no
-- loop runs out of fuel.
abbrev pub Holds {ℓ} : {A : Type ℓ} → (A → Client → Type 0) → Result A → Type 0
Holds Q (returns a c) = Q a c
Holds Q overflows = Unit
Holds Q (waits c) = (phase : Phase) × Follows c.calls phase
Holds Q endless = ⊥

-- From one phase to another, by what is returned, with no more keys to come, or less.
abbrev pub Stays {ℓ} : {A : Type ℓ} → Phase → (A → Phase) → Program A → Type 0
Stays phase φ p =
    (c : Client)
    → Follows c.calls phase
    → Holds (λ a c'. Follows c'.calls (φ a) × (length c'.keys ≤ length c.keys)) (p c)

abbrev pub Takes {ℓ} : {A : Type ℓ} → Phase → (A → Phase) → Program A → Type 0
Takes phase φ p =
    (c : Client)
    → Follows c.calls phase
    → Holds (λ a c'. Follows c'.calls (φ a) × (length c'.keys < length c.keys)) (p c)

pub Holds-and_then {ℓ κ} :
    {A : Type ℓ} {B : Type κ} (Q : A → Client → Type 0) (R : B → Client → Type 0) (r : Result A)
    (f : A → Program B)
    → Holds Q r
    → ((a : A) (c : Client) → Q a c → Holds R (f a c))
    → Holds R (and_then f r)
unfolding and_then
Holds-and_then Q R (returns a c) f h k = k a c h
Holds-and_then Q R overflows f h k = tt
Holds-and_then Q R (waits c) f h k = h
Holds-and_then Q R endless f h k = h

pub Holds-weaken {ℓ} :
    {A : Type ℓ} (Q R : A → Client → Type 0) (r : Result A)
    → Holds Q r
    → ((a : A) (c : Client) → Q a c → R a c)
    → Holds R r
Holds-weaken Q R (returns a c) h k = k a c h
Holds-weaken Q R overflows h k = tt
Holds-weaken Q R (waits c) h k = h
Holds-weaken Q R endless h k = h

module _ {ℓ κ} {A : Type ℓ} {B : Type κ} where
  pub Stays->>= :
      (phase : Phase) (φ : A → Phase) (ψ : B → Phase) (p : Program A) (f : A → Program B)
      → Stays phase φ p
      → ((a : A) → Stays (φ a) ψ (f a))
      → Stays phase ψ (p >>= f)
  Stays->>= phase φ ψ p f h k c h' = Holds-and_then _ _ (p c) f (h c h') (λ a c' (q, l).
      Holds-weaken _ _ (f a c') (k a c' q) (λ b c'' (r, m). (r, omega (arith, l, m))))

  pub Takes->>= :
      (phase : Phase) (φ : A → Phase) (ψ : B → Phase) (p : Program A) (f : A → Program B)
      → Takes phase φ p
      → ((a : A) → Stays (φ a) ψ (f a))
      → Takes phase ψ (p >>= f)
  Takes->>= phase φ ψ p f h k c h' = Holds-and_then _ _ (p c) f (h c h') (λ a c' (q, l).
      Holds-weaken _ _ (f a c') (k a c' q) (λ b c'' (r, m). (r, omega (arith, l, m))))

pub Takes-Stays {ℓ} :
    {A : Type ℓ} (phase : Phase) (φ : A → Phase) (p : Program A) → Takes phase φ p → Stays phase φ p
Takes-Stays phase φ p h c h' =
    Holds-weaken _ _ (p c) (h c h') (λ a c' (q, l). (q, omega (arith, l)))

pub pure-Stays {ℓ} : {A : Type ℓ} (φ : A → Phase) (a : A) → Stays (φ a) φ (pure a)
pure-Stays φ a c h = (h, omega arith)

-- A move of the phase with no call.
pub Stays-from {ℓ} :
    {A : Type ℓ} (phase phase' : Phase) (φ : A → Phase) (p : Program A)
    → ((xs : List Call) → Follows xs phase → Follows xs phase')
    → Stays phase' φ p
    → Stays phase φ p
Stays-from phase phase' φ p move h c h' = h c (move c.calls h')

-- As many rounds as there are keys, and one more, are enough.
repeat-Stays {ℓ} :
    {A : Type ℓ} (φ : Option A → Phase) (body : Program (Option A))
    → Takes (φ none) φ body
    → (fuel : ℕ) (c : Client) → length c.keys < fuel
    → Follows c.calls (φ none)
    → Holds
        (λ a c'. Follows c'.calls (φ (some a)) × (length c'.keys ≤ length c.keys))
        (repeat fuel body c)
unfolding repeat
repeat-Stays φ body h zero c l h' = absurd (omega (arith, l))
repeat-Stays φ body h (suc fuel) c l h' = Holds-and_then _ _ (body c) _ (h c h') (elim [
  | none ↦ λ c' (q, m).
      Holds-weaken _ _ (repeat fuel body c') (repeat-Stays φ body h fuel c' (omega (arith, l, m)) q)
        (λ a c'' (r, n). (r, omega (arith, m, n)))
  | some a ↦ λ c' (q, m). (q, omega (arith, m))
])

pub forever-Stays {ℓ} :
    {A : Type ℓ} (φ : Option A → Phase) (body : Program (Option A))
    → Takes (φ none) φ body
    → Stays (φ none) (λ a. φ (some a)) (forever body)
unfolding forever
forever-Stays φ body h c h' = repeat-Stays φ body h (suc (length c.keys)) c (omega arith) h'
