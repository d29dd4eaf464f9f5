-- ===== src/Server/Invariant.antt =====
-- What holds of the tables after any number of lines: the users only grow, the friends stay, and
-- every login belongs to a registered user.
use everyone_talk.Prelude.{
  ◌≡◌, sym, ◌∙◌, List, [], ◌∷◌, ◌++◌, append-nil, append_assoc, Bytes, All, All-append, Exists,
  Exists-before, inl, inr, arith, Bool-cases, bytes_eq, codes,
}
use everyone_talk.Int.{ℤ}
use everyone_talk.Outcome.{Outcome, done, ◌>>=◌, >>=-eq-done}
use everyone_talk.Common.{LoginInfo, UserState}
use everyone_talk.Server.State.{Server, TblUser, TblLogin}
use everyone_talk.Server.Logins.{set_state, erase_logins, set_login_state, update_quit_state}
use everyone_talk.Server.Handlers.{
  Env, register_info, login, post_state, client_quit, sendmsg_to_friend,
}
use everyone_talk.Server.Sessions.{change_user_state_done}
use everyone_talk.Server.Accounts.{Entered, login_cases}
use everyone_talk.Server.Accounts.Register.{row_of, register_info_done}
use everyone_talk.Server.Dispatch.{Reply, deal_line}
use everyone_talk.Server.Dispatch.Cases.{Handled, deal_line-Handled}

-- The login's user is in the table, under that name and id.
abbrev pub IsKnown : List TblUser → TblLogin → Type 0
IsKnown users t = Exists (λ u. (t.user_name ≡ u.user_name) × (u.id ≡ t.user_id)) users

pub record Inv (s : Server) : Type 0 where
  pub known : All (IsKnown s.users) s.logins

All-map {ℓ} :
    {A : Type ℓ} (P Q : A → Type 0) (xs : List A) → ((x : A) → P x → Q x) → All P xs → All Q xs
All-map P Q [] f h = tt
All-map P Q (x ∷ xs) f (p, h) = (f x p, All-map P Q xs f h)

Exists-map {ℓ} :
    {A : Type ℓ} (P Q : A → Type 0) (xs : List A)
    → ((x : A) → P x → Q x)
    → Exists P xs
    → Exists Q xs
Exists-map P Q [] f h = elim h [ ]
Exists-map P Q (x ∷ xs) f (inl p) = inl (f x p)
Exists-map P Q (x ∷ xs) f (inr h) = inr (Exists-map P Q xs f h)

set_state-IsKnown :
    (users : List TblUser) (name : Bytes) (state : UserState) (logins : List TblLogin)
    → All (IsKnown users) logins
    → All (IsKnown users) (set_state name state logins)
unfolding set_state
set_state-IsKnown users name state [] h = tt
set_state-IsKnown users name state (t ∷ logins) h =
    ground (arith, set_state-IsKnown users name state logins h.1)

erase_logins-IsKnown :
    (users : List TblUser) (name time : Bytes) (logins : List TblLogin)
    → All (IsKnown users) logins
    → All (IsKnown users) (erase_logins name logins time).0
unfolding erase_logins
erase_logins-IsKnown users name time [] h = tt
erase_logins-IsKnown users name time (t ∷ logins) h = ground (
  arith,
  erase_logins-IsKnown users name time logins h.1,
  erase_logins-IsKnown users name t.login_time logins h.1,
)

registered-Inv :
    (env : Env) (text : Bytes) (s s' : Server) (ret : ℤ)
    → Inv s
    → register_info env text s ≡ done (s', ret)
    → Inv s'
registered-Inv env text s s' ret v h =
    let (u, _, _, after) = register_info_done env text s s' ret h in
    rw after (record {
      known =
          All-map (IsKnown s.users) _ s.logins
            (λ t known. Exists-before _ s.users (row_of env.user_id u ∷ []) known) v.known;
    })

Entered-IsKnown :
    (l : LoginInfo) (s s' : Server) → Inv s → Entered l s s' → All (IsKnown s'.users) s'.logins
Entered-IsKnown l s s' v e =
    rw (e.users, e.logins)
      (All-append _ s.logins _ v.known
        (Exists-map _ _ s.users (λ u p. (e.row_lem.user_name ∙ p.0.0, p.1)) e.owner, tt))

entered-Inv :
    (env : Env) (text : Bytes) (s s' : Server) (ret : ℤ)
    → Inv s
    → login env text s ≡ done (s', ret)
    → Inv s'
entered-Inv env text s s' ret v h = elim (login_cases env text s s' ret h) [
  | inl (_, e) ↦ record { known = Entered-IsKnown _ s s' v e }
  | inr (_, same, _) ↦ rw same v
]

quit-Inv : (env : Env) (text : Bytes) (s : Server) → Inv s → Inv (client_quit env text s).0
unfolding client_quit post_state update_quit_state
quit-Inv env text s v = elim (Bool-cases (bytes_eq text (codes "none"))) [
  | inl e ↦ rw (e, client_quit) v
  | inr e ↦
      rw (e, client_quit) (record { known = erase_logins-IsKnown s.users text [] s.logins v.known })
]

pub Inv-Handled : (env : Env) (text : Bytes) (s : Server) → Inv s → Handled Inv env text s
unfolding sendmsg_to_friend post_state set_login_state
Inv-Handled env text s v = record {
  same = v;
  registered = λ s' ret h. registered-Inv env text s s' ret v h;
  entered = λ s' ret h. entered-Inv env text s s' ret v h;
  changed = λ s' ret h.
      let (after, _, _) = change_user_state_done env text s s' ret h in
      rw after (record { known = set_state-IsKnown s.users _ _ s.logins v.known });
  sent = record { known = v.known };
  quit = quit-Inv env text s v;
}

-- Whatever line a client sends, every login still belongs to a registered user.
pub deal_line-Inv :
    (env : Env) (msg_recv : Bytes) (s : Server) {r : Reply}
    → Inv s
    → deal_line env msg_recv s ≡ done r
    → Inv r.server
deal_line-Inv env msg_recv s v =
    deal_line-Handled Inv env s msg_recv (λ text. Inv-Handled env text s v)

-- Lines of any connections, in the order in which the threads deal with them.
unfoldable pub deal_lines : List (Env × Bytes) → Server → Outcome Server
deal_lines [] s = done s
deal_lines ((env, line) ∷ lines) s = do r ← deal_line env line s; deal_lines lines r.server

-- The users of a later state: none is lost.
abbrev pub Grown : List TblUser → Server → Type 0
Grown users s = (more : List TblUser) × (s.users ≡ users ++ more)

pub Grown-Handled :
    (env : Env) (text : Bytes) (users : List TblUser) (s : Server)
    → Grown users s
    → Handled (Grown users) env text s
unfolding sendmsg_to_friend post_state set_login_state
Grown-Handled env text users s g = record {
  same = g;
  registered = λ s' ret h.
      let (u, _, _, after) = register_info_done env text s s' ret h in
      (
        g.0 ++ row_of env.user_id u ∷ [],
        rw after (rw g.1 (append_assoc users g.0 (row_of env.user_id u ∷ []))),
      );
  entered = λ s' ret h. elim (login_cases env text s s' ret h) [
    | inl (_, e) ↦ (g.0, e.users ∙ g.1)
    | inr (_, same, _) ↦ rw same g
  ];
  changed =
      λ s' ret h. let (after, _, _) = change_user_state_done env text s s' ret h in rw after g;
  sent = g;
  quit = elim (Bool-cases (bytes_eq text (codes "none"))) [
    | inl e ↦ unfold client_quit in rw (e, client_quit) g
    | inr e ↦ unfold client_quit in rw (e, client_quit) (unfold update_quit_state in g)
  ];
}

-- What every handler keeps holds after any lines.
deal_lines-Handled :
    (P : Server → Type 0)
    → ((env : Env) (text : Bytes) (s : Server) → P s → Handled P env text s)
    → (lines : List (Env × Bytes)) (s s' : Server) → P s
    → deal_lines lines s ≡ done s'
    → P s'
unfolding deal_lines
deal_lines-Handled P keep [] s s' p h = let same : s ≡ s' = cc h in rw same at p
deal_lines-Handled P keep ((env, line) ∷ lines) s s' p h =
    let (r, dealt, rest) = >>=-eq-done (deal_line env line s) _ h in
    deal_lines-Handled P keep lines r.server s'
      (deal_line-Handled P env s line (λ text. keep env text s p) dealt) rest

-- After any lines of any clients that make the server write past no buffer, no user is lost, and
-- no earlier row of the table is changed.
pub deal_lines-Grown :
    (lines : List (Env × Bytes)) (s s' : Server) → deal_lines lines s ≡ done s' → Grown s.users s'
deal_lines-Grown lines s s' =
    deal_lines-Handled (Grown s.users) (λ env text t. Grown-Handled env text s.users t) lines s s'
      ([], sym (append-nil s.users))
