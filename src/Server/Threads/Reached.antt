-- ===== src/Server/Threads/Reached.antt =====
-- What holds in every state that the server reaches.
use everyone_talk.Prelude.{Bool, ◌≡◌, sym, subst, ap, [], append-nil, Bytes, ◌==◌, if_cases}
use everyone_talk.Int.{ℤ, pos, int_eq}
use everyone_talk.Common.{ok}
use everyone_talk.Outcome.{done, ◌>>=◌, >>=-eq-done}
use everyone_talk.Server.State.{Server, TblFriend, start}
use everyone_talk.Server.Sql.{Mysql, connect_mysql}
use everyone_talk.Server.Users.{init_tbl_user}
use everyone_talk.Server.Friends.{init_tbl_friend}
use everyone_talk.Server.Handlers.{Env}
use everyone_talk.Server.Dispatch.{deal_line}
use everyone_talk.Server.Dispatch.Cases.{Handled, deal_line-Handled}
use everyone_talk.Server.Invariant.{Inv, Grown, Inv-Handled, Grown-Handled}
use everyone_talk.Server.Connection.{Connection, turn, deal_read, answer}
use everyone_talk.Server.Threads.{init_mysql_table, Serving, Step, Serves}
use everyone_talk.Wire.Readline.{Line, got, ended, broken, pending}

module _ (P : Server → Type 0)
    (keep : (env : Env) (text : Bytes) (s : Server) → P s → Handled P env text s) where
  line-keeps :
      (env : Env) (c c' : Connection)
      → P c.server
      → (deal_line env c.msg_recv c.server >>= λ r. done (answer c r)) ≡ done c'
      → P c'.server
  unfolding answer
  line-keeps env c c' p h =
      let (r, dealt, e) = >>=-eq-done (deal_line env c.msg_recv c.server) _ h in
      let same : r.server ≡ c'.server = cc e in
      subst P same
        (deal_line-Handled P env c.server c.msg_recv (λ text. keep env text c.server p) dealt)

  deal_read-keeps :
      (env : Env) (line : Line) (c c' : Connection)
      → P c.server
      → deal_read env line c ≡ done c'
      → P c'.server
  unfolding deal_read
  deal_read-keeps env (got n text) c c' p h = line-keeps env c c' p h
  deal_read-keeps env (ended n text) c c' p h =
      if_cases (n == 0) h (λ e. let same : c.server ≡ c'.server = cc e in subst P same p)
        (line-keeps env c c' p)
  deal_read-keeps env (broken text) c c' p h = line-keeps env c c' p h
  deal_read-keeps env (pending text) c c' p h =
      let same : c.server ≡ c'.server = cc h in subst P same p

  turn-keeps : (env : Env) (c c' : Connection) → P c.server → turn env c ≡ done c' → P c'.server
  unfolding turn
  turn-keeps env c c' p h = deal_read-keeps env _ _ c' p h

  Step-keeps : (x y : Serving) → Step x y → P x.server → P y.server
  Step-keeps x y (Step.accepts s buf threads reads) p = p
  Step-keeps x y (Step.deals s buf before after env c c' on h) p =
      turn-keeps env (record c { server = s; buf = buf }) c' p h

  Serves-keeps : (loaded : Server) (x : Serving) → Serves loaded x → P loaded → P x.server
  Serves-keeps loaded _ Serves.listens p = p
  Serves-keeps loaded _ (Serves.goes_on x y served step) p =
      Step-keeps x y step (Serves-keeps loaded x served p)

-- Nobody is logged in once the tables are loaded.
loaded-Inv :
    (connects : Bool) (mysql : Mysql) (id : ℤ) (row : TblFriend) (loaded : Server)
    → init_mysql_table connects mysql id row start ≡ (loaded, pos 0)
    → Inv loaded
unfolding init_mysql_table init_tbl_user init_tbl_friend
loaded-Inv connects mysql id row loaded h =
    if_cases (int_eq (connect_mysql mysql connects []).1 ok) h
      (λ e.
        let none_in : loaded.logins ≡ [] = ap (λ p. p.0.logins) (sym e) in
        record { known = rw none_in tt })
      (λ e. cc e)

-- Once the tables are loaded from whatever database, in every state that the server reaches, whatever
-- connections it accepts, whatever they carry, and in whatever order the rounds of their threads come,
-- as long as none writes past a buffer, every login belongs to a registered user, and the users that
-- were loaded are still there, as they were and in their places.
pub served :
    (connects : Bool) (mysql : Mysql) (id : ℤ) (row : TblFriend) (loaded : Server) (x : Serving)
    → init_mysql_table connects mysql id row start ≡ (loaded, pos 0)
    → Serves loaded x
    → Inv x.server × Grown loaded.users x.server
served connects mysql id row loaded x h reached = (
  Serves-keeps Inv (λ env text s. Inv-Handled env text s) loaded x reached
      (loaded-Inv connects mysql id row loaded h),
  Serves-keeps (Grown loaded.users) (λ env text s. Grown-Handled env text loaded.users s) loaded x
      reached ([], sym (append-nil loaded.users)),
)
