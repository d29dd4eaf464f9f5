-- ===== src/Protocol/Exchange.antt =====
-- A login from the call in the client over the connection through the server's loop and back.
use everyone_talk.Prelude.{
  ◌≡◌, refl, sym, subst, ap, ◌∙◌, some, [], ◌∷◌, ◌++◌, Bytes, All-append, arith, Exists, ◌⊎◌, inl,
  inr, Bool-cases, append_cancel,
}
use everyone_talk.Int.{ℤ, IsInt}
use everyone_talk.Outcome.{done, >>=-eq-done}
use everyone_talk.CString.{c_str, c_str-Lacks}
use everyone_talk.Common.{LoginInfo, ok, fail, newline, msg_id_login}
use everyone_talk.Server.State.{Server}
use everyone_talk.Server.Handlers.{Env}
use everyone_talk.Server.Handlers
use everyone_talk.Server.Parse.{get_msgtpye, analysis_login_msgdata}
use everyone_talk.Server.Accounts.{Opens, Entered, login_cases}
use everyone_talk.Server.Dispatch.{Reply, deal_line, deal_type, send_number}
use everyone_talk.Server.Dispatch.Cases.{send_number-server, deal_line-some}
use everyone_talk.Server.Connection.{Connection, running, returned, rounds}
use everyone_talk.Server.Connection.Lines.{IsLine, seen, answered, session, rounds_refine}
use everyone_talk.Client.Serialize.{login_serialize}
use everyone_talk.Client.Requests.{Socket, reply_number, deal_msg}
use everyone_talk.Client.Requests
use everyone_talk.Wire.Readline.{stream}
use everyone_talk.Wire.Writen.{writen, all, writen-all}
use everyone_talk.Protocol.Requests.{HasLogin, IsOneLine, login_request, login_request-IsLine}
use everyone_talk.Protocol.Calls.{number_reply}

-- A round behind the line that it deals with.
answered-seen :
    (out : Bytes) (r : Reply) (c' : Connection)
    → answered (session []) out r ≡ done (seen c')
    → (c'.server ≡ r.server) × (c'.written ≡ out ++ r.written)
unfolding session
answered-seen out r c' h = elim (Bool-cases r.returns) [
  | inl e ↦
      let h' : done (r.server, out ++ r.written, returned) ≡ done (seen c') = rw e at h in
      (cc h', cc h')
  | inr e ↦
      let h' : done (r.server, out ++ r.written, running) ≡ done (seen c') = rw e at h in
      (cc h', cc h')
]

one_round :
    (env : Env) (line rest : Bytes) (c c' : Connection)
    → IsLine line
    → stream c.buf c.reads ≡ (line ++ newline ∷ []) ++ rest
    → c.status ≡ running
    → rounds (env ∷ []) c ≡ done c'
    → (r : Reply) × (deal_line env (line ++ newline ∷ []) c.server ≡ done r)
      × (c'.server ≡ r.server)
      × (c'.written ≡ c.written ++ r.written)
unfolding session
one_round env line rest c c' h arrives on ran =
    let dealt = rounds_refine ((env, line) ∷ []) rest c (h, tt) arrives on in
    let same : session ((env, line) ∷ []) c.server c.written ≡ done (seen c') =
      sym dealt ∙ rw ran refl in
    let (r, made, after) =
      >>=-eq-done (deal_line env (line ++ newline ∷ []) c.server) (answered (session []) c.written)
        same in
    let (server, written) = answered-seen c.written r c' after in (r, made, server, written)

-- What `login` of the client returns on the reply of the handler.
login_returns :
    (l : LoginInfo) (socket : Socket) (req rest : Bytes) (s : Server) (ret : ℤ) (r : Reply)
    → IsInt ret
    → login_serialize l msg_id_login ≡ done req
    → (writen (c_str req) socket.writes).1 ≡ all
    → send_number (s, ret) ≡ done r
    → stream socket.buf socket.reads ≡ r.written ++ rest
    → Requests.login l socket ≡ done (some ret)
unfolding Requests.login
login_returns l socket req rest s ret r int e sent printed arrives =
    rw (e, number_reply req rest s ret socket r int printed sent arrives) refl

-- A login through both programs: the request of the client goes out whole and reaches a thread of the
-- server, in whatever pieces, which deals with it in one round and writes past no buffer, and its reply
-- reaches the client, in whatever pieces. Then the call in the client gives 0 where the server has
-- entered the login, as an account has the name and the password, and `fail` where none has and the
-- server is unchanged. The texts hold no semicolon, newline or NUL, the port is an `int`, and the
-- request fits the client's buffer.
pub login_exchange :
    (env : Env) (l : LoginInfo) (socket : Socket) (c c' : Connection) (req reply rest rest' : Bytes)
    → HasLogin l
    → IsOneLine l
    → login_serialize l msg_id_login ≡ done req
    → (writen (c_str req) socket.writes).1 ≡ all
    → c.status ≡ running
    → stream c.buf c.reads ≡ (writen (c_str req) socket.writes).0 ++ rest
    → rounds (env ∷ []) c ≡ done c'
    → c'.written ≡ c.written ++ reply
    → stream socket.buf socket.reads ≡ reply ++ rest'
    → ((Requests.login l socket ≡ done (some ok)) × Entered l c.server c'.server)
      ⊎ ((Requests.login l socket ≡ done (some fail))
          × (c'.server ≡ c.server)
          × ¬ Exists (Opens l) c.server.users)
unfolding deal_type
login_exchange env l socket c c' req reply rest rest' h k e sent on arrives ran replied back =
    let (line, split, fits) = login_request-IsLine l req h k e in
    let text : c_str req ≡ line ++ newline ∷ [] =
      ap c_str split
      ∙ c_str-Lacks (line ++ newline ∷ []) (All-append _ line _ fits.no_nul (omega arith)) in
    let out = writen-all (c_str req) socket.writes sent ∙ text in
    let (r, dealt, server, written) =
      one_round env line rest c c' fits (arrives ∙ ap (λ x. x ++ rest) out) on ran in
    let same : reply ≡ r.written =
      append_cancel c.written reply r.written (sym replied ∙ written) in
    let (message, typed, parsed) = login_request l env.login_info req h e in
    let (p, made, printed) = >>=-eq-done (Handlers.login env message c.server) send_number (
      sym (
        deal_line-some env (line ++ newline ∷ []) message msg_id_login c.server
          (subst (λ x. get_msgtpye x ≡ some (msg_id_login, message)) split typed))
      ∙ dealt) in
    let arrives' = back ∙ ap (λ x. x ++ rest') same in
    let after : c'.server ≡ p.0 = server ∙ send_number-server p printed in
    let returned_by =
      λ (int : IsInt p.1). login_returns l socket req rest' p.0 p.1 r int e sent printed arrives' in
    elim (login_cases env message c.server p.0 p.1 made) [
      | inl (zero, entered) ↦ inl (
        returned_by (subst IsInt (sym zero) (omega arith)) ∙ ap (λ z. done (some z)) zero,
        subst (λ x. Entered x c.server c'.server) parsed
            (subst (Entered (analysis_login_msgdata message env.login_info) c.server) (sym after)
              entered),
      )
      | inr (failed, unchanged, nobody) ↦ inr (
        returned_by (subst IsInt (sym failed) (omega arith)) ∙ ap (λ z. done (some z)) failed,
        after ∙ unchanged,
        subst (λ x. ¬ Exists (Opens x) c.server.users) parsed nobody,
      )
    ]
