-- ===== src/Protocol/Sessions.antt =====
-- Whole exchanges of the two programs.
use everyone_talk.Prelude.{
  ◌≡◌, sym, ◌∙◌, ap, List, [], ◌∷◌, ◌++◌, Bytes, Exists, Exists-last, Exists-before, inl, inr,
  codes,
}
use everyone_talk.Int.{print_int}
use everyone_talk.Outcome.{done}
use everyone_talk.CString.{c_str-Lacks}
use everyone_talk.Common.{UserInfo, LoginInfo, online, newline, msg_id_register, msg_id_login}
use everyone_talk.Server.State.{Server}
use everyone_talk.Server.Handlers.{Env, register_info, login}
use everyone_talk.Server.Accounts.{Opens, login_cases}
use everyone_talk.Server.Accounts.Register.{row_of, register_info_done}
use everyone_talk.Server.Dispatch.{Reply, deal_line, deal_type}
use everyone_talk.Server.Dispatch.Cases.{numbered_reply, deal_line-some}
use everyone_talk.Server.Invariant.{deal_lines, deal_lines-Grown}
use everyone_talk.Client.Serialize.{register_serialize, login_serialize}
use everyone_talk.Protocol.Requests.{HasFields, HasLogin, register_request, login_request}

-- The reply to a register request: 0, and a row with the name and the password.
register_reply :
    (env : Env) (u : UserInfo) (s : Server) (req : Bytes) {r : Reply}
    → HasFields u
    → register_serialize u msg_id_register ≡ done req
    → deal_line env req s ≡ done r
    → (r.written ≡ codes "0\n")
      × (r.server.users ≡ s.users ++ row_of env.user_id (record u { hometown = u.birth }) ∷ [])
unfolding deal_type print_int
register_reply env u s req {r} h e d =
    let (text, typed, parsed) = register_request u env.user_info req h e in
    let (s', ret, made, same, written) =
      numbered_reply (register_info env text s)
        (sym (deal_line-some env req text msg_id_register s typed) ∙ d) in
    let (u', parsed', zero, after) = register_info_done env text s s' ret made in
    let which : u' ≡ record u { hometown = u.birth } = cc (parsed, parsed') in
    (
      written ∙ ap (λ z. print_int z ++ newline ∷ []) zero,
      ap (λ x. x.users) (same ∙ after) ∙ ap (λ x. s.users ++ row_of env.user_id x ∷ []) which,
    )

-- A login that some account fits is answered by 0, and the user is online from then on.
login_reply :
    (env : Env) (l : LoginInfo) (s : Server) (req : Bytes) {r : Reply}
    → HasLogin l
    → Exists (Opens l) s.users
    → login_serialize l msg_id_login ≡ done req
    → deal_line env req s ≡ done r
    → (r.written ≡ codes "0\n")
      × Exists (λ t. (t.user_name ≡ l.user_name) × (t.state ≡ online)) r.server.logins
unfolding deal_type print_int
login_reply env l s req {r} h account e d =
    let (text, typed, parsed) = login_request l env.login_info req h e in
    let (s', ret, made, same, written) =
      numbered_reply (login env text s)
        (sym (deal_line-some env req text msg_id_login s typed) ∙ d) in
    elim (login_cases env text s s' ret made) [
      | inl (zero, entered) ↦ (
        written ∙ ap (λ z. print_int z ++ newline ∷ []) zero,
        rw (same, entered.logins)
            (Exists-last _ s.logins entered.row
              (entered.row_lem.user_name ∙ ap (λ x. x.user_name) parsed, entered.row_lem.state)),
      )
      | inr (_, _, nobody) ↦ absurd (nobody (rw parsed account))
    ]

-- Whoever registers can log in later with the name and the password, whatever lines of any
-- clients come between: both requests are answered by 0, and the user is then online. This holds
-- if the texts of both requests hold no semicolon and no NUL, the port is an `int`, both requests
-- fit the client's buffers, and no line makes the server write past a buffer.
pub register_then_login :
    (env env' : Env) (u : UserInfo) (l : LoginInfo) (s s' : Server) (lines : List (Env × Bytes))
    (req req' : Bytes) (r r' : Reply)
    → HasFields u
    → HasLogin l
    → l.user_name ≡ u.user_name
    → l.passwd ≡ u.passwd
    → register_serialize u msg_id_register ≡ done req
    → login_serialize l msg_id_login ≡ done req'
    → deal_line env req s ≡ done r
    → deal_lines lines r.server ≡ done s'
    → deal_line env' req' s' ≡ done r'
    → (r.written ≡ codes "0\n")
      × (r'.written ≡ codes "0\n")
      × Exists (λ t. (t.user_name ≡ l.user_name) × (t.state ≡ online)) r'.server.logins
register_then_login env env' u l s s' lines req req' r r' hu hl name passwd e e' d between d' =
    let (written, users) = register_reply env u s req hu e d in
    let (more, grown) = deal_lines-Grown lines r.server s' between in
    let account : Exists (Opens l) s'.users =
      rw (grown, users)
        (Exists-before _ _ more (
          Exists-last _ s.users _ (
            name ∙ sym (c_str-Lacks u.user_name hu.user_name.no_nul),
            passwd ∙ sym (c_str-Lacks u.passwd hu.passwd.no_nul),
          ))) in
    let (written', is_online) = login_reply env' l s' req' hl account e' d' in
    (written, written', is_online)
