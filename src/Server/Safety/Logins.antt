-- ===== src/Server/Safety/Logins.antt =====
-- Login requests that write past no buffer.
use everyone_talk.Prelude.{
  ◌+◌, ◌^◌, ◌≤◌, ◌<◌, ◌≡◌, refl, Option-cases, List, [], ◌∷◌, Bytes, All, Exists, length,
  length-append, arith, inl, inr, subst, ap, ◌++◌, codes, false, ◌⊎◌,
}
use everyone_talk.Int.{ℤ, pos, IsInt, print_int, print_zero, print_fail}
use everyone_talk.Int.RoundTrip.{length-print_int}
use everyone_talk.Outcome.{done, store_fits}
use everyone_talk.CString.{c_str, length-c_str-le}
use everyone_talk.Common.{LoginInfo, ok, fail, max_line, newline, msg_id_login}
use everyone_talk.Server.State.{Server, TblLogin, TblUser}
use everyone_talk.Server.Logins.{login_values, insert_login_info}
use everyone_talk.Server.Handlers.{
  Tm, Env, print_time, login_row, enter, answer_login, is_login_success, login,
}
use everyone_talk.Server.Dispatch.{Reply, deal_type, deal_line}
use everyone_talk.Server.Dispatch.Cases.{deal_line-some}
use everyone_talk.Server.Accounts.{is_login_success_sound}
use everyone_talk.Server.Safety.{send_number_done}
use everyone_talk.Client.Serialize.{login_serialize}
use everyone_talk.Protocol.Requests.{HasLogin, login_request}

-- The fields of a time are `int`s, also after what is added to them.
pub record IsTime (t : Tm) : Type 0 where
  pub tm_year : t.tm_year + 1900 < 2 ^ 31
  pub tm_mon : t.tm_mon + 1 < 2 ^ 31
  pub tm_mday : t.tm_mday < 2 ^ 31
  pub tm_hour : t.tm_hour < 2 ^ 31
  pub tm_min : t.tm_min < 2 ^ 31
  pub tm_sec : t.tm_sec < 2 ^ 31

print_time-fits :
    (t : Tm)
    → IsTime t
    → (login_time : Bytes) × (print_time t ≡ done login_time) × (length login_time ≤ 71)
unfolding print_time
print_time-fits t h =
    let a = length-print_int (pos (t.tm_year + 1900)) h.tm_year in
    let b = length-print_int (pos (t.tm_mon + 1)) h.tm_mon in
    let c = length-print_int (pos t.tm_mday) h.tm_mday in
    let d = length-print_int (pos t.tm_hour) h.tm_hour in
    let e = length-print_int (pos t.tm_min) h.tm_min in
    let f = length-print_int (pos t.tm_sec) h.tm_sec in
    (
      _,
      store_fits max_line _ (omega (arith, a, b, c, d, e, f, length-append {0})),
      omega (arith, a, b, c, d, e, f, length-append {0}),
    )

length-login_values :
    (t : TblLogin)
    → length (login_values t)
      ≡ length (c_str t.user_name)
        + length (c_str t.ip)
        + length (print_int t.port)
        + length (c_str t.login_time)
        + length (print_int t.state)
        + length (print_int t.user_id)
        + 13
length-login_values t =
    rw
      (
        length-append, length-append, length-append, length-append, length-append, length-append,
        length-append, length-append, length-append, length-append,
      )
      (omega arith)

insert_login_info-fits :
    (t : TblLogin) (s : Server)
    → length t.user_name + length t.ip ≤ 900
    → length t.login_time ≤ 71
    → IsInt t.port
    → IsInt t.state
    → IsInt t.user_id
    → (s' : Server) × (insert_login_info t s ≡ done s')
unfolding insert_login_info
insert_login_info-fits t s h k port state user_id =
    let name = length-c_str-le t.user_name in
    let ip = length-c_str-le t.ip in
    let time = length-c_str-le t.login_time in
    let a = length-print_int t.port port in
    let b = length-print_int t.state state in
    let c = length-print_int t.user_id user_id in
    rw
      (store_fits max_line (login_values t)
        (omega (arith, h, k, name, ip, time, a, b, c, length-login_values t)))
      (_, refl)

enter-fits :
    (env : Env) (l : LoginInfo) (id : ℤ) (s : Server)
    → IsTime env.now
    → length l.user_name + length l.ip ≤ 900
    → IsInt l.port
    → IsInt id
    → (s' : Server) × (enter env l id s ≡ done s')
unfolding enter login_row
enter-fits env l id s now h port int =
    let (time, printed, short) = print_time-fits env.now now in
    let (s', inserted) =
      insert_login_info-fits (login_row env l id time) s h short port (omega arith) int in
    rw (printed, inserted) (_, refl)

IsInt-found :
    (users : List TblUser) (P : TblUser → Type 0) (id : ℤ)
    → All (λ t. IsInt t.id) users
    → Exists (λ t. P t × (t.id ≡ id)) users
    → IsInt id
IsInt-found [] P id h e = elim e [ ]
IsInt-found (t ∷ users) P id h (inl e) = subst IsInt e.1 h.0
IsInt-found (t ∷ users) P id h (inr e) = IsInt-found users P id h.1 e

-- A login request that the client could send, of texts with no semicolon and no NUL, is answered by
-- the line of 0 or the line of 65535, the number of `fail`, does not end the connection and overflows
-- no buffer, if the name and the address have at most 900 bytes
-- together, and the ids of the users and the time are made of `int`s.
pub login-Answered :
    (env : Env) (l : LoginInfo) (s : Server) (req : Bytes)
    → HasLogin l
    → length l.user_name + length l.ip ≤ 900
    → IsTime env.now
    → All (λ t. IsInt t.id) s.users
    → login_serialize l msg_id_login ≡ done req
    → (r : Reply) × (deal_line env req s ≡ done r)
      × ((r.written ≡ codes "0\n") ⊎ (r.written ≡ codes "65535\n"))
      × (r.returns ≡ false)
unfolding deal_type login answer_login
login-Answered env l s req h k now ids e =
    let (text, typed, parsed) = login_request l env.login_info req h e in
    rw (deal_line-some env req text msg_id_login s typed, parsed)
      (elim (Option-cases (is_login_success l s.users)) [
        | inl none_found ↦ rw (none_found) (
          _,
          send_number_done (s, fail) (inr refl),
          inr (ap (λ x. x ++ newline ∷ []) print_fail),
          refl,
        )
        | inr (id, found) ↦
            let int = IsInt-found s.users _ id ids (is_login_success_sound l s.users id found) in
            let (s', entered) = enter-fits env l id s now k h.port int in
            rw (found, entered)
              (
                _,
                send_number_done (s', ok) (inl refl),
                inl (ap (λ x. x ++ newline ∷ []) print_zero),
                refl,
              )
      ])
