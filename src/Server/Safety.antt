-- ===== src/Server/Safety.antt =====
-- Which lines write past a buffer of the server and which do not.
pub mod Logins
use everyone_talk.Prelude.{
  ℕ, ◌+◌, ◌≤◌, ◌<◌, ◌≡◌, refl, ◌∙◌, false, Bool-cases, some, [], ◌∷◌, ◌++◌, Bytes, length,
  length-append, arith, inl, inr, ◌⊎◌, ltb, if_elim, Option-cases,
}
use everyone_talk.Int.{ℤ, pos, int_eq, int_eq-eq, print_int}
use everyone_talk.Outcome.{Outcome, done, overflow, store_fits, >>=_assoc, ◌>>=◌}
use everyone_talk.CString.{c_str-Lacks}
use everyone_talk.Common.{
  UserInfo, ok, fail, max_line, newline, msg_id_register, msg_id_login, msg_id_friend_list,
  msg_id_change_user_state, msg_id_send_msg, msg_id_quit,
}
use everyone_talk.Server.State.{Server}
use everyone_talk.Server.Users.{insert_user_info}
use everyone_talk.Server.Parse.{get_msgtpye}
use everyone_talk.Server.Handlers.{Env, register_info, sendmsg_to_friend}
use everyone_talk.Server.Dispatch.{Reply, send_number, deal_type, deal_line}
use everyone_talk.Server.Dispatch.Cases.{deal_line-some}
use everyone_talk.Server.Accounts.Register.{
  values, insert_user_info_overflow, insert_user_info_fits,
}
use everyone_talk.Client.Serialize.{register_serialize}
use everyone_talk.Protocol.Requests.{HasFields, register_request}

-- A number that a handler returns fits the ten bytes of `sendline`.
pub send_number_done :
    (p : Server × ℤ)
    → ((p.1 ≡ ok) ⊎ (p.1 ≡ fail))
    → send_number p
      ≡ done (record { server = p.0; written = print_int p.1 ++ newline ∷ []; returns = false })
unfolding send_number print_int
send_number_done p (inl e) = rw (store_fits 10 (print_int p.1 ++ newline ∷ []) (rw e (omega arith)))
send_number_done p (inr e) = rw (store_fits 10 (print_int p.1 ++ newline ∷ []) (rw e (omega arith)))

sendmsg_to_friend_ret : (text : Bytes) (s : Server) → (sendmsg_to_friend text s).1 ≡ ok
unfolding sendmsg_to_friend
sendmsg_to_friend_ret text s = refl

-- The request types whose handlers print what a request holds to arrays.
abbrev pub Wordy : ℤ → Type 0
Wordy type =
    (type ≡ msg_id_register)
    ⊎ ((type ≡ msg_id_login) ⊎ ((type ≡ msg_id_friend_list) ⊎ (type ≡ msg_id_change_user_state)))

-- The line is dealt with, and writes past no buffer.
abbrev pub Answered : Outcome Reply → Type 0
Answered o = (r : Reply) × (o ≡ done r)

quiet_type :
    (env : Env) (type : ℤ) (text : Bytes) (s : Server)
    → ¬ Wordy type
    → Answered (deal_type env type text s)
unfolding deal_type
quiet_type env type text s h =
    if_elim Answered (int_eq type msg_id_register)
      (λ e. absurd (h (inl (int_eq-eq type msg_id_register e))))
      λ _.
        if_elim Answered (int_eq type msg_id_login)
          (λ e. absurd (h (inr (inl (int_eq-eq type msg_id_login e)))))
          λ _.
            if_elim Answered (int_eq type msg_id_friend_list)
              (λ e. absurd (h (inr (inr (inl (int_eq-eq type msg_id_friend_list e))))))
              λ _.
                if_elim Answered (int_eq type msg_id_change_user_state)
                  (λ e. absurd (h (inr (inr (inr (int_eq-eq type msg_id_change_user_state e))))))
                  λ _.
                    if_elim Answered (int_eq type msg_id_send_msg)
                      (λ _. (
                        _,
                        send_number_done (sendmsg_to_friend text s)
                            (inl (sendmsg_to_friend_ret text s)),
                      ))
                      λ _.
                        if_elim Answered (int_eq type msg_id_quit) (λ _. (_, refl)) (λ _. (_, refl))

-- Every line but a register, login, friend list or change of state request is dealt with and
-- overflows no buffer: a message, a quit, an unknown number and a line with no separator.
pub quiet_line :
    (env : Env) (msg_recv : Bytes) (s : Server)
    → ((type : ℤ) (text : Bytes) → get_msgtpye msg_recv ≡ some (type, text) → ¬ Wordy type)
    → Answered (deal_line env msg_recv s)
unfolding deal_line
quiet_line env msg_recv s h = elim (Option-cases (get_msgtpye msg_recv)) [
  | inl e ↦ rw (e, deal_line) (_, refl)
  | inr ((type, text), e) ↦ rw (e, deal_line) (quiet_type env type text s (h type text e))
]

-- The length of the texts and commas that a registration writes to `c_sql`: the birth date twice.
abbrev pub written_length : UserInfo → ℕ
written_length u =
    length u.user_name + length u.passwd + length u.sex + length u.birth + length u.birth + 4

-- What the server takes a register request for.
abbrev pub received : UserInfo → UserInfo
received u = record u { hometown = u.birth }

register_store :
    (env : Env) (u : UserInfo) (s : Server) (req : Bytes)
    → HasFields u
    → register_serialize u msg_id_register ≡ done req
    → deal_line env req s
      ≡ (insert_user_info env.user_id (received u) s >>= λ s'. send_number (s', pos 0))
unfolding deal_type register_info
register_store env u s req h e =
    let (text, typed, parsed) = register_request u env.user_info req h e in
    deal_line-some env req text msg_id_register s typed
    ∙ rw parsed (>>=_assoc (insert_user_info env.user_id (received u) s) _ send_number)

length-values : (u : UserInfo) → HasFields u → length (values (received u)) ≡ written_length u
length-values u h =
    rw
      (
        c_str-Lacks u.user_name h.user_name.no_nul,
        c_str-Lacks u.passwd h.passwd.no_nul,
        c_str-Lacks u.sex h.sex.no_nul,
        c_str-Lacks u.birth h.birth.no_nul,
      )
      (omega (arith, length-append {0}))

-- A register request that the client could send, of texts with no semicolon and no NUL, is
-- answered if its texts, with the birth date counted twice, leave room for the four commas and
-- the NUL in `c_sql`; otherwise the server writes past the end of that array.
pub register_overflows :
    (env : Env) (u : UserInfo) (s : Server) (req : Bytes)
    → HasFields u
    → register_serialize u msg_id_register ≡ done req
    → ((written_length u < max_line) × Answered (deal_line env req s))
      ⊎ ((max_line ≤ written_length u) × (deal_line env req s ≡ overflow))
register_overflows env u s req h e =
    let len = length-values u h in
    elim (Bool-cases (ltb (written_length u) max_line)) [
      | inl short ↦
          let fits : written_length u < max_line = ground arith in
          let (s', inserted) =
            insert_user_info_fits env.user_id (received u) s (omega (arith, fits, len)) in
          inl (
            fits,
            rw (register_store env u s req h e, inserted)
                (_, send_number_done (s', pos 0) (inl refl)),
          )
      | inr too_long ↦
          let long : max_line ≤ written_length u = ground arith in
          inr (
            long,
            rw (
              register_store env u s req h e,
              insert_user_info_overflow env.user_id (received u) s (omega (arith, long, len)),
            ),
          )
    ]
