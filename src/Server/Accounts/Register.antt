-- ===== src/Server/Accounts/Register.antt =====
-- What `register_info` leaves behind, when it completes, and the statement that it sends.
use everyone_talk.Prelude.{◌≤◌, ◌<◌, ◌≡◌, refl, [], ◌∷◌, ◌++◌, Bytes, codes, length}
use everyone_talk.Int.{ℤ, pos}
use everyone_talk.Outcome.{
  done, overflow, store, store_done, store_fits, store_overflow, >>=-eq-done,
}
use everyone_talk.CString.{c_str}
use everyone_talk.Common.{UserInfo, max_line, comma}
use everyone_talk.Server.State.{Server, TblUser}
use everyone_talk.Server.Sql.{insert_mysql}
use everyone_talk.Server.Users.{insert_user_info}
use everyone_talk.Server.Parse.{analysis_register_msgdata}
use everyone_talk.Server.Handlers.{Env, register_info}

-- The row of a new user, whose `id` is whatever the variable held.
abbrev pub row_of : ℤ → UserInfo → TblUser
row_of junk u = record {
  id = junk;
  user_name = c_str u.user_name;
  passwd = c_str u.passwd;
  sex = c_str u.sex;
  birth = c_str u.birth;
  hometown = c_str u.hometown;
}

-- The five texts with their commas, as they go into `c_sql`.
abbrev pub values : UserInfo → Bytes
values u =
    c_str u.user_name
    ++ comma
      ∷ (c_str u.passwd
          ++ comma ∷ (c_str u.sex ++ comma ∷ (c_str u.birth ++ comma ∷ c_str u.hometown)))

abbrev pub insert_statement : UserInfo → Bytes
insert_statement u =
    codes "INSERT INTO user_info(username,passwd,sex,birth,hometown) VALUES (" ++ values u

pub insert_user_info_done :
    (junk : ℤ) (u : UserInfo) (s : Server) {s' : Server}
    → insert_user_info junk u s ≡ done s'
    → s' ≡ record s {
      users = s.users ++ row_of junk u ∷ [];
      sent = s.sent ++ c_str (insert_statement u) ∷ [];
    }
unfolding insert_user_info insert_mysql
insert_user_info_done junk u s h =
    let (c_sql, stored, e) = >>=-eq-done (store max_line (values u)) _ h in
    let (same, _) = store_done max_line (values u) stored in rw (← same) (cc e)

-- A registration that writes past no buffer is answered by 0, adds one user to the table, sends
-- one statement and changes nothing else.
pub register_info_done :
    (env : Env) (text : Bytes) (s s' : Server) (ret : ℤ)
    → register_info env text s ≡ done (s', ret)
    → (u : UserInfo) × (analysis_register_msgdata text env.user_info ≡ done u)
      × (ret ≡ pos 0)
      × (s' ≡ record s {
        users = s.users ++ row_of env.user_id u ∷ [];
        sent = s.sent ++ c_str (insert_statement u) ∷ [];
      })
unfolding register_info
register_info_done env text s s' ret h =
    let (u, parsed, e) = >>=-eq-done (analysis_register_msgdata text env.user_info) _ h in
    let (s₁, inserted, e₁) = >>=-eq-done (insert_user_info env.user_id u s) _ e in
    (u, parsed, cc e₁, cc (e₁, insert_user_info_done env.user_id u s inserted))

pub insert_user_info_overflow :
    (junk : ℤ) (u : UserInfo) (s : Server)
    → max_line ≤ length (values u)
    → insert_user_info junk u s ≡ overflow
unfolding insert_user_info
insert_user_info_overflow junk u s h = rw (store_overflow max_line (values u) h)

pub insert_user_info_fits :
    (junk : ℤ) (u : UserInfo) (s : Server)
    → length (values u) < max_line
    → (s' : Server) × (insert_user_info junk u s ≡ done s')
unfolding insert_user_info
insert_user_info_fits junk u s h = rw (store_fits max_line (values u) h) (_, refl)
