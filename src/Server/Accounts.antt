-- ===== src/Server/Accounts.antt =====
-- Registration and login: who is let in, and what a login leaves behind.
pub mod Register
use everyone_talk.Prelude.{
  ℕ, ◌≡◌, refl, sym, ◌∙◌, ap, Bool, true, false, Bool-cases, ◌&&◌, Option, none, some, List, [],
  ◌∷◌, ◌++◌, Bytes, bytes_eq, bytes_eq_iff, ◌⊎◌, inl, inr, Exists, Exists-last, arith, Option-cases,
  bytes_eq_refl, ◌≢◌,
}
use everyone_talk.Int.{ℤ, pos}
use everyone_talk.Outcome.{Outcome, done, overflow, store, store_done, ◌>>=◌, >>=-eq-done}
use everyone_talk.Common.{
  UserInfo, LoginInfo, UserState, ok, fail, online, notify_id_friend_online_state, max_line,
}
use everyone_talk.Server.State.{Server, TblUser, TblLogin}
use everyone_talk.Server.Logins.{insert_login_info}
use everyone_talk.Server.Parse.{analysis_login_msgdata}
use everyone_talk.Server.Handlers.{
  Env, is_login_success, enter, answer_login, login, post_state, print_time, login_row,
}

-- The account that the login names, with its password.
abbrev pub Opens : LoginInfo → TblUser → Type 0
Opens l t = (l.user_name ≡ t.user_name) × (l.passwd ≡ t.passwd)

-- A user whom the search finds has the name, the password and the id.
pub is_login_success_sound :
    (l : LoginInfo) (users : List TblUser) (id : ℤ)
    → is_login_success l users ≡ some id
    → Exists (λ t. Opens l t × (t.id ≡ id)) users
unfolding is_login_success
is_login_success_sound l [] id h = cc
is_login_success_sound l (t ∷ users) id h = ground (
  arith,
  bytes_eq_iff l.user_name t.user_name,
  bytes_eq_iff l.passwd t.passwd,
  is_login_success_sound l users id,
)

pub is_login_success_complete :
    (l : LoginInfo) (users : List TblUser)
    → is_login_success l users ≡ none
    → ¬ Exists (Opens l) users
unfolding is_login_success
is_login_success_complete l [] h = λ e. e
is_login_success_complete l (t ∷ users) h = λ e. ground (
  arith,
  bytes_eq_iff l.user_name t.user_name,
  bytes_eq_iff l.passwd t.passwd,
  is_login_success_complete l users,
)

-- The row that a login adds.
pub record IsRowOf (l : LoginInfo) (t : TblLogin) : Type 0 where
  pub user_name : t.user_name ≡ l.user_name
  pub ip : t.ip ≡ l.ip
  pub port : t.port ≡ l.port
  pub state : t.state ≡ online

-- The state after a login: one more row, everything else in the tables as it was, and the notice.
pub record Entered (l : LoginInfo) (s s' : Server) : Type 0 where
  pub row : TblLogin
  pub row_lem : IsRowOf l row
  pub logins : s'.logins ≡ s.logins ++ row ∷ []
  pub users : s'.users ≡ s.users
  pub friends : s'.friends ≡ s.friends
  pub posted : s'.notice.is_send_client ≡ true
  pub type : s'.notice.notify_type ≡ notify_id_friend_online_state
  pub name : s'.notice.change_name ≡ l.user_name
  pub change : s'.notice.change_state ≡ online
  pub owner : Exists (λ t. Opens l t × (t.id ≡ row.user_id)) s.users

pub insert_login_info_done :
    (t : TblLogin) (s : Server) {s' : Server}
    → insert_login_info t s ≡ done s'
    → (s'.logins ≡ s.logins ++ t ∷ []) × (s'.users ≡ s.users) × (s'.friends ≡ s.friends)
unfolding insert_login_info
insert_login_info_done t s h =
    let (c_sql, stored, e) = >>=-eq-done (store max_line _) _ h in ground arith

post-Entered :
    (l : LoginInfo) (row : TblLogin) (s s₁ s' : Server)
    → IsRowOf l row
    → Exists (λ t. Opens l t × (t.id ≡ row.user_id)) s.users
    → (s₁.logins ≡ s.logins ++ row ∷ []) × (s₁.users ≡ s.users) × (s₁.friends ≡ s.friends)
    → post_state l.user_name online s₁ ≡ s'
    → Entered l s s'
unfolding post_state
post-Entered l row s s₁ s' r owner (logins, users, friends) h = record {
  row = row;
  row_lem = r;
  logins = ap (λ x. x.logins) (sym h) ∙ logins;
  users = ap (λ x. x.users) (sym h) ∙ users;
  friends = ap (λ x. x.friends) (sym h) ∙ friends;
  posted = ap (λ x. x.notice.is_send_client) (sym h);
  type = ap (λ x. x.notice.notify_type) (sym h);
  name = ap (λ x. x.notice.change_name) (sym h);
  change = ap (λ x. x.notice.change_state) (sym h);
  owner = owner;
}

enter-Entered :
    (env : Env) (l : LoginInfo) (id : ℤ) (s : Server) {s' : Server}
    → Exists (λ t. Opens l t × (t.id ≡ id)) s.users
    → enter env l id s ≡ done s'
    → Entered l s s'
unfolding enter login_row
enter-Entered env l id s {s'} owner h =
    let (time, _, e) = >>=-eq-done (print_time env.now) _ h in
    let (s₁, inserted, e₁) = >>=-eq-done (insert_login_info (login_row env l id time) s) _ e in
    post-Entered l (login_row env l id time) s s₁ s'
      (record { user_name = refl; ip = refl; port = refl; state = refl }) owner
      (insert_login_info_done (login_row env l id time) s inserted) (cc e₁)

answer_cases :
    (env : Env) (l : LoginInfo) (found : Option ℤ) (s s' : Server) (ret : ℤ)
    → is_login_success l s.users ≡ found
    → answer_login env l found s ≡ done (s', ret)
    → ((ret ≡ ok) × Entered l s s') ⊎ ((ret ≡ fail) × (s' ≡ s) × ¬ Exists (Opens l) s.users)
unfolding answer_login
answer_cases env l none s s' ret e h = inr (cc h, cc h, is_login_success_complete l s.users e)
answer_cases env l (some id) s s' ret e h =
    let (s₁, entered, e₁) = >>=-eq-done (enter env l id s) _ h in
    inl (cc e₁, enter-Entered env l id s (is_login_success_sound l s.users id e) (entered ∙ cc e₁))

-- A login that writes past no buffer is answered by 0, with a row of its own and a notice to the
-- friends, where some account has its name and password, or is answered by `fail` with nothing
-- changed, where none has.
pub login_cases :
    (env : Env) (text : Bytes) (s s' : Server) (ret : ℤ)
    → login env text s ≡ done (s', ret)
    → let l = analysis_login_msgdata text env.login_info in
      ((ret ≡ ok) × Entered l s s') ⊎ ((ret ≡ fail) × (s' ≡ s) × ¬ Exists (Opens l) s.users)
unfolding login
login_cases env text s s' ret h = answer_cases env _ _ s s' ret refl h
