-- ===== src/Server/Sessions.antt =====
-- The table of logins under a change of state and a quit.
use mathlib.Core.Option
use everyone_talk.Prelude.{
  length, ltb, ◌<◌, ◌≤◌, ◌≡◌, ◌≢◌, refl, sym, FirstChanged, FirstChanged-here, FirstChanged-skip,
  true, not, Bool-cases, none, List, [], ◌∷◌, Bytes, bytes_eq, bytes_eq_iff, if◌then◌else◌, filter,
  codes, arith, inl, inr, ◌⊎◌,
}
use everyone_talk.Int.{ℤ, print_int}
use everyone_talk.Outcome.{
  done, overflow, store, store_done, store_fits, store_overflow, >>=-eq-done,
}
use everyone_talk.Common.{UserState, ok, fail, offline, notify_id_friend_online_state}
use everyone_talk.Server.State.{Server, TblLogin}
use everyone_talk.Server.Logins.{
  find_login, set_login_state, set_state, erase_logins, update_login_state, update_quit_state,
}
use everyone_talk.Server.Sql.{update_mysql}
use everyone_talk.Server.Parse.{deserialize_user_state}
use everyone_talk.Server.Handlers.{Env, change_user_state, client_quit, post_state}

abbrev pub with_state : UserState → TblLogin → TblLogin
with_state state t = record t { state = state }

-- The login under a name after the first login under another or the same name got a state.
pub find_login-set_state :
    (n name : Bytes) (state : UserState) (logins : List TblLogin)
    → find_login n (set_state name state logins) ≡ (
        if bytes_eq name n
        then Option.map (with_state state) (find_login n logins)
        else find_login n logins)
unfolding find_login set_state
find_login-set_state n name state [] = ground arith
find_login-set_state n name state (t ∷ logins) = ground (
  arith,
  bytes_eq_iff name t.user_name,
  bytes_eq_iff t.user_name n,
  bytes_eq_iff name n,
  find_login-set_state n name state logins,
)

-- The loop changes the first login under the name and keeps every other.
set_state-FirstChanged :
    (name : Bytes) (state : UserState) (logins : List TblLogin)
    → FirstChanged (λ t. t.user_name ≡ name) (with_state state) logins (set_state name state logins)
unfolding set_state
set_state-FirstChanged name state [] = inl (tt, refl)
set_state-FirstChanged name state (t ∷ logins) = elim (Bool-cases (bytes_eq name t.user_name)) [
  | inl e ↦
      rw (e, set_state)
        (FirstChanged-here _ (with_state state) t logins
          (sym ((bytes_eq_iff name t.user_name).0 e)))
  | inr e ↦
      rw (e, set_state)
        (FirstChanged-skip _ (with_state state) t logins _
          (λ same. cc (e, (bytes_eq_iff name t.user_name).1 (sym same)))
          (set_state-FirstChanged name state logins))
]

-- The erased table is the others, in their order.
erase_logins-filter :
    (name : Bytes) (logins : List TblLogin) (time : Bytes)
    → (erase_logins name logins time).0 ≡ filter (λ t. not (bytes_eq t.user_name name)) logins
unfolding erase_logins
erase_logins-filter name [] time = refl
erase_logins-filter name (t ∷ logins) time =
    ground
      (arith, erase_logins-filter name logins time, erase_logins-filter name logins t.login_time)

find_login-filter :
    (name : Bytes) (logins : List TblLogin)
    → find_login name (filter (λ t. not (bytes_eq t.user_name name)) logins) ≡ none
unfolding find_login
find_login-filter name [] = refl
find_login-filter name (t ∷ logins) = ground (arith, find_login-filter name logins)

-- A quit under a name other than "none" erases every login under the name and no other, keeps the
-- order, and leaves the notice that the user is offline. Under "none" nothing happens.
pub client_quit_cases :
    (env : Env) (name : Bytes) (s : Server)
    → let s' = (client_quit env name s).0 in
      ((name ≡ codes "none") × (s' ≡ s))
      ⊎ ((name ≢ codes "none")
          × (s'.logins ≡ filter (λ t. not (bytes_eq t.user_name name)) s.logins)
          × (find_login name s'.logins ≡ none)
          × (s'.users ≡ s.users)
          × (s'.notice.is_send_client ≡ true)
          × (s'.notice.notify_type ≡ notify_id_friend_online_state)
          × (s'.notice.change_name ≡ name)
          × (s'.notice.change_state ≡ offline))
unfolding client_quit post_state update_quit_state
client_quit_cases env name s = elim (Bool-cases (bytes_eq name (codes "none"))) [
  | inl e ↦ rw (e, client_quit) (inl ((bytes_eq_iff name (codes "none")).0 e, refl))
  | inr e ↦
      rw (e, client_quit, erase_logins-filter name s.logins [])
        (inr (
          λ same. cc (e, (bytes_eq_iff name (codes "none")).1 same),
          refl,
          find_login-filter name s.logins,
          refl,
          refl,
          refl,
          refl,
          refl,
        ))
]

pub change_user_state_done :
    (env : Env) (text : Bytes) (s s' : Server) (ret : ℤ)
    → change_user_state env text s ≡ done (s', ret)
    → let (name, state) = deserialize_user_state text ([], env.state) in
      let p = set_login_state env.mysql name state s in
      (s' ≡ post_state name state p.0) × (ret ≡ p.1) × (length (print_int state) < 10)
unfolding change_user_state update_login_state
change_user_state_done env text s s' ret h =
    let (name, state) = deserialize_user_state text ([], env.state) in
    let (p, updated, e) = >>=-eq-done (update_login_state env.mysql name state s) _ h in
    let (c_state, stored, e₁) = >>=-eq-done (store 10 (print_int state)) _ updated in
    let same : p ≡ set_login_state env.mysql name state s = cc e₁ in
    let (_, fits) = store_done 10 (print_int state) stored in (cc (e, same), cc (e, same), fits)

-- What a change of state does to the server.
pub record Changed (n name : Bytes) (state : UserState) (s s' : Server) (ret : ℤ) : Type 0 where
  pub first : find_login n s'.logins ≡ (
      if bytes_eq name n
      then Option.map (with_state state) (find_login n s.logins)
      else find_login n s.logins)
  pub logins : FirstChanged (λ t. t.user_name ≡ name) (with_state state) s.logins s'.logins
  pub users : s'.users ≡ s.users
  pub posted : s'.notice.is_send_client ≡ true
  pub type : s'.notice.notify_type ≡ notify_id_friend_online_state
  pub change_name : s'.notice.change_name ≡ name
  pub change_state : s'.notice.change_state ≡ state
  pub answer : (ret ≡ ok) ⊎ (ret ≡ fail)

-- If the print of the state has at most nine bytes, a change of state gives the state to the
-- first login under the name and keeps the rest of that login and every other login as it is and
-- in its place, also others under the name, keeps the table of users, posts it to the notifying thread, and is answered
-- by `ok` or `fail`; else it is written past the end of `c_state`.
pub change_user_state_logins :
    (env : Env) (text n : Bytes) (s : Server)
    → let (name, state) = deserialize_user_state text ([], env.state) in
      ((length (print_int state) < 10)
        × ((s' : Server) × (ret : ℤ) × (change_user_state env text s ≡ done (s', ret))
            × Changed n name state s s' ret))
      ⊎ ((10 ≤ length (print_int state)) × (change_user_state env text s ≡ overflow))
unfolding change_user_state post_state update_login_state set_login_state update_mysql
change_user_state_logins env text n s =
    let (name, state) = deserialize_user_state text ([], env.state) in
    elim (Bool-cases (ltb (length (print_int state)) 10)) [
      | inl short ↦
          let fits : length (print_int state) < 10 = ground arith in
          inl (
            fits,
            rw (store_fits 10 (print_int state) fits) (
              _,
              _,
              refl,
              record {
                first = find_login-set_state n name state s.logins;
                logins = set_state-FirstChanged name state s.logins;
                users = refl;
                posted = refl;
                type = refl;
                change_name = refl;
                change_state = refl;
                answer = ground arith;
              },
            ),
          )
      | inr too_long ↦
          let long : 10 ≤ length (print_int state) = ground arith in
          inr (long, rw (store_overflow 10 (print_int state) long) refl)
    ]
