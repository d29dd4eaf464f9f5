-- ===== src/Server/Logins.antt =====
-- server/tbl_logininfo.cpp.
use everyone_talk.Prelude.{
  Option, none, some, List, [], ◌∷◌, ◌++◌, Bytes, bytes_eq, codes, if◌then◌else◌,
}
use everyone_talk.Int.{ℤ, print_int, int_eq}
use everyone_talk.Outcome.{Outcome, done, store, ◌>>=◌}
use everyone_talk.CString.{c_str}
use everyone_talk.Common.{UserState, max_line, comma}
use everyone_talk.Server.State.{Server, TblLogin}
use everyone_talk.Server.Sql.{Mysql, insert_mysql, update_mysql}

abbrev quoted : Bytes → Bytes
quoted s = b'\'' ∷ (s ++ b'\'' ∷ [])

-- The print to `c_sql`.
abbrev pub login_values : TblLogin → Bytes
login_values l =
    quoted (c_str l.user_name)
    ++ comma
      ∷ (quoted (c_str l.ip)
          ++ comma
            ∷ (print_int l.port
                ++ codes ", "
                ++ (quoted (c_str l.login_time)
                    ++ comma ∷ (print_int l.state ++ comma ∷ (print_int l.user_id ++ codes ")")))))

unfoldable pub insert_login_info : TblLogin → Server → Outcome Server
insert_login_info l s = do
  c_sql ← store max_line (login_values l)
  done (record s {
    logins = s.logins ++ l ∷ [];
    sent = insert_mysql s.sent (
        codes "INSERT INTO login_info(user_name,c_ip,c_port,login_time,state,user_id) VALUES ("
        ++ c_sql);
  })

-- The first login under the name, which the loops of `get_logininfo_by_username` and
-- `get_friend_info` break at.
unfoldable pub find_login : Bytes → List TblLogin → Option TblLogin
find_login user_name [] = none
find_login user_name (t ∷ logins) =
    if bytes_eq t.user_name user_name then some t else find_login user_name logins

-- The fields that the function leaves alone are the caller's.
unfoldable pub get_logininfo_by_username : Bytes → List TblLogin → TblLogin → TblLogin
unfolding find_login
get_logininfo_by_username user_name logins t_login = elim (find_login user_name logins) [
  | none ↦ t_login
  | some t ↦ record t_login { user_id = t.user_id; user_name = t.user_name; state = t.state }
]

-- `str_ip` and `port` keep the caller's values where nobody of the name is logged in.
unfoldable pub get_friend_info : Bytes → List TblLogin → Bytes × ℤ → Bytes × ℤ
unfolding find_login
get_friend_info user_name logins current = elim (find_login user_name logins) [
  | none ↦ current
  | some t ↦ (t.ip, t.port)
]

-- The first login whose own `id` is the number.
unfoldable pub find_by_id : ℤ → List TblLogin → Option TblLogin
find_by_id id [] = none
find_by_id id (t ∷ logins) = if int_eq id t.id then some t else find_by_id id logins

-- The first login of the user.
unfoldable pub find_by_user_id : ℤ → List TblLogin → Option TblLogin
find_by_user_id id [] = none
find_by_user_id id (t ∷ logins) = if int_eq id t.user_id then some t else find_by_user_id id logins

-- `map<int, user_state>`, in the order of insertion.
abbrev pub States : Type 0
States = List (ℤ × UserState)

unfoldable pub find_state : ℤ → States → Option UserState
find_state id [] = none
find_state id ((key, state) ∷ states) = if int_eq id key then some state else find_state id states

-- `map::insert` keeps the entry of a key that is already there.
unfoldable pub insert_state : ℤ → UserState → States → States
unfolding find_state
insert_state id state states = elim (find_state id states) [
  | none ↦ states ++ (id, state) ∷ []
  | some _ ↦ states
]

-- The source compares a friend's user id with the `id` of a login.
unfoldable pub get_friendstates_by_userid : List ℤ → List TblLogin → States → States
get_friendstates_by_userid [] logins states = states
get_friendstates_by_userid (id ∷ userids) logins states =
    get_friendstates_by_userid userids logins
      (elim (find_by_id id logins) [ none ↦ states | some t ↦ insert_state t.id t.state states ])

unfoldable pub get_logininfos_by_userid : List ℤ → List TblLogin → List TblLogin
get_logininfos_by_userid [] logins = []
get_logininfos_by_userid (id ∷ userids) logins =
    let rest = get_logininfos_by_userid userids logins in
    elim (find_by_user_id id logins) [ none ↦ rest | some t ↦ t ∷ rest ]

-- The loop of `update_login_state`: the first login under the name gets the state.
unfoldable pub set_state : Bytes → UserState → List TblLogin → List TblLogin
set_state user_name state [] = []
set_state user_name state (t ∷ logins) =
    if bytes_eq user_name t.user_name
    then record t { state = state } ∷ logins
    else t ∷ set_state user_name state logins

-- The loop of `update_quit_state`: every login under the name is erased, and the time of the last
-- such is kept.
unfoldable pub erase_logins : Bytes → List TblLogin → Bytes → List TblLogin × Bytes
erase_logins user_name [] login_time = ([], login_time)
erase_logins user_name (t ∷ logins) login_time =
    let erased = erase_logins user_name logins t.login_time in
    let (kept, last_time) = erase_logins user_name logins login_time in
    if bytes_eq t.user_name user_name then erased else (t ∷ kept, last_time)

unfoldable pub update_statement : Bytes → UserState → Bytes → Bytes
update_statement user_name state login_time =
    codes "UPDATE login_info SET state="
    ++ (print_int state
        ++ (codes " where user_name="
            ++ (quoted (c_str user_name)
                ++ (codes " and login_time=" ++ quoted (c_str login_time)))))

-- The time of the first login under the name; empty where there is none.
unfoldable pub time_of : Bytes → List TblLogin → Bytes
time_of user_name logins = elim (find_login user_name logins) [ none ↦ [] | some t ↦ t.login_time ]

module _ (mysql : Mysql) where
  -- What `update_login_state` does but for the print of the state to `c_state`.
  unfoldable pub set_login_state : Bytes → UserState → Server → Server × ℤ
  set_login_state user_name state s =
      let (sent, ret) =
        update_mysql mysql s.sent (update_statement user_name state (time_of user_name s.logins)) in
      (record s { logins = set_state user_name state s.logins; sent = sent }, ret)

  -- The state is printed to `c_state[10]`.
  unfoldable pub update_login_state : Bytes → UserState → Server → Outcome (Server × ℤ)
  update_login_state user_name state s = do
    c_state ← store 10 (print_int state)
    done (set_login_state user_name state s)

  -- The state is always `OFFLINE`, whose print fits `c_state[10]`.
  unfoldable pub update_quit_state : Bytes → UserState → Server → Server × ℤ
  update_quit_state user_name state s =
      let (logins, login_time) = erase_logins user_name s.logins [] in
      let (sent, ret) = update_mysql mysql s.sent (update_statement user_name state login_time) in
      (record s { logins = logins; sent = sent }, ret)
