-- ===== src/Server/Users.antt =====
-- server/tbl_userinfo.cpp.
use everyone_talk.Prelude.{
  Option, none, some, List, [], ◌∷◌, ◌++◌, Bytes, bytes_eq, codes, if◌then◌else◌,
}
use everyone_talk.Int.{ℤ, atoi, int_eq}
use everyone_talk.Outcome.{Outcome, done, store, ◌>>=◌}
use everyone_talk.CString.{c_str}
use everyone_talk.Common.{UserInfo, max_line, comma}
use everyone_talk.Server.State.{Server, TblUser}
use everyone_talk.Server.Sql.{Mysql, Row, select_mysql, insert_mysql}

-- One round of the loop over a row's columns.
read_user_column : Bytes → Bytes → TblUser → TblUser
read_user_column name text t =
    if bytes_eq name (codes "id")
    then record t { id = atoi (c_str text) }
    else if bytes_eq name (codes "username")
    then record t { user_name = text }
    else if bytes_eq name (codes "passwd")
    then record t { passwd = text }
    else if bytes_eq name (codes "sex")
    then record t { sex = text }
    else if bytes_eq name (codes "birth")
    then record t { birth = text }
    else if bytes_eq name (codes "hometown")
    then record t { hometown = text }
    else t

read_user : Row → TblUser → TblUser
unfolding read_user_column
read_user [] t = t
read_user ((name, text) ∷ row) t = read_user row (read_user_column name text t)

read_users : ℤ → List Row → List TblUser
unfolding read_user
read_users junk [] = []
read_users junk (row ∷ rows) =
    read_user row
      (record { id = junk; user_name = []; passwd = []; sex = []; birth = []; hometown = [] })
    ∷ read_users junk rows

-- `junk` is what an `id` holds that no column sets.
unfoldable pub init_tbl_user : Mysql → ℤ → Server → Server
unfolding read_users
init_tbl_user mysql junk s =
    let (sent, tables_data, _) = select_mysql mysql s.sent (codes "select * from user_info") in
    record s { users = s.users ++ read_users junk tables_data; sent = sent }

-- The row's `id` is not set: `junk` is what it holds.
unfoldable pub insert_user_info : ℤ → UserInfo → Server → Outcome Server
insert_user_info junk u s = do
  c_sql ← store max_line (
      c_str u.user_name
      ++ comma
        ∷ (c_str u.passwd
            ++ comma ∷ (c_str u.sex ++ comma ∷ (c_str u.birth ++ comma ∷ c_str u.hometown))))
  done (record s {
    users = s.users ++ row ∷ [];
    sent =
        insert_mysql s.sent
          (codes "INSERT INTO user_info(username,passwd,sex,birth,hometown) VALUES (" ++ c_sql);
  })
  where
    row : TblUser
    row = record {
      id = junk;
      user_name = c_str u.user_name;
      passwd = c_str u.passwd;
      sex = c_str u.sex;
      birth = c_str u.birth;
      hometown = c_str u.hometown;
    }

-- The inner loop: the first user with the id.
unfoldable pub find_user : ℤ → List TblUser → Option TblUser
find_user id [] = none
find_user id (t ∷ users) = if int_eq id t.id then some t else find_user id users

unfoldable pub get_friendinfo_by_userid : List ℤ → List TblUser → List TblUser
unfolding find_user
get_friendinfo_by_userid [] users = []
get_friendinfo_by_userid (id ∷ userids) users =
    let rest = get_friendinfo_by_userid userids users in
    elim (find_user id users) [ none ↦ rest | some t ↦ t ∷ rest ]

-- `none` where the function ends without a return value.
unfoldable pub get_userid_by_username : Bytes → List TblUser → Option ℤ
get_userid_by_username user_name [] = none
get_userid_by_username user_name (t ∷ users) =
    if bytes_eq user_name t.user_name then some t.id else get_userid_by_username user_name users
