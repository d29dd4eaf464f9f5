-- ===== src/Server/Friends.antt =====
-- server/tbl_friendinfo.cpp.
use everyone_talk.Prelude.{List, [], ◌∷◌, ◌++◌, Bytes, bytes_eq, codes, if◌then◌else◌}
use everyone_talk.Int.{ℤ, atoi, int_eq}
use everyone_talk.CString.{c_str}
use everyone_talk.Server.State.{Server, TblFriend}
use everyone_talk.Server.Sql.{Mysql, Row, select_mysql}

-- One round of the loop over a row's columns.
read_friend_column : Bytes → Bytes → TblFriend → TblFriend
read_friend_column name text t =
    if bytes_eq name (codes "id")
    then record t { id = atoi (c_str text) }
    else if bytes_eq name (codes "user_id")
    then record t { user_id = atoi (c_str text) }
    else if bytes_eq name (codes "friend_id")
    then record t { friend_id = atoi (c_str text) }
    else t

read_friend : Row → TblFriend → TblFriend
unfolding read_friend_column
read_friend [] t = t
read_friend ((name, text) ∷ row) t = read_friend row (read_friend_column name text t)

read_friends : TblFriend → List Row → List TblFriend
unfolding read_friend
read_friends junk [] = []
read_friends junk (row ∷ rows) = read_friend row junk ∷ read_friends junk rows

-- `junk` is what the fields hold that no column sets.
unfoldable pub init_tbl_friend : Mysql → TblFriend → Server → Server
unfolding read_friends
init_tbl_friend mysql junk s =
    let (sent, tables_data, _) = select_mysql mysql s.sent (codes "select * from friend_info") in
    record s { friends = s.friends ++ read_friends junk tables_data; sent = sent }

unfoldable pub get_friendids_by_userid : ℤ → List TblFriend → List ℤ
get_friendids_by_userid user_id [] = []
get_friendids_by_userid user_id (t ∷ friends) =
    let rest = get_friendids_by_userid user_id friends in
    if int_eq user_id t.user_id then t.friend_id ∷ rest else rest
