-- ===== src/Server/Sql.antt =====
-- server/execute_sql.cpp over a MySQL connection that is not part of the repository. The statements
-- that the server has sent so far, oldest first, are all that its answers may depend on.
use everyone_talk.Prelude.{Bool, codes, List, [], ◌∷◌, ◌++◌, Bytes, bytes_eq, if◌then◌else◌}
use everyone_talk.Int.{ℤ, pos, int_eq}
use everyone_talk.CString.{c_str}
use everyone_talk.Common.{ok, fail}

-- What `mysql_store_result` gives for a query: the names of the columns, and the rows.
pub record Table : Type 0 where
  pub fields : List Bytes
  pub rows : List (List Bytes)

-- The client library of MySQL: `mysql_query`, where 0 is success, and the table of the last query.
pub record Mysql : Type 0 where
  pub query : List Bytes → Bytes → ℤ
  pub store_result : List Bytes → Bytes → Table

-- `map<string, string>`, in the order of insertion.
abbrev pub Row : Type 0
Row = List (Bytes × Bytes)

-- `map::insert` keeps the entry of a key that is already there.
pub insert : Bytes → Bytes → Row → Row
insert k v [] = (k, v) ∷ []
insert k v ((j, w) ∷ row) = if bytes_eq j k then (j, w) ∷ row else (j, w) ∷ insert k v row

-- The inner loop of `select_mysql`, over the columns of one row.
pub table_data : List Bytes → List Bytes → Row → Row
unfolding insert
table_data (field ∷ fields) (cell ∷ cells) row =
    table_data fields cells (insert field (c_str cell) row)
table_data _ _ row = row

tables_data : List Bytes → List (List Bytes) → List Row
unfolding table_data
tables_data fields [] = []
tables_data fields (cells ∷ rows) = table_data fields cells [] ∷ tables_data fields rows

module _ (mysql : Mysql) where
  -- The rows, none after an error, and the return value.
  unfoldable pub select_mysql : List Bytes → Bytes → List Bytes × List Row × ℤ
  unfolding tables_data
  select_mysql sent str_sql =
      let statement = c_str str_sql in
      let result = mysql.store_result sent statement in
      if int_eq (mysql.query sent statement) (pos 0)
      then (sent ++ statement ∷ [], tables_data result.fields result.rows, ok)
      else (sent ++ statement ∷ [], [], fail)

  -- `connects` is whether `mysql_real_connect` succeeds; the rows that are read then are thrown away.
  unfoldable pub connect_mysql : Bool → List Bytes → List Bytes × ℤ
  connect_mysql connects sent =
      let (sent', tables_data, _) = select_mysql sent (codes "select * from user_info") in
      if connects then (sent', ok) else (sent, fail)

  unfoldable pub update_mysql : List Bytes → Bytes → List Bytes × ℤ
  update_mysql sent str_sql =
      let statement = c_str str_sql in
      (sent ++ statement ∷ [], if int_eq (mysql.query sent statement) (pos 0) then ok else fail)

-- An error is only printed.
unfoldable pub insert_mysql : List Bytes → Bytes → List Bytes
insert_mysql sent str_sql = sent ++ c_str str_sql ∷ []

-- An error is only printed here, too.
unfoldable pub delete_mysql : List Bytes → Bytes → List Bytes
delete_mysql sent str_sql = sent ++ c_str str_sql ∷ []
