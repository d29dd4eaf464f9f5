-- ===== src/Protocol/FriendLists.antt =====
-- The reply of `get_friend_list`: what the server's `serialize_string` prints and the client's
-- `friend_list_deserialize` reads.
use mathlib.Core.Option
use everyone_talk.Prelude.{
  ℕ, zero, suc, ◌≤◌, ◌<◌, ◌≡◌, sym, ◌∙◌, List, [], ◌∷◌, ◌++◌, append_assoc, append-nil, Bytes, All,
  All-append, Lacks, arith, map, length, length-append,
}
use everyone_talk.Int.{IsInt, print_int}
use everyone_talk.Int.RoundTrip.{print_int-Lacks_above, print_int-Lacks_below}
use everyone_talk.Outcome.{done, store, store_done, >>=-eq-done}
use everyone_talk.CString.{c_str-Lacks, cut_at, cut-Lacks, before_at, after_at}
use everyone_talk.Common.{FriendList, UserState, offline, max_line, semicolon, comma, newline}
use everyone_talk.Server.State.{TblUser}
use everyone_talk.Server.Logins.{States, find_state}
use everyone_talk.Server.Handlers.{serialize_users, serialize_string}
use everyone_talk.Client.Serialize.{read_friend, deserialize_loop, friend_list_deserialize}
use everyone_talk.Protocol.Fields.{IsField, atoi-print_int_end}

-- The state under which a user is listed.
abbrev pub state_of : States → TblUser → UserState
state_of states t = Option.get_or (find_state t.id states) offline

-- The line that the client shows of a user.
abbrev pub shown : States → TblUser → FriendList
shown states t = record { id = t.id; user_name = t.user_name; state = state_of states t }

-- A user who can be listed: a name with no comma, semicolon or NUL, and numbers that are `int`s.
pub record IsListed (states : States) (t : TblUser) : Type 0 where
  pub name : IsField t.user_name
  pub no_comma : Lacks comma t.user_name
  pub id : IsInt t.id
  pub state : IsInt (state_of states t)

module _ (states : States) where
  columns : TblUser → Bytes
  columns t = print_int t.id ++ comma ∷ (t.user_name ++ comma ∷ print_int (state_of states t))

  rows : List TblUser → Bytes
  rows [] = []
  rows (t ∷ users) = columns t ++ semicolon ∷ rows users

  columns-Lacks : (t : TblUser) → IsListed states t → Lacks semicolon (columns t)
  unfolding columns
  columns-Lacks t h =
      All-append _ (print_int t.id) _ (print_int-Lacks_above semicolon t.id (omega arith)) (
        omega arith,
        All-append _ t.user_name _ h.name.no_semicolon
            (omega arith, print_int-Lacks_above semicolon (state_of states t) (omega arith)),
      )

  read_friend-columns : (t : TblUser) → IsListed states t → read_friend (columns t) ≡ shown states t
  unfolding read_friend columns
  read_friend-columns t h = rw (
    before_at comma (print_int t.id) _ (print_int-Lacks_below comma t.id (omega arith)),
    after_at comma (print_int t.id) _ (print_int-Lacks_below comma t.id (omega arith)),
    before_at comma t.user_name _ h.no_comma,
    after_at comma t.user_name _ h.no_comma,
    atoi-print_int_end t.id h.id,
    atoi-print_int_end _ h.state,
  )

  deserialize-rows :
      (fuel : ℕ) (users : List TblUser) (rest : Bytes) (out : List FriendList)
      → All (IsListed states) users
      → Lacks semicolon rest
      → length users < fuel
      → deserialize_loop fuel (rows users ++ rest) out ≡ out ++ map (shown states) users
  unfolding deserialize_loop rows
  deserialize-rows zero users rest out h k f = absurd (omega arith)
  deserialize-rows (suc fuel) [] rest out h k f =
      rw (cut-Lacks semicolon rest k, deserialize_loop) (sym (append-nil out))
  deserialize-rows (suc fuel) (t ∷ users) rest out h k f =
      rw
        (
          append_assoc (columns t) (semicolon ∷ rows users) rest,
          deserialize_loop,
          cut_at semicolon (columns t) (rows users ++ rest) (columns-Lacks t h.0),
          read_friend-columns t h.0,
        )
        (deserialize-rows fuel users rest (out ++ shown states t ∷ []) h.1 k (omega arith)
          ∙ append_assoc out (shown states t ∷ []) (map (shown states) users))

  length-rows : (users : List TblUser) → length users ≤ length (rows users)
  unfolding rows
  length-rows [] = omega arith
  length-rows (t ∷ users) =
      omega (arith, length-rows users, length-append (columns t) (semicolon ∷ rows users))

  serialize_users-rows :
      (users : List TblUser) (out : Bytes) {r : Bytes}
      → All (IsListed states) users
      → serialize_users users states out ≡ done r
      → r ≡ out ++ rows users
  unfolding serialize_users rows columns
  serialize_users-rows [] out h e = cc (append-nil out)
  serialize_users-rows (t ∷ users) out {r} h e =
      let (tmpres, stored, rest) = >>=-eq-done (store max_line _) _ e in
      let (same, _) = store_done max_line _ stored in
      serialize_users-rows users (out ++ tmpres) h.1 rest
      ∙ rw (same, c_str-Lacks t.user_name h.0.name.no_nul) (simp append_assoc)

  -- A friend list that fits the server's buffers is read back by the client, user by user, if
  -- the names hold no comma, semicolon or NUL and the numbers are `int`s.
  pub friend_list_reply :
      (users : List TblUser) (respond : Bytes)
      → All (IsListed states) users
      → serialize_string users states ≡ done respond
      → friend_list_deserialize (respond ++ newline ∷ []) [] ≡ map (shown states) users
  unfolding serialize_string friend_list_deserialize
  friend_list_reply users respond h e =
      let (text, printed, stored) = >>=-eq-done (serialize_users users states []) _ e in
      let (same, _) = store_done max_line _ stored in
      rw (same, serialize_users-rows users [] h printed)
        (deserialize-rows (suc (length (rows users ++ newline ∷ []))) users (newline ∷ []) [] h
          (omega arith)
          (omega (arith, length-rows users, length-append (rows users) (newline ∷ []))))
