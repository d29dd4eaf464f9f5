-- ===== src/Server/Notify/Friends.antt =====
-- Whom the server takes for online: the logins that a change of state goes to, and the states that a
-- friend list shows.
use everyone_talk.Prelude.{
  ◌≡◌, ◌≢◌, refl, sym, ap, ◌∙◌, Bool-cases, none, some, List, [], ◌∷◌, ◌++◌, All, Exists, inl, inr,
  arith, Option-cases, if_cases, subst, ◌↔◌, Bytes,
}
use everyone_talk.Int.{ℤ, int_eq, int_eq_iff, int_eq_refl}
use everyone_talk.Common.{UserState, offline}
use everyone_talk.Server.State.{Server, TblUser, TblLogin, TblFriend}
use everyone_talk.Server.Friends.{get_friendids_by_userid}
use everyone_talk.Server.Users.{get_userid_by_username}
use everyone_talk.Server.Logins.{
  States, find_by_id, find_by_user_id, find_state, insert_state, get_friendstates_by_userid,
  get_logininfos_by_userid,
}
use everyone_talk.Protocol.FriendLists.{state_of}
use everyone_talk.Server.Notify.{friend_logins}

-- A row that no row of the same user stands before.
abbrev pub IsFirstLogin : TblLogin → List TblLogin → Type 0
IsFirstLogin t logins =
    (a : List TblLogin) × (b : List TblLogin) × (logins ≡ a ++ t ∷ b)
    × All (λ x. x.user_id ≢ t.user_id) a

find_by_user_id-first :
    (id : ℤ) (logins : List TblLogin) (t : TblLogin)
    → find_by_user_id id logins ≡ some t
    → (t.user_id ≡ id) × IsFirstLogin t logins
unfolding find_by_user_id
find_by_user_id-first id [] t h = cc
find_by_user_id-first id (x ∷ logins) t h = elim (Bool-cases (int_eq id x.user_id)) [
  | inl e ↦
      let same : x ≡ t = cc (rw (find_by_user_id, e) at h) in
      subst (λ y. (y.user_id ≡ id) × IsFirstLogin y (x ∷ logins)) same
        (sym ((int_eq_iff id x.user_id).0 e), ([], logins, refl, tt))
  | inr e ↦
      let (owner, (a, b, split, before)) =
        find_by_user_id-first id logins t (rw (find_by_user_id, e) at h) in
      (
        owner,
        (
          x ∷ a,
          b,
          ap (λ l. x ∷ l) split,
          (λ other. cc (e, (int_eq_iff id x.user_id).1 (sym (other ∙ owner))), before),
        ),
      )
]

find_first :
    (t : TblLogin) (a b : List TblLogin)
    → All (λ x. x.user_id ≢ t.user_id) a
    → find_by_user_id t.user_id (a ++ t ∷ b) ≡ some t
unfolding find_by_user_id
find_first t [] b h = rw (int_eq_refl t.user_id)
find_first t (x ∷ a) b (h, hs) = elim (Bool-cases (int_eq t.user_id x.user_id)) [
  | inl e ↦ absurd (h (sym ((int_eq_iff t.user_id x.user_id).0 e)))
  | inr e ↦ rw e (find_first t a b hs)
]

-- One round of the outer loop.
module _ (i : ℤ) (ids : List ℤ) (logins : List TblLogin) where
  round_none :
      find_by_user_id i logins ≡ none
      → get_logininfos_by_userid (i ∷ ids) logins ≡ get_logininfos_by_userid ids logins
  unfolding get_logininfos_by_userid
  round_none e = rw (e, get_logininfos_by_userid)

  round_some :
      {t : TblLogin}
      → find_by_user_id i logins ≡ some t
      → get_logininfos_by_userid (i ∷ ids) logins ≡ t ∷ get_logininfos_by_userid ids logins
  unfolding get_logininfos_by_userid
  round_some e = rw (e, get_logininfos_by_userid)

-- The row itself is in the list.
abbrev pub HasRow : TblLogin → List TblLogin → Type 0
HasRow t = Exists (λ x. x ≡ t)

notified_sound :
    (t : TblLogin) (ids : List ℤ) (logins : List TblLogin)
    → HasRow t (get_logininfos_by_userid ids logins)
    → Exists (λ i. i ≡ t.user_id) ids × IsFirstLogin t logins
notified_sound t [] logins h = absurd (unfold get_logininfos_by_userid in h)
notified_sound t (i ∷ ids) logins h = elim (Option-cases (find_by_user_id i logins)) [
  | inl e ↦
      let (known, first) =
        notified_sound t ids logins (subst (HasRow t) (round_none i ids logins e) h) in
      (inr known, first)
  | inr (u, e) ↦ elim (subst (HasRow t) (round_some i ids logins e) h) [
    | inl same ↦
        let (owner, first) = find_by_user_id-first i logins t (e ∙ ap some same) in
        (inl (sym owner), first)
    | inr later ↦ let (known, first) = notified_sound t ids logins later in (inr known, first)
  ]
]

notified_complete :
    (t : TblLogin) (ids : List ℤ) (logins : List TblLogin)
    → Exists (λ i. i ≡ t.user_id) ids
    → find_by_user_id t.user_id logins ≡ some t
    → HasRow t (get_logininfos_by_userid ids logins)
notified_complete t [] logins h k = elim h [ ]
notified_complete t (i ∷ ids) logins h k = elim (Option-cases (find_by_user_id i logins)) [
  | inl e ↦ subst (HasRow t) (sym (round_none i ids logins e)) (elim h [
    | inl same ↦ cc (e, k, ap (λ j. find_by_user_id j logins) same)
    | inr later ↦ notified_complete t ids logins later k
  ])
  | inr (u, e) ↦ subst (HasRow t) (sym (round_some i ids logins e)) (elim h [
    | inl same ↦ inl (cc (e, k, ap (λ j. find_by_user_id j logins) same))
    | inr later ↦ inr (notified_complete t ids logins later k)
  ])
]

is_friend_sound :
    (user_id id : ℤ) (friends : List TblFriend)
    → Exists (λ i. i ≡ id) (get_friendids_by_userid user_id friends)
      ↔ Exists (λ f. (f.user_id ≡ user_id) × (f.friend_id ≡ id)) friends
unfolding get_friendids_by_userid
is_friend_sound user_id id [] = (λ h. h, λ h. h)
is_friend_sound user_id id (f ∷ friends) =
    let ih = is_friend_sound user_id id friends in
    let same = int_eq_iff user_id f.user_id in
    elim (Bool-cases (int_eq user_id f.user_id)) [
      | inl e ↦ rw e (
        λ h. elim h [ inl p ↦ inl (sym (same.0 e), p) | inr q ↦ inr (ih.0 q) ],
        λ h. elim h [ inl p ↦ inl p.1 | inr q ↦ inr (ih.1 q) ],
      )
      | inr e ↦
          rw e
            (λ h. inr (ih.0 h), λ h. elim h [ inl p ↦ cc (e, same.1 (sym p.0)) | inr q ↦ ih.1 q ])
    ]

-- The login rows that a change of state of a registered user goes to are exactly these: the first row
-- of each user who is listed as a friend of the one who changed, with that row's address and port.
pub notified_iff :
    (junk user_id : ℤ) (name : Bytes) (t : TblLogin) (s : Server)
    → get_userid_by_username name s.users ≡ some user_id
    → HasRow t (friend_logins junk name s) ↔ (
        Exists (λ f. (f.user_id ≡ user_id) × (f.friend_id ≡ t.user_id)) s.friends
        × IsFirstLogin t s.logins)
unfolding friend_logins
notified_iff junk user_id name t s h =
    let friends = is_friend_sound user_id t.user_id s.friends in
    rw h (
      λ n. let (known, first) = notified_sound t _ s.logins n in (friends.0 known, first),
      λ (friend, (a, b, split, before)).
          notified_complete t _ s.logins (friends.1 friend)
            (ap (find_by_user_id t.user_id) split ∙ find_first t a b before),
    )

find_state-append :
    (id key : ℤ) (state : UserState) (states : States)
    → key ≢ id
    → find_state id states ≡ none
    → find_state id (states ++ (key, state) ∷ []) ≡ none
unfolding find_state
find_state-append id key state [] h e = ground (arith, int_eq_iff id key)
find_state-append id key state ((k, st) ∷ states) h e =
    ground (arith, int_eq_iff id k, find_state-append id key state states h)

insert_state-none :
    (id key : ℤ) (state : UserState) (states : States)
    → key ≢ id
    → find_state id states ≡ none
    → find_state id (insert_state key state states) ≡ none
unfolding insert_state
insert_state-none id key state states h e = elim (Option-cases (find_state key states)) [
  | inl f ↦ rw (f, insert_state) (find_state-append id key state states h e)
  | inr (_, f) ↦ rw (f, insert_state) e
]

find_by_id-some :
    (i : ℤ) (logins : List TblLogin) (t : TblLogin) (P : TblLogin → Type 0)
    → All P logins
    → find_by_id i logins ≡ some t
    → P t
unfolding find_by_id
find_by_id-some i [] t P h e = cc
find_by_id-some i (x ∷ logins) t P h e =
    if_cases (int_eq i x.id) e (λ same. subst P (cc same) h.0)
      (λ later. find_by_id-some i logins t P h.1 later)

states_none :
    (id : ℤ) (ids : List ℤ) (logins : List TblLogin) (states : States)
    → All (λ t. t.id ≢ id) logins
    → find_state id states ≡ none
    → find_state id (get_friendstates_by_userid ids logins states) ≡ none
unfolding get_friendstates_by_userid
states_none id [] logins states h e = e
states_none id (i ∷ ids) logins states h e = elim (Option-cases (find_by_id i logins)) [
  | inl f ↦ rw (f, get_friendstates_by_userid) (states_none id ids logins states h e)
  | inr (t, f) ↦
      rw (f, get_friendstates_by_userid)
        (states_none id ids logins (insert_state t.id t.state states) h (
          insert_state-none id t.id t.state states (find_by_id-some i logins t (λ x. x.id ≢ id) h f)
            e))
]

-- A friend list shows a user as offline whenever no login row has the user's id as its own `id`,
-- which no code sets, also while the user is logged in.
pub shown_offline :
    (ids : List ℤ) (u : TblUser) (logins : List TblLogin)
    → All (λ t. t.id ≢ u.id) logins
    → state_of (get_friendstates_by_userid ids logins []) u ≡ offline
shown_offline ids u logins h = rw (states_none u.id ids logins [] h (unfold find_state in refl))
