-- ===== src/Client/Commands/Numbers.antt =====
-- Which commands of the friend list open a talk.
use everyone_talk.Prelude.{
  ◌≡◌, true, if_elim, Option, none, some, List, [], ◌∷◌, Bytes, codes, bytes_eq, Lacks, arith,
}
use everyone_talk.Int.{atoi}
use everyone_talk.Common.{FriendList}
use everyone_talk.Client.Friends.{is_user_exist}
use everyone_talk.Client.Commands.{
  FriendAction, deal_talk_data, all_digits, open_talk, number_cmd, deal_friend_list_cmd,
}

all_digits-Lacks : (c_key : Bytes) → all_digits c_key ≡ true → Lacks b'0' c_key
unfolding all_digits
all_digits-Lacks [] h = tt
all_digits-Lacks (c ∷ c_key) h = ground (arith, all_digits-Lacks c_key)

open_talk-some :
    (o : Option Bytes) (name : Bytes) → open_talk o ≡ deal_talk_data name → o ≡ some name
unfolding open_talk
open_talk-some none name h = cc h
open_talk-some (some f) name h = cc h

number_cmd-opens :
    (f_lists : List FriendList) (c_key name : Bytes)
    → number_cmd f_lists c_key ≡ deal_talk_data name
    → (all_digits c_key ≡ true) × (is_user_exist f_lists (atoi c_key) ≡ some name)
unfolding number_cmd
number_cmd-opens f_lists [] name h = cc h
number_cmd-opens f_lists (c ∷ c_key) name h =
    if_elim
      (λ x.
        x ≡ deal_talk_data name
        → (all_digits (c ∷ c_key) ≡ true) × (is_user_exist f_lists (atoi (c ∷ c_key)) ≡ some name))
      (all_digits (c ∷ c_key)) (λ digits e. (digits, open_talk-some _ name e)) (λ _ e. cc e) h

-- None of the words opens a talk.
last_branch :
    (f_lists : List FriendList) (c_key name : Bytes)
    → deal_friend_list_cmd f_lists c_key ≡ deal_talk_data name
    → number_cmd f_lists c_key ≡ deal_talk_data name
unfolding deal_friend_list_cmd
last_branch f_lists c_key name h =
    let word : FriendAction → Type 0 =
      λ x. x ≡ deal_talk_data name → number_cmd f_lists c_key ≡ deal_talk_data name in
    (if_elim word (bytes_eq c_key (codes "UP")) (λ _ e. cc e)
        λ _.
          if_elim word (bytes_eq c_key (codes "DOWN")) (λ _ e. cc e)
            λ _.
              if_elim word (bytes_eq c_key (codes "modify")) (λ _ e. cc e)
                λ _.
                  if_elim word (bytes_eq c_key (codes "query")) (λ _ e. cc e)
                    λ _.
                      if_elim word (bytes_eq c_key (codes "show")) (λ _ e. cc e)
                        λ _.
                          if_elim word (bytes_eq c_key (codes "switch")) (λ _ e. cc e)
                            λ _.
                              if_elim word (bytes_eq c_key (codes "quit")) (λ _ e. cc e)
                                λ _.
                                  if_elim word (bytes_eq c_key (codes "help")) (λ _ e. cc e)
                                    λ _ e. e)
      h

-- A command opens a talk only with a friend of the list whose number it is, and only if the number
-- has no digit 0: a friend with such a number cannot be talked to.
pub talk_needs_number :
    (f_lists : List FriendList) (c_key name : Bytes)
    → deal_friend_list_cmd f_lists c_key ≡ deal_talk_data name
    → (is_user_exist f_lists (atoi c_key) ≡ some name) × Lacks b'0' c_key
talk_needs_number f_lists c_key name h =
    let (digits, found) = number_cmd-opens f_lists c_key name (last_branch f_lists c_key name h) in
    (found, all_digits-Lacks c_key digits)
