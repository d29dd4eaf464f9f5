-- ===== src/Server/Dispatch/Cases.antt =====
-- A property of the server that each handler establishes holds after any line.
use everyone_talk.Prelude.{◌≡◌, ◌∙◌, if_cases, Option, none, some, Bytes, ◌++◌, ◌∷◌, [], false}
use everyone_talk.Int.{ℤ, print_int, int_eq}
use everyone_talk.Outcome.{Outcome, done, store, store_done, ◌>>=◌, >>=-eq-done}
use everyone_talk.Common.{
  max_line, newline, msg_id_register, msg_id_login, msg_id_friend_list, msg_id_change_user_state,
  msg_id_send_msg, msg_id_quit,
}
use everyone_talk.Server.State.{Server}
use everyone_talk.Server.Parse.{get_msgtpye}
use everyone_talk.Server.Handlers.{
  Env, register_info, login, get_friend_list, change_user_state, client_quit, sendmsg_to_friend,
}
use everyone_talk.Server.Dispatch.{Reply, send_number, send_friend_list, deal_type, deal_line}

pub send_number-server : (p : Server × ℤ) {r : Reply} → send_number p ≡ done r → r.server ≡ p.0
unfolding send_number
send_number-server (s, ret) h = let (sendline, _, e) = >>=-eq-done (store 10 _) _ h in cc e

pub send_friend_list-server :
    (env : Env) (text : Bytes) (s : Server) {r : Reply}
    → send_friend_list env text s ≡ done r
    → r.server ≡ s
unfolding send_friend_list
send_friend_list-server env text s h =
    let (respond, _, e) = >>=-eq-done (get_friend_list env text s) _ h in
    let (sendline, _, e₁) = >>=-eq-done (store max_line _) _ e in cc e₁

pub send_number-written :
    (p : Server × ℤ) {r : Reply}
    → send_number p ≡ done r
    → r.written ≡ print_int p.1 ++ newline ∷ []
unfolding send_number
send_number-written (s, ret) h =
    let (sendline, stored, e) = >>=-eq-done (store 10 _) _ h in
    let (same, _) = store_done 10 _ stored in cc e ∙ same

numbered-server :
    (m : Outcome (Server × ℤ)) {r : Reply}
    → (m >>= send_number) ≡ done r
    → (s' : Server) × (ret : ℤ) × (m ≡ done (s', ret)) × (r.server ≡ s')
numbered-server m h =
    let (p, e, e₁) = >>=-eq-done m send_number h in (p.0, p.1, e, send_number-server p e₁)

-- The reply to a line whose handler answers with a number.
pub numbered_reply :
    (m : Outcome (Server × ℤ)) {r : Reply}
    → (m >>= send_number) ≡ done r
    → (s' : Server) × (ret : ℤ) × (m ≡ done (s', ret))
      × (r.server ≡ s')
      × (r.written ≡ print_int ret ++ newline ∷ [])
numbered_reply m h =
    let (p, e, e₁) = >>=-eq-done m send_number h in
    (p.0, p.1, e, send_number-server p e₁, send_number-written p e₁)

-- A line that names its type and text goes to the handler of the type.
pub deal_line-some :
    (env : Env) (msg_recv text : Bytes) (type : ℤ) (s : Server)
    → get_msgtpye msg_recv ≡ some (type, text)
    → deal_line env msg_recv s ≡ deal_type env type text s
unfolding deal_line
deal_line-some env msg_recv text type s e = rw (e, deal_line)

-- What each handler has to establish.
pub record Handled (P : Server → Type 0) (env : Env) (text : Bytes) (s : Server) : Type 0 where
  pub same : P s
  pub registered : (s' : Server) (ret : ℤ) → register_info env text s ≡ done (s', ret) → P s'
  pub entered : (s' : Server) (ret : ℤ) → login env text s ≡ done (s', ret) → P s'
  pub changed : (s' : Server) (ret : ℤ) → change_user_state env text s ≡ done (s', ret) → P s'
  pub sent : P (sendmsg_to_friend text s).0
  pub quit : P (client_quit env text s).0

module _ (P : Server → Type 0) (env : Env) (text : Bytes) (s : Server)
    (h : Handled P env text s) where
  moved : (s₁ s₂ : Server) → s₁ ≡ s₂ → P s₂ → P s₁
  moved s₁ s₂ e p = rw e p

  numbered :
      (m : Outcome (Server × ℤ)) {r : Reply}
      → ((s' : Server) (ret : ℤ) → m ≡ done (s', ret) → P s')
      → (m >>= send_number) ≡ done r
      → P r.server
  numbered m keep e =
      let (s', ret, made, same) = numbered-server m e in moved _ s' same (keep s' ret made)

  pub deal_type-Handled : (type : ℤ) {r : Reply} → deal_type env type text s ≡ done r → P r.server
  unfolding deal_type
  deal_type-Handled type {r} e =
      if_cases (int_eq type msg_id_register) e (numbered (register_info env text s) h.registered)
        λ e₁. if_cases (int_eq type msg_id_login) e₁ (numbered (login env text s) h.entered) λ e₂.
          if_cases (int_eq type msg_id_friend_list) e₂
            (λ f. moved _ s (send_friend_list-server env text s f) h.same)
            λ e₃.
              if_cases (int_eq type msg_id_change_user_state) e₃
                (numbered (change_user_state env text s) h.changed)
                λ e₄.
                  if_cases (int_eq type msg_id_send_msg) e₄
                    (λ f. moved _ _ (send_number-server (sendmsg_to_friend text s) f) h.sent)
                    λ e₅.
                      if_cases (int_eq type msg_id_quit) e₅
                        (λ f. moved _ (client_quit env text s).0 (cc f) h.quit)
                        λ e₆. moved _ s (cc e₆) h.same

module _ (P : Server → Type 0) (env : Env) (s : Server) where
  by_type :
      (o : Option (ℤ × Bytes)) {r : Reply}
      → ((text : Bytes) → Handled P env text s)
      → elim o [
        | none ↦ done (record { server = s; written = []; returns = false })
        | some (msg_type, str_msg_data) ↦ deal_type env msg_type str_msg_data s
      ]
        ≡ done r
      → P r.server
  by_type none {r} h e = let same : s ≡ r.server = cc e in rw same at ((h []).same)
  by_type (some (type, text)) h e = deal_type-Handled P env text s (h text) type e

  pub deal_line-Handled :
      (msg_recv : Bytes) {r : Reply}
      → ((text : Bytes) → Handled P env text s)
      → deal_line env msg_recv s ≡ done r
      → P r.server
  unfolding deal_line
  deal_line-Handled msg_recv h e = by_type (get_msgtpye msg_recv) h e
