-- ===== src/Client/Program/SentLine.antt =====
-- One round of `get_send_msg` of client/deal_talk_data.cpp on keys: the line that it takes, and what it
-- sends.
use everyone_talk.Prelude.{
  ℕ, zero, suc, ◌≡◌, refl, sym, ap, ◌∙◌, subst, Option, none, some, Bool, true, false, List, [],
  ◌∷◌, ◌++◌, append-nil, Bytes, codes, bytes_eq, drop_last, map, if_elim, ◌==◌, ◌-◌, Bool-cases,
  ◌⊎◌, inl, inr,
}
use everyone_talk.Outcome.{Outcome, done, overflow}
use everyone_talk.CString.{c_str}
use everyone_talk.Int.{ℤ}
use everyone_talk.Common.{max_line, newline, msg_id_send_msg}
use everyone_talk.Client.Config.{take_line}
use everyone_talk.Client.Serialize.{sendmsg_serialize}
use everyone_talk.Client.Talk.{add_sent}
use everyone_talk.Client.Requests.{Socket, deal_msg, reply_number, send_msg_to_server}
use everyone_talk.Client.Console.{
  Call, Client, Result, returns, overflows, waits, endless, Program, and_then, ◌>>=◌, pure, update,
  taken, called, call_on, fgets_line, typed,
}
use everyone_talk.Client.Program.Fgets.{IsLineOf, take_line-IsLineOf}
use everyone_talk.Client.Program.{send_typed, send_or_quit}
use everyone_talk.Client.SendLoop.{delete_keys, send_line, send_cleaned}
use everyone_talk.Client.SendLoop.Shown.{kept}

Outcome-cases : {A : Type 0} (o : Outcome A) → (o ≡ overflow) ⊎ ((a : A) × (o ≡ done a))
Outcome-cases (done a) = inr (a, refl)
Outcome-cases overflow = inl refl

-- What holds of a result that returns.
abbrev pub Ends {ℓ} : {A : Type ℓ} → (A → Client → Type 0) → Result A → Type 0
Ends Q (returns a c) = Q a c
Ends Q overflows = Unit
Ends Q (waits c) = Unit
Ends Q endless = Unit

pub Ends-and_then {ℓ κ} :
    {A : Type ℓ} {B : Type κ} (Q : A → Client → Type 0) (R : B → Client → Type 0) (r : Result A)
    (f : A → Program B)
    → Ends Q r
    → ((a : A) (c : Client) → Q a c → Ends R (f a c))
    → Ends R (and_then f r)
unfolding and_then
Ends-and_then Q R (returns a c) f h k = k a c h
Ends-and_then Q R overflows f h k = tt
Ends-and_then Q R (waits c) f h k = tt
Ends-and_then Q R endless f h k = tt

pub Ends-weaken {ℓ} :
    {A : Type ℓ} (Q R : A → Client → Type 0) (r : Result A)
    → Ends Q r
    → ((a : A) (c : Client) → Q a c → R a c)
    → Ends R r
Ends-weaken Q R (returns a c) h k = k a c h
Ends-weaken Q R overflows h k = tt
Ends-weaken Q R (waits c) h k = tt
Ends-weaken Q R endless h k = tt

abbrev pub concat : List Bytes → Bytes
concat [] = []
concat (line ∷ lines) = line ++ concat lines

take_line-join : (n : ℕ) (s : Bytes) → s ≡ (take_line n s).0 ++ (take_line n s).1
unfolding take_line
take_line-join zero s = refl
take_line-join (suc n) [] = refl
take_line-join (suc n) (c ∷ s) =
    if_elim (λ (r : Bytes × Bytes × Bool). c ∷ s ≡ r.0 ++ r.1) (c == newline) (λ e. refl)
      (λ e. ap (c ∷◌) (take_line-join n s))

-- A line read.
abbrev Read : Client → Bytes → Client → Type 0
Read c line c' =
    c' ≡ record c { keys = c'.keys } × (c.keys ≡ line ++ c'.keys) × IsLineOf (max_line - 1) line

fgets-Ends : (c : Client) → Ends (Read c) (taken c (fgets_line c.keys))
unfolding taken fgets_line
fgets-Ends c =
    if_elim (λ o. Ends (Read c) (taken c o)) (take_line (max_line - 1) c.keys).2 (λ e. tt)
      (λ e.
        (refl, take_line-join (max_line - 1) c.keys, take_line-IsLineOf (max_line - 1) c.keys e))

-- What sending a line does to the window and to the calls, as in the loop over lines.
abbrev Sent : Bytes → Bytes → Bytes → Client → Client → Type 0
Sent my_name f_name cleaned c c' =
    (c'.keys ≡ c.keys)
    × (c'.calls ≡ c.calls ++ map (Call.send_msg_to_server f_name) (kept cleaned []))
    × ((rs : List Bytes)
        → (rs' : List Bytes) × (send_cleaned my_name f_name cleaned
              (record { window = c.talk; requests = rs })
            ≡ done (record { window = c'.talk; requests = rs' })))

-- Behind the reply, whatever it is.
replied-Ends :
    (my_name f_name : Bytes) (ch : ℕ) (cleaned request : Bytes) (c : Client) (sockets : List Socket)
    (reply : Option ℤ)
    → sendmsg_serialize (ch ∷ cleaned) msg_id_send_msg f_name ≡ done request
    → Ends
        (λ _ c'. Sent my_name f_name (ch ∷ cleaned) c c')
        (and_then
          (λ ret. update (λ d. record d { talk = add_sent my_name (ch ∷ cleaned) d.talk }))
          (called
            (record c {
              sockets = sockets;
              calls = c.calls ++ Call.send_msg_to_server f_name (ch ∷ cleaned) ∷ [];
            })
            (done reply)))
unfolding and_then called send_cleaned send_line
replied-Ends my_name f_name ch cleaned request c sockets none e = tt
replied-Ends my_name f_name ch cleaned request c sockets (some ret) e =
    (refl, refl, λ rs. (rs ++ request ∷ [], rw e refl))

send_typed-Ends :
    (my_name f_name cleaned : Bytes) (c : Client)
    → Ends (λ _ c'. Sent my_name f_name cleaned c c') (send_typed my_name f_name cleaned c)
unfolding send_typed send_cleaned call_on and_then send_msg_to_server called
send_typed-Ends my_name f_name [] c = (refl, sym (append-nil c.calls), λ rs. (rs, refl))
send_typed-Ends my_name f_name (ch ∷ cleaned) c = on c.sockets
  where
    on :
        (sockets : List Socket)
        → Ends
            (λ _ c'. Sent my_name f_name (ch ∷ cleaned) c c')
            (and_then
              (λ ret. update (λ d. record d { talk = add_sent my_name (ch ∷ cleaned) d.talk }))
              (call_on
                (Call.send_msg_to_server f_name (ch ∷ cleaned))
                (send_msg_to_server (ch ∷ cleaned) f_name)
                c
                sockets))
    on [] = tt
    on (socket ∷ sockets) =
        elim (Outcome-cases (sendmsg_serialize (ch ∷ cleaned) msg_id_send_msg f_name)) [
          | inl e ↦ rw e tt
          | inr (request, e) ↦ rw e (
              replied-Ends my_name f_name ch cleaned request c sockets
                (reply_number (deal_msg request socket)) e)
        ]

-- One round, which takes a line: ":q" ends the loop, and another line is sent.
abbrev pub Round : Bytes → Bytes → Option {0} Unit → Client → Client → Type 0
Round my_name f_name (some _) c c' =
    (line : Bytes) × (c.keys ≡ line ++ c'.keys)
    × IsLineOf (max_line - 1) line
    × (bytes_eq (drop_last (c_str line)) (codes ":q") ≡ true)
    × (c'.talk ≡ c.talk)
    × (c'.calls ≡ c.calls)
Round my_name f_name none c c' =
    (line : Bytes) × (c.keys ≡ line ++ c'.keys)
    × IsLineOf (max_line - 1) line
    × (bytes_eq (drop_last (c_str line)) (codes ":q") ≡ false)
    × (c'.calls
        ≡ c.calls
          ++ map (Call.send_msg_to_server f_name) (kept (delete_keys (drop_last (c_str line))) []))
    × ((rs : List Bytes)
        → (rs' : List Bytes) × (send_cleaned my_name f_name (delete_keys (drop_last (c_str line)))
              (record { window = c.talk; requests = rs })
            ≡ done (record { window = c'.talk; requests = rs' })))

unfoldable pub body : Bytes → Bytes → Program (Option {0} Unit)
body my_name f_name =
    typed fgets_line >>= λ line. send_or_quit my_name f_name (drop_last (c_str line))

pub body-Ends :
    (my_name f_name : Bytes) (c : Client)
    → Ends (λ o c'. Round my_name f_name o c c') (body my_name f_name c)
unfolding body send_or_quit
body-Ends my_name f_name c =
    Ends-and_then (Read c) _ (taken c (fgets_line c.keys))
      (λ line. send_or_quit my_name f_name (drop_last (c_str line))) (fgets-Ends c)
      (λ line c1 (same, keys, whole).
        elim (Bool-cases (bytes_eq (drop_last (c_str line)) (codes ":q"))) [
          | inl e ↦ rw e (line, keys, whole, e, ap (λ x. x.talk) same, ap (λ x. x.calls) same)
          | inr e ↦ rw e (
              Ends-and_then
                (λ _ c'. Sent my_name f_name (delete_keys (drop_last (c_str line))) c1 c') _
                (send_typed my_name f_name (delete_keys (drop_last (c_str line))) c1)
                (λ _. pure none)
                (send_typed-Ends my_name f_name (delete_keys (drop_last (c_str line))) c1)
                (λ a c' (kept_keys, calls, sent). (
                  line,
                  keys ∙ ap (λ k. line ++ k) (sym kept_keys),
                  whole,
                  e,
                  calls
                      ∙ ap
                          (λ x.
                            x.calls
                            ++ map (Call.send_msg_to_server f_name)
                                (kept (delete_keys (drop_last (c_str line))) []))
                          same,
                  λ rs.
                      subst
                        (λ (x : Client).
                          (rs' : List Bytes) × (send_cleaned my_name f_name
                              (delete_keys (drop_last (c_str line)))
                              (record { window = x.talk; requests = rs })
                            ≡ done (record { window = c'.talk; requests = rs' })))
                        same (sent rs),
                )))
        ])
