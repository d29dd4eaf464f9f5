-- ===== src/Protocol/NoticeCalls.antt =====
-- A notice from the print in the server over a connection to the client's windows and back.
use everyone_talk.Prelude.{
  ◌≡◌, sym, subst, ap, ◌∙◌, some, [], ◌∷◌, ◌++◌, append_assoc, Bytes, All-append, Lacks,
  length-append, arith,
}
use everyone_talk.Int.{ℤ, IsInt, print_int}
use everyone_talk.Int.RoundTrip.{print_int-Lacks_below}
use everyone_talk.Outcome.{done, store, store_done, >>=-eq-done}
use everyone_talk.CString.{c_str, c_str-Lacks}
use everyone_talk.Common.{
  UserState, ok, max_line, semicolon, newline, notify_id_friend_online_state,
  notify_id_message_information,
}
use everyone_talk.Server.Connection.Lines.{IsLine}
use everyone_talk.Server.Notify.{Delivery, deal_state_notify, deal_send_msg}
use everyone_talk.Server.Notify.Call.{Dial, Wires, deal_notify}
use everyone_talk.Client.Talk.Views.{Shows}
use everyone_talk.Client.Notices.Effects.{
  StateShown, MessageShown, modify-StateShown, received-MessageShown,
}
use everyone_talk.Client.Notices.{deal_noyify}
use everyone_talk.Client.Notices.Calls.{Caller, Listening, deal_caller}
use everyone_talk.Protocol.NoticeLines.{Connected, line_exchange}
use everyone_talk.Protocol.Fields.{IsField}
use everyone_talk.Protocol.Notices.{state_notice, message_notice}

-- What a printer of notices gives, if it is done, is a line.
printed-IsLine :
    (id : ℤ) (text request : Bytes)
    → Lacks 0 text
    → Lacks newline text
    → store max_line (print_int id ++ semicolon ∷ (text ++ newline ∷ [])) ≡ done request
    → (request ≡ (print_int id ++ semicolon ∷ text) ++ newline ∷ [])
      × IsLine (print_int id ++ semicolon ∷ text)
printed-IsLine id text request h k e =
    let (same, fits) = store_done max_line _ e in
    let split = append_assoc (print_int id) (semicolon ∷ text) (newline ∷ []) in
    (
      same ∙ sym split,
      record {
        no_newline =
            All-append _ (print_int id) _ (print_int-Lacks_below newline id (omega arith))
              (omega arith, k);
        no_nul =
            All-append _ (print_int id) _ (print_int-Lacks_below 0 id (omega arith))
              (omega arith, h);
        fits = omega (
          arith,
          fits,
          length-append (print_int id) (semicolon ∷ (text ++ newline ∷ [])),
          length-append (print_int id) (semicolon ∷ text),
          length-append text (newline ∷ []),
        );
      },
    )

-- What `deal_notify` gives after a success.
abbrev pub Sent : Bytes → Dial → Wires → Type 0
Sent request dial w =
    deal_notify request dial w
    ≡ some (ok, record { opened = w.opened; written = w.written ++ request })

-- A printed line through both ends.
printed_exchange :
    (id : ℤ) (text request rest rest' : Bytes) (dial : Dial) (caller : Caller) (l : Listening)
    (w : Wires)
    → Lacks 0 text
    → Lacks newline text
    → store max_line (print_int id ++ semicolon ∷ (text ++ newline ∷ [])) ≡ done request
    → Connected request rest rest' dial caller l
    → Sent request dial w
      × (l' : Listening) × (deal_caller caller l ≡ some l')
      × (l'.windows ≡ (deal_noyify caller.junk request l.windows).0)
printed_exchange id text request rest rest' dial caller l w h k stored ends =
    let (same, line) = printed-IsLine id text request h k stored in
    subst
      (λ x.
        Sent x dial w
        × (l' : Listening) × (deal_caller caller l ≡ some l')
        × (l'.windows ≡ (deal_noyify caller.junk x l.windows).0))
      (sym same)
      (line_exchange _ rest rest' dial caller l w line
        (subst (λ x. Connected x rest rest' dial caller l) same ends))

-- A change of state through both programs: if the line that the notifying thread prints goes out
-- whole and reaches the client, and what the client then writes goes out whole and reaches the
-- thread, both in whatever pieces, the client sets the state of the first cell under that name and
-- changes nothing else in its windows, and `deal_notify` succeeds and closes its descriptor, if it
-- had one. The name holds no semicolon, newline or NUL, and
-- the state is an `int`; the line fits the server's buffer.
pub state_exchange :
    (ip name rest rest' : Bytes) (port : ℤ) (state : UserState) (d : Delivery) (dial : Dial)
    (caller : Caller) (l : Listening) (w : Wires)
    → IsField name
    → Lacks newline name
    → IsInt state
    → deal_state_notify ip port name state ≡ done d
    → Connected d.request rest rest' dial caller l
    → Sent d.request dial w
      × (l' : Listening) × (deal_caller caller l ≡ some l')
      × StateShown name state l.windows l'.windows
unfolding deal_state_notify
state_exchange ip name rest rest' port state d dial caller l w h one int e k =
    let (request, printed, made) = >>=-eq-done (store max_line _) _ e in
    let sent : request ≡ d.request = cc made in
    let same : c_str name ++ semicolon ∷ (print_int state ++ newline ∷ [])
        ≡ (name ++ semicolon ∷ print_int state) ++ newline ∷ [] =
      ap (λ x. x ++ semicolon ∷ (print_int state ++ newline ∷ [])) (c_str-Lacks name h.no_nul)
      ∙ sym (append_assoc name (semicolon ∷ print_int state) (newline ∷ [])) in
    let (out, l', called, windows) =
      printed_exchange notify_id_friend_online_state (name ++ semicolon ∷ print_int state) d.request
        rest rest' dial caller l w
        (All-append _ name _ h.no_nul (omega arith, print_int-Lacks_below 0 state (omega arith)))
        (All-append _ name _ one (omega arith, print_int-Lacks_below newline state (omega arith)))
        (subst
          (λ x.
            store max_line (print_int notify_id_friend_online_state ++ semicolon ∷ x)
            ≡ done d.request)
          same (printed ∙ ap done sent))
        k in
    (
      out,
      l',
      called,
      subst (StateShown name state l.windows)
          (sym (windows ∙ state_notice ip name port state caller.junk l.windows d h int e))
          (modify-StateShown name state l.windows),
    )

-- A message through both programs, likewise: the client adds the text behind its messages as it is,
-- also if it holds semicolons, under the name of the friend whose window is open, a talk window that
-- showed its messages goes on showing them, the friend window stays, and `deal_notify` succeeds and
-- closes its descriptor, if it had one. The text holds no
-- newline or NUL, and the line fits the server's buffer.
pub message_exchange :
    (ip msg rest rest' : Bytes) (port : ℤ) (d : Delivery) (dial : Dial) (caller : Caller)
    (l : Listening) (w : Wires)
    → Lacks 0 msg
    → Lacks newline msg
    → deal_send_msg ip port msg ≡ done d
    → Shows l.windows.talk
    → Connected d.request rest rest' dial caller l
    → Sent d.request dial w
      × (l' : Listening) × (deal_caller caller l ≡ some l')
      × MessageShown msg l.windows l'.windows
unfolding deal_send_msg
message_exchange ip msg rest rest' port d dial caller l w h one e v k =
    let (request, printed, made) = >>=-eq-done (store max_line _) _ e in
    let sent : request ≡ d.request = cc made in
    let (out, l', called, windows) =
      printed_exchange notify_id_message_information msg d.request rest rest' dial caller l w h one
        (subst
          (λ x.
            store max_line
              (print_int notify_id_message_information ++ semicolon ∷ (x ++ newline ∷ []))
            ≡ done d.request)
          (c_str-Lacks msg h) (printed ∙ ap done sent))
        k in
    (
      out,
      l',
      called,
      subst (MessageShown msg l.windows)
          (sym (windows ∙ message_notice ip msg port caller.junk l.windows d h e))
          (received-MessageShown msg l.windows v),
    )
