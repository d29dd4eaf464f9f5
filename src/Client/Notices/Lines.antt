-- ===== src/Client/Notices/Lines.antt =====
-- The listening thread of client/client_gui.cpp on connections that carry whole lines.
use everyone_talk.Prelude.{
  ◌≡◌, refl, ap, ◌∙◌, some, List, [], ◌∷◌, ◌++◌, Bytes, codes, Option-cases, inl, inr, All, map,
  sym, append-nil, append_assoc,
}
use everyone_talk.CString.{c_str}
use everyone_talk.Common.{UserState, max_line, newline}
use everyone_talk.Server.Connection.Lines.{IsLine}
use everyone_talk.Client.Requests.{answer_of}
use everyone_talk.Client.Notices.{Windows, get_notify_type, deal_noyify}
use everyone_talk.Client.Notices.Calls.{Caller, Listening, deal_answer, deal_caller, serve_callers}
use everyone_talk.Wire.Readline.{stream, arriving, readline, readline_line}
use everyone_talk.Wire.Writen.{writen}

-- What the client answers to every line.
abbrev pub reply_text : Bytes
reply_text = codes "hahahahahahahaha\n"

pub reply-deal_noyify :
    (junk : UserState) (text : Bytes) (w : Windows) → (deal_noyify junk text w).1 ≡ reply_text
unfolding deal_noyify
reply-deal_noyify junk text w = elim (Option-cases (get_notify_type text)) [
  | inl e ↦ rw (deal_noyify, e) refl
  | inr ((notify_type, str_notify_data), e) ↦ rw (deal_noyify, e) refl
]

pub c_str-reply_text : c_str reply_text ≡ reply_text
unfolding c_str
c_str-reply_text = refl

-- The client's end.
pub caller_line :
    (line rest : Bytes) (caller : Caller) (l : Listening)
    → IsLine line
    → stream l.buf caller.reads ≡ line ++ newline ∷ rest
    → (l' : Listening) × (deal_caller caller l ≡ some l')
      × (l'.windows ≡ (deal_noyify caller.junk (line ++ newline ∷ []) l.windows).0)
      × (stream l'.buf (readline max_line l.buf caller.reads).2 ≡ rest)
      × (l'.replies ≡ l.replies ++ (writen reply_text caller.writes).0 ∷ [])
unfolding deal_caller deal_answer answer_of
caller_line line rest caller l h arrives =
    let (read, left) =
      readline_line max_line line rest l.buf caller.reads arrives h.no_newline h.fits in
    let text : Bytes = line ++ newline ∷ [] in
    let reply = reply-deal_noyify caller.junk text l.windows in
    (
      record {
        windows = (deal_noyify caller.junk text l.windows).0;
        buf = (readline max_line l.buf caller.reads).1;
        replies = l.replies ++ (writen reply_text caller.writes).0 ∷ [];
      },
      rw (read, reply, c_str-reply_text) refl,
      refl,
      left,
      refl,
    )

-- The specification: the lines are dealt with one after another.
unfoldable pub shown_lines : List (Caller × Bytes) → Windows → Windows
shown_lines [] w = w
shown_lines ((caller, line) ∷ lines) w =
    shown_lines lines (deal_noyify caller.junk (line ++ newline ∷ []) w).0

-- Connections that carry one line each.
abbrev pub CarriesLine : Caller × Bytes → Type 0
CarriesLine (caller, line) = IsLine line × (arriving caller.reads ≡ line ++ newline ∷ [])

buf_empty : (buf reads : Bytes) → buf ++ reads ≡ [] → buf ≡ []
buf_empty [] reads h = refl
buf_empty (c ∷ buf) reads h = cc h

-- What goes out to each, as far as its connection takes it.
abbrev pub written_replies : List (Caller × Bytes) → List Bytes
written_replies lines = map (λ c. (writen reply_text c.0.writes).0) lines

-- Connections that carry one line each, which fits and holds no NUL, in whatever pieces, are served one
-- after another to the end: each line is dealt with once and in order, on each connection that much
-- of the client's fixed answer is written as the connection takes, all of it if all is taken, and
-- nothing is left in the buffer for the next connection.
pub callers_in_order :
    (lines : List (Caller × Bytes)) (l : Listening)
    → All CarriesLine lines
    → l.buf ≡ []
    → (l' : Listening) × (serve_callers (map (λ c. c.0) lines) l ≡ some l')
      × (l'.windows ≡ shown_lines lines l.windows)
      × (l'.replies ≡ l.replies ++ written_replies lines)
      × (l'.buf ≡ [])
unfolding serve_callers shown_lines stream
callers_in_order [] l h e = (l, refl, refl, sym (append-nil l.replies), e)
callers_in_order ((caller, line) ∷ lines) l ((fits, carried), hs) e =
    let (l1, called, windows, left, replies) =
      caller_line line [] caller l fits (ap (λ b. b ++ arriving caller.reads) e ∙ carried) in
    let (l', served, shown, answered, empty) =
      callers_in_order lines l1 hs (buf_empty l1.buf _ left) in
    (
      l',
      rw (serve_callers, called) served,
      shown ∙ ap (shown_lines lines) windows,
      answered
          ∙ ap (λ r. r ++ written_replies lines) replies
          ∙ append_assoc l.replies ((writen reply_text caller.writes).0 ∷ [])
              (written_replies lines),
      empty,
    )
