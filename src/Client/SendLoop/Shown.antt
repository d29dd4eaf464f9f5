-- ===== src/Client/SendLoop/Shown.antt =====
-- The loop that sends lines keeps the talk window right.
use everyone_talk.Prelude.{
  map, ◌≡◌, List, [], ◌∷◌, ◌++◌, Bytes, codes, bytes_eq, drop_last, if◌then◌else◌,
}
use everyone_talk.CString.{c_str}
use everyone_talk.Common.{newline}
use everyone_talk.Client.Talk.Scroll.{Move, moves}
use everyone_talk.Client.SendLoop.{Sending, delete_keys}

-- The lines that are sent: those before ":q", without the cursor keys, and not empty.
abbrev pub kept : Bytes → List Bytes → List Bytes
kept [] said = said
kept (c ∷ sendline) said = (c ∷ sendline) ∷ said

unfoldable pub said_lines : List Bytes → List Bytes
said_lines [] = []
said_lines (line ∷ lines) =
    let sendline = drop_last (c_str line) in
    let more = kept (delete_keys sendline) (said_lines lines) in
    if bytes_eq sendline (codes ":q") then [] else more

-- A sent line as a move of the window.
abbrev pub sends : Bytes → List Bytes → List Move
sends my_name [] = []
sends my_name (l ∷ said) = Move.send my_name l ∷ sends my_name said

-- The request of a message to the friend, as text.
abbrev pub request_text : Bytes → Bytes → Bytes
request_text f_name line = codes "1004;" ++ (c_str f_name ++ (b';' ∷ (c_str line ++ newline ∷ [])))

-- What the loop has done to the state when it ends.
abbrev Done : Bytes → Bytes → List Bytes → Sending → Sending → Type 0
Done my_name f_name said s s' =
    (s'.window ≡ moves (sends my_name said) s.window)
    × (s'.requests ≡ s.requests ++ map (request_text f_name) said)
