-- ===== src/Client/Program/Lines.antt =====
-- `get_send_msg` of client/deal_talk_data.cpp on keys and on lines: the two models agree.
use everyone_talk.Prelude.{
  ℕ, zero, suc, ◌≡◌, refl, sym, ap, ◌∙◌, subst, none, some, List, [], ◌∷◌, ◌++◌, append_assoc,
  append-nil, Bytes, drop_last, length, map, All, ◌-◌,
}
use everyone_talk.Outcome.{done}
use everyone_talk.CString.{c_str}
use everyone_talk.Client.Console.{Call, Client, returns, repeat, forever}
use everyone_talk.Client.Program.{get_send_msg}
use everyone_talk.Client.SendLoop.{Sending, delete_keys, send_line, send_cleaned}
use everyone_talk.Client.SendLoop
use everyone_talk.Common.{max_line}
use everyone_talk.Client.Program.Fgets.{IsLineOf}
use everyone_talk.Client.SendLoop.Shown.{kept, said_lines}
use everyone_talk.Client.Program.SentLine.{
  Ends, Ends-and_then, Ends-weaken, concat, Round, body, body-Ends,
}

kept-map :
    (f_name cleaned : Bytes) (said : List Bytes)
    → map (Call.send_msg_to_server f_name) (kept cleaned [])
        ++ map (Call.send_msg_to_server f_name) said
      ≡ map (Call.send_msg_to_server f_name) (kept cleaned said)
kept-map f_name [] said = refl
kept-map f_name (ch ∷ cleaned) said = refl

-- The keys that are taken are lines, and on these the loop over lines does the same.
abbrev pub AsLines : Bytes → Bytes → Client → Client → Type 0
AsLines my_name f_name c c' =
    (lines : List Bytes) × (c.keys ≡ concat lines ++ c'.keys)
    × All (IsLineOf (max_line - 1)) lines
    × (c'.calls ≡ c.calls ++ map (Call.send_msg_to_server f_name) (said_lines lines))
    × ((rs : List Bytes)
        → (rs' : List Bytes) × (SendLoop.get_send_msg my_name f_name lines
              (record { window = c.talk; requests = rs })
            ≡ done (record { window = c'.talk; requests = rs' }, [])))

Round-AsLines :
    (my_name f_name : Bytes) (c c' c'' : Client)
    → Round my_name f_name none c c'
    → AsLines my_name f_name c' c''
    → AsLines my_name f_name c c''
unfolding SendLoop.get_send_msg said_lines
Round-AsLines my_name f_name c c' c'' (line, keys, whole, e, calls, sent)
      (lines, keys', wholes, calls', loop) =
    (
      line ∷ lines,
      keys ∙ ap (λ k. line ++ k) keys' ∙ sym (append_assoc line (concat lines) c''.keys),
      (whole, wholes),
      rw e (
          calls'
          ∙ ap (λ x. x ++ map (Call.send_msg_to_server f_name) (said_lines lines)) calls
          ∙ append_assoc c.calls _ _
          ∙ ap (λ x. c.calls ++ x)
              (kept-map f_name (delete_keys (drop_last (c_str line))) (said_lines lines))),
      λ rs. let (rs1, first) = sent rs in let (rs2, rest) = loop rs1 in (rs2, rw (e, first) rest),
    )

repeat-AsLines :
    (my_name f_name : Bytes) (fuel : ℕ) (c : Client)
    → Ends (λ _ c'. AsLines my_name f_name c c') (repeat fuel (body my_name f_name) c)
unfolding repeat SendLoop.get_send_msg said_lines
repeat-AsLines my_name f_name zero c = tt
repeat-AsLines my_name f_name (suc fuel) c =
    Ends-and_then (λ o c'. Round my_name f_name o c c') _ (body my_name f_name c) _
      (body-Ends my_name f_name c)
      (elim [
        | none ↦ λ c' r.
            Ends-weaken (λ _ c''. AsLines my_name f_name c' c'') _
              (repeat fuel (body my_name f_name) c') (repeat-AsLines my_name f_name fuel c')
              (λ a c'' later. Round-AsLines my_name f_name c c' c'' r later)
        | some a ↦ λ c' (line, keys, whole, e, talk, calls). (
          line ∷ [],
          keys ∙ ap (λ l. l ++ c'.keys) (sym (append-nil line)),
          (whole, tt),
          rw e (calls ∙ sym (append-nil c.calls)),
          λ rs. (rs, rw (e, talk) refl),
        )
      ])

-- The loop on keys is the loop on lines: if it returns, the keys that it took are lines one behind
-- another as `fgets` cuts them, each up to its only newline or of 1023 bytes with none, on which the loop over lines ends as well, with the same window and no line left over, and
-- the calls made on the way are one for each line that is sent, in order.
pub get_send_msg_on_lines :
    (my_name f_name : Bytes) (rs : List Bytes) (c c' : Client)
    → get_send_msg my_name f_name c ≡ returns tt c'
    → (lines : List Bytes) × (rs' : List Bytes) × (c.keys ≡ concat lines ++ c'.keys)
      × All (IsLineOf (max_line - 1)) lines
      × (c'.calls ≡ c.calls ++ map (Call.send_msg_to_server f_name) (said_lines lines))
      × (SendLoop.get_send_msg my_name f_name lines (record { window = c.talk; requests = rs })
          ≡ done (record { window = c'.talk; requests = rs' }, []))
unfolding get_send_msg forever body
get_send_msg_on_lines my_name f_name rs c c' h =
    let (lines, keys, wholes, calls, loop) =
      subst (Ends (λ _ d. AsLines my_name f_name c d)) h
        (repeat-AsLines my_name f_name (suc (length c.keys)) c) in
    let (rs', same) = loop rs in (lines, rs', keys, wholes, calls, same)
