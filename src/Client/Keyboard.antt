-- ===== src/Client/Keyboard.antt =====
-- `get_main_cmd`, `get_friend_cmd` and `get_talk_cmd` of client/client_gui.cpp. The keys are an
-- argument; `none` stands for a loop that waits for more. The echo of the terminal is left out.
pub mod Bounds
use everyone_talk.Prelude.{
  ℕ, ◌≡◌, Option, none, some, [], ◌∷◌, Bytes, codes, length, ◌==◌, ltb, true, false, if◌then◌else◌,
}
use everyone_talk.Outcome.{Outcome, done, overflow, store, ◌>>=◌}
use everyone_talk.CString.{c_str, cut}
use everyone_talk.Common.{newline}

-- The inner loop, which writes to `t_cmd[10]` up to the newline, and the copy to the caller's array.
-- With no newline yet, `t_cmd` is full after ten keys.
unfoldable pub read_word : Bytes → Outcome (Option (Bytes × Bytes))
read_word keys = elim (cut newline keys) [
  | none ↦ if ltb 10 (length keys) then overflow else done none
  | some (word, rest) ↦ do t_cmd ← store 10 word; done (some (c_str t_cmd, rest))
]

-- All keys before the colon are skipped.
unfoldable pub get_main_cmd : Bytes → Outcome (Option (Bytes × Bytes))
unfolding read_word
get_main_cmd [] = done none
get_main_cmd (ch ∷ keys) = elim (ch == b':') [ true ↦ read_word keys | false ↦ get_main_cmd keys ]

-- The escape key, any key, and `A` or `B`; of any other three the loop goes on behind them.
unfoldable pub get_friend_cmd : Bytes → Outcome (Option (Bytes × Bytes))
unfolding read_word
get_friend_cmd [] = done none
get_friend_cmd (ch ∷ []) = elim (ch == b':') [ true ↦ read_word [] | false ↦ done none ]
get_friend_cmd (ch ∷ a ∷ []) = elim (ch == b':') [
  | true ↦ read_word (a ∷ [])
  | false ↦ elim (ch == 27) [ true ↦ done none | false ↦ get_friend_cmd (a ∷ []) ]
]
get_friend_cmd (ch ∷ a ∷ b ∷ keys) = elim (ch == b':') [
  | true ↦ read_word (a ∷ b ∷ keys)
  | false ↦ elim (ch == 27) [
    | true ↦ elim (b == b'A') [
      | true ↦ done (some (codes "UP", keys))
      | false ↦ elim (b == b'B') [
        | true ↦ done (some (codes "DOWN", keys))
        | false ↦ get_friend_cmd keys
      ]
    ]
    | false ↦ get_friend_cmd (a ∷ b ∷ keys)
  ]
]

-- `get_talk_cmd` is the same text.
unfoldable pub get_talk_cmd : Bytes → Outcome (Option (Bytes × Bytes))
get_talk_cmd keys = get_friend_cmd keys

-- `get_user_state` of client/deal_friend_data.cpp has the loop of `get_main_cmd`.
unfoldable pub get_user_state : Bytes → Outcome (Option (Bytes × Bytes))
get_user_state keys = get_main_cmd keys
