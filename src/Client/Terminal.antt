-- ===== src/Client/Terminal.antt =====
-- The terminal that client/client_gui.cpp, client/deal_friend_data.cpp and client/deal_talk_data.cpp
-- print to. It is not part of the repository: what the client relies on is a record of its operations
-- and one law, that a sequence that stays on the screen does what the sequence says.
pub mod Paint
pub mod Rows
use everyone_talk.Prelude.{
  ℕ, suc, ◌+◌, ◌-◌, ◌<◌, ◌≤◌, ◌≡◌, refl, sym, ap, subst, ◌∙◌, List, [], ◌∷◌, ◌++◌, Bytes, All,
  length, leb, ◌==◌, ◌&&◌, if◌then◌else◌,
}

-- What a `printf` sends: text, a newline, "\033[nA", "\033[nB", "\033[nC", "\033[nD" and "\033[K".
pub data Out : Type 0 where
  text : Bytes → Out
  newline : Out
  up : ℕ → Out
  down : ℕ → Out
  right : ℕ → Out
  left : ℕ → Out
  erase : Out

-- Rows of cells, by row and column.
abbrev pub Cells : Type 0
Cells = ℕ → ℕ → ℕ

pub record Grid : Type 0 where
  pub row : ℕ
  pub col : ℕ
  pub cells : Cells

-- A text put in a row from a column on.
abbrev pub paint : Bytes → ℕ → ℕ → Cells → Cells
paint [] r c cells i j = cells i j
paint (x ∷ t) r c cells i j = if (i == r) && (j == c) then x else paint t r (suc c) cells i j

-- A row is blank from a column on.
abbrev pub erase_from : ℕ → ℕ → Cells → Cells
erase_from r c cells i j = if (i == r) && leb c j then b' ' else cells i j

abbrev pub step : Out → Grid → Grid
step (text t) g = record {
  row = g.row;
  col = g.col + length t;
  cells = paint t g.row g.col g.cells;
}
step newline g = record g { row = suc g.row; col = 0 }
step (up n) g = record g { row = g.row - n }
step (down n) g = record g { row = g.row + n }
step (right n) g = record g { col = g.col + n }
step (left n) g = record g { col = g.col - n }
step erase g = record g { cells = erase_from g.row g.col g.cells }

abbrev pub draw : List Out → Grid → Grid
draw [] g = g
draw (o ∷ os) g = draw os (step o g)

-- The bytes that take one column each: printable ASCII.
abbrev pub IsPrintable : Bytes → Type 0
IsPrintable = All (λ b. (b' ' ≤ b) × (b < 127))

-- A screen of so many lines and columns. A count of 0 would count as 1.
module _ (lines columns : ℕ) where
  -- What stays on the screen, without scrolling and without touching its last column. The moves up
  -- and to the left stop at the first row and column.
  abbrev pub IsSafe : Out → Grid → Type 0
  IsSafe (text t) g = IsPrintable t × (g.col + length t < columns)
  IsSafe newline g = g.row + 1 < lines
  IsSafe (up n) g = 1 ≤ n
  IsSafe (down n) g = (1 ≤ n) × (g.row + n < lines)
  IsSafe (right n) g = (1 ≤ n) × (g.col + n < columns)
  IsSafe (left n) g = 1 ≤ n
  IsSafe erase g = Unit {0}

  abbrev pub AllSafe : List Out → Grid → Type 0
  AllSafe [] g = Unit {0}
  AllSafe (o ∷ os) g = IsSafe o g × AllSafe os (step o g)

  pub AllSafe-append :
      (os os' : List Out) (g : Grid)
      → AllSafe os g
      → AllSafe os' (draw os g)
      → AllSafe (os ++ os') g
  AllSafe-append [] os' g h k = k
  AllSafe-append (o ∷ os) os' g (h, hs) k = (h, AllSafe-append os os' (step o g) hs k)

pub draw-append : (os os' : List Out) (g : Grid) → draw (os ++ os') g ≡ draw os' (draw os g)
draw-append [] os' g = refl
draw-append (o ∷ os) os' g = draw-append os os' (step o g)

-- The terminal: its states, what it does with a sequence, and the part of a state that is seen.
pub record Terminal : Type 1 where
  pub Screen : Type 0
  pub lines : ℕ
  pub columns : ℕ
  pub put : Out → Screen → Screen
  pub view : Screen → Grid
  pub shows :
      (o : Out) (s : Screen) → IsSafe lines columns o (view s) → view (put o s) ≡ step o (view s)

abbrev pub puts : (t : Terminal) → List Out → t.Screen → t.Screen
puts t [] s = s
puts t (o ∷ os) s = puts t os (t.put o s)

-- What is seen after a sequence that stays on the screen.
pub shown_after :
    (t : Terminal) (os : List Out) (s : t.Screen)
    → AllSafe t.lines t.columns os (t.view s)
    → t.view (puts t os s) ≡ draw os (t.view s)
shown_after t [] s h = refl
shown_after t (o ∷ os) s (h, hs) =
    let seen = t.shows o s h in
    shown_after t os (t.put o s) (subst (AllSafe t.lines t.columns os) (sym seen) hs)
    ∙ ap (draw os) seen
