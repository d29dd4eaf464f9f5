-- ===== src/Client/Program/Fgets.antt =====
-- What `fgets` gives to `get_send_msg` of client/deal_talk_data.cpp.
use everyone_talk.Prelude.{
  ℕ, zero, suc, ◌<◌, ◌≡◌, ◌≢◌, refl, ap, Bool-cases, false, [], ◌∷◌, ◌++◌, Bytes, Lacks, length,
  arith, ◌==◌, ◌⊎◌, inl, inr,
}
use everyone_talk.Common.{newline}
use everyone_talk.Client.Config.{take_line}

-- A line of at most `n` bytes that ends in its only newline, or `n` bytes with no newline.
abbrev pub IsLineOf : ℕ → Bytes → Type 0
IsLineOf n line =
    ((u : Bytes) × (line ≡ u ++ newline ∷ []) × Lacks newline u × (length u < n))
    ⊎ ((length line ≡ n) × Lacks newline line)

pub take_line-IsLineOf :
    (n : ℕ) (s : Bytes) → (take_line n s).2 ≡ false → IsLineOf n (take_line n s).0
unfolding take_line
take_line-IsLineOf zero s h = inr (refl, tt)
take_line-IsLineOf (suc n) [] h = cc h
take_line-IsLineOf (suc n) (c ∷ s) h = elim (Bool-cases (c == newline)) [
  | inl e ↦
      let same : c ≡ newline = ground (arith, e) in
      rw (e, take_line) (inl ([], ap (λ x. x ∷ []) same, tt, omega arith))
  | inr e ↦
      let other : c ≢ newline = ground (arith, e) in
      rw (e, take_line)
        (elim (take_line-IsLineOf n s (rw (take_line, e) at h)) [
          | inl (u, split, lacks, short) ↦
              inl (c ∷ u, ap (λ l. c ∷ l) split, (other, lacks), omega (arith, short))
          | inr (long, lacks) ↦ inr (ap suc long, (other, lacks))
        ])
]
