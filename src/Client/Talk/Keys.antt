-- ===== src/Client/Talk/Keys.antt =====
-- `delete_func_key` leaves no occurrence of the key's sequence, and its loop ends.
use everyone_talk.Prelude.{
  ℕ, zero, suc, ◌+◌, ◌≤◌, ◌<◌, ◌≡◌, ◌≢◌, refl, sym, ap, ◌∙◌, ◌++◌, true, Bool-cases, none, some, [],
  ◌∷◌, Bytes, arith, length, length-drop, inl, inr, Option-cases,
}
use everyone_talk.Client.Talk.{begins, without, delete_loop, delete_func_key}

begins-length : (sub s : Bytes) → begins sub s ≡ true → length sub ≤ length s
unfolding begins
begins-length [] s h = omega arith
begins-length (c ∷ sub) [] h = cc
begins-length (c ∷ sub) (d ∷ s) h = ground (arith, begins-length sub s)

-- A round takes exactly the sequence out.
without-length :
    (sub s rest : Bytes) → without sub s ≡ some rest → length rest + length sub ≡ length s
unfolding without
without-length sub [] rest h = ground (arith, begins-length sub [])
without-length sub (c ∷ s) rest h = elim (Bool-cases (begins sub (c ∷ s))) [
  | inl b ↦ ground (arith, begins-length sub (c ∷ s) b, length-drop (length sub) (c ∷ s))
  | inr b ↦ elim (Option-cases (without sub s)) [
    | inl e ↦ ground arith
    | inr (later, e) ↦ ground (arith, without-length sub s later e)
  ]
]

delete_loop-none :
    (fuel : ℕ) (sub s : Bytes)
    → 0 < length sub
    → length s < fuel
    → without sub (delete_loop fuel sub s) ≡ none
unfolding delete_loop
delete_loop-none zero sub s h k = absurd (omega (arith, k))
delete_loop-none (suc fuel) sub s h k = elim (Option-cases (without sub s)) [
  | inl e ↦ rw (e, delete_loop) e
  | inr (rest, e) ↦
      rw (e, delete_loop)
        (delete_loop-none fuel sub rest h (omega (arith, without-length sub s rest e, k)))
]

begins-append : (sub b : Bytes) → begins sub (sub ++ b) ≡ true
unfolding begins
begins-append [] b = refl
begins-append (c ∷ sub) b = ground (arith, begins-append sub b)

without-begins : (sub s : Bytes) → begins sub s ≡ true → without sub s ≢ none
unfolding without
without-begins sub [] h = ground arith
without-begins sub (c ∷ s) h = ground arith

-- A search that finds nothing: the sequence is nowhere, with nothing or anything around it.
without-append : (a sub b : Bytes) → without sub (a ++ (sub ++ b)) ≢ none
unfolding without
without-append [] sub b = without-begins sub (sub ++ b) (begins-append sub b)
without-append (c ∷ a) sub b = elim (Option-cases (without sub (a ++ (sub ++ b)))) [
  | inl e ↦ absurd (without-append a sub b e)
  | inr (rest, e) ↦ ground arith
]

-- What is left of an input line does not hold the sequence, if that is not empty, at any place,
-- wherever the pieces that a round joins may have formed it anew.
pub delete_func_key_clean :
    (sub sendline : Bytes)
    → 0 < length sub
    → ¬ ((a : Bytes) × (b : Bytes) × (delete_func_key sub sendline ≡ a ++ (sub ++ b)))
unfolding delete_func_key
delete_func_key_clean sub sendline h (a, b, held) = without-append a sub b (
    ap (without sub) (sym held)
    ∙ delete_loop-none (suc (length sendline)) sub sendline h (omega arith))
