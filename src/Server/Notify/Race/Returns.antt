-- ===== src/Server/Notify/Race/Returns.antt =====
-- `notify_client` of server/server.cpp comes back to its wait, unless a handler posts in between.
use everyone_talk.Prelude.{ℕ, zero, suc, ◌≡◌, false, ◌⊎◌}
use everyone_talk.Server.Notify.Race.{
  Pc, Slot, ThreadStep, waiting, unlocked, state_case, looping, message_case, addressed,
}

-- The thread waits with the flag clear, or it can move and every move leads to where it comes back
-- from, in finitely many moves.
pub data Returns : Slot → Type 0 where
  home : {s : Slot} → s.pc ≡ waiting → s.flag ≡ false → Returns s
  onward : {s t : Slot} → ThreadStep s t → ((u : Slot) → ThreadStep s u → Returns u) → Returns s

-- Where a move from a place leads.
abbrev After : Slot → Pc → Slot → Type 0
After s waiting u = (u.pc ≡ unlocked) × (u.flag ≡ false)
After s unlocked u =
    (u.flag ≡ s.flag) × ((u.pc ≡ state_case) ⊎ ((u.pc ≡ message_case) ⊎ (u.pc ≡ waiting)))
After s state_case u = (u.flag ≡ s.flag) × (found : ℕ) × (u.pc ≡ looping s.change_name found)
After s (looping name zero) u = (u.flag ≡ s.flag) × (u.pc ≡ waiting)
After s (looping name (suc left)) u = (u.flag ≡ s.flag) × (u.pc ≡ looping name left)
After s message_case u = (u.flag ≡ s.flag) × (u.pc ≡ addressed s.msg_name)
After s (addressed name) u = (u.flag ≡ s.flag) × (u.pc ≡ waiting)
