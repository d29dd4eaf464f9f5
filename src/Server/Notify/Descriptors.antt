-- ===== src/Server/Notify/Descriptors.antt =====
-- The descriptors that `deal_notify` of server/notify_client.cpp leaves open.
use everyone_talk.Prelude.{
  ℕ, Bool, not, ◌&&◌, suc, ◌+◌, ◌≡◌, ◌∙◌, none, some, List, [], ◌∷◌, Bytes, ◌⊎◌, inl, inr, length,
  arith, Bool-cases, Option-cases, ◌==◌, if◌then◌else◌,
}
use everyone_talk.Int.{ℤ, int_eq, int_eq_refl}
use everyone_talk.Common.{ok, fail}
use everyone_talk.Wire.Readline.{Line, got, ended, broken, pending, readline}
use everyone_talk.Wire.Writen.{Result, all, failed, waits}
use everyone_talk.Server.Notify.Call.{
  Dial, Wires, no_socket, client_connect, close, release, ret_size, take_reply, await_reply,
  deal_notify, deal_notifies,
}

-- A success closes the descriptor, and a failure does not.
abbrev Ends : ℤ → Wires → ℤ × Wires → Type 0
Ends fd w r =
    ((r.0 ≡ ok) × (r.1.opened ≡ close fd w.opened)) ⊎ ((r.0 ≡ fail) × (r.1.opened ≡ w.opened))

take_reply-Ends :
    (fd : ℤ) (line : Line) (w : Wires) {r : ℤ × Wires} → take_reply fd line w ≡ some r → Ends fd w r
unfolding take_reply
take_reply-Ends fd (got n text) w h = inl (cc h, cc h)
take_reply-Ends fd (ended n text) w h = elim (Bool-cases (n == 0)) [
  | inl e ↦ inr (ground (arith, e, h), ground (arith, e, h))
  | inr e ↦ inl (ground (arith, e, h), ground (arith, e, h))
]
take_reply-Ends fd (broken text) w h = inl (cc h, cc h)
take_reply-Ends fd (pending text) w h = cc h

await_reply-Ends :
    (dial : Dial) (result : Result) (w : Wires) {r : ℤ × Wires}
    → await_reply dial result w ≡ some r
    → Ends dial.sockfd w r
unfolding await_reply
await_reply-Ends dial all w h =
    take_reply-Ends dial.sockfd (readline ret_size dial.buf dial.reads).0 w h
await_reply-Ends dial failed w h = inr (cc h, cc h)
await_reply-Ends dial waits w h = cc h

-- What is opened is closed again, also if it is no socket.
pub close-client_connect :
    (dial : Dial) (w : Wires) → close dial.sockfd (client_connect dial w).opened ≡ w.opened
unfolding close client_connect release
close-client_connect dial w = elim (Bool-cases (int_eq dial.sockfd no_socket)) [
  | inl e ↦ rw (e, client_connect, close)
  | inr e ↦ rw (e, client_connect, close, int_eq_refl dial.sockfd)
]

-- Either `deal_notify` gives `OK` and the open descriptors are those from before, or it gives `FAIL` and
-- those that are open are the ones behind its `client_connect`.
pub deal_notify_cases :
    (notify : Bytes) (dial : Dial) (w w' : Wires) (ret : ℤ)
    → deal_notify notify dial w ≡ some (ret, w')
    → ((ret ≡ ok) × (w'.opened ≡ w.opened))
      ⊎ ((ret ≡ fail) × (w'.opened ≡ (client_connect dial w).opened))
unfolding deal_notify
deal_notify_cases notify dial w w' ret h = elim (await_reply-Ends dial _ _ h) [
  | inl (o, e) ↦ inl (o, e ∙ close-client_connect dial w)
  | inr e ↦ inr e
]

-- `deal_notify` failed, and behind a `socket` that gave a descriptor.
abbrev pub leaks : Dial → ℤ → Bool
leaks dial ret = int_eq ret fail && not (int_eq dial.sockfd no_socket)

-- How many of the calls fail that had a socket.
unfoldable pub failures : List (Bytes × Dial) → Wires → ℕ
failures [] w = 0
failures ((notify, dial) ∷ dials) w = elim (deal_notify notify dial w) [
  | none ↦ 0
  | some (ret, w') ↦ let rest = failures dials w' in if leaks dial ret then suc rest else rest
]

-- The number of descriptors that one call leaves open.
abbrev lost : Dial → ℤ → ℕ
lost dial ret = if leaks dial ret then 1 else 0

deal_notify-lost :
    (notify : Bytes) (dial : Dial) (w w' : Wires) (ret : ℤ)
    → deal_notify notify dial w ≡ some (ret, w')
    → length w'.opened ≡ length w.opened + lost dial ret
unfolding client_connect
deal_notify-lost notify dial w w' ret h = elim (deal_notify_cases notify dial w w' ret h) [
  | inl (o, e) ↦ rw (o, e) (omega arith)
  | inr (o, e) ↦ elim (Bool-cases (int_eq dial.sockfd no_socket)) [
    | inl lacking ↦ rw (o, e, lacking, client_connect) (omega arith)
    | inr some_fd ↦ rw (o, e, some_fd, client_connect) (omega arith)
  ]
]

-- Once the calls are through, as many more descriptors are open as calls failed whose `socket` had
-- given a descriptor.
pub failures_leak :
    (dials : List (Bytes × Dial)) (w w' : Wires)
    → deal_notifies dials w ≡ some w'
    → length w'.opened ≡ length w.opened + failures dials w
unfolding deal_notifies failures
failures_leak [] w w' h = ground (arith, h)
failures_leak ((notify, dial) ∷ dials) w w' h = elim (Option-cases (deal_notify notify dial w)) [
  | inl e ↦ let h' : none ≡ some w' = rw (deal_notifies, e) at h in cc h'
  | inr ((ret, w1), e) ↦
      let rest = failures_leak dials w1 w' (rw (deal_notifies, e) at h) in
      rw (failures, e) (ground (arith, rest, deal_notify-lost notify dial w w1 ret e))
]
