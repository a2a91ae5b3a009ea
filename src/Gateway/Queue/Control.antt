-- ===== src/Gateway/Queue/Control.antt =====
-- gateway/connection_directory.go: the sequence numbers of control messages, outbound
-- (`sendNextControl`, under its lock) and inbound (`acceptInboundControlSequence`).
use harness_platform_monorep.Prelude.{
  ℕ, ◌+◌, ◌-◌, ◌<◌, ◌≡◌, sym, ap, ◌∙◌, ◌≢◌, ◌⊎◌, inl, inr, Bool, true, false, Option, none, some,
  List, [], ◌∷◌, ◌++◌, map, arith, ◌==◌, if◌then◌else◌, u64_mod, u64_inc, ==_iff, Bool-cases,
  Option-cases,
}
use mathlib.Core.List.{append-nil, append_assoc}
use harness_platform_monorep.Gateway.Queue.Bounds.{enqueue_lem}
use harness_platform_monorep.Gateway.Queue.{
  Packet, Queue, SendError, backpressure, build_failed, enqueue,
}

pub record Control : Type 0 where
  pub queue : Queue
  pub control_sequence : ℕ

-- `sendNextControl` on the connection that it found. `build` makes the signed packet for a sequence
-- number, or fails.
unfoldable pub send_next_control : (ℕ → Option Packet) → Control → Control × Option SendError
send_next_control build c =
    if c.control_sequence == u64_mod - 1
    then (c, some backpressure)
    else (let sequence = c.control_sequence + 1 in
        elim (build sequence) [
          | none ↦ (c, some build_failed)
          | some packet ↦
              let (queue, error) = enqueue packet c.queue in
              elim error [
                | none ↦ (record { queue = queue; control_sequence = sequence }, none)
                | some e ↦ (record c { queue = queue }, some e)
              ]
        ])

-- `acceptInboundControlSequence`; the addition wraps around.
unfoldable pub accept_inbound : ℕ → ℕ → ℕ × Bool
accept_inbound sequence current =
    if sequence == u64_inc current then (sequence, true) else (current, false)

-- A sequence of sends, and the packets that were put into the queue by them.
unfoldable pub send_all : List (ℕ → Option Packet) → Control → Control
send_all [] c = c
send_all (build ∷ builds) c = send_all builds (send_next_control build c).0

-- A sequence of inbound numbers: those that are accepted, and the last one accepted.
unfoldable pub accept_all : List ℕ → ℕ → ℕ × List ℕ
accept_all [] current = (current, [])
accept_all (n ∷ ns) current =
    let (current', accepted) = accept_inbound n current in
    let (last, more) = accept_all ns current' in (last, if accepted then n ∷ more else more)

-- The numbers after a given one, one by one.
abbrev pub Follows : ℕ → List ℕ → Type 0
Follows n [] = Unit
Follows n (m ∷ ms) = (m ≡ u64_inc n) × Follows m ms

-- Whatever numbers arrive, those accepted are consecutive from the current one on: a control
-- message is never accepted twice, out of order, or after a gap.
pub accept_all-Follows : (ns : List ℕ) (current : ℕ) → Follows current (accept_all ns current).1
unfolding accept_all accept_inbound
accept_all-Follows [] current = tt
accept_all-Follows (n ∷ ns) current = elim (Bool-cases (n == u64_inc current)) [
  | inl e ↦ rw e ((==_iff n _).0 e, accept_all-Follows ns n)
  | inr e ↦ rw e (accept_all-Follows ns current)
]

-- What a send puts into the queue: a number and the packet built for it.
abbrev sent_now : (ℕ → Option Packet) → Control → Option SendError → Option (ℕ × Packet)
sent_now build c none = elim (build (c.control_sequence + 1)) [
  | none ↦ none
  | some packet ↦ some (c.control_sequence + 1, packet)
]
sent_now build c (some e) = none

abbrev log : Option (ℕ × Packet) → List (ℕ × Packet) → List (ℕ × Packet)
log none rest = rest
log (some entry) rest = entry ∷ rest

-- The numbers and packets that a sequence of sends puts into the queue, in order.
unfoldable pub sent : List (ℕ → Option Packet) → Control → List (ℕ × Packet)
sent [] c = []
sent (build ∷ builds) c =
    let (c', error) = send_next_control build c in log (sent_now build c error) (sent builds c')

abbrev pub numbers : List (ℕ × Packet) → List ℕ
numbers = map (λ e. e.0)

abbrev pub packets : List (ℕ × Packet) → List Packet
packets = map (λ e. e.1)

-- One send: an error changes nothing, a success appends and takes the next number.
send_next_control_cases :
    (build : ℕ → Option Packet) (c : Control)
    → ((sent_now build c (send_next_control build c).1 ≡ none)
        × ((send_next_control build c).0 ≡ c))
      ⊎ ((p : Packet) × (sent_now build c (send_next_control build c).1
            ≡ some (c.control_sequence + 1, p))
          × ((send_next_control build c).0.control_sequence ≡ c.control_sequence + 1)
          × ((send_next_control build c).0.queue.outbound ≡ c.queue.outbound ++ p ∷ [])
          × (c.control_sequence ≢ u64_mod - 1))
unfolding send_next_control
send_next_control_cases build c = elim (Option-cases (build (c.control_sequence + 1))) [
  | inl e ↦ inl (ground arith)
  | inr (p, e) ↦ elim (Bool-cases (c.control_sequence == u64_mod - 1)) [
    | inl full ↦ inl (ground arith)
    | inr room ↦ elim (Option-cases (enqueue p c.queue).1) [
      | inl ok ↦
          inr (p, ground arith, ground arith, ground (arith, enqueue_lem p c.queue), ground arith)
      | inr (x, bad) ↦ inl (ground (arith, enqueue_lem p c.queue))
    ]
  ]
]

-- Over any sequence of sends, from a number of 64 bits: the packets that are sent lie in the queue
-- in order, behind what was there, and their numbers are consecutive from the current one on. A
-- packet that fails uses no number.
pub send_all_lem :
    (builds : List (ℕ → Option Packet)) (c : Control)
    → c.control_sequence < u64_mod
    → Follows c.control_sequence (numbers (sent builds c))
      × ((send_all builds c).queue.outbound ≡ c.queue.outbound ++ packets (sent builds c))
unfolding send_all sent
send_all_lem [] c h = (tt, sym (append-nil c.queue.outbound))
send_all_lem (build ∷ builds) c h = elim (send_next_control_cases build c) [
  | inl (none_sent, same) ↦
      let ih = send_all_lem builds c h in
      (
        rw (none_sent, same) ih.0,
        rw none_sent (
            ap (λ d. (send_all builds d).queue.outbound) same
            ∙ ih.1
            ∙ ap (λ d. c.queue.outbound ++ packets (sent builds d)) (sym same)),
      )
  | inr (p, one, next, queued, room) ↦
      let c' = (send_next_control build c).0 in
      let ih = send_all_lem builds c' (omega arith) in
      (
        rw one (omega arith, rw next at ih.0),
        rw one (
            ih.1
            ∙ ap (λ ps. ps ++ packets (sent builds c')) queued
            ∙ append_assoc c.queue.outbound (p ∷ []) (packets (sent builds c'))),
      )
]
