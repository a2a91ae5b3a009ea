-- ===== src/Gateway/Queue.antt =====
-- gateway/connection_directory.go: the send queue of one connection. `outbound` is the buffered
-- channel, `closed` says that `done` is closed. Beside the fields of `activeConnection` the state
-- holds what the goroutines have in hand: packets whose bytes a sender has added to `queuedBytes`
-- and not yet put into the channel (`reserved`), and packets that the writer has received and whose
-- bytes it has not yet subtracted (`taken`).
pub mod Bounds
pub mod Control
use harness_platform_monorep.Prelude.{
  ℕ, zero, suc, ◌+◌, ◌-◌, ◌*◌, ◌/◌, ◌%◌, ◌^◌, ◌≤◌, ◌<◌, ◌≡◌, refl, sym, ap, ◌∙◌, ◌≢◌, ◌↔◌, ◌⊎◌, inl,
  inr, Bool, true, false, not, ◌&&◌, ◌||◌, Option, none, some, List, [], ◌∷◌, ◌++◌, map, arith, ltb,
  leb, ◌==◌, if◌then◌else◌, u64_mod, u64_inc, ltb→lt, lt→ltb, leb→le, ==_iff, Bool-cases,
  Option-cases, is_some, is_none, length, take, drop, replicate, length-append, length-take-le,
  keep, any, all, All, All-append, Text, text, text_eq, text_eq_refl, text_eq→eq, is_empty,
  byte_len, trim_space,
}

abbrev pub Packet : Type 0
Packet = List ℕ

abbrev pub max_connection_queue_bytes : ℕ
max_connection_queue_bytes = 8388608

abbrev pub max_wire_packet_bytes : ℕ
max_wire_packet_bytes = 1048576

abbrev pub max_inflight_frames : ℕ
max_inflight_frames = 128

pub data SendError : Type 0 where
  offline backpressure fenced build_failed : SendError

pub record Queue : Type 0 where
  pub queued_bytes : ℕ
  pub outbound : List Packet
  pub closed : Bool
  pub reserved : List Packet
  pub taken : List Packet

-- `newActiveConnection`, as far as the queue goes.
unfoldable pub new_queue : Queue
new_queue = record { queued_bytes = 0; outbound = []; closed = false; reserved = []; taken = [] }

-- The first test of `enqueue`.
abbrev pub sendable : Packet → Bool
sendable packet = not (length packet == 0 || ltb max_wire_packet_bytes (length packet))

-- The bytes of some packets.
unfoldable pub total : List Packet → ℕ
total [] = 0
total (p ∷ ps) = length p + total ps

-- The compare-and-swap loop of `enqueue`: a failed swap reads the counter again, so the loop ends
-- with one atomic test and addition.
unfoldable pub reserve : Packet → Queue → Option Queue
reserve packet q =
    if ltb max_connection_queue_bytes (q.queued_bytes + length packet)
    then none
    else some
        (record q { queued_bytes = q.queued_bytes + length packet; reserved = packet ∷ q.reserved })

-- `enqueue`, run without another goroutine in between. `queuedBytes.Add(-length)` takes back what
-- was just added.
unfoldable pub enqueue : Packet → Queue → Queue × Option SendError
enqueue packet q =
    if not (sendable packet)
    then (q, some backpressure)
    else if q.closed
    then (q, some offline)
    else if ltb max_connection_queue_bytes (q.queued_bytes + length packet)
    then (q, some backpressure)
    else if ltb (length q.outbound) max_inflight_frames
    then (
      record q {
        queued_bytes = q.queued_bytes + length packet;
        outbound = q.outbound ++ packet ∷ [];
      },
      none,
    )
    else (q, some backpressure)

-- The first case of the writer's `select`: the packet at the head of the channel, and its bytes
-- off the counter.
unfoldable pub dequeue : Queue → Queue × Option Packet
dequeue q = elim q.outbound [
  | [] ↦ (q, none)
  | p ∷ ps ↦ (record q { outbound = ps; queued_bytes = q.queued_bytes - length p }, some p)
]

-- `close`: once, and for all.
unfoldable pub close : Queue → Queue
close q = record q { closed = true }

-- The atomic steps of the senders, the writer and whoever closes the connection, in any order. A
-- sender that finds room in the channel may use it also when `done` is closed meanwhile, since
-- `select` chooses among the cases that are ready.
pub data Step (q : Queue) : Queue → Type 0 where
  -- a sender passes the tests and the swap
  reserving :
      (packet : Packet) {q' : Queue}
      → sendable packet ≡ true
      → reserve packet q ≡ some q'
      → Step q q'
  -- a sender's `case connection.outbound <- copyOfPacket`
  sending :
      (before after : List Packet) (packet : Packet)
      → q.reserved ≡ before ++ packet ∷ after
      → length q.outbound < max_inflight_frames
      → Step q (record q { reserved = before ++ after; outbound = q.outbound ++ packet ∷ [] })
  -- a sender's other cases: the bytes are subtracted again
  giving_up :
      (before after : List Packet) (packet : Packet)
      → q.reserved ≡ before ++ packet ∷ after
      → Step q
          (record q { reserved = before ++ after; queued_bytes = q.queued_bytes - length packet })
  -- the writer's `case packet := <-connection.outbound`
  receiving :
      (packet : Packet) (rest : List Packet)
      → q.outbound ≡ packet ∷ rest
      → Step q (record q { outbound = rest; taken = packet ∷ q.taken })
  -- the writer's `queuedBytes.Add(-int64(len(packet)))`
  subtracting :
      (packet : Packet) (rest : List Packet)
      → q.taken ≡ packet ∷ rest
      → Step q (record q { taken = rest; queued_bytes = q.queued_bytes - length packet })
  closing : Step q (close q)

pub data Steps (q : Queue) : Queue → Type 0 where
  here : Steps q q
  next : {r s : Queue} → Steps q r → Step r s → Steps q s
