-- ===== src/Gateway/Queue/Bounds.antt =====
-- gateway/connection_directory.go: the counter of queued bytes is exact, and the queue is bounded,
-- under every interleaving of the senders and the writer.
use harness_platform_monorep.Prelude.{
  ◌+◌, ◌≤◌, ◌<◌, ◌≡◌, ap, ◌≢◌, ◌⊎◌, none, List, [], ◌∷◌, ◌++◌, arith, length, length-append,
}
use harness_platform_monorep.Gateway.Queue.{
  Packet, Queue, max_connection_queue_bytes, max_inflight_frames, max_wire_packet_bytes, new_queue,
  total, reserve, enqueue, close, Step, reserving, sending, giving_up, receiving, subtracting,
  closing, Steps, here, next,
}

pub total-append : (ps qs : List Packet) → total (ps ++ qs) ≡ total ps + total qs
unfolding total
total-append [] qs = omega arith
total-append (p ∷ ps) qs = omega (arith, total-append ps qs)

total-insert :
    (before after : List Packet) (p : Packet)
    → total (before ++ p ∷ after) ≡ length p + total (before ++ after)
unfolding total
total-insert [] after p = omega arith
total-insert (q ∷ before) after p = omega (arith, total-insert before after p)

total-snoc : (ps : List Packet) (p : Packet) → total (ps ++ p ∷ []) ≡ total ps + length p
unfolding total
total-snoc [] p = omega arith
total-snoc (q ∷ ps) p = omega (arith, total-snoc ps p)

-- The counter is the sum of what waits in the channel, what senders hold and what the writer holds;
-- it is within the limit, and so is the number of packets that wait.
pub record IsValid (q : Queue) : Type 0 where
  pub exact : q.queued_bytes ≡ total q.outbound + total q.reserved + total q.taken
  pub bytes : q.queued_bytes ≤ max_connection_queue_bytes
  pub packets : length q.outbound ≤ max_inflight_frames

Step-IsValid : {q r : Queue} → Step q r → IsValid q → IsValid r
unfolding reserve total close
Step-IsValid {q} (reserving p s e) v = ground arith
Step-IsValid {q} (sending before after p e room) v = record {
  exact = omega (arith, v, total-insert before after p, total-snoc q.outbound p, ap total e);
  bytes = v.bytes;
  packets = omega (arith, length-append {0} q.outbound (p ∷ []), room);
}
Step-IsValid {q} (giving_up before after p e) v = record {
  exact = omega (arith, v, total-insert before after p, ap total e);
  bytes = omega (arith, v);
  packets = v.packets;
}
Step-IsValid {q} (receiving p rest e) v = record {
  exact = omega (arith, v, ap total e);
  bytes = v.bytes;
  packets = omega (arith, v, ap (λ (ps : List Packet). length ps) e);
}
Step-IsValid {q} (subtracting p rest e) v = record {
  exact = omega (arith, v, ap total e);
  bytes = omega (arith, v);
  packets = v.packets;
}
Step-IsValid closing v = record { exact = v.exact; bytes = v.bytes; packets = v.packets }

-- From a queue in which this holds, and however many senders, the writer and a close are
-- interleaved, step by step: the byte counter always equals the bytes that wait or are in hand, and
-- neither it nor the number of waiting packets passes its limit.
pub Steps-IsValid : {q r : Queue} → Steps q r → IsValid q → IsValid r
Steps-IsValid here v = v
Steps-IsValid (next steps step) v = Step-IsValid step (Steps-IsValid steps v)

pub new_queue-IsValid : IsValid new_queue
unfolding new_queue total
new_queue-IsValid = omega arith

-- A packet that `enqueue` accepts is behind all that waited, and the counter grows by its length;
-- an error changes nothing.
pub enqueue_lem :
    (p : Packet) (q : Queue)
    → (((enqueue p q).1 ≡ none)
        × ((enqueue p q).0.outbound ≡ q.outbound ++ p ∷ [])
        × ((enqueue p q).0.queued_bytes ≡ q.queued_bytes + length p)
        × (0 < length p)
        × (length p ≤ max_wire_packet_bytes))
      ⊎ (((enqueue p q).1 ≢ none) × ((enqueue p q).0 ≡ q))
unfolding enqueue
enqueue_lem p q = ground arith

pub enqueue-IsValid : (p : Packet) (q : Queue) → IsValid q → IsValid (enqueue p q).0
unfolding enqueue total
enqueue-IsValid p q v =
    ground (arith, total-snoc q.outbound p, length-append {0} q.outbound (p ∷ []))
