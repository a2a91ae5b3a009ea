-- ===== src/Examples/Network.antt =====
-- gateway/ and dpop/: the theorems on connections, queues and replay, at concrete values.
use harness_platform_monorep.Prelude.{
  ℕ, suc, ◌≤◌, ◌≡◌, refl, ◌↔◌, ◌⊎◌, true, Option, none, some, List, [], ◌∷◌, ◌++◌, arith, length,
  replicate, text,
}
use harness_platform_monorep.Dpop.Replay.{
  MemoryReplayCache, replay, use_proof, use_locked, purge, exists,
}
use harness_platform_monorep.Dpop.Replay.Window
use harness_platform_monorep.Dpop.Replay.Window.{
  Proof, submit, IsBounded, run-IsBounded, replay_refused, key_of-injective,
}
use harness_platform_monorep.Gateway.Ranges.{
  SequenceRange, ok, ack_ranges, resume_ranges, valid_replay_ranges, valid_ack_ranges,
}
use harness_platform_monorep.Gateway.Ranges.Agreement.{Ascends, IsEmptyAck, wire, ack_ranges_iff}
use harness_platform_monorep.Gateway.FrameAad.{WireFrame, layout, frame_aad}
use harness_platform_monorep.Gateway.FrameAad.Binding.{IsWire, IsSameHeader, frame_aad-IsSameHeader}
use harness_platform_monorep.Gateway.Queue.{
  Packet, Queue, SendError, fenced, new_queue, reserve, Steps, here, next, reserving, sending,
  receiving,
}
use harness_platform_monorep.Gateway.Queue.Bounds
use harness_platform_monorep.Gateway.Queue.Bounds.{Steps-IsValid, new_queue-IsValid, enqueue_lem}
use harness_platform_monorep.Gateway.Queue.Control.{
  Control, send_all, Follows, sent, numbers, packets, send_all_lem,
}
use harness_platform_monorep.Gateway.Directory.{Connection, new_directory, activate, with_current}
use harness_platform_monorep.Gateway.Directory.Fencing.{activate_all, with_current_fenced}

abbrev proof : Proof
proof = record { jkt = text "key"; jti = text "one"; now = 10; expires_at = 50 }

abbrev other_proof : Proof
other_proof = record { jkt = text "key"; jti = text "two"; now = 20; expires_at = 60 }

abbrev again : Proof
again = record proof { now = 30; expires_at = 70 }

abbrev cache : MemoryReplayCache
cache = record { max_entries = 4; entries = [] }

replay_refused_example :
    (submit again (Window.run (other_proof ∷ []) (submit proof cache).0)).1 ≡ some replay
unfolding use_proof use_locked purge exists
replay_refused_example =
    replay_refused proof again (other_proof ∷ []) cache refl refl refl ((omega arith), tt)
      (omega arith) (omega arith) (omega arith)

abbrev ranges : List SequenceRange
ranges = record { start = 4; end = 5 } ∷ record { start = 8; end = 8 } ∷ []

ack_ranges_iff_example :
    let input = wire ranges in
    ((ack_ranges 2 input ≡ ok ranges)
      ↔ ((input ≡ wire ranges) × ((valid_ack_ranges 2 ranges ≡ true) ⊎ IsEmptyAck 2 ranges)))
    × ((resume_ranges 2 input ≡ ok ranges)
        ↔ ((input ≡ wire ranges) × (valid_replay_ranges 2 ranges ≡ true)))
    × ((valid_replay_ranges 2 ranges ≡ true) ↔ (Ascends 2 ranges × (length ranges ≤ 32)))
ack_ranges_iff_example = ack_ranges_iff 2 (wire ranges) ranges

-- A sender reserves and sends, and the writer takes the packet.
abbrev one_packet : Queue
one_packet = record new_queue { queued_bytes = 2; taken = (7 ∷ 8 ∷ []) ∷ [] }

one_packet-Steps : Steps new_queue one_packet
unfolding new_queue reserve
one_packet-Steps =
    next
      (next (next here (reserving (7 ∷ 8 ∷ []) refl refl))
        (sending [] [] (7 ∷ 8 ∷ []) refl (omega arith)))
      (receiving (7 ∷ 8 ∷ []) [] refl)

Steps-IsValid_example : Bounds.IsValid one_packet
Steps-IsValid_example = Steps-IsValid one_packet-Steps new_queue-IsValid

abbrev builds : List (ℕ → Option Packet)
builds = (λ n. some (n ∷ [])) ∷ (λ n. none) ∷ (λ n. some (n ∷ n ∷ [])) ∷ []

abbrev control : Control
control = record { queue = new_queue; control_sequence = 6 }

send_all_lem_example :
    Follows 6 (numbers (sent builds control))
    × ((send_all builds control).queue.outbound
        ≡ control.queue.outbound ++ packets (sent builds control))
send_all_lem_example = send_all_lem builds control (omega arith)

-- Handle n is the connection of endpoint 2 with generation n.
abbrev heap : ℕ → Connection
heap n = record { endpoint_id = 2; generation = n }

abbrev count : ℕ → ℕ × Option SendError
count n = (suc n, none)

with_current_fenced_example :
    with_current heap
      (some 3)
      count
      (activate_all heap (4 ∷ 6 ∷ []) (activate heap (some 5) new_directory).0)
      0
    ≡ (0, some fenced)
unfolding activate new_directory
with_current_fenced_example =
    with_current_fenced heap 5 3 (4 ∷ 6 ∷ []) count new_directory 0 refl refl (omega arith)

abbrev wire_frame : WireFrame
wire_frame = record {
  message_id = replicate 16 1;
  channel_id = replicate 16 2;
  session_id = replicate 16 3;
  sender_endpoint_id = replicate 16 4;
  receiver_endpoint_id = replicate 16 5;
  key_id = replicate 16 6;
  crypto_suite_id = 1;
  frame_type = 2;
  flags = 0;
  direction = 1;
  sequence = 258;
  key_generation = 3;
  created_at_ms = 1000;
  ciphertext = 7 ∷ 8 ∷ [];
}

-- Another ciphertext of the same length.
abbrev same_header : WireFrame
same_header = record wire_frame { ciphertext = 9 ∷ 9 ∷ [] }

wire_frame-IsWire : IsWire wire_frame
wire_frame-IsWire = record {
  flags = omega arith;
  sequence = omega arith;
  key_generation = omega arith;
  created_at_ms = omega arith;
}

same_header-IsWire : IsWire same_header
same_header-IsWire = record {
  flags = omega arith;
  sequence = omega arith;
  key_generation = omega arith;
  created_at_ms = omega arith;
}

abbrev wire_aad : List ℕ
wire_aad = layout wire_frame

frame_aad-IsSameHeader_example : IsSameHeader wire_frame same_header
unfolding frame_aad layout
frame_aad-IsSameHeader_example =
    frame_aad-IsSameHeader wire_frame same_header wire_aad wire_frame-IsWire same_header-IsWire refl
      refl
