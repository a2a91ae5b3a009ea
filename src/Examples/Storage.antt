-- ===== src/Examples/Storage.antt =====
-- store/: the theorems on the tables, at the shared values.
use harness_platform_monorep.Prelude.{
  ◌≤◌, ◌<◌, ◌≡◌, refl, ◌⊎◌, inr, true, false, some, List, [], ◌∷◌, map, ◌==◌, length, All, text,
}
use mathlib.Core.List.{Memᴰ}
use harness_platform_monorep.Domain.Problem.{ErrorCode}
use harness_platform_monorep.Domain.Frame.{EncryptedFrame, FrameStatus, validate, mark_conflict}
use harness_platform_monorep.Domain.Credential.{WsTicket, TicketStatus}
use harness_platform_monorep.Gateway.Ranges.{
  in_ranges, valid_replay_ranges, valid_ranges_from, valid_ack_ranges,
}
use harness_platform_monorep.Store.Table.{ok, err, is_ok, find, update_where, affected, absent}
use harness_platform_monorep.Store.Tickets.{
  Binding, consume_ticket, consume_row, binding_matches, as_consumed,
}
use harness_platform_monorep.Store.Tickets.SingleUse.{
  create, consume, revoke, run as run_tickets, ticket_of, consume_once, consume_ticket_lem,
}
use harness_platform_monorep.Store.Frames.{put_frame, put_row, same_frame, duplicate, as_conflict}
use harness_platform_monorep.Store.Frames.Idempotent.{put_frame_again}
use harness_platform_monorep.Store.Frames.Slots.{Holds}
use harness_platform_monorep.Store.Frames.Kept.{run, first_frame_kept}
use harness_platform_monorep.Store.Frames.Acknowledged.{put_frame_acknowledged}
use harness_platform_monorep.Store.Acks.Due.{IsDue, replay_complete}
use harness_platform_monorep.Store.Acks.{
  AckTables, advance_ack, advance_ack_once, mark_acknowledged_frames, mark_ranges, Request,
  replay_endpoint_frames, order_by_sequence, insert_by_sequence,
}
use harness_platform_monorep.Store.Acks.Monotone
use harness_platform_monorep.Store.Acks.Marking.{acknowledged_by, mark_acknowledged_frames-map}
use harness_platform_monorep.Store.Acks.Monotone.{IsAtLeast, cursor_of, advance_ack_monotone}
use harness_platform_monorep.Store.Acks.Replay.{acknowledges, acknowledged_not_replayed, IsOrdered}
use harness_platform_monorep.Examples.Data.{ticket, frame, second_frame, fourth_frame, cursor}

abbrev binding : Binding
binding = record {
  endpoint_id = 2;
  credential_id = 5;
  purpose = text "control";
  origin = text "https";
  protocol = text "awp";
}

-- The tickets after a consumption and three more operations.
abbrev used : List WsTicket
used =
    run_tickets (revoke 2 ∷ consume 99 binding 41 ∷ create ticket 30 ∷ [])
      (consume_ticket 99 binding 40 (ticket ∷ [])).0

consume_once_example : is_ok (consume_ticket 99 binding 45 used).1 ≡ false
unfolding consume_ticket consume_row find affected
consume_once_example =
    consume_once 99 binding binding 40 45 (revoke 2 ∷ consume 99 binding 41 ∷ create ticket 30 ∷ [])
      (ticket ∷ []) refl

consume_ticket_lem_example :
    ((is_ok (consume_ticket 99 binding 70 (ticket ∷ [])).1 ≡ false)
      × ((consume_ticket 99 binding 70 (ticket ∷ [])).0 ≡ ticket ∷ []))
    ⊎ ((t : WsTicket) × (ticket_of 99 (ticket ∷ []) ≡ some t)
        × ((consume_ticket 99 binding 70 (ticket ∷ [])).1 ≡ ok (as_consumed 70 t t))
        × (t.status ≡ TicketStatus.issued)
        × (binding_matches binding t ≡ true)
        × (70 < t.expires_at))
consume_ticket_lem_example = consume_ticket_lem 99 binding 70 (ticket ∷ [])

abbrev frames : List EncryptedFrame
frames = frame ∷ fourth_frame ∷ second_frame ∷ []

abbrev ack_tables : AckTables
ack_tables = record { cursors = []; frames = frames }

abbrev all_frames : Request
all_frames = record {
  receiver_id = 2;
  channel_id = 22;
  key_generation = 1;
  direction = 2;
  highest = 0;
  ranges = [];
  limit = 10;
}

acknowledged_not_replayed_example : All (λ f. acknowledges cursor f ≡ false) (second_frame ∷ [])
unfolding advance_ack advance_ack_once mark_acknowledged_frames mark_ranges find update_where
    valid_ack_ranges valid_replay_ranges valid_ranges_from replay_endpoint_frames order_by_sequence
    insert_by_sequence in_ranges
acknowledged_not_replayed_example =
    acknowledged_not_replayed cursor ack_tables all_frames (second_frame ∷ []) refl tt refl

advance_ack_monotone_example : IsAtLeast 1 (
    cursor_of cursor (
      Monotone.run
        (record cursor { highest_contiguous_sequence = 0 } ∷ [])
        (advance_ack cursor ack_tables).0))
unfolding advance_ack advance_ack_once find valid_ack_ranges valid_ranges_from
advance_ack_monotone_example =
    advance_ack_monotone cursor (record cursor { highest_contiguous_sequence = 0 } ∷ []) ack_tables
      refl

mark_acknowledged_frames-map_example :
    mark_acknowledged_frames cursor frames ≡ map (acknowledged_by cursor) frames
mark_acknowledged_frames-map_example = mark_acknowledged_frames-map cursor frames

-- Two of the three frames are asked for, and the last is left out.
replay_complete_example :
    let q = record all_frames { limit = 2 } in
    let result = frame ∷ second_frame ∷ [] in
    All (IsDue q) result
    × IsOrdered result
    × All
        (λ f.
          (¬ IsDue q f)
          ⊎ Memᴰ f result
          ⊎ ((length result ≡ 2) × All (λ g. g.sequence ≤ f.sequence) result))
        frames
unfolding replay_endpoint_frames order_by_sequence insert_by_sequence valid_replay_ranges
    valid_ranges_from in_ranges
replay_complete_example =
    replay_complete (record all_frames { limit = 2 }) frames (frame ∷ second_frame ∷ []) refl

put_frame_again_example :
    put_frame second_frame 16 (put_frame second_frame 16 (frame ∷ [])).0
    ≡ ((put_frame second_frame 16 (frame ∷ [])).0, ok duplicate)
unfolding put_frame put_row validate absent
put_frame_again_example = put_frame_again second_frame 16 (frame ∷ []) refl

-- A frame at the place of `second_frame`, under an identifier of its own.
abbrev rival : EncryptedFrame
rival = record second_frame { message_id = 61; content_hash = 7 }

first_frame_kept_example :
    let rows =
      run 16 (fourth_frame ∷ rival ∷ []) (put_frame second_frame 16 (run 16 (frame ∷ []) [])).0 in
    Holds second_frame rows
    × (is_ok (put_frame rival 16 rows).1 ≡ false)
    × Holds second_frame (put_frame rival 16 rows).0
unfolding run put_frame put_row validate absent same_frame
first_frame_kept_example =
    first_frame_kept second_frame rival 16 (frame ∷ []) (fourth_frame ∷ rival ∷ []) refl
      (inr (refl, refl, refl, refl)) refl

abbrev delivered : EncryptedFrame
delivered = record frame { status = FrameStatus.receiver_acknowledged; acknowledged_at = some 40 }

abbrev forged : EncryptedFrame
forged = record frame { content_hash = 7 }

put_frame_acknowledged_example :
    let rows = second_frame ∷ delivered ∷ [] in
    ((put_frame forged 16 rows).1 ≡ err ErrorCode.conflict)
    × (find (λ r. r.message_id == 21) (put_frame forged 16 rows).0 ≡ some (as_conflict delivered))
    × (mark_conflict delivered ≡ (delivered, some ErrorCode.invalid_state))
unfolding same_frame validate find absent
put_frame_acknowledged_example =
    put_frame_acknowledged forged delivered 16 (second_frame ∷ delivered ∷ []) (refl, (refl, tt))
      refl refl (refl, refl, refl, refl) refl refl refl
