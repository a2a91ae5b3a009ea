-- ===== src/Store/Acks/Replay.antt =====
-- store/repository.go: what a replay returns, and that acknowledged frames are not replayed.
use harness_platform_monorep.Prelude.{
  ℕ, zero, suc, ◌≤◌, ◌≡◌, inl, inr, Bool, true, false, ◌&&◌, List, [], ◌∷◌, map, arith, leb, ◌==◌,
  leb→le, Bool-cases, length, take, length-take-le, keep, All,
}
use harness_platform_monorep.Domain.Credential.{AckCursor}
use harness_platform_monorep.Domain.Frame.{EncryptedFrame}
use harness_platform_monorep.Gateway.Ranges.{covered}
use harness_platform_monorep.Store.Table.{ok, is_ok}
use harness_platform_monorep.Store.Acks.{
  AckTables, Request, wanted, insert_by_sequence, order_by_sequence, replay_endpoint_frames,
  advance_ack,
}
use harness_platform_monorep.Store.Acks.Marking.{acknowledged_by}
use harness_platform_monorep.Store.Acks.Monotone.{advance_ack-frames, IsAtMost, cursor_of}

-- Ascending sequence numbers.
abbrev pub IsOrdered : List EncryptedFrame → Type 0
IsOrdered [] = Unit
IsOrdered (f ∷ []) = Unit
IsOrdered (f ∷ g ∷ gs) = (f.sequence ≤ g.sequence) × IsOrdered (g ∷ gs)

insert-IsOrdered :
    (f : EncryptedFrame) (gs : List EncryptedFrame)
    → IsOrdered gs
    → IsOrdered (insert_by_sequence f gs)
unfolding insert_by_sequence
insert-IsOrdered f [] h = tt
insert-IsOrdered f (g ∷ []) h = ground arith
insert-IsOrdered f (g ∷ k ∷ gs) h = elim (Bool-cases (leb f.sequence g.sequence)) [
  | inl e ↦ rw e (leb→le _ _ e, h)
  | inr e ↦ rw e (elim (Bool-cases (leb f.sequence k.sequence)) [
    | inl d ↦ rw d (ground arith, (leb→le _ _ d, h.1))
    | inr d ↦ rw d (h.0, rw (d, insert_by_sequence) at (insert-IsOrdered f (k ∷ gs) h.1))
  ])
]

pub order-IsOrdered : (fs : List EncryptedFrame) → IsOrdered (order_by_sequence fs)
unfolding order_by_sequence
order-IsOrdered [] = tt
order-IsOrdered (f ∷ fs) = insert-IsOrdered f (order_by_sequence fs) (order-IsOrdered fs)

pub insert-All {ℓ} :
    (P : EncryptedFrame → Type ℓ) (f : EncryptedFrame) (gs : List EncryptedFrame)
    → P f
    → All P gs
    → All P (insert_by_sequence f gs)
unfolding insert_by_sequence
insert-All P f [] p a = (p, tt)
insert-All P f (g ∷ gs) p a = elim (Bool-cases (leb f.sequence g.sequence)) [
  | inl e ↦ rw e (p, a)
  | inr e ↦ rw e (a.0, insert-All P f gs p a.1)
]

pub order-All {ℓ} :
    (P : EncryptedFrame → Type ℓ) (fs : List EncryptedFrame)
    → All P fs
    → All P (order_by_sequence fs)
unfolding order_by_sequence
order-All P [] a = tt
order-All P (f ∷ fs) a = insert-All P f (order_by_sequence fs) a.0 (order-All P fs a.1)

pub take-All {ℓ} :
    (P : EncryptedFrame → Type ℓ) (n : ℕ) (fs : List EncryptedFrame) → All P fs → All P (take n fs)
take-All P zero fs a = tt
take-All P (suc n) [] a = tt
take-All P (suc n) (f ∷ fs) a = (a.0, take-All P n fs a.1)

pub take-IsOrdered : (n : ℕ) (fs : List EncryptedFrame) → IsOrdered fs → IsOrdered (take n fs)
take-IsOrdered zero fs h = tt
take-IsOrdered (suc n) [] h = tt
take-IsOrdered (suc zero) (f ∷ fs) h = tt
take-IsOrdered (suc (suc n)) (f ∷ []) h = tt
take-IsOrdered (suc (suc n)) (f ∷ g ∷ fs) h = (h.0, take-IsOrdered (suc n) (g ∷ fs) h.1)

pub keep-All :
    (p : EncryptedFrame → Bool) (fs : List EncryptedFrame) → All (λ f. p f ≡ true) (keep p fs)
keep-All p [] = tt
keep-All p (f ∷ fs) = elim (Bool-cases (p f)) [
  | inl e ↦ rw e (e, keep-All p fs)
  | inr e ↦ rw e (keep-All p fs)
]

pub replay_result :
    (q : Request) (frames result : List EncryptedFrame)
    → replay_endpoint_frames q frames ≡ ok result
    → result ≡ take q.limit (order_by_sequence (keep (wanted q) frames))
unfolding replay_endpoint_frames
replay_result q frames result h = ground arith

-- A replay that is answered holds at most the requested number of frames, in the order of their
-- sequence numbers, and each of them meets every condition of the request: its receiver, channel,
-- generation and direction, not yet acknowledged, and beyond what the request says was received.
pub replay_lem :
    (q : Request) (frames result : List EncryptedFrame)
    → replay_endpoint_frames q frames ≡ ok result
    → (length result ≤ q.limit) × IsOrdered result × All (λ f. wanted q f ≡ true) result
replay_lem q frames result h =
    let all = keep (wanted q) frames in
    rw (replay_result q frames result h) (
      length-take-le q.limit (order_by_sequence all),
      take-IsOrdered q.limit (order_by_sequence all) (order-IsOrdered all),
      take-All (λ f. wanted q f ≡ true) q.limit (order_by_sequence all)
          (order-All (λ f. wanted q f ≡ true) all (keep-All (wanted q) frames)),
    )

-- The cursor acknowledges the frame, whatever its status: it has the cursor's key, and the cursor
-- covers its sequence number.
abbrev pub acknowledges : AckCursor → EncryptedFrame → Bool
acknowledges c f =
    f.session_id == c.session_id
    && f.key_generation == c.key_generation
    && f.direction == c.direction
    && f.sender_endpoint_id == c.sender_endpoint_id
    && f.receiver_endpoint_id == c.receiver_endpoint_id
    && covered f.sequence c.highest_contiguous_sequence c.received_ranges

wanted-acknowledged :
    (q : Request) (c : AckCursor) (f : EncryptedFrame)
    → wanted q (acknowledged_by c f) ≡ true
    → acknowledges c (acknowledged_by c f) ≡ false
wanted-acknowledged q c f h = ground arith

keep-acknowledged :
    (q : Request) (c : AckCursor) (frames : List EncryptedFrame)
    → All (λ f. acknowledges c f ≡ false) (keep (wanted q) (map (acknowledged_by c) frames))
keep-acknowledged q c [] = tt
keep-acknowledged q c (f ∷ fs) = elim (Bool-cases (wanted q (acknowledged_by c f))) [
  | inl e ↦ rw e (wanted-acknowledged q c f e, keep-acknowledged q c fs)
  | inr e ↦ rw e (keep-acknowledged q c fs)
]

-- What was acknowledged is not sent again: after an `AdvanceAck` that is accepted and not behind
-- the stored cursor, no replay, whatever it asks for, returns a frame of the cursor's session,
-- generation, direction and endpoints whose sequence number the cursor covers.
pub acknowledged_not_replayed :
    (c : AckCursor) (t : AckTables) (q : Request) (result : List EncryptedFrame)
    → is_ok (advance_ack c t).1 ≡ true
    → IsAtMost c.highest_contiguous_sequence (cursor_of c t)
    → replay_endpoint_frames q (advance_ack c t).0.frames ≡ ok result
    → All (λ f. acknowledges c f ≡ false) result
acknowledged_not_replayed c t q result accepted ahead h =
    let left = keep (wanted q) (map (acknowledged_by c) t.frames) in
    rw (replay_result q (advance_ack c t).0.frames result h, advance_ack-frames c t accepted ahead)
      (take-All (λ f. acknowledges c f ≡ false) q.limit (order_by_sequence left)
        (order-All (λ f. acknowledges c f ≡ false) left (keep-acknowledged q c t.frames)))
