-- ===== src/Store/Acks/Due.antt =====
-- store/repository.go: a replay against an independent description of the frames that are due.
use mathlib.Core.List.{Memᴰ}
use mathlib.Core.List.Memᴰ.{head, tail}
use harness_platform_monorep.Prelude.{
  ℕ, zero, suc, ◌≤◌, ◌<◌, ◌≡◌, refl, sym, ap, ◌∙◌, ◌⊎◌, inl, inr, Bool, true, false, ◌||◌, List, [],
  ◌∷◌, arith, leb, Bool-cases, length, take, keep, All,
}
use harness_platform_monorep.Store.Table.{ok}
use harness_platform_monorep.Domain.Frame.{EncryptedFrame, FrameStatus, is_status}
use harness_platform_monorep.Gateway.Ranges.{SequenceRange, in_ranges}
use harness_platform_monorep.Store.Acks.{
  Request, wanted, insert_by_sequence, order_by_sequence, replay_endpoint_frames,
}
use harness_platform_monorep.Store.Acks.Replay.{
  IsOrdered, order-IsOrdered, order-All, take-All, take-IsOrdered, keep-All, replay_result,
}

-- The frame is owed to the receiver: it is on the channel, generation and direction of the request,
-- waits to be acknowledged, and is neither below the contiguous part that was received nor in one
-- of the ranges beyond it.
pub record IsDue (q : Request) (f : EncryptedFrame) : Type 0 where
  pub receiver : f.receiver_endpoint_id ≡ q.receiver_id
  pub channel : f.channel_id ≡ q.channel_id
  pub generation : f.key_generation ≡ q.key_generation
  pub direction : f.direction ≡ q.direction
  pub waits : (f.status ≡ FrameStatus.stored) ⊎ (f.status ≡ FrameStatus.routed)
  pub above : q.highest < f.sequence
  pub unreceived : All (λ r. (f.sequence < r.start) ⊎ (r.end < f.sequence)) q.ranges

unreceived-in_ranges :
    (n : ℕ) (ranges : List SequenceRange)
    → All (λ r. (n < r.start) ⊎ (r.end < n)) ranges
    → in_ranges n ranges ≡ false
unfolding in_ranges
unreceived-in_ranges n [] h = refl
unreceived-in_ranges n (r ∷ ranges) h = elim (h.0) [
  | inl x ↦ ground (arith, unreceived-in_ranges n ranges h.1)
  | inr x ↦ ground (arith, unreceived-in_ranges n ranges h.1)
]

in_ranges-unreceived :
    (n : ℕ) (ranges : List SequenceRange)
    → in_ranges n ranges ≡ false
    → All (λ r. (n < r.start) ⊎ (r.end < n)) ranges
unfolding in_ranges
in_ranges-unreceived n [] h = tt
in_ranges-unreceived n (r ∷ ranges) h = elim (Bool-cases (leb r.start n)) [
  | inl x ↦ (inr (ground arith), in_ranges-unreceived n ranges (ground arith))
  | inr x ↦ (inl (ground arith), in_ranges-unreceived n ranges (ground arith))
]

waiting :
    (f : EncryptedFrame)
    → (is_status f.status FrameStatus.stored || is_status f.status FrameStatus.routed) ≡ true
    → (f.status ≡ FrameStatus.stored) ⊎ (f.status ≡ FrameStatus.routed)
waiting f h = ground arith

IsDue-wanted : (q : Request) (f : EncryptedFrame) → IsDue q f → wanted q f ≡ true
IsDue-wanted q f h =
    let out = unreceived-in_ranges f.sequence q.ranges h.unreceived in
    let receiver = h.receiver in
    let channel = h.channel in
    let generation = h.generation in
    let direction = h.direction in
    let above = h.above in elim (h.waits) [ inl x ↦ ground arith | inr x ↦ ground arith ]

wanted-IsDue : (q : Request) (f : EncryptedFrame) → wanted q f ≡ true → IsDue q f
wanted-IsDue q f h = record {
  receiver = ground arith;
  channel = ground arith;
  generation = ground arith;
  direction = ground arith;
  waits = waiting f (ground arith);
  above = ground arith;
  unreceived = in_ranges-unreceived f.sequence q.ranges (ground arith);
}

All-IsDue :
    (q : Request) (fs : List EncryptedFrame) → All (λ f. wanted q f ≡ true) fs → All (IsDue q) fs
All-IsDue q [] h = tt
All-IsDue q (f ∷ fs) h = (wanted-IsDue q f h.0, All-IsDue q fs h.1)

mem-keep :
    (p : EncryptedFrame → Bool) (f : EncryptedFrame) (fs : List EncryptedFrame)
    → p f ≡ true
    → Memᴰ f fs
    → Memᴰ f (keep p fs)
mem-keep p f [] h m = elim m [ ]
mem-keep p f (g ∷ fs) h (head e) = rw (sym (ap p e) ∙ h) (head e)
mem-keep p f (g ∷ fs) h (tail m) = elim (Bool-cases (p g)) [
  | inl x ↦ rw x (tail (mem-keep p f fs h m))
  | inr x ↦ rw x (mem-keep p f fs h m)
]

mem-insert :
    (f g : EncryptedFrame) (fs : List EncryptedFrame)
    → (f ≡ g) ⊎ Memᴰ f fs
    → Memᴰ f (insert_by_sequence g fs)
unfolding insert_by_sequence
mem-insert f g [] (inl e) = head e
mem-insert f g [] (inr m) = elim m [ ]
mem-insert f g (k ∷ fs) (inl e) = elim (Bool-cases (leb g.sequence k.sequence)) [
  | inl x ↦ rw x (head e)
  | inr x ↦ rw x (tail (mem-insert f g fs (inl e)))
]
mem-insert f g (k ∷ fs) (inr (head e)) = elim (Bool-cases (leb g.sequence k.sequence)) [
  | inl x ↦ rw x (tail (head e))
  | inr x ↦ rw x (head e)
]
mem-insert f g (k ∷ fs) (inr (tail m)) = elim (Bool-cases (leb g.sequence k.sequence)) [
  | inl x ↦ rw x (tail (tail m))
  | inr x ↦ rw x (tail (mem-insert f g fs (inr m)))
]

mem-order :
    (f : EncryptedFrame) (fs : List EncryptedFrame) → Memᴰ f fs → Memᴰ f (order_by_sequence fs)
unfolding order_by_sequence
mem-order f [] m = elim m [ ]
mem-order f (g ∷ fs) (head e) = mem-insert f g (order_by_sequence fs) (inl e)
mem-order f (g ∷ fs) (tail m) = mem-insert f g (order_by_sequence fs) (inr (mem-order f fs m))

-- The first of an ordered list is at most every other.
first_least :
    (f g : EncryptedFrame) (fs : List EncryptedFrame)
    → IsOrdered (g ∷ fs)
    → Memᴰ f fs
    → g.sequence ≤ f.sequence
first_least f g [] h m = elim m [ ]
first_least f g (k ∷ fs) h (head e) = rw e (h.0)
first_least f g (k ∷ fs) h (tail m) = omega (arith, h.0, first_least f k fs h.1 m)

tail-IsOrdered : (g : EncryptedFrame) (fs : List EncryptedFrame) → IsOrdered (g ∷ fs) → IsOrdered fs
tail-IsOrdered g [] h = tt
tail-IsOrdered g (k ∷ fs) h = h.1

-- A bounded prefix of an ordered list: it has the frame, or is full of frames that come no later.
mem-take :
    (n : ℕ) (f : EncryptedFrame) (fs : List EncryptedFrame)
    → IsOrdered fs
    → Memᴰ f fs
    → Memᴰ f (take n fs)
      ⊎ ((length (take n fs) ≡ n) × All (λ g. g.sequence ≤ f.sequence) (take n fs))
mem-take zero f [] h m = elim m [ ]
mem-take (suc n) f [] h m = elim m [ ]
mem-take zero f (g ∷ fs) h m = inr (refl, tt)
mem-take (suc n) f (g ∷ fs) h (head e) = inl (head e)
mem-take (suc n) f (g ∷ fs) h (tail m) = elim (mem-take n f fs (tail-IsOrdered g fs h) m) [
  | inl found ↦ inl (tail found)
  | inr (full, before) ↦ inr (ap suc full, (first_least f g fs h m, before))
]

All-mem {ℓ} :
    (P : EncryptedFrame → Type ℓ) (fs : List EncryptedFrame)
    → ((f : EncryptedFrame) → Memᴰ f fs → P f)
    → All P fs
All-mem P [] h = tt
All-mem P (f ∷ fs) h = (h f (head refl), All-mem P fs (λ g m. h g (tail m)))

-- A replay that is answered returns only frames that are due, in the order of their sequence
-- numbers, and leaves none out: each frame that is stored is not due, or is returned, or the answer
-- has as many frames as the request allows and none of them comes after it.
pub replay_complete :
    (q : Request) (frames result : List EncryptedFrame)
    → replay_endpoint_frames q frames ≡ ok result
    → All (IsDue q) result
      × IsOrdered result
      × All
          (λ f.
            (¬ IsDue q f)
            ⊎ Memᴰ f result
            ⊎ ((length result ≡ q.limit) × All (λ g. g.sequence ≤ f.sequence) result))
          frames
replay_complete q frames result h =
    let due_frames = keep (wanted q) frames in
    let sorted = order_by_sequence due_frames in
    let ordered = order-IsOrdered due_frames in
    rw (replay_result q frames result h) (
      All-IsDue q (take q.limit sorted)
          (take-All _ q.limit sorted (order-All _ due_frames (keep-All (wanted q) frames))),
      take-IsOrdered q.limit sorted ordered,
      All-mem _ frames (λ f stored. elim (Bool-cases (wanted q f)) [
        | inr e ↦ inl (λ due. absurd (ground (arith, IsDue-wanted q f due, e)))
        | inl e ↦ inr (
            mem-take q.limit f sorted ordered
              (mem-order f due_frames (mem-keep (wanted q) f frames e stored)))
      ]),
    )
