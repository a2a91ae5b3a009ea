-- ===== src/Gateway/Ranges/Agreement.antt =====
-- gateway/ack.go, gateway/resume.go and store/repository.go check ranges three times: the checks
-- agree, and describe ascending ranges that do not overlap.
use harness_platform_monorep.Prelude.{
  ℕ, suc, ◌≤◌, ◌<◌, ◌≡◌, refl, ap, ◌↔◌, ◌⊎◌, inl, inr, true, false, Option, none, some, List, [],
  ◌∷◌, map, arith, ◌==◌, if◌then◌else◌, Bool-cases, length,
}
use harness_platform_monorep.Gateway.Ranges.{
  SequenceRange, RangeError, Ranges, ok, err, ranges_invalid, ack_ranges_from, ack_ranges,
  resume_ranges_from, resume_ranges, valid_ranges_from, valid_replay_ranges, valid_ack_ranges,
}

-- Every range starts above the end of the one before it.
abbrev pub Ascends : ℕ → List SequenceRange → Type 0
Ascends previous [] = Unit
Ascends previous (r ∷ rs) = (previous < r.start) × (r.start ≤ r.end) × Ascends r.end rs

valid_ranges_from-Ascends :
    (p : ℕ) (rs : List SequenceRange) → valid_ranges_from p rs ≡ true → Ascends p rs
unfolding valid_ranges_from
valid_ranges_from-Ascends p [] h = tt
valid_ranges_from-Ascends p (r ∷ rs) h = ground (arith, valid_ranges_from-Ascends r.end rs)

Ascends-valid_ranges_from :
    (p : ℕ) (rs : List SequenceRange) → Ascends p rs → valid_ranges_from p rs ≡ true
unfolding valid_ranges_from
Ascends-valid_ranges_from p [] h = refl
Ascends-valid_ranges_from p (r ∷ rs) h = ground (arith, Ascends-valid_ranges_from r.end rs)

-- The store accepts exactly at most 32 ascending ranges above the highest contiguous number.
pub valid_replay_ranges_iff :
    (highest : ℕ) (rs : List SequenceRange)
    → (valid_replay_ranges highest rs ≡ true) ↔ (Ascends highest rs × (length rs ≤ 32))
unfolding valid_replay_ranges
valid_replay_ranges_iff highest rs = (
  λ h. ground (arith, valid_ranges_from-Ascends highest rs),
  λ h. ground (arith, Ascends-valid_ranges_from highest rs),
)

abbrev pub wire : List SequenceRange → List (Option SequenceRange)
wire = map some

length-wire : (rs : List SequenceRange) → length (wire rs) ≡ length rs
length-wire [] = refl
length-wire (r ∷ rs) = ap suc (length-wire rs)

ack_ranges_from-wire :
    (p : ℕ) (rs : List SequenceRange)
    → ack_ranges_from p (wire rs) ≡ (if valid_ranges_from p rs then ok rs else err ranges_invalid)
unfolding ack_ranges_from valid_ranges_from
ack_ranges_from-wire p [] = refl
ack_ranges_from-wire p (r ∷ rs) = ground (arith, ack_ranges_from-wire r.end rs)

resume_ranges_from-ack :
    (p : ℕ) (input : List (Option SequenceRange))
    → resume_ranges_from p input ≡ ack_ranges_from p input
unfolding ack_ranges_from resume_ranges_from
resume_ranges_from-ack p [] = refl
resume_ranges_from-ack p (none ∷ input) = refl
resume_ranges_from-ack p (some r ∷ input) = ground (arith, resume_ranges_from-ack r.end input)

-- The checks of an acknowledgement and of a resumption are one function.
pub resume_ranges-ack :
    (highest : ℕ) (input : List (Option SequenceRange))
    → resume_ranges highest input ≡ ack_ranges highest input
unfolding ack_ranges resume_ranges
resume_ranges-ack highest input = rw (resume_ranges_from-ack highest input)

Ranges-cases :
    (x : Ranges) → ((rs : List SequenceRange) × (x ≡ ok rs)) ⊎ ((e : RangeError) × (x ≡ err e))
Ranges-cases (ok rs) = inl (rs, refl)
Ranges-cases (err e) = inr (e, refl)

ack_ranges_from_sound :
    (p : ℕ) (input : List (Option SequenceRange)) (rs : List SequenceRange)
    → ack_ranges_from p input ≡ ok rs
    → (input ≡ wire rs) × (valid_ranges_from p rs ≡ true)
unfolding ack_ranges_from valid_ranges_from
ack_ranges_from_sound p [] rs h = ground arith
ack_ranges_from_sound p (none ∷ input) rs h = cc
ack_ranges_from_sound p (some r ∷ input) rs h = elim (Ranges-cases (ack_ranges_from r.end input)) [
  | inl (rs', e) ↦ ground (arith, ack_ranges_from_sound r.end input rs' e)
  | inr (x, e) ↦ ground arith
]

ack_ranges-valid :
    (highest : ℕ) (input : List (Option SequenceRange)) (rs : List SequenceRange)
    → ack_ranges highest input ≡ ok rs
    → (input ≡ wire rs) × (valid_replay_ranges highest rs ≡ true)
unfolding ack_ranges valid_replay_ranges
ack_ranges-valid highest input rs h =
    ground (arith, ack_ranges_from_sound highest input rs, length-wire rs)

valid-ack_ranges :
    (highest : ℕ) (rs : List SequenceRange)
    → valid_replay_ranges highest rs ≡ true
    → ack_ranges highest (wire rs) ≡ ok rs
unfolding ack_ranges valid_replay_ranges
valid-ack_ranges highest rs h = ground (arith, ack_ranges_from-wire highest rs, length-wire rs)

-- An empty acknowledgement, which the store's check of a cursor refuses.
abbrev pub IsEmptyAck : ℕ → List SequenceRange → Type 0
IsEmptyAck highest rs = (highest ≡ 0) × (rs ≡ []) × (valid_ack_ranges highest rs ≡ false)

valid_ack_ranges_cases :
    (highest : ℕ) (rs : List SequenceRange)
    → (valid_replay_ranges highest rs ≡ true)
      ↔ ((valid_ack_ranges highest rs ≡ true) ⊎ IsEmptyAck highest rs)
unfolding valid_replay_ranges valid_ack_ranges valid_ranges_from
valid_ack_ranges_cases highest [] = elim (Bool-cases (highest == 0)) [
  | inl e ↦ (λ h. inr (ground arith, refl, ground arith), λ h. refl)
  | inr e ↦ (λ h. inl (ground arith), λ h. refl)
]
valid_ack_ranges_cases highest (r ∷ rs) =
    (λ h. inl (ground arith), λ h. elim h [ inl e ↦ ground arith | inr (_, e, _) ↦ absurd (cc) ])

ack_ranges-replay :
    (highest : ℕ) (input : List (Option SequenceRange)) (rs : List SequenceRange)
    → (ack_ranges highest input ≡ ok rs)
      ↔ ((input ≡ wire rs) × (valid_replay_ranges highest rs ≡ true))
ack_ranges-replay highest input rs =
    (ack_ranges-valid highest input rs, λ h. rw (h.0) (valid-ack_ranges highest rs h.1))

-- The gateway's checks of ranges against the store's, for every list of ranges off the wire. The
-- check of an acknowledgement passes on exactly the ranges it was sent, and accepts what the
-- store's check of a cursor accepts and, beyond that, only the empty acknowledgement, nothing
-- contiguous and no range, which the store's check refuses. The check of a resumption passes on exactly what it was sent, and
-- accepts exactly what the store's check of a replay accepts: at most 32 ranges that ascend
-- strictly above the highest contiguous number and do not overlap.
pub ack_ranges_iff :
    (highest : ℕ) (input : List (Option SequenceRange)) (rs : List SequenceRange)
    → ((ack_ranges highest input ≡ ok rs)
        ↔ ((input ≡ wire rs) × ((valid_ack_ranges highest rs ≡ true) ⊎ IsEmptyAck highest rs)))
      × ((resume_ranges highest input ≡ ok rs)
          ↔ ((input ≡ wire rs) × (valid_replay_ranges highest rs ≡ true)))
      × ((valid_replay_ranges highest rs ≡ true) ↔ (Ascends highest rs × (length rs ≤ 32)))
ack_ranges_iff highest input rs =
    let (gives, takes) = ack_ranges-replay highest input rs in
    let (split, join) = valid_ack_ranges_cases highest rs in
    (
      (λ h. ((gives h).0, split (gives h).1), λ h. takes (h.0, join h.1)),
      rw (resume_ranges-ack highest input) (gives, takes),
      valid_replay_ranges_iff highest rs,
    )
