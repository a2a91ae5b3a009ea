-- ===== src/Store/Frames/Slots.antt =====
-- store/repository.go: lemmas on the rows whose keys a frame meets.
use mathlib.Core.List.{Memᴰ}
use mathlib.Core.List.Memᴰ.{head, tail}
use mathlib.Core.Path.{subst}
use harness_platform_monorep.Prelude.{
  ℕ, ◌≡◌, refl, sym, ap, ◌∙◌, ◌⊎◌, inl, inr, Bool, true, false, Option, none, some, List, [], ◌∷◌,
  arith, ltb, ◌==◌, if◌then◌else◌, Bool-cases, Option-cases, Text, text_eq, text_eq→eq,
}
use harness_platform_monorep.Domain.Problem.{ErrorCode}
use harness_platform_monorep.Domain.Frame.{EncryptedFrame}
use harness_platform_monorep.Store.Table.{ok, err, is_ok, find, update_where, absent}
use harness_platform_monorep.Store.Frames.{
  stored, duplicate, same_frame, clashes, smaller, first_by_key, as_conflict, put_row, put_frame,
}
use harness_platform_monorep.Store.Frames.Idempotent.{IsUnique, put_frame_cases, same_frame_refl}

-- The two frames claim one message identifier, or one place in a sender's sequence.
abbrev pub IsRival : EncryptedFrame → EncryptedFrame → Type 0
IsRival f g =
    (f.message_id ≡ g.message_id)
    ⊎ ((f.session_id ≡ g.session_id)
        × (f.key_generation ≡ g.key_generation)
        × (f.sender_endpoint_id ≡ g.sender_endpoint_id)
        × (f.sequence ≡ g.sequence))

-- A row that holds the frame, in whatever status.
pub record Holds (f : EncryptedFrame) (rows : List EncryptedFrame) : Type 0 where
  pub row : EncryptedFrame
  pub member : Memᴰ row rows
  pub same : same_frame row f ≡ true

pub mem-absent :
    (p : EncryptedFrame → Bool) (x : EncryptedFrame) (rows : List EncryptedFrame)
    → Memᴰ x rows
    → absent p rows ≡ true
    → p x ≡ false
unfolding absent
mem-absent p x [] m h = elim m [ ]
mem-absent p x (y ∷ rows) (head e) h = rw e (ground arith)
mem-absent p x (y ∷ rows) (tail m) h = mem-absent p x rows m (ground arith)

pub mem-find :
    (p : EncryptedFrame → Bool) (x : EncryptedFrame) (rows : List EncryptedFrame)
    → find p rows ≡ some x
    → Memᴰ x rows
unfolding find
mem-find p x [] h = absurd (cc)
mem-find p x (y ∷ rows) h = elim (Bool-cases (p y)) [
  | inl e ↦ head (ground arith)
  | inr e ↦ tail (mem-find p x rows (ground arith))
]

pub smaller-cases :
    (f : EncryptedFrame) (o : Option EncryptedFrame) → (smaller f o ≡ f) ⊎ (some (smaller f o) ≡ o)
smaller-cases f none = inl refl
smaller-cases f (some g) = elim (Bool-cases (ltb g.message_id f.message_id)) [
  | inl e ↦ inr (rw e refl)
  | inr e ↦ inl (rw e refl)
]

-- What `First` answers is a row that meets the condition.
pub first_by_key-holds :
    (p : EncryptedFrame → Bool) (x : EncryptedFrame) (rows : List EncryptedFrame)
    → first_by_key p rows ≡ some x
    → Memᴰ x rows × (p x ≡ true)
unfolding first_by_key
first_by_key-holds p x [] h = absurd (cc)
first_by_key-holds p x (y ∷ rows) h = elim (Bool-cases (p y)) [
  | inr e ↦ let (m, met) = first_by_key-holds p x rows (ground arith) in (tail m, met)
  | inl e ↦ elim (smaller-cases y (first_by_key p rows)) [
    | inl own ↦ let same : x ≡ y = ground arith in (head same, ap p same ∙ e)
    | inr rest ↦
        let (m, met) = first_by_key-holds p x rows (sym rest ∙ ground arith) in (tail m, met)
  ]
]

-- The keys tell two rows apart.
pub mem-IsUnique :
    (x y : EncryptedFrame) (rows : List EncryptedFrame)
    → IsUnique rows
    → Memᴰ x rows
    → Memᴰ y rows
    → clashes x y ≡ true
    → x ≡ y
mem-IsUnique x y [] u m n c = elim m [ ]
mem-IsUnique x y (z ∷ rows) u (head e) (head d) c = e ∙ sym d
mem-IsUnique x y (z ∷ rows) u (head e) (tail n) c =
    let free = mem-absent (clashes z) y rows n u.0 in
    absurd (ground (arith, ap (λ w. clashes w y) e))
mem-IsUnique x y (z ∷ rows) u (tail m) (head d) c =
    let free = mem-absent (clashes z) x rows m u.0 in
    let back : clashes y x ≡ true = ground arith in absurd (ground (arith, ap (λ w. clashes w x) d))
mem-IsUnique x y (z ∷ rows) u (tail m) (tail n) c = mem-IsUnique x y rows u.1 m n c

pub text_eq_join : (s t u : Text) → text_eq s t ≡ true → text_eq s u ≡ true → text_eq t u ≡ true
text_eq_join s t u h k = subst (λ v. text_eq v u ≡ true) (text_eq→eq s t h) k

pub same_frame_join :
    (x f g : EncryptedFrame) → same_frame x f ≡ true → same_frame x g ≡ true → same_frame f g ≡ true
unfolding same_frame
same_frame_join x f g h k = ground (
  arith,
  text_eq_join x.aad f.aad g.aad (ground arith) (ground arith),
  text_eq_join x.ciphertext f.ciphertext g.ciphertext (ground arith) (ground arith),
  text_eq_join x.signature f.signature g.signature (ground arith) (ground arith),
)

pub rival-clashes :
    (x f g : EncryptedFrame) → same_frame x f ≡ true → IsRival f g → clashes g x ≡ true
unfolding same_frame
rival-clashes x f g h (inl e) = ground arith
rival-clashes x f g h (inr e) = ground arith

pub clashes_join :
    (x y g : EncryptedFrame) → clashes g x ≡ true → same_frame y g ≡ true → clashes x y ≡ true
unfolding same_frame
clashes_join x y g c h = ground arith

pub put_row_refused :
    (g y : EncryptedFrame) (rows : List EncryptedFrame)
    → absent (clashes g) rows ≡ false
    → first_by_key (clashes g) rows ≡ some y
    → same_frame y g ≡ false
    → put_row g rows
      ≡ (update_where (λ r. r.message_id == y.message_id) as_conflict rows, err ErrorCode.conflict)
unfolding put_row
put_row_refused g y rows a b c = rw (a, b, c) refl

pub put_row_unfound :
    (g : EncryptedFrame) (rows : List EncryptedFrame)
    → absent (clashes g) rows ≡ false
    → first_by_key (clashes g) rows ≡ none
    → put_row g rows ≡ (rows, err ErrorCode.not_found)
unfolding put_row
put_row_unfound g rows a b = rw (a, b) refl

pub put_row_repeated :
    (g y : EncryptedFrame) (rows : List EncryptedFrame)
    → absent (clashes g) rows ≡ false
    → first_by_key (clashes g) rows ≡ some y
    → same_frame y g ≡ true
    → put_row g rows ≡ (rows, ok duplicate)
unfolding put_row
put_row_repeated g y rows a b c = rw (a, b, c) refl

pub put_row_inserted :
    (g : EncryptedFrame) (rows : List EncryptedFrame)
    → absent (clashes g) rows ≡ true
    → put_row g rows ≡ (g ∷ rows, ok stored)
unfolding put_row
put_row_inserted g rows a = rw a refl

pub taken :
    (g x : EncryptedFrame) (rows : List EncryptedFrame)
    → Memᴰ x rows
    → clashes g x ≡ true
    → absent (clashes g) rows ≡ false
taken g x rows m c = elim (Bool-cases (absent (clashes g) rows)) [
  | inr e ↦ e
  | inl e ↦ absurd (ground (arith, mem-absent (clashes g) x rows m e))
]

-- A row that holds the frame stands in the way of a rival with other content.
pub put_row_taken :
    (f g : EncryptedFrame) (rows : List EncryptedFrame)
    → IsUnique rows
    → Holds f rows
    → IsRival f g
    → same_frame f g ≡ false
    → is_ok (put_row g rows).1 ≡ false
put_row_taken f g rows u h rival other =
    let x = h.row in
    let c = rival-clashes x f g h.same rival in
    let a = taken g x rows h.member c in
    elim (Option-cases (first_by_key (clashes g) rows)) [
      | inl e ↦ ap (λ r. is_ok r.1) (put_row_unfound g rows a e)
      | inr (y, e) ↦
          let (m, met) = first_by_key-holds (clashes g) y rows e in
          elim (Bool-cases (same_frame y g)) [
            | inr d ↦ ap (λ r. is_ok r.1) (put_row_refused g y rows a e d)
            | inl d ↦
                let one = mem-IsUnique x y rows u h.member m (clashes_join x y g c d) in
                let same = same_frame_join x f g h.same (ap (λ r. same_frame r g) one ∙ d) in
                absurd (ground (arith, same, other))
          ]
    ]

pub put_row-Holds :
    (f : EncryptedFrame) (rows : List EncryptedFrame)
    → is_ok (put_row f rows).1 ≡ true
    → Holds f (put_row f rows).0
put_row-Holds f rows h = elim (Bool-cases (absent (clashes f) rows)) [
  | inl a ↦
      rw (put_row_inserted f rows a)
        (record { row = f; member = head refl; same = same_frame_refl f })
  | inr a ↦ elim (Option-cases (first_by_key (clashes f) rows)) [
    | inl e ↦ absurd (ground (arith, ap (λ r. is_ok r.1) (put_row_unfound f rows a e), h))
    | inr (y, e) ↦ elim (Bool-cases (same_frame y f)) [
      | inr d ↦ absurd (ground (arith, ap (λ r. is_ok r.1) (put_row_refused f y rows a e d), h))
      | inl d ↦
          let (m, _) = first_by_key-holds (clashes f) y rows e in
          rw (put_row_repeated f y rows a e d) (record { row = y; member = m; same = d })
    ]
  ]
]

pub mem-update_where :
    (p : EncryptedFrame → Bool) (x : EncryptedFrame) (rows : List EncryptedFrame)
    → Memᴰ x rows
    → Memᴰ (if p x then as_conflict x else x) (update_where p as_conflict rows)
unfolding update_where
mem-update_where p x [] m = elim m [ ]
mem-update_where p x (y ∷ rows) (head e) = head (ap (λ r. if p r then as_conflict r else r) e)
mem-update_where p x (y ∷ rows) (tail m) = tail (mem-update_where p x rows m)

pub same_frame-marked :
    (b : Bool) (x f : EncryptedFrame)
    → same_frame x f ≡ true
    → same_frame (if b then as_conflict x else x) f ≡ true
unfolding same_frame
same_frame-marked true x f h = h
same_frame-marked false x f h = h

pub put_row_keeps :
    (f g : EncryptedFrame) (rows : List EncryptedFrame) → Holds f rows → Holds f (put_row g rows).0
put_row_keeps f g rows h = elim (Bool-cases (absent (clashes g) rows)) [
  | inl a ↦
      rw (put_row_inserted g rows a) (record { row = h.row; member = tail h.member; same = h.same })
  | inr a ↦ elim (Option-cases (first_by_key (clashes g) rows)) [
    | inl e ↦ rw (put_row_unfound g rows a e) h
    | inr (y, e) ↦ elim (Bool-cases (same_frame y g)) [
      | inl d ↦ rw (put_row_repeated g y rows a e d) h
      | inr d ↦
          let p = λ (r : EncryptedFrame). r.message_id == y.message_id in
          rw (put_row_refused g y rows a e d) (record {
            row = if p h.row then as_conflict h.row else h.row;
            member = mem-update_where p h.row rows h.member;
            same = same_frame-marked (p h.row) h.row f h.same;
          })
    ]
  ]
]

pub put_frame_keeps :
    (f g : EncryptedFrame) (max : ℕ) (rows : List EncryptedFrame)
    → Holds f rows
    → Holds f (put_frame g max rows).0
put_frame_keeps f g max rows h = elim (put_frame_cases g max rows) [
  | inl (e, _) ↦ rw e h
  | inr (_, _, e) ↦ rw e (put_row_keeps f g rows h)
]
