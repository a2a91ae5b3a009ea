-- ===== src/Store/Idempotency/Scopes.antt =====
-- store/idempotency.go: what the scope of a record keeps apart.
use harness_platform_monorep.Prelude.{
  ◌≡◌, refl, sym, ◌∙◌, inl, inr, Bool, true, ◌&&◌, some, List, [], ◌∷◌, arith, Bool-cases,
  text_eq_refl, text_eq→eq,
}
use harness_platform_monorep.Domain.Idempotency.{IdempotencyRecord}
use harness_platform_monorep.Store.Table.{find, find-holds, update_where, absent, absent-find-some}
use harness_platform_monorep.Store.Idempotency.{same_scope, clashes, with_completion}

pub same_scope_refl : (a : IdempotencyRecord) → same_scope a a ≡ true
unfolding same_scope
same_scope_refl a = grind (arith, text_eq_refl)

and_parts :
    (a b c d e : Bool)
    → (a && b && c && d && e) ≡ true
    → (a ≡ true) × (b ≡ true) × (c ≡ true) × (d ≡ true) × (e ≡ true)
and_parts a b c d e h = ground arith

scope_fields :
    (a b : IdempotencyRecord)
    → same_scope a b ≡ true
    → (a.owner_user_id ≡ b.owner_user_id)
      × (a.tenant_id ≡ b.tenant_id)
      × (a.actor_id ≡ b.actor_id)
      × (a.operation ≡ b.operation)
      × (a.idempotency_key ≡ b.idempotency_key)
unfolding same_scope
scope_fields a b h =
    let (o, t, i, p, k) = and_parts _ _ _ _ _ h in
    (text_eq→eq _ _ o, text_eq→eq _ _ t, text_eq→eq _ _ i, text_eq→eq _ _ p, text_eq→eq _ _ k)

-- Records of one scope have the same answers.
pub same_scope_move :
    (a b c : IdempotencyRecord) → same_scope a b ≡ true → same_scope a c ≡ same_scope b c
unfolding same_scope
same_scope_move a b c h = let (o, t, i, p, k) = scope_fields a b h in rw (o, t, i, p, k) refl

pub same_scope_sym : (a b : IdempotencyRecord) → same_scope a b ≡ true → same_scope b a ≡ true
same_scope_sym a b h = sym (same_scope_move a b a h) ∙ same_scope_refl a

-- No two rows have one scope.
abbrev pub IsUnique : List IdempotencyRecord → Type 0
IsUnique [] = Unit
IsUnique (r ∷ rows) = (absent (same_scope r) rows ≡ true) × IsUnique rows

pub absent-clashes :
    (r : IdempotencyRecord) (rows : List IdempotencyRecord)
    → absent (clashes r) rows ≡ true
    → absent (same_scope r) rows ≡ true
unfolding absent
absent-clashes r [] h = refl
absent-clashes r (x ∷ rows) h = ground (arith, absent-clashes r rows)

pub insert-IsUnique :
    (r : IdempotencyRecord) (rows : List IdempotencyRecord)
    → absent (clashes r) rows ≡ true
    → IsUnique rows
    → IsUnique (r ∷ rows)
insert-IsUnique r rows h unique = (absent-clashes r rows h, unique)

absent-completion :
    (k c row : IdempotencyRecord) (p : IdempotencyRecord → Bool) (rows : List IdempotencyRecord)
    → absent (same_scope k) rows ≡ true
    → absent (same_scope k) (update_where p (with_completion c row) rows) ≡ true
unfolding absent update_where same_scope
absent-completion k c row p [] h = refl
absent-completion k c row p (x ∷ rows) h = elim (Bool-cases (p x)) [
  | inl y ↦ rw y (ground (arith, absent-completion k c row p rows))
  | inr y ↦ rw y (ground (arith, absent-completion k c row p rows))
]

pub completion-IsUnique :
    (c row : IdempotencyRecord) (p : IdempotencyRecord → Bool) (rows : List IdempotencyRecord)
    → IsUnique rows
    → IsUnique (update_where p (with_completion c row) rows)
unfolding update_where same_scope
completion-IsUnique c row p [] h = tt
completion-IsUnique c row p (x ∷ rows) h = elim (Bool-cases (p x)) [
  | inl y ↦ rw y (absent-completion x c row p rows h.0, completion-IsUnique c row p rows h.1)
  | inr y ↦ rw y (absent-completion x c row p rows h.0, completion-IsUnique c row p rows h.1)
]

-- In such a table the scope alone finds what the scope with a further condition finds.
pub found_by_scope :
    (k : IdempotencyRecord) (p : IdempotencyRecord → Bool) (rows : List IdempotencyRecord)
    {row : IdempotencyRecord}
    → IsUnique rows
    → find (λ r. p r && same_scope k r) rows ≡ some row
    → find (same_scope k) rows ≡ some row
unfolding find
found_by_scope k p [] unique h = absurd (cc)
found_by_scope k p (x ∷ rows) {row} unique h = elim (Bool-cases (same_scope k x)) [
  | inr y ↦ rw y (found_by_scope k p rows unique.1 (ground arith))
  | inl y ↦ elim (Bool-cases (p x)) [
    | inl z ↦ rw y (ground arith)
    | inr z ↦
        let rest : find (λ r. p r && same_scope k r) rows ≡ some row = ground arith in
        let held = find-holds (λ r. p r && same_scope k r) rows rest in
        let apart =
          absent-find-some (same_scope x) (λ r. p r && same_scope k r) rows unique.0 rest in
        let moved = same_scope_move k x row y in absurd (ground arith)
  ]
]
