-- ===== src/Store/Table/Keys.antt =====
-- Tables with a primary key: what an update of one row does.
use harness_platform_monorep.Prelude.{
  ℕ, ◌≡◌, refl, sym, ap, ◌∙◌, ◌≢◌, inl, inr, Bool, true, false, some, List, [], ◌∷◌, arith, ◌==◌,
  if◌then◌else◌, ==_iff, Bool-cases,
}
use harness_platform_monorep.Store.Table.{find, update_where, affected, absent, find-update_where}

module _ {ℓ} {A : Type ℓ} (key : A → ℕ) where
  -- No two rows have one key.
  abbrev pub IsKeyed : List A → Type 0
  IsKeyed [] = Unit
  IsKeyed (x ∷ xs) = (absent (λ r. key r == key x) xs ≡ true) × IsKeyed xs

  absent-update_where :
      (k : ℕ) (p : A → Bool) (f : A → A) (xs : List A)
      → ((x : A) → key (f x) ≡ key x)
      → absent (λ r. key r == k) xs ≡ true
      → absent (λ r. key r == k) (update_where p f xs) ≡ true
  unfolding absent update_where
  absent-update_where k p f [] same h = refl
  absent-update_where k p f (x ∷ xs) same h =
      ground (arith, same x, absent-update_where k p f xs same)

  pub update_where-IsKeyed :
      (p : A → Bool) (f : A → A) (xs : List A)
      → ((x : A) → key (f x) ≡ key x)
      → IsKeyed xs
      → IsKeyed (update_where p f xs)
  unfolding update_where
  update_where-IsKeyed p f [] same h = tt
  update_where-IsKeyed p f (x ∷ xs) same h = elim (Bool-cases (p x)) [
    | inl e ↦
        rw (e, same x)
          (absent-update_where (key x) p f xs same h.0, update_where-IsKeyed p f xs same h.1)
    | inr e ↦
        rw e (absent-update_where (key x) p f xs same h.0, update_where-IsKeyed p f xs same h.1)
  ]

  absent-affected :
      (k : ℕ) (q : A → Bool) (xs : List A)
      → ((r : A) → q r ≡ true → key r ≡ k)
      → absent (λ r. key r == k) xs ≡ true
      → affected q xs ≡ 0
  unfolding absent affected
  absent-affected k q [] only h = refl
  absent-affected k q (x ∷ xs) only h = elim (Bool-cases (q x)) [
    | inl e ↦ absurd (ground (arith, only x e))
    | inr e ↦ rw e (absent-affected k q xs only (ground arith))
  ]

  -- An update of the row with a key, under a further condition that the row meets, changes one row.
  pub affected-one :
      (k : ℕ) (q : A → Bool) (xs : List A) {x : A}
      → ((r : A) → q r ≡ true → key r ≡ k)
      → IsKeyed xs
      → find (λ r. key r == k) xs ≡ some x
      → q x ≡ true
      → affected q xs ≡ 1
  unfolding find affected
  affected-one k q [] only h found met = absurd (cc)
  affected-one k q (y ∷ xs) {x} only h found met = elim (Bool-cases (key y == k)) [
    | inl e ↦
        let ke : key y ≡ k = (==_iff (key y) k).0 e in
        let rest = absent-affected (key y) q xs (λ r m. only r m ∙ sym ke) h.0 in
        let yx : y ≡ x = ground (arith, e) in
        let qy : q y ≡ true = ap q yx ∙ met in rw (qy, rest) refl
    | inr e ↦ elim (Bool-cases (q y)) [
      | inl m ↦ absurd (ground (arith, only y m))
      | inr m ↦ rw m (affected-one k q xs only h.1 (ground arith) met)
    ]
  ]

  -- The row with the key after such an update.
  pub find-update_one :
      (k : ℕ) (q : A → Bool) (f : A → A) (xs : List A) {x : A}
      → ((r : A) → key (f r) ≡ key r)
      → find (λ r. key r == k) xs ≡ some x
      → q x ≡ true
      → find (λ r. key r == k) (update_where q f xs) ≡ some (f x)
  find-update_one k q f xs same found met =
      rw (find-update_where q (λ r. key r == k) f xs (λ r. ap (λ n. n == k) (same r)), found, met)
        refl

  -- The row with another key.
  pub find-update_other :
      (k : ℕ) (q : A → Bool) (f : A → A) (xs : List A)
      → ((r : A) → key (f r) ≡ key r)
      → ((r : A) → q r ≡ true → key r ≢ k)
      → find (λ r. key r == k) (update_where q f xs) ≡ find (λ r. key r == k) xs
  unfolding find update_where
  find-update_other k q f [] same other = refl
  find-update_other k q f (x ∷ xs) same other = elim (Bool-cases (q x)) [
    | inl e ↦
        let no : (key x == k) ≡ false = ground (arith, other x e) in
        rw (e, same x, no) (find-update_other k q f xs same other)
    | inr e ↦
        rw e
          (ap (λ rest. if key x == k then some x else rest) (find-update_other k q f xs same other))
  ]
