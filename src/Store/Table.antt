-- ===== src/Store/Table.antt =====
-- A table of the database is the list of its rows. What gorm's statements do with it: `First` and
-- `Take` by a condition, `Updates` under a condition with its count of rows, and a transaction,
-- which undoes all writes when its function returns an error (gorm's documented behaviour).
pub mod Keys
use harness_platform_monorep.Prelude.{
  ℕ, zero, suc, ◌+◌, ◌-◌, ◌*◌, ◌/◌, ◌%◌, ◌^◌, ◌≤◌, ◌<◌, ◌≡◌, refl, sym, ap, ◌∙◌, ◌≢◌, ◌↔◌, ◌⊎◌, inl,
  inr, Bool, true, false, not, ◌&&◌, ◌||◌, Option, none, some, List, [], ◌∷◌, ◌++◌, map, arith, ltb,
  leb, ◌==◌, if◌then◌else◌, u64_mod, u64_inc, ltb→lt, lt→ltb, leb→le, ==_iff, Bool-cases,
  Option-cases, is_some, is_none, length, take, drop, replicate, length-append, length-take-le,
  keep, any, all, All, All-append, Text, text, text_eq, text_eq_refl, text_eq→eq, is_empty,
  byte_len, trim_space, trim_space_twice, trim_space-unspaced, byte_len-ascii, is_space,
}
use mathlib.Core.Path.{subst}
use harness_platform_monorep.Domain.Problem.{ErrorCode}

pub data Result {ℓ} (A : Type ℓ) : Type ℓ where
  ok : A → Result A
  err : ErrorCode → Result A

abbrev pub or_error {ℓ} : {A : Type ℓ} → ErrorCode → Option A → Result A
or_error e none = err e
or_error e (some a) = ok a

-- Of two states, the one that a transaction leaves.
abbrev pub transaction {ℓ} : {D : Type ℓ} {A : Type ℓ} → D → D × Result A → D × Result A
transaction before (after, ok a) = (after, ok a)
transaction before (after, err e) = (before, err e)

-- `if err := f(); err != nil { return err }`.
abbrev pub try_check : Option ErrorCode → Result (Unit {0})
try_check none = ok tt
try_check (some e) = err e

-- `if !b { return e }`.
abbrev pub guard : Bool → ErrorCode → Result (Unit {0})
guard met e = if met then ok tt else err e

infixl 5 ◌>>=◌ ◌>>◌
abbrev pub ◌>>=◌ {ℓ κ} : {A : Type ℓ} {B : Type κ} → Result A → (A → Result B) → Result B
r >>= next = elim r [ err e ↦ err e | ok a ↦ next a ]

abbrev pub ◌>>◌ {κ} : {B : Type κ} → Result (Unit {0}) → Result B → Result B
checked >> next = checked >>= λ done. next

module _ {ℓ} {A : Type ℓ} where
  -- The first row that meets a condition.
  unfoldable pub find : (A → Bool) → List A → Option A
  find p [] = none
  find p (x ∷ xs) = if p x then some x else find p xs

  -- The rows after an update of those that meet a condition.
  unfoldable pub update_where : (A → Bool) → (A → A) → List A → List A
  update_where p f [] = []
  update_where p f (x ∷ xs) = (if p x then f x else x) ∷ update_where p f xs

  -- How many rows an update changes.
  unfoldable pub affected : (A → Bool) → List A → ℕ
  affected p [] = 0
  affected p (x ∷ xs) = if p x then suc (affected p xs) else affected p xs

  -- No row meets the condition.
  unfoldable pub absent : (A → Bool) → List A → Bool
  absent p [] = true
  absent p (x ∷ xs) = not (p x) && absent p xs

  pub absent-find : (p : A → Bool) (xs : List A) → absent p xs ≡ true → find p xs ≡ none
  unfolding find absent
  absent-find p [] h = refl
  absent-find p (x ∷ xs) h = ground (arith, absent-find p xs)

  pub find-holds : (p : A → Bool) (xs : List A) {x : A} → find p xs ≡ some x → p x ≡ true
  unfolding find
  find-holds p [] h = cc
  find-holds p (x ∷ xs) {x = y} h = elim (Bool-cases (p x)) [
    | inl e ↦ ground arith
    | inr e ↦ find-holds p xs (ground arith)
  ]

  -- An update that keeps a condition's answer keeps what the condition finds, up to the update.
  pub find-update_where :
      (p q : A → Bool) (f : A → A) (xs : List A)
      → ((x : A) → q (f x) ≡ q x)
      → find q (update_where p f xs)
        ≡ (elim (find q xs) [ none ↦ none | some x ↦ some (if p x then f x else x) ])
  unfolding find update_where
  find-update_where p q f [] h = refl
  find-update_where p q f (x ∷ xs) h = ground (arith, h x, find-update_where p q f xs h)

  pub All-update_where {κ} :
      (P : A → Type κ) (p : A → Bool) (f : A → A) (xs : List A)
      → ((x : A) → P x → P (f x))
      → All P xs
      → All P (update_where p f xs)
  unfolding update_where
  All-update_where P p f [] h a = tt
  All-update_where P p f (x ∷ xs) h a = elim (Bool-cases (p x)) [
    | inl e ↦ rw e (h x a.0, All-update_where P p f xs h a.1)
    | inr e ↦ rw e (a.0, All-update_where P p f xs h a.1)
  ]

  pub All-find {κ} :
      (P : A → Type κ) (p : A → Bool) (xs : List A) {x : A} → All P xs → find p xs ≡ some x → P x
  unfolding find
  All-find P p [] a h = absurd (cc)
  All-find P p (y ∷ xs) {x} a h = elim (Bool-cases (p y)) [
    | inl e ↦ subst P (ground arith) a.0
    | inr e ↦ All-find P p xs a.1 (ground arith)
  ]

  -- What holds of every row after an update: of those it changes, and of those it leaves.
  pub update_where-All {κ} :
      (P : A → Type κ) (p : A → Bool) (f : A → A) (xs : List A)
      → ((x : A) → p x ≡ true → P (f x))
      → ((x : A) → p x ≡ false → P x)
      → All P (update_where p f xs)
  unfolding update_where
  update_where-All P p f [] h k = tt
  update_where-All P p f (x ∷ xs) h k = elim (Bool-cases (p x)) [
    | inl e ↦ rw e (h x e, update_where-All P p f xs h k)
    | inr e ↦ rw e (k x e, update_where-All P p f xs h k)
  ]

  pub absent-find-some :
      (p q : A → Bool) (xs : List A) {x : A} → absent p xs ≡ true → find q xs ≡ some x → p x ≡ false
  unfolding absent find
  absent-find-some p q [] a h = cc
  absent-find-some p q (y ∷ xs) {x} a h = elim (Bool-cases (q y)) [
    | inl e ↦ ground arith
    | inr e ↦ absent-find-some p q xs (ground arith) (ground arith)
  ]

abbrev pub is_ok {ℓ} : {A : Type ℓ} → Result A → Bool
is_ok (ok a) = true
is_ok (err e) = false

-- A transaction keeps what its function did when the function succeeds, and nothing of it otherwise.
pub transaction_cases {ℓ} :
    {D : Type ℓ} {A : Type ℓ} (before : D) (r : D × Result A)
    → ((is_ok r.1 ≡ true) × (transaction before r ≡ r))
      ⊎ ((is_ok (transaction before r).1 ≡ false) × ((transaction before r).0 ≡ before))
transaction_cases before (after, ok a) = inl (refl, refl)
transaction_cases before (after, err e) = inr (refl, refl)

-- What the steps of a `do` block that succeeds have done.
pub >>=-eq-ok {ℓ κ} :
    {A : Type ℓ} {B : Type κ} (r : Result A) (next : A → Result B) {x : B}
    → ◌≡◌ {A = Result B} (r >>= next) (ok x)
    → (v : A) × (r ≡ ok v) × (next v ≡ ok x)
>>=-eq-ok (err e) next done = absurd (cc)
>>=-eq-ok (ok v) next done = (v, refl, done)

pub guard-eq-ok {ℓ} :
    {B : Type ℓ} (t : Bool) (e : ErrorCode) (k : Result B) {b : B}
    → (guard t e >> k) ≡ ok b
    → (t ≡ true) × (k ≡ ok b)
guard-eq-ok true e k h = (refl, h)
guard-eq-ok false e k h = absurd (cc)

pub try_check-eq-ok {ℓ} :
    {B : Type ℓ} (o : Option ErrorCode) (k : Result B) {b : B}
    → (try_check o >> k) ≡ ok b
    → (o ≡ none) × (k ≡ ok b)
try_check-eq-ok none k h = (refl, h)
try_check-eq-ok (some e) k h = absurd (cc)

pub or_error-eq-ok {ℓ κ} :
    {A : Type ℓ} {B : Type κ} (e : ErrorCode) (o : Option A) (f : A → Result B) {b : B}
    → (or_error e o >>= f) ≡ ok b
    → (a : A) × (o ≡ some a) × (f a ≡ ok b)
or_error-eq-ok e none f h = absurd (cc)
or_error-eq-ok e (some a) f h = (a, refl, h)

-- A write that may fail, and what is done with its result in the same transaction.
abbrev pub and_then {ℓ} :
    {D : Type ℓ} {A : Type ℓ} {B : Type ℓ} → D × Result A → (A → D → D × Result B) → D × Result B
and_then (t, ok a) f = f a t
and_then (t, err e) f = (t, err e)

-- `Create`: the keys refuse a row that clashes.
abbrev pub insert_row {ℓ} : {A : Type ℓ} → (A → Bool) → A → List A → List A × Result (Unit {ℓ})
insert_row clash x rows =
    if absent clash rows then (x ∷ rows, ok tt) else (rows, err ErrorCode.conflict)

pub Result-cases {ℓ} :
    {A : Type ℓ} (r : Result A) → ((a : A) × (r ≡ ok a)) ⊎ ((e : ErrorCode) × (r ≡ err e))
Result-cases (ok a) = inl (a, refl)
Result-cases (err e) = inr (e, refl)

pub ok-injective {ℓ} : {A : Type ℓ} (a b : A) → ◌≡◌ {A = Result A} (ok a) (ok b) → a ≡ b
ok-injective a b h = ap (λ r. elim r [ ok x ↦ x | err _ ↦ a ]) h

pub guard-ok : (b : Bool) (e : ErrorCode) → guard b e ≡ ok tt → b ≡ true
guard-ok true e h = refl
guard-ok false e h = absurd (cc)

-- What two steps in a row that succeed have done.
pub and_then-ok {ℓ} :
    {D : Type ℓ} {A : Type ℓ} {B : Type ℓ} (r : D × Result A) (f : A → D → D × Result B)
    → is_ok (and_then r f).1 ≡ true
    → (a : A) × (r.1 ≡ ok a) × (and_then r f ≡ f a r.0)
and_then-ok (t, ok a) f h = (a, refl, refl)
and_then-ok (t, err e) f h = absurd (cc)
