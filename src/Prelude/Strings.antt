-- ===== src/Prelude/Strings.antt =====
-- Go strings, as the list of their code points: equality, emptiness, length in bytes (UTF-8) and
-- `strings.TrimSpace`. A string that is not valid UTF-8 has no such list.
use Prim.Native.Nat.{ℕ, ◌+◌}
use Prim.Native.Char.{code}
use Prim.Native.String.{String}
use mathlib.Core.Path.{◌≡◌, refl, ap, ◌∙◌}
use mathlib.Core.Bool.{Bool, true, false, not, ◌&&◌, ◌||◌}
use mathlib.Core.List.{List, [], ◌∷◌}
use native.Mathlib.Omega.{arith}
use mathlib.Core.Logic.{inl, inr}
use harness_platform_monorep.Prelude.Lists.{all, length}
use harness_platform_monorep.Prelude.Tests.{ltb, leb, ◌==◌, if◌then◌else◌, Bool-cases}

abbrev pub Text : Type 0
Text = List ℕ

-- The text of a literal.
abbrev pub text : String → Text
text String.[] = []
text (String.◌∷◌ c s) = code c ∷ text s

abbrev pub text_eq : Text → Text → Bool
text_eq [] [] = true
text_eq (a ∷ s) (b ∷ t) = a == b && text_eq s t
text_eq _ _ = false

pub text_eq_refl : (s : Text) → text_eq s s ≡ true
text_eq_refl [] = refl
text_eq_refl (a ∷ s) = ground (arith, text_eq_refl s)

pub text_eq→eq : (s t : Text) → text_eq s t ≡ true → s ≡ t
text_eq→eq [] [] h = refl
text_eq→eq (a ∷ s) (b ∷ t) h = ground (arith, text_eq→eq s t)
text_eq→eq _ _ h = cc

abbrev pub is_empty {ℓ} : {A : Type ℓ} → List A → Bool
is_empty [] = true
is_empty (a ∷ s) = false

-- The bytes of a code point in UTF-8.
abbrev utf8_len : ℕ → ℕ
utf8_len c = if ltb c 0x80 then 1 else if ltb c 0x800 then 2 else if ltb c 0x1_0000 then 3 else 4

-- Go's `len` of a string.
abbrev pub byte_len : Text → ℕ
byte_len [] = 0
byte_len (c ∷ s) = utf8_len c + byte_len s

-- `unicode.IsSpace`.
abbrev pub is_space : ℕ → Bool
is_space c =
    (leb 9 c && leb c 13)
    || c == 0x20
    || c == 0x85
    || c == 0xa0
    || c == 0x1680
    || (leb 0x2000 c && leb c 0x200a)
    || c == 0x2028
    || c == 0x2029
    || c == 0x202f
    || c == 0x205f
    || c == 0x3000

trim_left : Text → Text
trim_left [] = []
trim_left (c ∷ s) = if is_space c then trim_left s else c ∷ s

trim_right : Text → Text
trim_right [] = []
trim_right (c ∷ s) = let r = trim_right s in if is_space c && is_empty r then [] else c ∷ r

-- `strings.TrimSpace`.
unfoldable pub trim_space : Text → Text
unfolding trim_left trim_right
trim_space s = trim_right (trim_left s)

trim_space_test : trim_space (text " \t a b  ") ≡ text "a b"
unfolding trim_space
trim_space_test = refl

trim_right_twice : (s : Text) → trim_right (trim_right s) ≡ trim_right s
unfolding trim_right
trim_right_twice [] = refl
trim_right_twice (c ∷ s) = elim (Bool-cases (is_space c && is_empty (trim_right s))) [
  | inl x ↦ rw x refl
  | inr x ↦ rw (x, trim_right_twice s, x) refl
]

trim_left_start : (s : Text) → trim_left (trim_right (trim_left s)) ≡ trim_right (trim_left s)
unfolding trim_left trim_right
trim_left_start [] = refl
trim_left_start (c ∷ s) = elim (Bool-cases (is_space c)) [
  | inl x ↦ rw x (trim_left_start s)
  | inr x ↦ ground arith
]

-- Trimming twice is trimming.
pub trim_space_twice : (s : Text) → trim_space (trim_space s) ≡ trim_space s
unfolding trim_space trim_left trim_right
trim_space_twice s = rw (trim_left_start s, trim_right_twice (trim_left s)) refl

both_true : (a b : Bool) → (a && b) ≡ true → (a ≡ true) × (b ≡ true)
both_true true b h = (refl, h)
both_true false b h = absurd (cc)

negated : (a : Bool) → not a ≡ true → a ≡ false
negated true h = absurd (cc)
negated false h = refl

trim_right-unspaced : (s : Text) → all (λ c. not (is_space c)) s ≡ true → trim_right s ≡ s
unfolding trim_right
trim_right-unspaced [] h = refl
trim_right-unspaced (c ∷ s) h =
    let (first, rest) = both_true (not (is_space c)) (all (λ d. not (is_space d)) s) h in
    let black = negated (is_space c) first in rw (black, trim_right-unspaced s rest) refl

trim_left-unspaced : (s : Text) → all (λ c. not (is_space c)) s ≡ true → trim_left s ≡ s
unfolding trim_left
trim_left-unspaced [] h = refl
trim_left-unspaced (c ∷ s) h =
    let (first, _) = both_true (not (is_space c)) (all (λ d. not (is_space d)) s) h in
    let black = negated (is_space c) first in rw black refl

-- A text without white space is trimmed.
pub trim_space-unspaced : (s : Text) → all (λ c. not (is_space c)) s ≡ true → trim_space s ≡ s
unfolding trim_space
trim_space-unspaced s h = ap trim_right (trim_left-unspaced s h) ∙ trim_right-unspaced s h

pub byte_len-ascii : (s : Text) → all (λ c. ltb c 0x80) s ≡ true → byte_len s ≡ length s
byte_len-ascii [] h = refl
byte_len-ascii (c ∷ s) h =
    let (first, rest) = both_true (ltb c 0x80) (all (λ d. ltb d 0x80) s) h in
    rw first (omega (arith, byte_len-ascii s rest))
