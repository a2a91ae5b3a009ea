-- ===== src/Domain/Id/RoundTrip.antt =====
-- domain/id.go: an identifier's text is read back.
use harness_platform_monorep.Prelude.{
  ℕ, zero, suc, ◌+◌, ◌*◌, ◌/◌, ◌%◌, ◌^◌, ◌<◌, ◌≡◌, refl, ap, ◌∙◌, inl, inr, Bool, true, false, not,
  some, [], ◌∷◌, arith, ltb, ◌==◌, Bool-cases, length, all, Text, byte_len, trim_space,
  trim_space-unspaced, byte_len-ascii, is_space,
}
use native.Mathlib.Nat.{pow-succ'}
use harness_platform_monorep.Domain.Id.{hex_digit, hex, id_string, hex_value, read_hex, parse_id}

hex_value-hex_digit : (d : ℕ) → d < 16 → hex_value (hex_digit d) ≡ some d
hex_value-hex_digit d h = ground arith

read_hex_digit :
    (a d c : ℕ) (s : Text) → hex_value c ≡ some d → read_hex a (c ∷ s) ≡ read_hex (a * 16 + d) s
unfolding read_hex
read_hex_digit a d c s h = ground arith

power_step : (k : ℕ) → 16 ^ suc k ≡ 16 * 16 ^ k
power_step k = pow-succ' 16 k

scale : (a p : ℕ) → a * (16 * p) ≡ 16 * (a * p)
scale a p = grind arith

read_hex-hex :
    (k a n : ℕ) (s : Text) → n < 16 ^ k → read_hex a (hex k n s) ≡ read_hex (a * 16 ^ k + n) s
unfolding hex
read_hex-hex zero a n s h = ap (λ m. read_hex m s) (omega arith)
read_hex-hex (suc k) a n s h =
    let step = power_step k in
    let scaled = scale a (16 ^ k) in
    read_hex-hex k a (n / 16) (hex_digit (n % 16) ∷ s) (omega arith)
    ∙ read_hex_digit (a * 16 ^ k + n / 16) (n % 16) (hex_digit (n % 16)) s
        (hex_value-hex_digit (n % 16) (omega arith))
    ∙ ap (λ m. read_hex m s) (rw step (omega arith))

hex-all :
    (p : ℕ → Bool) (k n : ℕ) (s : Text)
    → ((d : ℕ) → d < 16 → p (hex_digit d) ≡ true)
    → all p s ≡ true
    → all p (hex k n s) ≡ true
unfolding hex
hex-all p zero n s digits h = h
hex-all p (suc k) n s digits h =
    hex-all p k (n / 16) (hex_digit (n % 16) ∷ s) digits (rw (digits (n % 16) (omega arith)) h)

length-hex : (k n : ℕ) (s : Text) → length (hex k n s) ≡ k + length s
unfolding hex
length-hex zero n s = omega arith
length-hex (suc k) n s = length-hex k (n / 16) (hex_digit (n % 16) ∷ s) ∙ omega arith

hex_digit_visible : (d : ℕ) → d < 16 → not (is_space (hex_digit d)) ≡ true
hex_digit_visible d h = elim (Bool-cases (ltb d 10)) [
  | inl x ↦ rw x (ground arith)
  | inr x ↦ rw x (ground arith)
]

hex_digit_ascii : (d : ℕ) → d < 16 → ltb (hex_digit d) 0x80 ≡ true
hex_digit_ascii d h = ground arith

trim_id : (id : ℕ) → trim_space (id_string id) ≡ id_string id
trim_id id =
    trim_space-unspaced (hex 32 id [])
      (hex-all (λ c. not (is_space c)) 32 id [] hex_digit_visible refl)

byte_len_id : (id : ℕ) → byte_len (id_string id) ≡ 32
byte_len_id id =
    byte_len-ascii (hex 32 id []) (hex-all (λ c. ltb c 0x80) 32 id [] hex_digit_ascii refl)
    ∙ length-hex 32 id []

read_id : (id : ℕ) → id < 16 ^ 32 → read_hex 0 (id_string id) ≡ some id
unfolding read_hex
read_id id h = read_hex-hex 32 0 id [] h ∙ ap some (omega arith)

-- The text of an identifier of 16 bytes that is not zero is read back as the identifier.
pub parse_id-id_string : (id : ℕ) → 0 < id → id < 16 ^ 32 → parse_id (id_string id) ≡ some id
unfolding parse_id
parse_id-id_string id h k =
    let given : (id == 0) ≡ false = ground arith in
    rw (trim_id id, byte_len_id id, read_id id k, given) refl
