-- ===== src/Domain/Id.antt =====
-- domain/id.go: the text of an identifier. An identifier is the number that its 16 bytes spell.
pub mod RoundTrip
use harness_platform_monorep.Prelude.{
  ℕ, zero, suc, ◌+◌, ◌-◌, ◌*◌, ◌/◌, ◌%◌, ◌^◌, ◌≤◌, ◌<◌, ◌≡◌, refl, sym, ap, ◌∙◌, ◌≢◌, ◌↔◌, ◌⊎◌, inl,
  inr, Bool, true, false, not, ◌&&◌, ◌||◌, Option, none, some, List, [], ◌∷◌, ◌++◌, map, arith, ltb,
  leb, ◌==◌, if◌then◌else◌, u64_mod, u64_inc, ltb→lt, lt→ltb, leb→le, ==_iff, Bool-cases,
  Option-cases, is_some, is_none, length, take, drop, replicate, length-append, length-take-le,
  keep, any, all, All, All-append, Text, text, text_eq, text_eq_refl, text_eq→eq, is_empty,
  byte_len, trim_space, trim_space_twice, trim_space-unspaced, byte_len-ascii, is_space,
}

-- `hex.EncodeToString`, digit by digit from the last one.
abbrev pub hex_digit : ℕ → ℕ
hex_digit d = if ltb d 10 then b'0' + d else b'a' + (d - 10)

unfoldable pub hex : ℕ → ℕ → Text → Text
hex zero n acc = acc
hex (suc k) n acc = hex k (n / 16) (hex_digit (n % 16) ∷ acc)

-- `ID.String`.
abbrev pub id_string : ℕ → Text
id_string id = hex 32 id []

-- `hex.DecodeString`, on a digit of either case and on a text.
abbrev pub hex_value : ℕ → Option ℕ
hex_value c =
    if leb b'0' c && leb c b'9'
    then some (c - b'0')
    else if leb b'a' c && leb c b'f'
    then some (c - b'a' + 10)
    else if leb b'A' c && leb c b'F'
    then some (c - b'A' + 10)
    else none

unfoldable pub read_hex : ℕ → Text → Option ℕ
read_hex acc [] = some acc
read_hex acc (c ∷ s) = elim (hex_value c) [ none ↦ none | some d ↦ read_hex (acc * 16 + d) s ]

-- `ParseID`.
unfoldable pub parse_id : Text → Option ℕ
parse_id value =
    if not (byte_len (trim_space value) == 32) then none else elim (read_hex 0 (trim_space value)) [
      | none ↦ none
      | some id ↦ if id == 0 then none else some id
    ]
