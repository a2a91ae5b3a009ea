-- ===== src/Domain/SessionRequest.antt =====
-- domain/state.go and domain/model.go: `SessionRequest` and its check, which also sorts the
-- requested capabilities.
pub mod Accepted
use harness_platform_monorep.Prelude.{
  ℕ, zero, suc, ◌+◌, ◌-◌, ◌*◌, ◌/◌, ◌%◌, ◌^◌, ◌≤◌, ◌<◌, ◌≡◌, refl, sym, ap, ◌∙◌, ◌≢◌, ◌↔◌, ◌⊎◌, inl,
  inr, Bool, true, false, not, ◌&&◌, ◌||◌, Option, none, some, List, [], ◌∷◌, ◌++◌, map, arith, ltb,
  leb, ◌==◌, if◌then◌else◌, u64_mod, u64_inc, ltb→lt, lt→ltb, leb→le, ==_iff, Bool-cases,
  Option-cases, is_some, is_none, length, take, drop, replicate, length-append, length-take-le,
  keep, any, all, All, All-append, Text, text, text_eq, text_eq_refl, text_eq→eq, is_empty,
  byte_len, trim_space,
}
use harness_platform_monorep.Domain.Problem.{ErrorCode}

pub record SessionRequest : Type 0 where
  pub aba_endpoint_id : ℕ
  pub hc_endpoint_id : ℕ
  pub runtime_profile_id : Text
  pub workspace_id : Text
  pub requested_capabilities : List Text

abbrev is_between : ℕ → ℕ → ℕ → Bool
is_between low high c = leb low c && leb c high

-- `[A-Za-z0-9]` and `[A-Za-z0-9._-]`.
abbrev pub is_alphanumeric : ℕ → Bool
is_alphanumeric c = is_between b'A' b'Z' c || is_between b'a' b'z' c || is_between b'0' b'9' c

abbrev pub is_local_char : ℕ → Bool
is_local_char c = is_alphanumeric c || c == b'.' || c == b'_' || c == b'-'

-- The optional group of the pattern: some local characters, then an alphanumeric one.
unfoldable pub local_tail : Text → Bool
local_tail [] = true
local_tail (c ∷ []) = is_alphanumeric c
local_tail (c ∷ c' ∷ s) = is_local_char c && local_tail (c' ∷ s)

-- `safeLocalID.MatchString`: the group has one to 63 characters, or is missing.
unfoldable pub safe_local_id : Text → Bool
unfolding local_tail
safe_local_id [] = false
safe_local_id (c ∷ s) = is_alphanumeric c && leb (length s) 63 && local_tail s

-- `allowedCapabilities`.
abbrev pub allowed_capabilities : List Text
allowed_capabilities =
    text "prompt"
    ∷ text "permission"
    ∷ text "cancel"
    ∷ text "session"
    ∷ text "remote-session-v1"
    ∷ []

abbrev pub contains : Text → List Text → Bool
contains s ts = any (text_eq s) ts

-- The loop over the requested capabilities.
unfoldable pub check_capabilities : List Text → List Text → Option ErrorCode
check_capabilities seen [] = none
check_capabilities seen (c ∷ cs) =
    let rest = check_capabilities (trim_space c ∷ seen) cs in
    if not (contains (trim_space c) allowed_capabilities)
    then some ErrorCode.invalid_argument
    else if contains (trim_space c) seen
    then some ErrorCode.invalid_argument
    else rest

-- `<=` on Go strings.
abbrev pub text_leb : Text → Text → Bool
text_leb [] t = true
text_leb (a ∷ s) [] = false
text_leb (a ∷ s) (b ∷ t) = ltb a b || (a == b && text_leb s t)

unfoldable pub insert_sorted : Text → List Text → List Text
insert_sorted s [] = s ∷ []
insert_sorted s (t ∷ ts) = if text_leb s t then s ∷ t ∷ ts else t ∷ insert_sorted s ts

-- `sort.Strings`.
unfoldable pub sort_strings : List Text → List Text
unfolding insert_sorted
sort_strings [] = []
sort_strings (s ∷ ss) = insert_sorted s (sort_strings ss)

-- `SessionRequest.Validate`.
unfoldable pub validate : SessionRequest → SessionRequest × Option ErrorCode
unfolding safe_local_id check_capabilities sort_strings
validate r =
    let count = length r.requested_capabilities in
    if r.aba_endpoint_id == 0 || r.hc_endpoint_id == 0
    then (r, some ErrorCode.invalid_argument)
    else if r.aba_endpoint_id == r.hc_endpoint_id
    then (r, some ErrorCode.security_violation)
    else if not (safe_local_id r.runtime_profile_id) || not (safe_local_id r.workspace_id)
    then (r, some ErrorCode.invalid_argument)
    else if count == 0 || ltb 8 count
    then (r, some ErrorCode.invalid_argument)
    else elim (check_capabilities [] r.requested_capabilities) [
      | some e ↦ (r, some e)
      | none ↦ (record r { requested_capabilities = sort_strings r.requested_capabilities }, none)
    ]
