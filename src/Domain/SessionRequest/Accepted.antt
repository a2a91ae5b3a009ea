-- ===== src/Domain/SessionRequest/Accepted.antt =====
-- domain/state.go: what a request that passes `Validate` is like.
use mathlib.Core.List.{Perm}
use mathlib.Core.List.Perm
use harness_platform_monorep.Prelude.{
  ◌≤◌, ◌≡◌, refl, ◌≢◌, inl, inr, true, false, none, List, [], ◌∷◌, arith, Bool-cases, Option-cases,
  length, Text, trim_space,
}
use harness_platform_monorep.Domain.SessionRequest.{
  SessionRequest, safe_local_id, allowed_capabilities, contains, check_capabilities, text_leb,
  insert_sorted, sort_strings, validate,
}

-- Every capability is allowed once trimmed, and no two are the same once trimmed.
abbrev pub AreDistinct : List Text → List Text → Type 0
AreDistinct seen [] = Unit
AreDistinct seen (c ∷ cs) =
    (contains (trim_space c) allowed_capabilities ≡ true)
    × (contains (trim_space c) seen ≡ false)
    × AreDistinct (trim_space c ∷ seen) cs

check_capabilities_sound :
    (seen cs : List Text) → check_capabilities seen cs ≡ none → AreDistinct seen cs
unfolding check_capabilities
check_capabilities_sound seen [] h = tt
check_capabilities_sound seen (c ∷ cs) h =
    ground (arith, check_capabilities_sound (trim_space c ∷ seen) cs)

-- Each string is at most the next.
abbrev pub IsSorted : List Text → Type 0
IsSorted [] = Unit
IsSorted (s ∷ []) = Unit
IsSorted (s ∷ t ∷ ts) = (text_leb s t ≡ true) × IsSorted (t ∷ ts)

text_leb_total : (s t : Text) → text_leb s t ≡ false → text_leb t s ≡ true
text_leb_total [] t h = cc
text_leb_total (a ∷ s) [] h = refl
text_leb_total (a ∷ s) (b ∷ t) h = ground (arith, text_leb_total s t)

insert_sorted-IsSorted : (s : Text) (ts : List Text) → IsSorted ts → IsSorted (insert_sorted s ts)
unfolding insert_sorted
insert_sorted-IsSorted s [] h = tt
insert_sorted-IsSorted s (t ∷ []) h = ground (arith, text_leb_total s t)
insert_sorted-IsSorted s (t ∷ u ∷ ts) h = elim (Bool-cases (text_leb s t)) [
  | inl e ↦ rw e (e, h)
  | inr e ↦ rw e (elim (Bool-cases (text_leb s u)) [
    | inl f ↦ rw f (text_leb_total s t e, (f, h.1))
    | inr f ↦ rw f (h.0, rw (f, insert_sorted) at (insert_sorted-IsSorted s (u ∷ ts) h.1))
  ])
]

pub sort_strings-IsSorted : (ts : List Text) → IsSorted (sort_strings ts)
unfolding sort_strings
sort_strings-IsSorted [] = tt
sort_strings-IsSorted (t ∷ ts) =
    insert_sorted-IsSorted t (sort_strings ts) (sort_strings-IsSorted ts)

insert_sorted-Perm : (s : Text) (ts : List Text) → Perm (insert_sorted s ts) (s ∷ ts)
unfolding insert_sorted
insert_sorted-Perm s [] = Perm.refl (s ∷ [])
insert_sorted-Perm s (t ∷ ts) = elim (Bool-cases (text_leb s t)) [
  | inl e ↦ rw e (Perm.refl (s ∷ t ∷ ts))
  | inr e ↦ rw e (Perm.trans (Perm.cons t (insert_sorted-Perm s ts)) (Perm.swap s t ts))
]

pub sort_strings-Perm : (ts : List Text) → Perm (sort_strings ts) ts
unfolding sort_strings
sort_strings-Perm [] = Perm.refl []
sort_strings-Perm (t ∷ ts) =
    Perm.trans (insert_sorted-Perm t (sort_strings ts)) (Perm.cons t (sort_strings-Perm ts))

-- What an accepted request is.
pub record IsAccepted (r : SessionRequest) (r' : SessionRequest) : Type 0 where
  pub endpoints : (r.aba_endpoint_id ≢ 0) × (r.hc_endpoint_id ≢ 0)
  pub distinct : r.aba_endpoint_id ≢ r.hc_endpoint_id
  pub profile : safe_local_id r.runtime_profile_id ≡ true
  pub workspace : safe_local_id r.workspace_id ≡ true
  pub count : (1 ≤ length r.requested_capabilities) × (length r.requested_capabilities ≤ 8)
  pub capabilities : AreDistinct [] r.requested_capabilities
  pub result : r' ≡ record r { requested_capabilities = sort_strings r.requested_capabilities }

validate-IsAccepted : (r : SessionRequest) → (validate r).1 ≡ none → IsAccepted r (validate r).0
unfolding validate
validate-IsAccepted r h = elim (Option-cases (check_capabilities [] r.requested_capabilities)) [
  | inl e ↦ ground (arith, check_capabilities_sound [] r.requested_capabilities e)
  | inr (x, e) ↦ absurd (ground arith)
]

-- A request that passes names two different endpoints, a safe profile and workspace, and one to
-- eight capabilities that are allowed and different once trimmed; nothing but the order of the
-- capabilities is changed, and they are sorted afterwards.
pub validate_lem :
    (r : SessionRequest)
    → (validate r).1 ≡ none
    → IsAccepted r (validate r).0
      × IsSorted (validate r).0.requested_capabilities
      × Perm (validate r).0.requested_capabilities r.requested_capabilities
validate_lem r h =
    let a = validate-IsAccepted r h in
    (
      a,
      rw a.result (sort_strings-IsSorted r.requested_capabilities),
      rw a.result (sort_strings-Perm r.requested_capabilities),
    )
