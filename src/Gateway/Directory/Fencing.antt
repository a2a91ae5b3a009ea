-- ===== src/Gateway/Directory/Fencing.antt =====
-- gateway/connection_directory.go: a newer generation fences the older ones.
use harness_platform_monorep.Prelude.{
  ℕ, ◌≤◌, ◌<◌, ◌≡◌, ◌≢◌, ◌↔◌, true, ◌&&◌, Option, none, some, List, [], ◌∷◌, arith, ◌==◌,
  if◌then◌else◌,
}
use harness_platform_monorep.Gateway.Queue.{SendError, fenced}
use harness_platform_monorep.Gateway.Directory.{
  Connection, Directory, current, activate, remove, with_current, same_handle,
}

module _ (heap : ℕ → Connection) where
  -- The current connection of every lane belongs to the lane's endpoint, and has a generation.
  abbrev pub IsValid : Directory → Type 0
  IsValid d =
      (e h : ℕ)
      → current e d ≡ some h
      → ((heap h).endpoint_id ≡ e) × (e ≢ 0) × (0 < (heap h).generation)

  activate-IsValid :
      (candidate : Option ℕ) (d : Directory) → IsValid d → IsValid (activate heap candidate d).0
  unfolding activate
  activate-IsValid none d v e h q = v e h q
  activate-IsValid (some c) d v e h q = ground (arith, v e h)

  remove-IsValid :
      (candidate : Option ℕ) (d : Directory) → IsValid d → IsValid (remove heap candidate d)
  unfolding remove
  remove-IsValid none d v e h q = v e h q
  remove-IsValid (some c) d v e h q = ground (arith, v e h)

  -- The connection is missing or of an older generation than the candidate.
  abbrev pub IsOlder : Option ℕ → ℕ → Type 0
  IsOlder none candidate = Unit
  IsOlder (some h) candidate = (heap h).generation < (heap candidate).generation

  -- A candidate with an endpoint and a generation takes its lane exactly if the connection there is
  -- missing or of an older generation. It hands back the connection that was there before, is the
  -- current one of its endpoint afterwards if it took the lane, and changes nothing else: for every
  -- endpoint the current connection is then known.
  pub activate_lem :
      (c : ℕ) (d : Directory) (e : ℕ)
      → (heap c).endpoint_id ≢ 0
      → 0 < (heap c).generation
      → let endpoint = (heap c).endpoint_id in
        let r = activate heap (some c) d in
        ((r.2 ≡ true) ↔ IsOlder (current endpoint d) c)
        × (r.1 ≡ current endpoint d)
        × (current e r.0 ≡ (if r.2 && e == endpoint then some c else current e d))
  unfolding activate
  activate_lem c d e n g = ((λ t. ground arith, λ o. ground arith), ground arith, ground arith)

  unfoldable pub activate_all : List ℕ → Directory → Directory
  activate_all [] d = d
  activate_all (c ∷ cs) d = activate_all cs (activate heap (some c) d).0

  -- The lane's connection is at least of the given generation.
  abbrev pub IsAtLeast : ℕ → Option ℕ → Type 0
  IsAtLeast g none = ⊥
  IsAtLeast g (some h) = g ≤ (heap h).generation

  activate-IsAtLeast :
      (c e g : ℕ) (d : Directory)
      → IsAtLeast g (current e d)
      → IsAtLeast g (current e (activate heap (some c) d).0)
  unfolding activate
  activate-IsAtLeast c e g d h = ground arith

  activate_all-IsAtLeast :
      (cs : List ℕ) (e g : ℕ) (d : Directory)
      → IsAtLeast g (current e d)
      → IsAtLeast g (current e (activate_all cs d))
  unfolding activate_all
  activate_all-IsAtLeast [] e g d h = h
  activate_all-IsAtLeast (c ∷ cs) e g d h =
      activate_all-IsAtLeast cs e g (activate heap (some c) d).0 (activate-IsAtLeast c e g d h)

  activated-IsAtLeast :
      (c : ℕ) (d : Directory)
      → (activate heap (some c) d).2 ≡ true
      → IsAtLeast (heap c).generation (current (heap c).endpoint_id (activate heap (some c) d).0)
  unfolding activate
  activated-IsAtLeast c d h = ground arith

  with_current_old :
      {S : Type 0} (old : ℕ) (g : ℕ) (operation : S → S × Option SendError) (d : Directory) (s : S)
      → IsAtLeast g (current (heap old).endpoint_id d)
      → (heap old).generation < g
      → with_current heap (some old) operation d s ≡ (s, some fenced)
  unfolding with_current
  with_current_old old g operation d s h lt = ground arith

  -- Once a connection has been activated, an older one of the same endpoint is fenced: as long as
  -- connections are only activated, in any number and order, no operation runs for the older one.
  pub with_current_fenced :
      {S : Type 0} (new old : ℕ) (later : List ℕ) (operation : S → S × Option SendError)
      (d : Directory) (s : S)
      → (activate heap (some new) d).2 ≡ true
      → (heap old).endpoint_id ≡ (heap new).endpoint_id
      → (heap old).generation < (heap new).generation
      → with_current heap (some old) operation (activate_all later (activate heap (some new) d).0) s
        ≡ (s, some fenced)
  with_current_fenced new old later operation d s won same lt =
      with_current_old old (heap new).generation operation
        (activate_all later (activate heap (some new) d).0) s
        (rw same (
          activate_all-IsAtLeast later (heap new).endpoint_id (heap new).generation
            (activate heap (some new) d).0 (activated-IsAtLeast new d won)))
        lt

  -- Removing a connection takes only that connection off its lane: a removal that comes late, when
  -- a newer connection is current, changes nothing.
  pub remove_lem :
      (c : ℕ) (d : Directory) (e : ℕ)
      → current e (remove heap (some c) d) ≡ (
          if same_handle (current (heap c).endpoint_id d) c && e == (heap c).endpoint_id
          then none
          else current e d)
  unfolding remove
  remove_lem c d e = ground arith
