-- ===== src/Gateway/Directory.antt =====
-- gateway/connection_directory.go: which connection is the current one of an endpoint. Connections
-- are pointers: a handle stands for the address, and the directory's users share what it points to.
-- A lane is an entry of `byTarget`; each method holds the lane's lock, so it is one step.
pub mod Fencing
use harness_platform_monorep.Prelude.{
  ℕ, zero, suc, ◌+◌, ◌-◌, ◌*◌, ◌/◌, ◌%◌, ◌^◌, ◌≤◌, ◌<◌, ◌≡◌, refl, sym, ap, ◌∙◌, ◌≢◌, ◌↔◌, ◌⊎◌, inl,
  inr, Bool, true, false, not, ◌&&◌, ◌||◌, Option, none, some, List, [], ◌∷◌, ◌++◌, map, arith, ltb,
  leb, ◌==◌, if◌then◌else◌, u64_mod, u64_inc, ltb→lt, lt→ltb, leb→le, ==_iff, Bool-cases,
  Option-cases, is_some, is_none, length, take, drop, replicate, length-append, length-take-le,
  keep, any, all, All, All-append, Text, text, text_eq, text_eq_refl, text_eq→eq, is_empty,
  byte_len, trim_space,
}
use harness_platform_monorep.Gateway.Queue.{Packet, SendError, fenced, offline}
use harness_platform_monorep.Gateway.Queue.Control.{Control}

-- The fields of an `activeConnection` that never change.
pub record Connection : Type 0 where
  pub endpoint_id : ℕ
  pub generation : ℕ

-- `memoryConnectionDirectory`: no lane, a lane with no connection, or a lane with one.
pub record Directory : Type 0 where
  pub lane : ℕ → Option (Option ℕ)

unfoldable pub new_directory : Directory
new_directory = record { lane = λ endpoint. none }

abbrev pub set_lane : ℕ → Option ℕ → Directory → Directory
set_lane endpoint current d = record {
  lane = λ e. if e == endpoint then some current else d.lane e;
}

-- `lane.current.Load()`.
abbrev pub current : ℕ → Directory → Option ℕ
current endpoint d = elim (d.lane endpoint) [ none ↦ none | some c ↦ c ]

abbrev pub same_handle : Option ℕ → ℕ → Bool
same_handle none candidate = false
same_handle (some h) candidate = h == candidate

-- The test of `activate`: a connection that is there, and is not older.
abbrev pub keeps : (ℕ → Connection) → Option ℕ → ℕ → Bool
keeps heap none candidate = false
keeps heap (some h) candidate = leb (heap candidate).generation (heap h).generation

module _ (heap : ℕ → Connection) where
  -- `activate`, of a connection or nil: the connection that was there before, and whether the
  -- candidate took its place.
  unfoldable pub activate : Option ℕ → Directory → Directory × Option ℕ × Bool
  activate none d = (d, none, false)
  activate (some candidate) d =
      let endpoint = (heap candidate).endpoint_id in
      let before = current endpoint d in
      if endpoint == 0 || (heap candidate).generation == 0
      then (d, none, false)
      else if keeps heap before candidate
      then (set_lane endpoint before d, before, false)
      else (set_lane endpoint (some candidate) d, before, true)

  -- `remove`, of a connection or nil.
  unfoldable pub remove : Option ℕ → Directory → Directory
  remove none d = d
  remove (some candidate) d =
      let endpoint = (heap candidate).endpoint_id in
      if same_handle (current endpoint d) candidate then set_lane endpoint none d else d

  -- `withCurrent`: the operation runs, with its own state and error, only for the current
  -- connection.
  unfoldable pub with_current :
      {S : Type 0} → Option ℕ → (S → S × Option SendError) → Directory → S → S × Option SendError
  with_current none operation d s = (s, some fenced)
  with_current (some candidate) operation d s =
      let result = operation s in
      if same_handle (current (heap candidate).endpoint_id d) candidate
      then result
      else (s, some fenced)

-- `online`.
unfoldable pub online : ℕ → Directory → Bool
online endpoint d = is_some (current endpoint d)

-- What the pointers point to, as far as it changes.
abbrev pub Controls : Type 0
Controls = ℕ → Control

abbrev set_control : ℕ → Control → Controls → Controls
set_control h c controls = λ j. if j == h then c else controls j

-- `send` and `sendNextControl`: the current connection's queue, or offline.
unfoldable pub on_current :
    (Control → Control × Option SendError) → ℕ → Directory → Controls → Controls × Option SendError
on_current method endpoint d controls = elim (current endpoint d) [
  | none ↦ (controls, some offline)
  | some h ↦ let (c, error) = method (controls h) in (set_control h c controls, error)
]
