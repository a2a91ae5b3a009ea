-- ===== src/Dpop/Replay.antt =====
-- dpop/replay.go: the bounded cache of the proofs that were used. The map is an association list
-- with one entry for each key, in no order that anything reads; `ctx` is live, and the lock makes
-- each call one step.
pub mod Window
use harness_platform_monorep.Prelude.{
  ℕ, zero, suc, ◌+◌, ◌-◌, ◌*◌, ◌/◌, ◌%◌, ◌^◌, ◌≤◌, ◌<◌, ◌≡◌, refl, sym, ap, ◌∙◌, ◌≢◌, ◌↔◌, ◌⊎◌, inl,
  inr, Bool, true, false, not, ◌&&◌, ◌||◌, Option, none, some, List, [], ◌∷◌, ◌++◌, map, arith, ltb,
  leb, ◌==◌, if◌then◌else◌, u64_mod, u64_inc, ltb→lt, lt→ltb, leb→le, ==_iff, Bool-cases,
  Option-cases, is_some, is_none, length, take, drop, replicate, length-append, length-take-le,
  keep, any, all, All, All-append, Text, text, text_eq, text_eq_refl, text_eq→eq, is_empty,
  byte_len, trim_space,
}

pub data UseError : Type 0 where
  input_invalid replay capacity : UseError

pub record MemoryReplayCache : Type 0 where
  pub max_entries : ℕ
  pub entries : List (Text × ℕ)

-- `NewMemoryReplayCache`; a limit that is not positive is refused.
unfoldable pub new_cache : ℕ → Option MemoryReplayCache
new_cache max_entries =
    if max_entries == 0 then none else some (record { max_entries = max_entries; entries = [] })

-- `jkt + "\x00" + jti`.
abbrev pub key_of : Text → Text → Text
key_of jkt jti = jkt ++ 0 ∷ jti

-- The loop that deletes the entries whose expiry is not after `now`.
unfoldable pub purge : ℕ → List (Text × ℕ) → List (Text × ℕ)
purge now [] = []
purge now ((key, expiry) ∷ entries) =
    if not (ltb now expiry) then purge now entries else (key, expiry) ∷ purge now entries

unfoldable pub exists : Text → List (Text × ℕ) → Bool
exists key [] = false
exists key ((k, expiry) ∷ entries) = text_eq k key || exists key entries

-- What `Use` does with the lock held.
unfoldable pub use_locked : Text → ℕ → ℕ → MemoryReplayCache → MemoryReplayCache × Option UseError
unfolding purge exists
use_locked key now expires_at cache =
    let left = purge now cache.entries in
    let cache' = record cache { entries = left } in
    if exists key left
    then (cache', some replay)
    else if leb cache.max_entries (length left)
    then (cache', some capacity)
    else (record cache { entries = (key, expires_at) ∷ left }, none)

-- `MemoryReplayCache.Use`.
unfoldable pub use_proof :
    Text → Text → ℕ → ℕ → MemoryReplayCache → MemoryReplayCache × Option UseError
unfolding use_locked
use_proof jkt jti now expires_at cache =
    if is_empty jkt || is_empty jti || now == 0 || not (ltb now expires_at)
    then (cache, some input_invalid)
    else use_locked (key_of jkt jti) now expires_at cache
