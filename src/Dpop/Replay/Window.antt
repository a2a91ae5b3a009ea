-- ===== src/Dpop/Replay/Window.antt =====
-- dpop/replay.go: no proof is used twice before it expires, and the cache stays within its limit.
use harness_platform_monorep.Prelude.{
  ℕ, ◌≤◌, ◌<◌, ◌≡◌, refl, ◌≢◌, ◌⊎◌, true, false, Option, none, some, List, [], ◌∷◌, arith, length,
  All, Text, text_eq_refl, is_empty,
}
use harness_platform_monorep.Dpop.Replay.{
  MemoryReplayCache, UseError, replay, key_of, purge, exists, use_locked, use_proof,
}

-- A call of `Use`, with the time of the call.
pub record Proof : Type 0 where
  pub jkt : Text
  pub jti : Text
  pub now : ℕ
  pub expires_at : ℕ

abbrev pub submit : Proof → MemoryReplayCache → MemoryReplayCache × Option UseError
submit p cache = use_proof p.jkt p.jti p.now p.expires_at cache

unfoldable pub run : List Proof → MemoryReplayCache → MemoryReplayCache
run [] cache = cache
run (p ∷ proofs) cache = run proofs (submit p cache).0

length-purge-le : (now : ℕ) (es : List (Text × ℕ)) → length (purge now es) ≤ length es
unfolding purge
length-purge-le now [] = omega arith
length-purge-le now ((k, e) ∷ es) = ground (arith, length-purge-le now es)

abbrev pub IsBounded : MemoryReplayCache → Type 0
IsBounded cache = length cache.entries ≤ cache.max_entries

use_proof-IsBounded :
    (p : Proof) (cache : MemoryReplayCache) → IsBounded cache → IsBounded (submit p cache).0
unfolding use_proof use_locked
use_proof-IsBounded p cache h = ground (arith, length-purge-le p.now cache.entries)

-- The cache never holds more entries than its limit.
pub run-IsBounded :
    (proofs : List Proof) (cache : MemoryReplayCache)
    → IsBounded cache
    → IsBounded (run proofs cache)
unfolding run
run-IsBounded [] cache h = h
run-IsBounded (p ∷ proofs) cache h =
    run-IsBounded proofs (submit p cache).0 (use_proof-IsBounded p cache h)

-- The key is held with an expiry that is at least the given time.
abbrev Holds : Text → ℕ → List (Text × ℕ) → Type 0
Holds key until [] = ⊥
Holds key until ((k, e) ∷ es) = ((k ≡ key) × (until ≤ e)) ⊎ Holds key until es

purge-Holds :
    (key : Text) (until now : ℕ) (es : List (Text × ℕ))
    → now < until
    → Holds key until es
    → Holds key until (purge now es)
unfolding purge
purge-Holds key until now [] lt h = h
purge-Holds key until now ((k, e) ∷ es) lt h = ground (arith, purge-Holds key until now es)

Holds-exists :
    (key : Text) (until : ℕ) (es : List (Text × ℕ)) → Holds key until es → exists key es ≡ true
unfolding exists
Holds-exists key until [] h = absurd h
Holds-exists key until ((k, e) ∷ es) h = ground (arith, text_eq_refl key, Holds-exists key until es)

submit-Holds :
    (key : Text) (until : ℕ) (p : Proof) (cache : MemoryReplayCache)
    → p.now < until
    → Holds key until cache.entries
    → Holds key until (submit p cache).0.entries
unfolding use_proof use_locked
submit-Holds key until p cache lt h = ground (arith, purge-Holds key until p.now cache.entries)

run-Holds :
    (key : Text) (until : ℕ) (proofs : List Proof) (cache : MemoryReplayCache)
    → All (λ p. p.now < until) proofs
    → Holds key until cache.entries
    → Holds key until (run proofs cache).entries
unfolding run
run-Holds key until [] cache lt h = h
run-Holds key until (p ∷ proofs) cache lt h =
    run-Holds key until proofs (submit p cache).0 lt.1 (submit-Holds key until p cache lt.0 h)

accepted-Holds :
    (p : Proof) (cache : MemoryReplayCache)
    → (submit p cache).1 ≡ none
    → Holds (key_of p.jkt p.jti) p.expires_at (submit p cache).0.entries
unfolding use_proof use_locked
accepted-Holds p cache h = ground arith

accepted_input :
    (p : Proof) (cache : MemoryReplayCache)
    → (submit p cache).1 ≡ none
    → (is_empty p.jkt ≡ false) × (is_empty p.jti ≡ false)
unfolding use_proof use_locked
accepted_input p cache h = ground arith

Holds-replay :
    (q : Proof) (until : ℕ) (cache : MemoryReplayCache)
    → (is_empty q.jkt ≡ false) × (is_empty q.jti ≡ false)
    → 0 < q.now
    → q.now < q.expires_at
    → q.now < until
    → Holds (key_of q.jkt q.jti) until cache.entries
    → (submit q cache).1 ≡ some replay
unfolding use_proof use_locked
Holds-replay q until cache named real fresh lt h =
    let kept = purge-Holds (key_of q.jkt q.jti) until q.now cache.entries lt h in
    ground (arith, Holds-exists (key_of q.jkt q.jti) until (purge q.now cache.entries) kept)

-- A proof that was accepted is a replay as long as it has not expired: whatever proofs are
-- submitted in between, if all of these and the second submission happen before the expiry, a
-- second submission with the same thumbprint and identifier, and a valid window of its own, is
-- answered by `ErrReplay`.
pub replay_refused :
    (p q : Proof) (between : List Proof) (cache : MemoryReplayCache)
    → (submit p cache).1 ≡ none
    → q.jkt ≡ p.jkt
    → q.jti ≡ p.jti
    → All (λ r. r.now < p.expires_at) between
    → 0 < q.now
    → q.now < q.expires_at
    → q.now < p.expires_at
    → (submit q (run between (submit p cache).0)).1 ≡ some replay
replay_refused p q between cache accepted jkt jti lt real fresh last =
    Holds-replay q p.expires_at (run between (submit p cache).0)
      (rw (jkt, jti) (accepted_input p cache accepted)) real fresh last
      (rw (jkt, jti)
        (run-Holds (key_of p.jkt p.jti) p.expires_at between (submit p cache).0 lt
          (accepted-Holds p cache accepted)))

-- Two pairs of a thumbprint and an identifier share a key only if they are equal, provided that no
-- thumbprint holds a zero character.
pub key_of-injective :
    (jkt jkt' jti jti' : Text)
    → All (λ c. c ≢ 0) jkt
    → All (λ c. c ≢ 0) jkt'
    → key_of jkt jti ≡ key_of jkt' jti'
    → (jkt ≡ jkt') × (jti ≡ jti')
key_of-injective [] [] jti jti' h h' e = (refl, cc)
key_of-injective [] (c ∷ s) jti jti' h h' e = absurd (h'.0 (cc))
key_of-injective (c ∷ s) [] jti jti' h h' e = absurd (h.0 (cc))
key_of-injective (c ∷ s) (c' ∷ s') jti jti' h h' e =
    let (tails, rest) = key_of-injective s s' jti jti' h.1 h'.1 (cc) in (cc, rest)
