-- ===== src/Sync/Exclusion.antt =====
-- Mutual exclusion, from what single moves do.
use fantastic_octo_meme.Prelude.{ℕ, List, [], ◌∷◌, ◌≡◌, ◌≢◌, ◌⊎◌, arith}
use fantastic_octo_meme.Sync.{Threads, act, run}

module _ {P M : Type 0} (local : M → ℕ → P → ℕ × P) (held : P) where
  -- No two threads hold the lock, and its word is not 0 while one does.
  abbrev pub Excludes : Threads P → Type 0
  Excludes s =
      ((a b : ℕ) → s.at a ≡ held → s.at b ≡ held → a ≡ b) × ((a : ℕ) → s.at a ≡ held → s.word ≢ 0)

  -- A move takes the lock only where the word is 0, and sets the word to 0 only from the lock.
  abbrev pub Guards : Type 0
  Guards =
      (m : M) (w : ℕ) (p : P)
      → ((local m w p).1 ≡ held
          → ((p ≡ held) × ((local m w p).0 ≡ w)) ⊎ ((w ≡ 0) × ((local m w p).0 ≢ 0)))
        × (w ≢ 0 → ((local m w p).0 ≢ 0) ⊎ (p ≡ held))

  module _ (guards : Guards) where
    act-Excludes : (m : M) (t : ℕ) (s : Threads P) → Excludes s → Excludes (act local m t s)
    act-Excludes m t s (one, marked) =
        let g = guards m s.word (s.at t) in
        (
          λ a b. ground (arith, g.0, one a b, one t b, one a t, marked a, marked b),
          λ a. ground (arith, g.0, g.1, one a t, marked a),
        )

    pub run-Excludes : (ms : List (M × ℕ)) (s : Threads P) → Excludes s → Excludes (run local ms s)
    run-Excludes [] s h = h
    run-Excludes ((m, t) ∷ ms) s h = run-Excludes ms (act local m t s) (act-Excludes m t s h)
