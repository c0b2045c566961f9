-- ===== src/Sync/Sleepers.antt =====
-- A thread that sleeps where no thread is about to wake one, from what single moves do.
use fantastic_octo_meme.Prelude.{
  ℕ, ◌≡◌, ◌≢◌, List, [], ◌∷◌, ◌==◌, ◌&&◌, arith, Bool, true, Bool-cases, inl, inr, none, Option,
}
use fantastic_octo_meme.Sync.{Threads}
use fantastic_octo_meme.Sync.Futex.{step, steps}

module _ {P M : Type 0} (local : M → ℕ → P → ℕ × P) (wakes : M → P → Option ℕ) (resume : P → P)
    (asleep waking : P) (is_quiet : M → Bool) where
  -- All moves of the schedule are quiet.
  abbrev pub all_quiet : List (M × ℕ) → Bool
  all_quiet [] = true
  all_quiet ((m, t) ∷ ms) = is_quiet m && all_quiet ms

  abbrev pub Sleeps : ℕ → Threads P → Type 0
  Sleeps b s = (s.at b ≡ asleep) × ((t : ℕ) → s.at t ≢ waking)

  -- A quiet move neither ends a wait nor leads to a wake, and only the waking ones wake.
  abbrev pub Quiet : Type 0
  Quiet =
      (m : M) (w : ℕ) (p : P)
      → is_quiet m ≡ true
      → ((local m w asleep).1 ≡ asleep) × (p ≢ waking → (local m w p).1 ≢ waking)

  abbrev pub OnlyWaking : Type 0
  OnlyWaking = (m : M) (p : P) → p ≢ waking → wakes m p ≡ none

  module _ (quiet : Quiet) (only : OnlyWaking) where
    step-Sleeps :
        (b t : ℕ) (m : M) (s : Threads P)
        → is_quiet m ≡ true
        → Sleeps b s
        → Sleeps b (step local wakes resume m t s)
    step-Sleeps b t m s q (sleeps, calm) = rw (only m (s.at t) (calm t)) (
      elim (Bool-cases (b == t)) [
        | inl mine ↦ ground (arith, (quiet m s.word (s.at t) q).0, sleeps)
        | inr other ↦ rw other sleeps
      ],
      λ u. ground (arith, calm u, (quiet m s.word (s.at t) q).1 (calm t)),
    )

    pub steps-Sleeps :
        (b : ℕ) (ms : List (M × ℕ)) (s : Threads P)
        → all_quiet ms ≡ true
        → Sleeps b s
        → Sleeps b (steps local wakes resume ms s)
    steps-Sleeps b [] s q h = h
    steps-Sleeps b ((m, t) ∷ ms) s q h =
        steps-Sleeps b ms (step local wakes resume m t s) (ground arith)
          (step-Sleeps b t m s (ground arith) h)
