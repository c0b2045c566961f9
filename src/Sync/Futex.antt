-- ===== src/Sync/Futex.antt =====
-- `cellar_futex_wait` and `cellar_futex_wake` of src/sync/sync.c between threads: a wake ends the
-- wait of the thread that the kernel chooses, and of none if that thread is not asleep.
use fantastic_octo_meme.Prelude.{
  ℕ, List, [], ◌∷◌, ◌++◌, ◌≡◌, ◌==◌, refl, Option, none, some, if◌then◌else◌,
}
use fantastic_octo_meme.Sync.{Threads, act}

module _ {P M : Type 0} (local : M → ℕ → P → ℕ × P) (wakes : M → P → Option ℕ)
    (resume : P → P) where
  abbrev pub wake_up : Option ℕ → Threads P → Threads P
  wake_up none s = s
  wake_up (some v) s = record s { at = λ u. if u == v then resume (s.at u) else s.at u }

  -- One move of thread `t`, with the thread that it wakes.
  abbrev pub step : M → ℕ → Threads P → Threads P
  step m t s = wake_up (wakes m (s.at t)) (act local m t s)

  abbrev pub steps : List (M × ℕ) → Threads P → Threads P
  steps [] s = s
  steps ((m, t) ∷ ms) s = steps ms (step m t s)

  pub steps-append :
      (xs ys : List (M × ℕ)) (s : Threads P) → steps (xs ++ ys) s ≡ steps ys (steps xs s)
  steps-append [] ys s = refl
  steps-append ((m, t) ∷ xs) ys s = steps-append xs ys (step m t s)
