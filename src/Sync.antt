-- ===== src/Sync.antt =====
-- src/sync/sync.c: locks on one shared word. A thread stands between two atomic operations; a move
-- of a thread is one of them, or a call or return of the kernel, and does nothing where the thread
-- does not stand before it. A schedule is a list of moves, each with its thread.
pub mod Exclusion
pub mod Futex
pub mod Mutex
pub mod Pairs
pub mod Semaphore
pub mod Sleepers
pub mod Event
pub mod Spinlock
use fantastic_octo_meme.Prelude.{ℕ, List, [], ◌∷◌, ◌==◌, if◌then◌else◌}

-- The word, and where each thread stands.
pub record Threads (P : Type 0) : Type 0 where
  pub word : ℕ
  pub at : ℕ → P

module _ {P M : Type 0} (local : M → ℕ → P → ℕ × P) where
  -- One move of thread `t`.
  abbrev pub act : M → ℕ → Threads P → Threads P
  act m t s = record {
    word = (local m s.word (s.at t)).0;
    at = λ u. if u == t then (local m s.word (s.at t)).1 else s.at u;
  }

  abbrev pub run : List (M × ℕ) → Threads P → Threads P
  run [] s = s
  run ((m, t) ∷ ms) s = run ms (act m t s)
