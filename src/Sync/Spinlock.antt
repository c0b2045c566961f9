-- ===== src/Sync/Spinlock.antt =====
-- `cellar_spinlock_t`: the word is 1 while the lock is held.
use fantastic_octo_meme.Prelude.{
  ℕ, List, [], ◌∷◌, refl, ◌≡◌, ◌≢◌, ◌⊎◌, inl, inr, ◌==◌, if◌then◌else◌, arith,
}
use fantastic_octo_meme.Sync.{Threads, act, run}
use fantastic_octo_meme.Sync.Exclusion.{Guards, run-Excludes}

-- Outside, before the exchange of `lock`, before the load of its inner loop, or with the lock.
pub data Place : Type 0 where
  idle exchanging loading held : Place

pub data Move : Type 0 where
  call_lock call_trylock call_unlock exchange load : Move

-- `cellar_spinlock_lock`, `cellar_spinlock_trylock` and `cellar_spinlock_unlock`, move by move.
abbrev pub local : Move → ℕ → Place → ℕ × Place
local call_lock w idle = (w, exchanging)
local exchange w exchanging = (1, if w == 0 then held else loading)
local load w loading = (w, if w == 0 then exchanging else loading)
local call_trylock w idle = (1, if w == 0 then held else idle)
local call_unlock w held = (0, idle)
local _ w p = (w, p)

-- `cellar_spinlock_init`, before any thread comes.
abbrev pub start : Threads Place
start = record { word = 0; at = λ t. idle }

local-Guards : Guards local held
local-Guards m w p = ground arith

idle-ne-held : idle ≢ held
idle-ne-held h = cc

-- On every schedule of any number of threads, at most one holds the spinlock at a time.
pub spinlock_excludes :
    (ms : List (Move × ℕ)) (a b : ℕ)
    → (run local ms start).at a ≡ held
    → (run local ms start).at b ≡ held
    → a ≡ b
spinlock_excludes ms a b =
    (run-Excludes local held local-Guards ms start
        ((λ c d h. absurd (idle-ne-held h)), (λ c h. absurd (idle-ne-held h)))).0
      a b

-- The word is not 0 only while a thread holds the lock.
abbrev pub IsHeld : Threads Place → Type 0
IsHeld s = (s.word ≡ 0) ⊎ ((t : ℕ) × (s.at t ≡ held))

local-IsHeld :
    (m : Move) (w : ℕ) (p : Place)
    → ((local m w p).0 ≡ 0) ⊎ ((local m w p).1 ≡ held) ⊎ ((w ≢ 0) × (p ≢ held))
local-IsHeld m w p = ground arith

act-IsHeld : (m : Move) (t : ℕ) (s : Threads Place) → IsHeld s → IsHeld (act local m t s)
act-IsHeld m t s h = elim (local-IsHeld m s.word (s.at t)) [
  | inl zero ↦ inl zero
  | inr (inl mine) ↦ inr (t, ground (arith, mine))
  | inr (inr (marked, not_mine)) ↦ elim h [
    | inl zero ↦ absurd (marked zero)
    | inr (u, has) ↦ inr (u, ground (arith, has, not_mine))
  ]
]

run-IsHeld : (ms : List (Move × ℕ)) (s : Threads Place) → IsHeld s → IsHeld (run local ms s)
run-IsHeld [] s h = h
run-IsHeld ((m, t) ∷ ms) s h = run-IsHeld ms (act local m t s) (act-IsHeld m t s h)

-- After every schedule, if no thread holds the spinlock, then a thread that stands before the
-- exchange of `lock` gets it by that exchange: the lock is never lost.
pub spinlock_available :
    (ms : List (Move × ℕ)) (t : ℕ)
    → ((u : ℕ) → (run local ms start).at u ≢ held)
    → (run local ms start).at t ≡ exchanging
    → (act local exchange t (run local ms start)).at t ≡ held
spinlock_available ms t free here =
    let s = run local ms start in
    elim (run-IsHeld ms start (inl refl)) [
      | inl zero ↦ rw (zero, here) (ground arith)
      | inr (u, has) ↦ absurd (free u has)
    ]
