-- ===== src/Sync/Event.antt =====
-- `cellar_event_t`: the word is 1 when the event is set.
use fantastic_octo_meme.Prelude.{
  ℕ, ◌≡◌, ◌≢◌, List, [], ◌∷◌, ◌++◌, ◌==◌, arith, if◌then◌else◌, Bool, true, false, Option, none,
  some,
}
use fantastic_octo_meme.Sync.{Threads}
use fantastic_octo_meme.Sync.Futex.{steps, steps-append}
use fantastic_octo_meme.Sync.Sleepers.{all_quiet, Sleeps, Quiet, OnlyWaking, steps-Sleeps}

-- Where a thread stands: outside, before the load of `wait`, before the wait, in it, or before the
-- wake of `set`.
pub data Place : Type 0 where
  idle loading waiting asleep waking : Place

-- A wake comes with the thread that it chooses.
pub data Move : Type 0 where
  call_wait load futex_wait signal call_set call_reset : Move
  futex_wake : ℕ → Move

-- `cellar_event_wait`, `cellar_event_set` and `cellar_event_reset`, move by move.
abbrev pub local : Move → ℕ → Place → ℕ × Place
local call_wait w idle = (w, loading)
local load w loading = (w, if w == 0 then waiting else idle)
local futex_wait w waiting = (w, if w == 0 then asleep else loading)
local signal w waiting = (w, loading)
local signal w asleep = (w, loading)
local call_set w idle = (1, waking)
local (futex_wake u) w waking = (w, idle)
local call_reset w idle = (0, idle)
local _ w p = (w, p)

abbrev pub wakes : Move → Place → Option ℕ
wakes (futex_wake u) waking = some u
wakes _ p = none

-- The wait of a thread that is woken returns, and the loop begins again.
abbrev pub resume : Place → Place
resume asleep = loading
resume p = p

-- `cellar_event_init`, before any thread comes.
abbrev pub start : Threads Place
start = record { word = 0; at = λ t. idle }

-- A move that neither sets the event nor is a signal.
abbrev pub is_quiet : Move → Bool
is_quiet call_set = false
is_quiet signal = false
is_quiet m = true

local-Quiet : Quiet local wakes resume asleep waking is_quiet
local-Quiet m w p h = (ground arith, λ ne. ground arith)

wakes-OnlyWaking : OnlyWaking local wakes resume asleep waking is_quiet
wakes-OnlyWaking m p ne = ground arith

-- `setter` sets the event and wakes `woken`.
abbrev pub set_by : ℕ → ℕ → List (Move × ℕ)
set_by setter woken = (call_set, setter) ∷ (futex_wake woken, setter) ∷ []

module _ (s : Threads Place) (setter woken b : ℕ) (other : b ≢ woken)
    (calm : (t : ℕ) → s.at t ≢ waking) (sleeps : s.at b ≡ asleep) (free : s.at setter ≡ idle) where
  setter-ne : b ≢ setter
  setter-ne e = ground arith

  set_by-goes :
      ((steps local wakes resume (set_by setter woken) s).word ≡ 1)
      × Sleeps local wakes resume asleep waking is_quiet b
          (steps local wakes resume (set_by setter woken) s)
  set_by-goes =
      (ground arith, (ground (arith, setter-ne, other), λ t. ground (arith, calm t, free)))

-- Of two threads that sleep until the event is set, `cellar_event_set` wakes one: where no other
-- wake is under way, the second is still asleep with the event set, and it sleeps on whatever any
-- threads do, until the event is set once more or a signal comes.
pub event_forgets :
    (s : Threads Place) (setter woken b : ℕ) (ms : List (Move × ℕ))
    → s.at setter ≡ idle
    → s.at woken ≡ asleep
    → s.at b ≡ asleep
    → b ≢ woken
    → ((t : ℕ) → s.at t ≢ waking)
    → all_quiet local wakes resume asleep waking is_quiet ms ≡ true
    → ((steps local wakes resume (set_by setter woken) s).word ≡ 1)
      × ((steps local wakes resume (set_by setter woken) s).at woken ≡ loading)
      × ((steps local wakes resume (set_by setter woken ++ ms) s).at b ≡ asleep)
event_forgets s setter woken b ms free first sleeps other calm q =
    let set = set_by-goes s setter woken b other calm sleeps free in
    (
      set.0,
      ground (arith, free, first),
      rw (steps-append local wakes resume (set_by setter woken) ms s) (
          (steps-Sleeps local wakes resume asleep waking is_quiet local-Quiet wakes-OnlyWaking b ms
            (steps local wakes resume (set_by setter woken) s) q set.1).0),
    )
