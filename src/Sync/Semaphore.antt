-- ===== src/Sync/Semaphore.antt =====
-- `cellar_semaphore_t`: the word is the count, an `int` of 32 bits.
pub mod Counts
pub mod Oversleeps
use fantastic_octo_meme.Prelude.{
  ℕ, ◌+◌, ◌-◌, ◌%◌, ◌^◌, Bool, ◌&&◌, ltb, ◌==◌, Option, none, some, if◌then◌else◌,
}
use fantastic_octo_meme.Sync.{Threads}

-- Where a thread stands: outside, before the load of `wait`, before the exchange or the wait with
-- the value that it read, in the wait, or before the wake of `post`.
pub data Place : Type 0 where
  idle loading asleep waking : Place
  comparing waiting : ℕ → Place

-- A wake comes with the thread that it chooses.
pub data Move : Type 0 where
  call_wait load compare_exchange weak_failure futex_wait signal call_post : Move
  futex_wake : ℕ → Move

-- `c > 0`, for the bits of an `int`.
abbrev pub positive : ℕ → Bool
positive c = ltb 0 c && ltb c (2 ^ 31)

-- `cellar_semaphore_wait` and `cellar_semaphore_post`, move by move: an exchange that fails reads
-- the count again, and the wait is for that value.
abbrev pub local : Move → ℕ → Place → ℕ × Place
local call_wait w idle = (w, loading)
local load w loading = (w, if positive w then comparing w else waiting w)
local compare_exchange w (comparing c) = if w == c then (c - 1, idle) else (w, waiting w)
local weak_failure w (comparing c) = (w, waiting w)
local futex_wait w (waiting c) = (w, if w == c then asleep else loading)
local signal w (waiting c) = (w, loading)
local signal w asleep = (w, loading)
local call_post w idle = ((w + 1) % 2 ^ 32, waking)
local (futex_wake u) w waking = (w, idle)
local _ w p = (w, p)

abbrev pub wakes : Move → Place → Option ℕ
wakes (futex_wake u) waking = some u
wakes _ p = none

-- The wait of a thread that is woken returns, and the loop begins again.
abbrev pub resume : Place → Place
resume asleep = loading
resume p = p

-- `cellar_semaphore_init`, before any thread comes.
abbrev pub start : ℕ → Threads Place
start initial = record { word = initial; at = λ t. idle }
