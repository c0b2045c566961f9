-- ===== src/Tests/Sync.antt =====
-- src/sync/sync.c on short schedules of two threads.
use fantastic_octo_meme.Prelude.{
  ℕ, List, [], ◌∷◌, ◌++◌, ◌≡◌, ◌≢◌, refl, arith, ◌+◌, ◌==◌, ◌||◌, if◌then◌else◌,
}
use fantastic_octo_meme.Sync.{Threads, run}
use fantastic_octo_meme.Sync.Futex.{steps}
use fantastic_octo_meme.Sync.Event
use fantastic_octo_meme.Sync.Event.{event_forgets}
use fantastic_octo_meme.Sync.Semaphore
use fantastic_octo_meme.Sync.Semaphore.Counts.{semaphore_counts, taken, given}
use fantastic_octo_meme.Sync.Semaphore.Oversleeps.{semaphore_oversleeps, race}
use fantastic_octo_meme.Sync.Mutex
use fantastic_octo_meme.Sync.Mutex.{mutex_excludes, mutex_lost}
use fantastic_octo_meme.Sync.Spinlock
use fantastic_octo_meme.Sync.Spinlock.{spinlock_excludes, spinlock_available}

-- Thread 1 gets the mutex after thread 2 gave it back and woke it.
abbrev handover : List (Mutex.Move × ℕ)
handover =
    (Mutex.Move.call_lock, 2)
    ∷ (Mutex.Move.compare_exchange, 2)
    ∷ (Mutex.Move.call_lock, 1)
    ∷ (Mutex.Move.compare_exchange, 1)
    ∷ (Mutex.Move.exchange, 1)
    ∷ (Mutex.Move.futex_wait, 1)
    ∷ (Mutex.Move.call_unlock, 2)
    ∷ (Mutex.Move.futex_wake, 2)
    ∷ (Mutex.Move.wait_ends, 1)
    ∷ (Mutex.Move.compare_exchange, 1)
    ∷ []

mutex_excludes_example : ◌≡◌ {A = ℕ} 1 1
mutex_excludes_example = mutex_excludes handover 1 1 refl refl

mutex_lost_example :
    (run Mutex.local (Mutex.late_mark 1 2 ++ (Mutex.Move.call_lock, 3) ∷ []) Mutex.start).at 3
    ≢ Mutex.Place.held
mutex_lost_example = mutex_lost 1 2 ((Mutex.Move.call_lock, 3) ∷ []) 3 (λ e. absurd (omega arith))

-- Thread 5 is the only one, and about to take the lock.
abbrev arrival : List (Spinlock.Move × ℕ)
arrival = (Spinlock.Move.call_lock, 5) ∷ []

arrival_free : (u : ℕ) → (run Spinlock.local arrival Spinlock.start).at u ≢ Spinlock.Place.held
arrival_free u h = ground arith

-- Threads 1 and 2 sleep until thread 3 sets the event.
abbrev waiters : Threads Event.Place
waiters = record {
  word = 0;
  at = λ t. if t == 1 || t == 2 then Event.Place.asleep else Event.Place.idle;
}

waiters_reached :
    (steps Event.local Event.wakes Event.resume
        ((Event.Move.call_wait, 1) ∷ (Event.Move.load, 1) ∷ (Event.Move.futex_wait, 1) ∷ [])
        Event.start).at
      1
    ≡ Event.Place.asleep
waiters_reached = refl

waiters_calm : (t : ℕ) → waiters.at t ≢ Event.Place.waking
waiters_calm t h = ground arith

-- A thread that comes later sees that the event is set.
abbrev latecomer : List (Event.Move × ℕ)
latecomer = (Event.Move.call_wait, 4) ∷ (Event.Move.load, 4) ∷ []

event_forgets_example :
    ((steps Event.local Event.wakes Event.resume (Event.set_by 3 1) waiters).word ≡ 1)
    × ((steps Event.local Event.wakes Event.resume (Event.set_by 3 1) waiters).at 1
        ≡ Event.Place.loading)
    × ((steps Event.local Event.wakes Event.resume (Event.set_by 3 1 ++ latecomer) waiters).at 2
        ≡ Event.Place.asleep)
event_forgets_example =
    event_forgets waiters 3 1 2 latecomer refl refl refl (λ e. absurd (omega arith)) waiters_calm
      refl

-- A third thread, which finds a unit left, does not wake thread 2.
semaphore_oversleeps_example :
    ((steps Semaphore.local Semaphore.wakes Semaphore.resume (race 1 2) (Semaphore.start 2)).word
      ≡ 1)
    × ((steps Semaphore.local Semaphore.wakes Semaphore.resume
            (race 1 2 ++ (Semaphore.Move.call_wait, 3) ∷ (Semaphore.Move.load, 3) ∷ [])
            (Semaphore.start 2)).at
          2
        ≡ Semaphore.Place.asleep)
semaphore_oversleeps_example =
    semaphore_oversleeps 2 1 2 ((Semaphore.Move.call_wait, 3) ∷ (Semaphore.Move.load, 3) ∷ [])
      (omega arith) (omega arith) (λ e. absurd (omega arith)) refl

-- A unit is posted and taken.
abbrev exchange_of_units : List (Semaphore.Move × ℕ)
exchange_of_units =
    (Semaphore.Move.call_post, 1)
    ∷ (Semaphore.Move.futex_wake 2, 1)
    ∷ (Semaphore.Move.call_wait, 2)
    ∷ (Semaphore.Move.load, 2)
    ∷ (Semaphore.Move.compare_exchange, 2)
    ∷ []

units_exchanged : taken exchange_of_units (Semaphore.start 0) ≡ 1
units_exchanged = refl

semaphore_counts_example :
    (steps Semaphore.local Semaphore.wakes Semaphore.resume exchange_of_units
        (Semaphore.start 0)).word
      + taken exchange_of_units (Semaphore.start 0)
    ≡ 0 + given exchange_of_units (Semaphore.start 0)
semaphore_counts_example = semaphore_counts 0 exchange_of_units (omega arith)
