-- ===== src/Sync/Mutex.antt =====
-- `cellar_mutex_t`: the word is 0 for free, 1 for held and 2 for held with threads that may wait.
-- A wait may end without a wake, by a signal, so being woken is such an end as well.
use fantastic_octo_meme.Prelude.{
  ℕ, List, [], ◌∷◌, ◌++◌, ◌≡◌, ◌≢◌, inl, inr, ◌==◌, if◌then◌else◌, Bool-cases, arith, refl,
}
use fantastic_octo_meme.Sync.{Threads, act, run}
use fantastic_octo_meme.Sync.Pairs.{Pair, move_first, move_second}
use fantastic_octo_meme.Sync.Exclusion.{Guards, run-Excludes}

-- Where a thread stands: outside, before the first exchange of `lock`, before it marks the lock
-- contended, before the wait, in it, before the next try, with the lock, or before the wake of
-- `unlock`.
pub data Place : Type 0 where
  idle fast mark wait asleep retry held waking : Place

pub data Move : Type 0 where
  call_lock call_trylock call_unlock : Move
  compare_exchange weak_failure exchange futex_wait wait_ends futex_wake : Move

-- `cellar_mutex_lock`, `cellar_mutex_trylock` and `cellar_mutex_unlock`, move by move: the word and
-- the place after one.
abbrev pub local : Move → ℕ → Place → ℕ × Place
local call_lock w idle = (w, fast)
local compare_exchange w fast = if w == 0 then (1, held) else (w, if w == 2 then wait else mark)
local compare_exchange w retry = if w == 0 then (2, held) else (w, mark)
local weak_failure w fast = (w, if w == 2 then wait else mark)
local weak_failure w retry = (w, mark)
local exchange w mark = (2, wait)
local futex_wait w wait = (w, if w == 2 then asleep else retry)
local wait_ends w wait = (w, retry)
local wait_ends w asleep = (w, retry)
local call_trylock w idle = (1, if w == 0 then held else idle)
local call_unlock w held = (0, if w == 2 then waking else idle)
local futex_wake w waking = (w, idle)
local _ w p = (w, p)

-- `cellar_mutex_init`, before any thread comes.
abbrev pub start : Threads Place
start = record { word = 0; at = λ t. idle }

local-Guards : Guards local held
local-Guards m w p = ground arith

idle-ne-held : idle ≢ held
idle-ne-held h = cc

-- On every schedule of any number of threads, at most one holds the mutex at a time.
pub mutex_excludes :
    (ms : List (Move × ℕ)) (a b : ℕ)
    → (run local ms start).at a ≡ held
    → (run local ms start).at b ≡ held
    → a ≡ b
mutex_excludes ms a b =
    (run-Excludes local held local-Guards ms start
        ((λ c d h. absurd (idle-ne-held h)), (λ c h. absurd (idle-ne-held h)))).0
      a b

-- The lock is marked as taken, and no thread has it.
abbrev pub Lost : Threads Place → Type 0
Lost s = (s.word ≢ 0) × ((t : ℕ) → s.at t ≢ held)

local-Lost :
    (m : Move) (w : ℕ) (p : Place)
    → w ≢ 0
    → p ≢ held
    → ((local m w p).0 ≢ 0) × ((local m w p).1 ≢ held)
local-Lost m w p = ground arith

act-Lost : (m : Move) (t : ℕ) (s : Threads Place) → Lost s → Lost (act local m t s)
act-Lost m t s (marked, free) =
    let l = local-Lost m s.word (s.at t) marked (free t) in (l.0, λ u. ground (arith, l.1, free u))

run-Lost : (ms : List (Move × ℕ)) (s : Threads Place) → Lost s → Lost (run local ms s)
run-Lost [] s h = h
run-Lost ((m, t) ∷ ms) s h = run-Lost ms (act local m t s) (act-Lost m t s h)

-- `a` locks, `b` fails to lock, `a` unlocks, and only then `b` marks the lock as contended.
abbrev pub late_mark : ℕ → ℕ → List (Move × ℕ)
late_mark a b =
    (call_lock, a)
    ∷ (compare_exchange, a)
    ∷ (call_lock, b)
    ∷ (compare_exchange, b)
    ∷ (call_unlock, a)
    ∷ (exchange, b)
    ∷ (futex_wait, b)
    ∷ []

run-append :
    (xs ys : List (Move × ℕ)) (s : Threads Place)
    → run local (xs ++ ys) s ≡ run local ys (run local xs s)
run-append [] ys s = refl
run-append ((m, t) ∷ xs) ys s = run-append xs ys (act local m t s)

module _ (a b : ℕ) (ne : a ≢ b) where
  late_mark-Pair : Pair local idle a b ne (run local (late_mark a b) start) 2 idle asleep
  late_mark-Pair =
      let s1 =
        move_first local idle a b ne call_lock start 0 idle idle
          (refl, refl, refl, λ t x y. refl) in
      let s2 = move_first local idle a b ne compare_exchange _ 0 fast idle s1 in
      let s3 = move_second local idle a b ne call_lock _ 1 held idle s2 in
      let s4 = move_second local idle a b ne compare_exchange _ 1 held fast s3 in
      let s5 = move_first local idle a b ne call_unlock _ 1 held mark s4 in
      let s6 = move_second local idle a b ne exchange _ 0 idle mark s5 in
      move_second local idle a b ne futex_wait _ 2 idle wait s6

  late_mark-Lost : Lost (run local (late_mark a b) start)
  late_mark-Lost =
      let (w, p, q, rest) = late_mark-Pair in
      (
        λ e. absurd (omega arith),
        λ t h. elim (Bool-cases (t == a)) [
          | inl is_a ↦ ground (arith, p)
          | inr not_a ↦ ground (arith, q, rest t)
        ],
      )

-- A thread that marks the lock as contended after its holder has unlocked it leaves it marked with
-- no holder: whatever any threads do afterwards, none of them ever gets the mutex.
pub mutex_lost :
    (a b : ℕ) (ms : List (Move × ℕ)) (t : ℕ)
    → a ≢ b
    → (run local (late_mark a b ++ ms) start).at t ≢ held
mutex_lost a b ms t ne =
    rw (run-append (late_mark a b) ms start)
      ((run-Lost ms (run local (late_mark a b) start) (late_mark-Lost a b ne)).1 t)
