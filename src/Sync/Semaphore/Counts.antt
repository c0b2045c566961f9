-- ===== src/Sync/Semaphore/Counts.antt =====
-- The count of a semaphore on every schedule.
use fantastic_octo_meme.Prelude.{
  ℕ, ◌+◌, ◌^◌, ◌<◌, ◌≡◌, List, [], ◌∷◌, length, ◌==◌, refl, arith, if◌then◌else◌, Bool-cases, inl,
  inr, Option, none, some,
}
use fantastic_octo_meme.Sync.{Threads, act}
use fantastic_octo_meme.Sync.Futex.{step, steps, wake_up}
use fantastic_octo_meme.Sync.Semaphore.{
  idle, comparing, compare_exchange, call_post, Place, Move, local, wakes, resume, start,
}

-- Whether a move takes a unit, or gives one.
abbrev pub takes : Move → ℕ → Place → ℕ
takes compare_exchange w (comparing c) = if w == c then 1 else 0
takes _ w p = 0

abbrev pub gives : Move → Place → ℕ
gives call_post idle = 1
gives _ p = 0

-- How many units the moves of a schedule take, and give.
abbrev pub taken : List (Move × ℕ) → Threads Place → ℕ
taken [] s = 0
taken ((m, t) ∷ ms) s = takes m s.word (s.at t) + taken ms (step local wakes resume m t s)

abbrev pub given : List (Move × ℕ) → Threads Place → ℕ
given [] s = 0
given ((m, t) ∷ ms) s = gives m (s.at t) + given ms (step local wakes resume m t s)

-- A thread stands before an exchange only with a value above 0.
abbrev Ready : Place → Type 0
Ready (comparing c) = 0 < c
Ready p = Unit {0}

local-Ready : (m : Move) (w : ℕ) (p : Place) → Ready p → Ready (local m w p).1
local-Ready m w p r = ground arith

resume-Ready : (p : Place) → Ready p → Ready (resume p)
resume-Ready p r = ground arith

act-Ready :
    (m : Move) (t : ℕ) (s : Threads Place)
    → ((u : ℕ) → Ready (s.at u))
    → (u : ℕ) → Ready ((act local m t s).at u)
act-Ready m t s r u = elim (Bool-cases (u == t)) [
  | inl here ↦ rw here (local-Ready m s.word (s.at t) (r t))
  | inr there ↦ rw there (r u)
]

wake_up-Ready :
    (v : Option ℕ) (s : Threads Place)
    → ((u : ℕ) → Ready (s.at u))
    → (u : ℕ) → Ready ((wake_up local wakes resume v s).at u)
wake_up-Ready none s r u = r u
wake_up-Ready (some v) s r u = elim (Bool-cases (u == v)) [
  | inl here ↦ rw here (resume-Ready (s.at u) (r u))
  | inr there ↦ rw there (r u)
]

-- What one move does to the count.
local-word :
    (m : Move) (w : ℕ) (p : Place)
    → Ready p
    → w + 1 < 2 ^ 32
    → (local m w p).0 + takes m w p ≡ w + gives m p
local-word m w p r h = ground arith

wake_up-word : (v : Option ℕ) (s : Threads Place) → (wake_up local wakes resume v s).word ≡ s.word
wake_up-word none s = refl
wake_up-word (some v) s = refl

counts_from :
    (ms : List (Move × ℕ)) (s : Threads Place)
    → ((u : ℕ) → Ready (s.at u))
    → s.word + length ms < 2 ^ 32
    → (steps local wakes resume ms s).word + taken ms s ≡ s.word + given ms s
counts_from [] s r h = omega arith
counts_from ((m, t) ∷ ms) s r h =
    let moved = act local m t s in
    let s' = step local wakes resume m t s in
    let same : s'.word ≡ (local m s.word (s.at t)).0 = wake_up-word (wakes m (s.at t)) moved in
    let one = local-word m s.word (s.at t) (r t) (omega arith) in
    let at_most : gives m (s.at t) < 2 = ground arith in
    let r' = wake_up-Ready (wakes m (s.at t)) moved (act-Ready m t s r) in
    omega (arith, counts_from ms s' r' (omega arith))

-- On every schedule of any number of threads that is too short to overflow the count, the count
-- and the units that were taken from it add up to the initial ones and those that were posted.
pub semaphore_counts :
    (initial : ℕ) (ms : List (Move × ℕ))
    → initial + length ms < 2 ^ 31
    → (steps local wakes resume ms (start initial)).word + taken ms (start initial)
      ≡ initial + given ms (start initial)
semaphore_counts initial ms h = counts_from ms (start initial) (λ u. tt) (omega arith)
