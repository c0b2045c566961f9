-- ===== src/Sync/Semaphore/Oversleeps.antt =====
-- A thread that sleeps although the semaphore has units left.
use fantastic_octo_meme.Prelude.{
  ℕ, ◌-◌, ◌^◌, ◌<◌, ◌≤◌, ◌≡◌, ◌≢◌, List, [], ◌∷◌, ◌++◌, ◌==◌, refl, arith, Bool, true, false,
  Bool-cases, inl, inr,
}
use fantastic_octo_meme.Sync.Pairs.{Pair, goes_first, goes_second}
use fantastic_octo_meme.Sync.Sleepers.{all_quiet, Sleeps, Quiet, OnlyWaking, steps-Sleeps}
use fantastic_octo_meme.Sync.Futex.{steps, steps-append}
use fantastic_octo_meme.Sync.Semaphore.{
  idle, loading, asleep, waking, comparing, waiting, call_wait, load, compare_exchange, futex_wait,
  signal, call_post, Move, local, wakes, resume, start,
}

-- `a` and `b` read the count, `a` takes a unit, the exchange of `b` fails, and `b` waits for the
-- value that is still the count.
abbrev pub race : ℕ → ℕ → List (Move × ℕ)
race a b =
    (call_wait, a)
    ∷ (load, a)
    ∷ (call_wait, b)
    ∷ (load, b)
    ∷ (compare_exchange, a)
    ∷ (compare_exchange, b)
    ∷ (futex_wait, b)
    ∷ []

-- A move that neither posts nor is a signal.
abbrev pub is_quiet : Move → Bool
is_quiet call_post = false
is_quiet signal = false
is_quiet m = true

local-Quiet : Quiet local wakes resume asleep waking is_quiet
local-Quiet m w p h = (ground arith, λ ne. ground arith)

wakes-OnlyWaking : OnlyWaking local wakes resume asleep waking is_quiet
wakes-OnlyWaking m p ne = ground arith

module _ (n : ℕ) (two : 2 ≤ n) (small : n < 2 ^ 31) where
  load_goes : local load n loading ≡ (n, comparing n)
  load_goes = ground arith

  exchange_goes : local compare_exchange n (comparing n) ≡ (n - 1, idle)
  exchange_goes = ground arith

  exchange_fails : local compare_exchange (n - 1) (comparing n) ≡ (n - 1, waiting (n - 1))
  exchange_fails = ground arith

  wait_goes : local futex_wait (n - 1) (waiting (n - 1)) ≡ (n - 1, asleep)
  wait_goes = ground arith

  module _ (a b : ℕ) (ne : a ≢ b) where
    race-Pair :
        Pair local idle a b ne (steps local wakes resume (race a b) (start n)) (n - 1) idle asleep
    race-Pair =
        let first = goes_first local idle a b ne in
        let second = goes_second local idle a b ne in
        let m = n - 1 in
        let c = comparing n in
        let s1 =
          first call_wait (start n) n n idle loading idle refl (refl, refl, refl, λ t x y. refl) in
        let s2 = first load _ n n loading c idle load_goes s1 in
        let s3 = second call_wait _ n n c idle loading refl s2 in
        let s4 = second load _ n n c loading c load_goes s3 in
        let s5 = first compare_exchange _ n m c idle c exchange_goes s4 in
        let s6 = second compare_exchange _ m m idle c (waiting m) exchange_fails s5 in
        second futex_wait _ m m idle (waiting m) asleep wait_goes s6

    race-Sleeps :
        Sleeps local wakes resume asleep waking is_quiet b
          (steps local wakes resume (race a b) (start n))
    race-Sleeps =
        let (w, p, q, rest) = race-Pair in
        (
          q,
          λ t h. elim (Bool-cases (t == a)) [
            | inl is_a ↦ ground (arith, p)
            | inr not_a ↦ ground (arith, q, rest t)
          ],
        )

-- Two threads that wait at once for a semaphore with units for both: one takes a unit, and the
-- other, whose exchange fails, goes to sleep although at least one unit is left. It sleeps on
-- whatever any threads do, until one posts or a signal comes.
pub semaphore_oversleeps :
    (n a b : ℕ) (ms : List (Move × ℕ))
    → 2 ≤ n
    → n < 2 ^ 31
    → a ≢ b
    → all_quiet local wakes resume asleep waking is_quiet ms ≡ true
    → ((steps local wakes resume (race a b) (start n)).word ≡ n - 1)
      × ((steps local wakes resume (race a b ++ ms) (start n)).at b ≡ asleep)
semaphore_oversleeps n a b ms two small ne q = (
  (race-Pair n two small a b ne).0,
  rw (steps-append local wakes resume (race a b) ms (start n)) (
      (steps-Sleeps local wakes resume asleep waking is_quiet local-Quiet wakes-OnlyWaking b ms
        (steps local wakes resume (race a b) (start n)) q (race-Sleeps n two small a b ne)).0),
)
