-- ===== src/Tests/Ring.antt =====
-- src/shmem/shmem.c on a ring of four bytes whose counters are about to wrap.
use fantastic_octo_meme.Prelude.{ℕ, ◌-◌, ◌^◌, ◌≡◌, refl, arith, [], ◌∷◌, replicate, Option, some}
use fantastic_octo_meme.Memory.{Bytes, done}
use fantastic_octo_meme.Ring.{Ring}
use fantastic_octo_meme.Ring.Queue.{IsRing, contents}
use fantastic_octo_meme.Ring.Refinement.{Call, Reply, ring_run, ring_run_lem}

abbrev three : Ring
three = record { buf = 10 ∷ 20 ∷ 30 ∷ 40 ∷ []; capacity = 4; mask = 3; head = 2 ^ 64 - 2; tail = 1 }

three-IsRing : IsRing three
three-IsRing = (2, omega arith, refl, refl, refl, omega arith, omega arith, omega arith)

contents-three : contents three ≡ 30 ∷ 40 ∷ 10 ∷ []
unfolding contents
contents-three = refl

abbrev cleared : ℕ → Option Bytes
cleared size = some (replicate size 0)

ring_run_lem_example :
    ring_run three (Call.put (1 ∷ 2 ∷ []) ∷ Call.get 3 ∷ Call.skip 5 ∷ [])
    ≡ done (Reply.count 1 ∷ Reply.bytes 3 (30 ∷ 40 ∷ 10 ∷ []) ∷ Reply.nothing ∷ [])
unfolding contents
ring_run_lem_example =
    ring_run_lem (Call.put (1 ∷ 2 ∷ []) ∷ Call.get 3 ∷ Call.skip 5 ∷ []) three three-IsRing
