-- ===== src/Ring/Refinement.antt =====
-- A ring behaves as a bounded queue, over every sequence of operations.
use fantastic_octo_meme.Prelude.{
  ℕ, ◌-◌, ◌≡◌, refl, arith, List, [], ◌∷◌, ◌++◌, length, min, take, drop, replicate, Option, some,
  none, length-replicate,
}
use fantastic_octo_meme.Memory.{Bytes, Outcome, done, ◌>>=◌}
use fantastic_octo_meme.Ring.{Ring, produce, peek, consume, discard}
use fantastic_octo_meme.Ring.Queue.{IsRing, contents}
use fantastic_octo_meme.Ring.Fifo.{peek_lem, consume_lem, discard_lem}
use fantastic_octo_meme.Ring.Produce.{produce_lem}

-- A call: all of the bytes are offered, or so many are asked for, in a destination of that size.
pub data Call : Type 0 where
  put : Bytes → Call
  get look skip : ℕ → Call

-- What a call gives back.
pub data Reply : Type 0 where
  count : ℕ → Reply
  bytes : ℕ → Bytes → Reply
  nothing : Reply

-- The queue of at most `cap` bytes: a call and the bytes stored, to its reply and the bytes after.
abbrev queue_step : ℕ → Bytes → Call → Reply × Bytes
queue_step cap q (put src) = let n = min (length src) (cap - length q) in (count n, q ++ take n src)
queue_step cap q (get len) =
    let n = min len (length q) in (bytes n (take n q ++ drop n (replicate len 0)), drop n q)
queue_step cap q (look len) =
    let n = min len (length q) in (bytes n (take n q ++ drop n (replicate len 0)), q)
queue_step cap q (skip len) = (nothing, drop len q)

abbrev pub queue_run : ℕ → Bytes → List Call → List Reply
queue_run cap q [] = []
queue_run cap q (c ∷ cs) = (queue_step cap q c).0 ∷ queue_run cap (queue_step cap q c).1 cs

-- The same calls of the ring's functions.
abbrev filled_in : Option Bytes → Bytes
filled_in none = []
filled_in (some b) = b

abbrev ring_step : Ring → Call → Outcome (Reply × Ring)
ring_step r (put src) = produce r (some src) (length src) >>= λ (n, r'). done (count n, r')
ring_step r (get len) =
    consume r (some (replicate len 0)) len >>= λ (n, dst, r'). done (bytes n (filled_in dst), r')
ring_step r (look len) =
    peek r (some (replicate len 0)) len >>= λ (n, dst). done (bytes n (filled_in dst), r)
ring_step r (skip len) = done (nothing, discard r len)

abbrev pub ring_run : Ring → List Call → Outcome (List Reply)
ring_run r [] = done []
ring_run r (c ∷ cs) = ring_step r c >>= λ (reply, r'). ring_run r' cs >>= λ rs. done (reply ∷ rs)

ring_step_lem :
    (r : Ring) (c : Call)
    → IsRing r
    → (r' : Ring) × (ring_step r c ≡ done ((queue_step r.capacity (contents r) c).0, r'))
      × (contents r' ≡ (queue_step r.capacity (contents r) c).1)
      × (r'.capacity ≡ r.capacity)
      × IsRing r'
ring_step_lem r (put src) valid =
    let (r', ran, now, cap, valid') = produce_lem r src (length src) valid (omega arith) in
    (r', rw ran refl, now, cap, valid')
ring_step_lem r (get len) valid =
    let (r', ran, now, cap, valid') =
      consume_lem r (replicate len 0) len valid (omega (arith, length-replicate {A = ℕ} len 0)) in
    (r', rw ran refl, now, cap, valid')
ring_step_lem r (look len) valid = (
  r,
  rw (peek_lem r (replicate len 0) len valid (omega (arith, length-replicate {A = ℕ} len 0))) refl,
  refl,
  refl,
  valid,
)
ring_step_lem r (skip len) valid =
    let (now, cap, valid') = discard_lem r len valid in (discard r len, refl, now, cap, valid')

-- Every sequence of calls on a valid ring runs to its end and gives the replies of the queue of the
-- same capacity that holds the same bytes.
pub ring_run_lem :
    (cs : List Call) (r : Ring)
    → IsRing r
    → ring_run r cs ≡ done (queue_run r.capacity (contents r) cs)
ring_run_lem [] r valid = refl
ring_run_lem (c ∷ cs) r valid =
    let (r', ran, now, cap, valid') = ring_step_lem r c valid in
    rw (ran, ring_run_lem cs r' valid', now, cap) refl
