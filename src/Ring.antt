-- ===== src/Ring.antt =====
-- src/shmem/shmem.c: the ring buffer of one producer and one consumer. `head` and `tail` are 64-bit
-- counters that wrap, sizes are 64-bit, the mask has 32 bits. An operation returns its count with
-- the state after it; a null argument is `none`.
pub mod Slots
pub mod Valid
pub mod Queue
pub mod Fifo
pub mod Produce
pub mod Create
pub mod Refinement
use Prim.Native.Nat.{bit_and}
use fantastic_octo_meme.Prelude.{
  ℕ, zero, suc, ◌+◌, ◌-◌, ◌*◌, ◌%◌, ◌^◌, ltb, ◌==◌, min, Option, some, none, if◌then◌else◌,
}
use fantastic_octo_meme.Memory.{Bytes, Outcome, done, fail, pending, ◌>>=◌, slice, splice}
use fantastic_octo_meme.Status.{err_invalid_argument, err_out_of_memory}

-- `cellar_ring_t`.
pub record Ring : Type 0 where
  pub buf : Bytes
  pub capacity : ℕ
  pub mask : ℕ
  pub head : ℕ
  pub tail : ℕ

-- The loop of `round_up_pow2`, on fuel: `v <<= 1` drops the highest bit.
unfoldable pub round_from : ℕ → ℕ → ℕ → Outcome ℕ
round_from zero n v = pending
round_from (suc fuel) n v =
    let next = round_from fuel n (v * 2 % 2 ^ 64) in if ltb v n then next else done v

unfoldable pub round_up_pow2 : ℕ → ℕ → Outcome ℕ
round_up_pow2 fuel n = round_from fuel n 1

-- `cellar_ring_create`; `malloc` gives an object of the size asked for, or null.
unfoldable pub create : ℕ → (ℕ → Option Bytes) → ℕ → Outcome Ring
create fuel malloc capacity =
    if capacity == 0
    then fail err_invalid_argument
    else (round_up_pow2 fuel capacity >>= λ size. elim (malloc size) [
      | none ↦ fail err_out_of_memory
      | some object ↦
          done (record {
            buf = object;
            capacity = size;
            mask = (size - 1) % 2 ^ 32;
            head = 0;
            tail = 0;
          })
    ])

-- `cellar_ring_used` and `cellar_ring_free`.
abbrev pub used : Ring → ℕ
used r = (r.tail + 2 ^ 64 - r.head) % 2 ^ 64

abbrev pub free_space : Ring → ℕ
free_space r = (r.capacity + 2 ^ 64 - used r) % 2 ^ 64

-- `memcpy` into the buffer from `at` on, with the rest, if it is too long, at the buffer's start.
unfoldable pub copy_in : Ring → Bytes → ℕ → Outcome Bytes
copy_in r src len =
    let at = bit_and r.tail r.mask in
    let first = min (r.capacity - at) len in
    slice src 0 first >>= λ piece. splice r.buf at piece >>= λ buf1.
    if ltb first len
    then (slice src first (len - first) >>= λ rest. splice buf1 0 rest)
    else done buf1

-- `cellar_ring_produce`.
unfoldable pub produce : Ring → Option Bytes → ℕ → Outcome (ℕ × Ring)
produce r none len = done (0, r)
produce r (some src) len =
    let n = min len (free_space r) in
    if n == 0
    then done (0, r)
    else (copy_in r src n >>= λ buf. done (n, record r { buf = buf; tail = (r.tail + n) % 2 ^ 64 }))

-- The two `memcpy` out of the buffer, into the object at `dst`.
unfoldable pub copy_out : Ring → Bytes → ℕ → Outcome Bytes
copy_out r dst len =
    let at = bit_and r.head r.mask in
    let first = min (r.capacity - at) len in
    slice r.buf at first >>= λ piece. splice dst 0 piece >>= λ dst1.
    if ltb first len
    then (slice r.buf 0 (len - first) >>= λ rest. splice dst1 first rest)
    else done dst1

-- `cellar_ring_peek`, with the bytes that the destination holds after it.
unfoldable pub peek : Ring → Option Bytes → ℕ → Outcome (ℕ × Option Bytes)
peek r none len = done (0, none)
peek r (some dst) len =
    let n = min len (used r) in
    if n == 0 then done (0, some dst) else (copy_out r dst n >>= λ dst'. done (n, some dst'))

-- `cellar_ring_consume`.
unfoldable pub consume : Ring → Option Bytes → ℕ → Outcome (ℕ × Option Bytes × Ring)
consume r none len = done (0, none, r)
consume r (some dst) len =
    let n = min len (used r) in
    if n == 0
    then done (0, some dst, r)
    else (copy_out r dst n >>= λ dst'.
        done (n, some dst', record r { head = (r.head + n) % 2 ^ 64 }))

-- `cellar_ring_drop`.
unfoldable pub discard : Ring → ℕ → Ring
discard r len = if len == 0 then r else record r { head = (r.head + min len (used r)) % 2 ^ 64 }
