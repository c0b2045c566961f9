-- ===== src/Memory/Laws.antt =====
-- What reads and writes of objects promise.
use fantastic_octo_meme.Prelude.{
  ◌≢◌, ◌⊎◌, inl, inr, Bool, true, false, ℕ, zero, suc, ◌+◌, ◌-◌, ◌≤◌, ◌<◌, [], ◌∷◌, ◌++◌, length,
  get_or, take, drop, replicate, ltb, if◌then◌else◌, ◌≡◌, refl, ap, arith, length-replicate,
  length-append, length-take, length-drop, get_or-take, get_or-drop, get_or-append_left,
  get_or-append_right,
}
use fantastic_octo_meme.Status.{Status}
use fantastic_octo_meme.Memory.{
  zeros, Ends, IsSafe, guard, Bytes, AllBytes, Outcome, done, fail, fault, pending, ◌>>=◌, slice,
  splice,
}

pub get_or-replicate : (n i : ℕ) → ◌≡◌ {A = ℕ} (get_or (replicate n 0) i 0) 0
get_or-replicate zero i = refl
get_or-replicate (suc n) zero = refl
get_or-replicate (suc n) (suc i) = get_or-replicate n i

pub get_or-zeros : (n i : ℕ) → get_or (zeros n) i 0 ≡ 0
unfolding zeros
get_or-zeros n i = get_or-replicate n i

-- Inversion of a successful bind.
pub >>=-eq-done {ℓ κ} :
    {A : Type ℓ} {B : Type κ} (m : Outcome A) (f : A → Outcome B) {b : B}
    → (m >>= f) ≡ done b
    → (a : A) × (m ≡ done a) × (f a ≡ done b)
>>=-eq-done (done a) f h = (a, refl, h)
>>=-eq-done (fail s) f h = cc
>>=-eq-done fault f h = cc
>>=-eq-done pending f h = cc

-- The same with a continuation, whose binders are variables.
pub >>=-elim {ℓ κ ι} :
    {A : Type ℓ} {B : Type κ} {P : Type ι} (m : Outcome A) (f : A → Outcome B) {b : B}
    → (m >>= f) ≡ done b
    → ((a : A) → m ≡ done a → f a ≡ done b → P)
    → P
>>=-elim (done a) f h k = k a refl h
>>=-elim (fail s) f h k = absurd (cc)
>>=-elim fault f h k = absurd (cc)
>>=-elim pending f h k = absurd (cc)

pub slice-eq-done :
    (b : Bytes) (off len : ℕ)
    → off + len ≤ length b
    → slice b off len ≡ done (take len (drop off b))
unfolding slice
slice-eq-done b off len h = ground arith

pub splice-eq-done :
    (b : Bytes) (off : ℕ) (new : Bytes)
    → off + length new ≤ length b
    → splice b off new ≡ done (take off b ++ (new ++ drop (off + length new) b))
unfolding splice
splice-eq-done b off new h = ground arith

pub slice-done :
    (b : Bytes) (off len : ℕ) (r : Bytes)
    → slice b off len ≡ done r
    → (off + len ≤ length b) × (r ≡ take len (drop off b))
unfolding slice
slice-done b off len r h = ground arith

pub fail-ne-done {ℓ} : {A : Type ℓ} {s : Status} {a : A} → fail s ≢ done a
fail-ne-done h = cc

pub fault-ne-done {ℓ} : {A : Type ℓ} {a : A} → fault ≢ done a
fault-ne-done h = cc

pub pending-ne-done {ℓ} : {A : Type ℓ} {a : A} → pending ≢ done a
pending-ne-done h = cc

pub done-injective {ℓ} : {A : Type ℓ} {a b : A} → done a ≡ done b → a ≡ b
done-injective h = cc

pub slice-length : (b : Bytes) (off len : ℕ) (r : Bytes) → slice b off len ≡ done r → length r ≡ len
unfolding slice
slice-length b off len r h = ground (arith, length-take len (drop off b), length-drop off b)

pub splice-length :
    (b : Bytes) (off : ℕ) (new r : Bytes) → splice b off new ≡ done r → length r ≡ length b
unfolding splice
splice-length b off new r h = ground (
  arith,
  length-append (take off b) (new ++ drop (off + length new) b),
  length-append new (drop (off + length new) b),
  length-take off b,
  length-drop (off + length new) b,
)

pub AllBytes-append : (a b : Bytes) → AllBytes a → AllBytes b → AllBytes (a ++ b)
AllBytes-append [] b h k = k
AllBytes-append (x ∷ a) b h k = (h.0, AllBytes-append a b h.1 k)

pub AllBytes-take : (n : ℕ) (b : Bytes) → AllBytes b → AllBytes (take n b)
AllBytes-take zero b h = tt
AllBytes-take (suc n) [] h = tt
AllBytes-take (suc n) (x ∷ b) h = (h.0, AllBytes-take n b h.1)

pub AllBytes-drop : (n : ℕ) (b : Bytes) → AllBytes b → AllBytes (drop n b)
AllBytes-drop zero b h = h
AllBytes-drop (suc n) [] h = tt
AllBytes-drop (suc n) (x ∷ b) h = AllBytes-drop n b h.1

replicate-AllBytes : (n : ℕ) → AllBytes (replicate n 0)
replicate-AllBytes zero = tt
replicate-AllBytes (suc n) = (omega arith, replicate-AllBytes n)

pub zeros-AllBytes : (n : ℕ) → AllBytes (zeros n)
unfolding zeros
zeros-AllBytes n = replicate-AllBytes n

pub length-zeros : (n : ℕ) → length (zeros n) ≡ n
unfolding zeros
length-zeros n = length-replicate n 0

pub AllBytes-get_or : (b : Bytes) (i : ℕ) → AllBytes b → get_or b i 0 < 256
AllBytes-get_or [] i h = omega arith
AllBytes-get_or (x ∷ b) zero h = h.0
AllBytes-get_or (x ∷ b) (suc i) h = AllBytes-get_or b i h.1

pub slice-AllBytes :
    (b : Bytes) (off len : ℕ) (r : Bytes) → AllBytes b → slice b off len ≡ done r → AllBytes r
unfolding slice
slice-AllBytes b off len r ab h =
    ground (arith, AllBytes-take len (drop off b) (AllBytes-drop off b ab))

-- The list that a write leaves, offset by offset: the new bytes in their range, the old elsewhere.
get_or-patched :
    (b : Bytes) (off : ℕ) (new : Bytes) (i : ℕ)
    → off + length new ≤ length b
    → get_or (take off b ++ (new ++ drop (off + length new) b)) i 0 ≡ (
        if ltb i off
        then get_or b i 0
        else if ltb i (off + length new)
        then get_or new (i - off) 0
        else get_or b i 0)
get_or-patched b off new i h =
    let rest = drop (off + length new) b in
    let same : off + length new ≤ i
        → get_or b (off + length new + (i - off - length new)) 0 ≡ get_or b i 0 =
      λ le. ap (λ k. get_or b k 0) (omega arith) in
    ground (
      arith,
      length-take off b,
      get_or-append_left (take off b) (new ++ rest) i 0,
      get_or-append_right (take off b) (new ++ rest) i 0,
      get_or-append_left new rest (i - off) 0,
      get_or-append_right new rest (i - off) 0,
      get_or-take off b i 0,
      get_or-drop (off + length new) b (i - off - length new) 0,
      same,
    )

pub get_or-splice :
    (b : Bytes) (off : ℕ) (new r : Bytes) (i : ℕ)
    → splice b off new ≡ done r
    → get_or r i 0 ≡ (
        if ltb i off
        then get_or b i 0
        else if ltb i (off + length new)
        then get_or new (i - off) 0
        else get_or b i 0)
unfolding splice
get_or-splice b off new r i h = ground (arith, get_or-patched b off new i)

-- A chain is safe if its first step is, and the rest is after each value that the step can give.
pub >>=-IsSafe {ℓ κ} :
    {A : Type ℓ} {B : Type κ} (m : Outcome A) (f : A → Outcome B)
    → IsSafe m
    → ((a : A) → m ≡ done a → IsSafe (f a))
    → IsSafe (m >>= f)
>>=-IsSafe (done a) f h k = k a refl
>>=-IsSafe (fail s) f h k = tt
>>=-IsSafe fault f h k = h
>>=-IsSafe pending f h k = h

-- A safe chain has a safe first step, and is safe after the value that this gives.
pub IsSafe->>= {ℓ κ} :
    {A : Type ℓ} {B : Type κ} (m : Outcome A) (f : A → Outcome B) → IsSafe (m >>= f) → IsSafe m
IsSafe->>= (done a) f h = tt
IsSafe->>= (fail s) f h = tt
IsSafe->>= fault f h = h
IsSafe->>= pending f h = h

pub IsSafe-after {ℓ κ} :
    {A : Type ℓ} {B : Type κ} (m : Outcome A) (f : A → Outcome B)
    → IsSafe (m >>= f)
    → (a : A) → m ≡ done a
    → IsSafe (f a)
IsSafe-after m f h a e = rw e at h

-- A safe outcome is a value or a status.
pub Outcome-cases {ℓ} :
    {A : Type ℓ} (m : Outcome A)
    → IsSafe m
    → ((a : A) × (m ≡ done a)) ⊎ ((s : Status) × (m ≡ fail s))
Outcome-cases (done a) h = inl (a, refl)
Outcome-cases (fail s) h = inr (s, refl)
Outcome-cases fault h = absurd h
Outcome-cases pending h = absurd h

pub guard-IsSafe : (b : Bool) (s : Status) → IsSafe (guard b s)
guard-IsSafe true s = tt
guard-IsSafe false s = tt

pub guard-eq-done : (b : Bool) (s : Status) {u : Unit {0}} → guard b s ≡ done u → b ≡ true
guard-eq-done true s h = refl
guard-eq-done false s h = cc

pub >>=-Ends {ℓ κ} :
    {A : Type ℓ} {B : Type κ} (m : Outcome A) (f : A → Outcome B)
    → Ends m
    → ((a : A) → m ≡ done a → Ends (f a))
    → Ends (m >>= f)
>>=-Ends (done a) f h k = k a refl
>>=-Ends (fail s) f h k = tt
>>=-Ends fault f h k = tt
>>=-Ends pending f h k = h

pub guard-Ends : (b : Bool) (s : Status) → Ends (guard b s)
guard-Ends true s = tt
guard-Ends false s = tt
