-- ===== src/Memory.antt =====
-- C objects as lists of bytes, and the result of code that may fail, touch memory outside an
-- object (`fault`), or use up the fuel of a loop (`pending`). A pointer into an object is the
-- object with an offset.
pub mod Laws
pub mod Copies
use fantastic_octo_meme.Prelude.{
  ℕ, zero, suc, ◌+◌, ◌<◌, Bool, true, false, List, [], ◌∷◌, ◌++◌, length, get_elem?, take, drop,
  replicate, leb, Option, none, some, if◌then◌else◌,
}
use fantastic_octo_meme.Status.{Status}

abbrev pub Bytes : Type 0
Bytes = List ℕ

-- Every element is a byte.
abbrev pub AllBytes : Bytes → Type 0
AllBytes [] = Unit
AllBytes (b ∷ bs) = (b < 256) × AllBytes bs

pub data Outcome {ℓ} (A : Type ℓ) : Type ℓ where
  done : A → Outcome A
  fail : Status → Outcome A
  fault : Outcome A
  pending : Outcome A

infixl 5 ◌>>=◌ ◌>>◌
abbrev pub ◌>>=◌ {ℓ κ} : {A : Type ℓ} {B : Type κ} → Outcome A → (A → Outcome B) → Outcome B
done a >>= f = f a
fail s >>= f = fail s
fault >>= f = fault
pending >>= f = pending

abbrev pub ◌>>◌ {ℓ} : {B : Type ℓ} → Outcome (Unit {0}) → Outcome B → Outcome B
m >> k = m >>= λ _. k

-- Go on if the test holds, and fail with the status otherwise.
abbrev pub guard : Bool → Status → Outcome (Unit {0})
guard true s = done tt
guard false s = fail s

-- An object that `calloc` or `memset` has cleared.
unfoldable pub zeros : ℕ → Bytes
zeros n = replicate n 0

-- One byte of an object.
abbrev pub load : Bytes → ℕ → Outcome ℕ
load b i = elim (get_elem? b i) [ none ↦ fault | some c ↦ done c ]

-- `memcpy` out of an object: `len` bytes from the offset.
unfoldable pub slice : Bytes → ℕ → ℕ → Outcome Bytes
slice b off len = if leb (off + len) (length b) then done (take len (drop off b)) else fault

-- `memcpy` into an object.
unfoldable pub splice : Bytes → ℕ → Bytes → Outcome Bytes
splice b off new =
    if leb (off + length new) (length b)
    then done (take off b ++ (new ++ drop (off + length new) b))
    else fault

-- The code ran to its end: it returned a value or a status.
abbrev pub IsSafe {ℓ} : {A : Type ℓ} → Outcome A → Type 0
IsSafe (done a) = Unit
IsSafe (fail s) = Unit
IsSafe fault = ⊥
IsSafe pending = ⊥

-- The code did not use up its fuel.
abbrev pub Ends {ℓ} : {A : Type ℓ} → Outcome A → Type 0
Ends (done a) = Unit
Ends (fail s) = Unit
Ends fault = Unit
Ends pending = ⊥
