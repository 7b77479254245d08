-- ===== src/Base/LittleEndian.antt =====
-- Byte strings and machine words. A `u64` or a `usize` (64 bits wide on the host and in the guest)
-- is a number below 2 ^ 64, and its additions wrap.
use Prim.Native.Nat.{ℕ, zero, suc, ◌+◌, ◌*◌, ◌/◌, ◌%◌, ◌^◌, ◌<◌}
use mathlib.Core.Path.{◌≡◌, refl}
use mathlib.Core.List.{List, [], ◌∷◌, ◌++◌}
use native.Mathlib.Omega.{arith}
use jolt_ncp.Base.Lists.{length, All}

abbrev pub Bytes : Type 0
Bytes = List ℕ

abbrev pub word : ℕ
word = 2 ^ 64

-- `usize` and `u64` addition with overflow checks off
abbrev pub add_word : ℕ → ℕ → ℕ
add_word a b = (a + b) % word

-- `from_le_bytes`
unfoldable pub from_le_bytes : Bytes → ℕ
from_le_bytes [] = 0
from_le_bytes (b ∷ bs) = b + 256 * from_le_bytes bs

-- `to_le_bytes` of an integer of `n` bytes
unfoldable pub to_le_bytes : ℕ → ℕ → Bytes
to_le_bytes zero v = []
to_le_bytes (suc n) v = v % 256 ∷ to_le_bytes n (v / 256)

-- 256 ^ n
abbrev pub span : ℕ → ℕ
span zero = 1
span (suc n) = 256 * span n

pub length-to_le_bytes : (n v : ℕ) → length (to_le_bytes n v) ≡ n
unfolding to_le_bytes
length-to_le_bytes zero v = refl
length-to_le_bytes (suc n) v = omega (arith, length-to_le_bytes n (v / 256))

pub from_le_bytes-to_le_bytes : (n v : ℕ) → v < span n → from_le_bytes (to_le_bytes n v) ≡ v
unfolding from_le_bytes to_le_bytes
from_le_bytes-to_le_bytes zero v h = omega arith
from_le_bytes-to_le_bytes (suc n) v h =
    omega (arith, from_le_bytes-to_le_bytes n (v / 256) (omega arith))

pub to_le_bytes-bytes : (n v : ℕ) → All (λ b. b < 256) (to_le_bytes n v)
unfolding to_le_bytes
to_le_bytes-bytes zero v = tt
to_le_bytes-bytes (suc n) v = (omega arith, to_le_bytes-bytes n (v / 256))

pub from_le_bytes-lt : (bs : Bytes) → All (λ b. b < 256) bs → from_le_bytes bs < span (length bs)
unfolding from_le_bytes
from_le_bytes-lt [] h = omega arith
from_le_bytes-lt (b ∷ bs) h = omega (arith, from_le_bytes-lt bs h.1)

pub from_le_bytes-append :
    (xs ys : Bytes)
    → from_le_bytes (xs ++ ys) ≡ from_le_bytes xs + span (length xs) * from_le_bytes ys
unfolding from_le_bytes
from_le_bytes-append [] ys = omega arith
from_le_bytes-append (x ∷ xs) ys = omega (arith, from_le_bytes-append xs ys)
