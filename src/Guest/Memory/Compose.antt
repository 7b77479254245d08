-- ===== src/Guest/Memory/Compose.antt =====
-- Wide loads against narrow ones; the constructor.
use jolt_ncp.Base.{
  ℕ, ◌+◌, ◌*◌, ◌%◌, ◌≤◌, ◌<◌, ◌≡◌, refl, ap, arith, length, ok, ◌>>=◌, Bytes, from_le_bytes,
  from_le_bytes-append, from_le_bytes-lt, span, get_elem?-replicate,
}
use jolt_ncp.Guest.Memory.{
  JoltMemory, slice, load, execute_load16, execute_load32, Width, width_bytes, bits8, bits16,
  bits32, bits64, riscv_max_memory, riscv_pagesize, fresh, new_with_memory, load8,
}
use jolt_ncp.Guest.Memory.Slices.{length-slice, slice-add, All-slice}
use jolt_ncp.Guest.Memory.Valid.{IsValid, fresh-IsValid}
use jolt_ncp.Guest.Memory.Loads.{load-slice}

-- The width of twice as many bytes.
abbrev pub doubled : Width → Width
doubled bits8 = bits16
doubled bits16 = bits32
doubled bits32 = bits64
doubled bits64 = bits64

from_le_bytes-slice :
    (d : Bytes) (a n k : ℕ)
    → a + (n + k) ≤ length d
    → from_le_bytes (slice d a (n + k))
      ≡ from_le_bytes (slice d a n) + span n * from_le_bytes (slice d (a + n) k)
from_le_bytes-slice d a n k h =
    rw (slice-add d a n k (omega arith), from_le_bytes-append)
      (rw (length-slice d a n (omega arith)))

module _ {E : Type 0} (oob : E) where
  load_halves :
      (w u : Width) (m : JoltMemory) (a : ℕ)
      → IsValid m
      → width_bytes u ≡ width_bytes w + width_bytes w
      → a + width_bytes u ≤ m.memory_size
      → load oob u m a ≡ (do
        lo ← load oob w m a
        hi ← load oob w m (a + width_bytes w)
        ok (lo + span (width_bytes w) * hi))
  load_halves w u m a v e h =
      let n = width_bytes w in
      rw
        (
          load-slice oob u m a v h,
          load-slice oob w m a v (omega arith),
          load-slice oob w m (a + n) v (omega arith),
          e,
        )
        (ap ok (from_le_bytes-slice m.bytes a n n (omega (arith, v.sized))))

  -- Inside a well-formed memory, a load of two, four or eight bytes is the load of its lower half
  -- plus the load of its upper half shifted by the width of a half.
  pub load-doubled :
      (w : Width) (m : JoltMemory) (a : ℕ)
      → IsValid m
      → width_bytes w ≤ 4
      → a + 2 * width_bytes w ≤ m.memory_size
      → load oob (doubled w) m a ≡ (do
        lo ← load oob w m a
        hi ← load oob w m (a + width_bytes w)
        ok (lo + span (width_bytes w) * hi))
  load-doubled bits8 m a v k h = load_halves bits8 bits16 m a v (omega arith) h
  load-doubled bits16 m a v k h = load_halves bits16 bits32 m a v (omega arith) h
  load-doubled bits32 m a v k h = load_halves bits32 bits64 m a v (omega arith) h
  load-doubled bits64 m a v k h = absurd (omega arith)

  value-lt :
      (w : Width) (m : JoltMemory) (a : ℕ)
      → IsValid m
      → a + width_bytes w ≤ m.memory_size
      → from_le_bytes (slice m.bytes a (width_bytes w)) < span (width_bytes w)
  value-lt w m a v h =
      let n = width_bytes w in
      rw (length-slice m.bytes a n (omega (arith, v.sized))) at
        (from_le_bytes-lt (slice m.bytes a n) (All-slice (λ b. b < 256) m.bytes a n v.in_bytes))

  -- Four bytes inside a well-formed memory: the casts of the two instruction fetches lose nothing,
  -- they are the loads of the same width.
  pub execute_loads-loads :
      (m : JoltMemory) (a : ℕ)
      → IsValid m
      → a + 4 ≤ m.memory_size
      → (execute_load16 oob m a ≡ load oob bits16 m a)
        × (execute_load32 oob m a ≡ load oob bits32 m a)
  unfolding execute_load16 execute_load32 load
  execute_loads-loads m a v h = (
    rw (load-slice oob bits16 m a v (omega arith))
        (ap ok (omega (arith, value-lt bits16 m a v (omega arith)))),
    rw (load-slice oob bits32 m a v (omega arith))
        (ap ok (omega (arith, value-lt bits32 m a v (omega arith)))),
  )

  -- `new_with_memory` gives a well-formed memory of the size asked for, if that is a number of
  -- whole pages within the address space, and every byte of it loads as 0.
  pub new_with_memory-zeros :
      (n a : ℕ)
      → n ≤ riscv_max_memory
      → n % riscv_pagesize ≡ 0
      → a < n
      → (m : JoltMemory) × (new_with_memory oob n ≡ ok m)
        × IsValid m
        × (m.memory_size ≡ n)
        × (load oob bits8 m a ≡ ok 0)
  new_with_memory-zeros n a h e k = (
    fresh n,
    unfold new_with_memory in ground (arith, h, e),
    fresh-IsValid n h e,
    unfold fresh in refl,
    unfold fresh load load8 in ground (arith, get_elem?-replicate {A = ℕ} n a 0 k),
  )
