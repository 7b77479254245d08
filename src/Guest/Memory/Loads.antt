-- ===== src/Guest/Memory/Loads.antt =====
-- Loads: the result of each one on every address, and what it reads after a store.
use jolt_ncp.Base.{
  ℕ, zero, suc, ◌+◌, ◌≤◌, ◌<◌, ◌≡◌, refl, ap, true, false, arith, ltb, leb, le→ltb, get_elem?_total,
  get_elem?-eq-none, ok, err, panic, word, add_word, from_le_bytes, ◌==◌,
}
use jolt_ncp.Guest.Memory.{
  JoltMemory, slice, in_slice, load_bytes, index_from, load8, load_le, load, Width, width_bytes,
  bits8, bits16, bits32, bits64,
}
use jolt_ncp.Guest.Memory.Slices.{slice-suc, index_from-slice}
use jolt_ncp.Guest.Memory.Valid.{IsValid}

module _ {E : Type 0} (oob : E) where
  pub load_le-slice :
      (n : ℕ) (m : JoltMemory) (a : ℕ)
      → IsValid m
      → a + n ≤ m.memory_size
      → load_le oob n m a ≡ ok (from_le_bytes (slice m.bytes a n))
  unfolding load_le
  load_le-slice n m a v h =
      let inside : ltb m.memory_size (add_word a n) ≡ false =
        le→ltb m.memory_size (add_word a n) (omega (arith, v.bounded)) in
      rw (
        inside,
        index_from-slice {E = E} m.bytes a n (omega (arith, v.sized))
            (omega (arith, v.sized, v.bounded)),
      )

  load8-slice :
      (m : JoltMemory) (a : ℕ)
      → IsValid m
      → a < m.memory_size
      → load8 oob m a ≡ ok (from_le_bytes (slice m.bytes a 1))
  unfolding load8
  load8-slice m a v h =
      let (b, found) = get_elem?_total m.bytes a (omega (arith, v.sized)) in
      let inside : leb m.memory_size a ≡ false = ground (arith, h) in
      rw (inside, found, slice-suc m.bytes a 0 found) (unfold from_le_bytes in ap ok (omega arith))

  load_le_out_of_bound :
      (n : ℕ) (m : JoltMemory) (a : ℕ)
      → m.memory_size < a + n
      → a + n < word
      → load_le oob n m a ≡ err oob
  unfolding load_le
  load_le_out_of_bound n m a h w = ground arith

  -- If `a + n` passes 2 ^ 64 the wrapped sum passes the test, and the index panics.
  load_le_overflow :
      (n : ℕ) (m : JoltMemory) (a : ℕ)
      → IsValid m
      → 0 < n
      → n ≤ 8
      → a < word
      → word ≤ a + n
      → add_word a n ≤ m.memory_size
      → load_le oob n m a ≡ panic
  unfolding load_le
  load_le_overflow zero m a v p k w o f = absurd (omega arith)
  load_le_overflow (suc n) m a v p k w o f = rw (
    le→ltb m.memory_size (add_word a (suc n)) f,
    index_from,
    get_elem?-eq-none m.bytes a (omega (arith, v.sized, v.bounded)),
  )

  -- A load of any width inside a well-formed memory is the little-endian number of the bytes at
  -- its address.
  pub load-slice :
      (w : Width) (m : JoltMemory) (a : ℕ)
      → IsValid m
      → a + width_bytes w ≤ m.memory_size
      → load oob w m a ≡ ok (from_le_bytes (slice m.bytes a (width_bytes w)))
  unfolding load
  load-slice bits8 m a v h = load8-slice m a v (omega arith)
  load-slice bits16 m a v h = load_le-slice 2 m a v h
  load-slice bits32 m a v h = load_le-slice 4 m a v h
  load-slice bits64 m a v h = load_le-slice 8 m a v h

  -- A load of any width whose range leaves the memory, with no wrap of the address, fails with
  -- `MemOutOfBound`.
  pub load_out_of_bound :
      (w : Width) (m : JoltMemory) (a : ℕ)
      → m.memory_size < a + width_bytes w
      → a + width_bytes w < word
      → load oob w m a ≡ err oob
  unfolding load
  load_out_of_bound bits8 m a h k = ground arith
  load_out_of_bound bits16 m a h k = load_le_out_of_bound 2 m a h k
  load_out_of_bound bits32 m a h k = load_le_out_of_bound 4 m a h k
  load_out_of_bound bits64 m a h k = load_le_out_of_bound 8 m a h k

  -- On a well-formed memory of at least eight bytes, a load of two bytes or more whose range
  -- reaches the end of the 64-bit address space panics in place of failing with `MemOutOfBound`:
  -- the sum in its test wraps.
  pub load_overflow :
      (w : Width) (m : JoltMemory) (a : ℕ)
      → IsValid m
      → 1 < width_bytes w
      → 8 ≤ m.memory_size
      → a < word
      → word ≤ a + width_bytes w
      → load oob w m a ≡ panic
  unfolding load
  load_overflow bits8 m a v p f k o = absurd (omega arith)
  load_overflow bits16 m a v p f k o =
      load_le_overflow 2 m a v (omega arith) (omega arith) k o (omega arith)
  load_overflow bits32 m a v p f k o =
      load_le_overflow 4 m a v (omega arith) (omega arith) k o (omega arith)
  load_overflow bits64 m a v p f k o =
      load_le_overflow 8 m a v (omega arith) (omega arith) k o (omega arith)

  pub load_bytes-slice :
      (m : JoltMemory) (a n : ℕ)
      → IsValid m
      → 0 < n
      → a + n ≤ m.memory_size
      → load_bytes oob m a n ≡ ok (slice m.bytes a n)
  unfolding load_bytes
  load_bytes-slice m a n v pos h =
      let some_bytes : (n == 0) ≡ false = ground arith in
      let test : ltb m.memory_size (add_word a n) ≡ false =
        le→ltb m.memory_size (add_word a n) (omega (arith, v.bounded)) in
      let inside : in_slice m.bytes a (add_word a n) ≡ true = ground (arith, v.sized, v.bounded) in
      rw (some_bytes, test, inside) refl

  pub load_bytes_out_of_bound :
      (m : JoltMemory) (a n : ℕ)
      → 0 < n
      → m.memory_size < a + n
      → a + n < word
      → load_bytes oob m a n ≡ err oob
  unfolding load_bytes
  load_bytes_out_of_bound m a n pos h k = ground arith
