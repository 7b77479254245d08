-- ===== src/Guest/Memory/ReadWrite.antt =====
-- Loads and flags after a store.
use Prim.Native.Nat.{bit_or}
use jolt_ncp.Base.{
  ℕ, suc, ◌+◌, ◌-◌, ◌/◌, ◌%◌, ◌≤◌, ◌<◌, ◌≡◌, refl, ap, ◌∙◌, sym, ◌⊎◌, true, false, ◌&&◌, [], ◌∷◌,
  arith, ltb, leb, le→ltb, if◌then◌else◌, length, All, ok, ◌>>=◌, Bytes, add_word, from_le_bytes,
  to_le_bytes, span, length-to_le_bytes, from_le_bytes-to_le_bytes, to_le_bytes-bytes, ◌==◌,
  replicate, length-replicate,
}
use jolt_ncp.Guest.Memory.{
  JoltMemory, load, load_bytes, fetch_flag, in_slice, Width, width_bytes, bits8, bits16, bits32,
  bits64, overwrite, riscv_pagesize,
}
use jolt_ncp.Guest.Memory.Write.{CkbVm, store, store_bytes, store_byte}
use jolt_ncp.Guest.Memory.Slices.{length-overwrite, slice-overwrite_self, slice-overwrite_ne}
use jolt_ncp.Guest.Memory.Valid.{IsValid, IsCkbVm, get_elem?-marked}
use jolt_ncp.Guest.Memory.Stores.{stored, stored-IsValid, dirtied, store-stored, bulk_stores-stored}
use jolt_ncp.Guest.Memory.Loads.{load-slice}

low_bytes-lt : (w : Width) (value : ℕ) → value % span (width_bytes w) < span (width_bytes w)
low_bytes-lt bits8 value = omega arith
low_bytes-lt bits16 value = omega arith
low_bytes-lt bits32 value = omega arith
low_bytes-lt bits64 value = omega arith

width_bytes_pos : (w : Width) → 0 < width_bytes w
width_bytes_pos bits8 = omega arith
width_bytes_pos bits16 = omega arith
width_bytes_pos bits32 = omega arith
width_bytes_pos bits64 = omega arith

module _ (vm : CkbVm) (laws : IsCkbVm vm) where
  -- A store of any width inside a well-formed memory leaves a well-formed memory: as many bytes
  -- and flags as before, every byte below 256. CKB-VM is taken to find and mark dirty the pages of
  -- a range as it documents.
  pub store-IsValid :
      (w : Width) (m : JoltMemory) (a value : ℕ)
      → IsValid m
      → a + width_bytes w ≤ m.memory_size
      → IsValid (store vm w m a value).1
  store-IsValid w m a value v h =
      rw (store-stored vm laws w m a value v h)
        (stored-IsValid vm a _ v (to_le_bytes-bytes (width_bytes w) _))

  load-stored :
      (w : Width) (m : JoltMemory) (a low : ℕ)
      → IsValid m
      → low < span (width_bytes w)
      → a + width_bytes w ≤ m.memory_size
      → load vm.mem_out_of_bound w (stored vm m a (to_le_bytes (width_bytes w) low)) a ≡ ok low
  unfolding stored
  load-stored w m a low v small h =
      let n = width_bytes w in
      let bs = to_le_bytes n low in
      let size = length-to_le_bytes n low in
      let valid = stored-IsValid vm a bs v (to_le_bytes-bytes n low) in
      load-slice vm.mem_out_of_bound w (stored vm m a bs) a valid h
      ∙ ap (λ s. ok (from_le_bytes s))
          (rw size at (slice-overwrite_self m.bytes a bs (omega (arith, size, v.sized))))
      ∙ ap ok (from_le_bytes-to_le_bytes n low small)

  -- A load right after a store of the same width and address, inside a well-formed memory, gives
  -- the stored value modulo the width. CKB-VM is taken to find and mark dirty the pages of a range
  -- as it documents.
  pub load-store :
      (w : Width) (m : JoltMemory) (a value : ℕ)
      → IsValid m
      → a + width_bytes w ≤ m.memory_size
      → load vm.mem_out_of_bound w (store vm w m a value).1 a ≡ ok (value % span (width_bytes w))
  load-store w m a value v h =
      rw (store-stored vm laws w m a value v h)
        (load-stored w m a (value % span (width_bytes w)) v (low_bytes-lt w value) h)

  load-stored_ne :
      (u : Width) (m : JoltMemory) (a b : ℕ) (bs : Bytes)
      → IsValid m
      → All (λ c. c < 256) bs
      → b + width_bytes u ≤ m.memory_size
      → (b + width_bytes u ≤ a) ⊎ (a + length bs ≤ b)
      → load vm.mem_out_of_bound u (stored vm m a bs) b ≡ load vm.mem_out_of_bound u m b
  unfolding stored
  load-stored_ne u m a b bs v small h apart =
      load-slice vm.mem_out_of_bound u (stored vm m a bs) b (stored-IsValid vm a bs v small) h
      ∙ ap (λ s. ok (from_le_bytes s)) (slice-overwrite_ne m.bytes a b (width_bytes u) bs apart)
      ∙ sym (load-slice vm.mem_out_of_bound u m b v h)

  -- A load of any width in a well-formed memory, whose range does not meet that of a store, reads
  -- after the store what it read before. CKB-VM is taken to find and mark dirty the pages of a
  -- range as it documents.
  pub load-store_ne :
      (w u : Width) (m : JoltMemory) (a b value : ℕ)
      → IsValid m
      → a + width_bytes w ≤ m.memory_size
      → b + width_bytes u ≤ m.memory_size
      → (b + width_bytes u ≤ a) ⊎ (a + width_bytes w ≤ b)
      → load vm.mem_out_of_bound u (store vm w m a value).1 b ≡ load vm.mem_out_of_bound u m b
  load-store_ne w u m a b value v h k apart =
      let n = width_bytes w in
      let low = value % span n in
      rw (store-stored vm laws w m a value v h) (
        load-stored_ne u m a b (to_le_bytes n low) v (to_le_bytes-bytes n low) k
          (rw (length-to_le_bytes n low) apart))

  load_bytes-stored :
      (m : JoltMemory) (a : ℕ) (bs : Bytes)
      → IsValid m
      → a + length bs ≤ m.memory_size
      → load_bytes vm.mem_out_of_bound (stored vm m a bs) a (length bs) ≡ ok bs
  unfolding load_bytes stored
  load_bytes-stored m a [] v h = refl
  load_bytes-stored m a (b ∷ bs) v h =
      let n = length (b ∷ bs) in
      let size = length-overwrite m.bytes a (b ∷ bs) in
      let test : ltb m.memory_size (add_word a n) ≡ false =
        le→ltb m.memory_size (add_word a n) (omega (arith, v.bounded)) in
      let inside : in_slice (overwrite m.bytes a (b ∷ bs)) a (add_word a n) ≡ true =
        ground (arith, size, v.sized, v.bounded) in
      let some_bytes : (n == 0) ≡ false = ground arith in
      rw
        (some_bytes, test, inside, slice-overwrite_self m.bytes a (b ∷ bs) (omega (arith, v.sized)))

  -- On a range of at least one byte inside a well-formed memory, `load_bytes` gives back what
  -- `store_bytes` wrote, or the copies that `store_byte` wrote. CKB-VM is taken to find and mark
  -- dirty the pages of a range as it documents.
  pub load_bytes-store_bytes :
      (m : JoltMemory) (a size value : ℕ) (bs : Bytes)
      → IsValid m
      → 0 < size
      → length bs ≡ size
      → a + size ≤ m.memory_size
      → (load_bytes vm.mem_out_of_bound (store_bytes vm m a bs).1 a size ≡ ok bs)
        × (load_bytes vm.mem_out_of_bound (store_byte vm m a size value).1 a size
            ≡ ok (replicate size value))
  load_bytes-store_bytes m a size value bs v pos e h =
      let (s, t) = bulk_stores-stored vm laws m a size value bs v pos e h in
      let n = length-replicate size value in
      (
        rw s (rw e at (load_bytes-stored m a bs v (omega (arith, e)))),
        rw t (rw n at (load_bytes-stored m a (replicate size value) v (omega (arith, n)))),
      )

  fetch_flag-stored :
      (m : JoltMemory) (a : ℕ) (bs : Bytes) (p : ℕ)
      → IsValid m
      → 0 < length bs
      → fetch_flag vm.mem_out_of_bound (stored vm m a bs) p ≡ (
          if leb (a / riscv_pagesize) p && leb p ((a + length bs - 1) / riscv_pagesize)
          then (do old ← fetch_flag vm.mem_out_of_bound m p; ok (bit_or old vm.flag_dirty))
          else fetch_flag vm.mem_out_of_bound m p)
  unfolding fetch_flag stored dirtied
  fetch_flag-stored m a bs p v pos =
      let lo = a / riscv_pagesize in
      let k = suc ((a + length bs - 1) / riscv_pagesize) - lo in
      ground (arith, get_elem?-marked vm.flag_dirty k m.flags lo p)

  -- A store inside a well-formed memory sets the dirty flag on exactly the pages that its range
  -- touches, and changes the flags of no other page. CKB-VM is taken to find and mark dirty the
  -- pages of a range as it documents.
  pub fetch_flag-store :
      (w : Width) (m : JoltMemory) (a value p : ℕ)
      → IsValid m
      → a + width_bytes w ≤ m.memory_size
      → fetch_flag vm.mem_out_of_bound (store vm w m a value).1 p ≡ (
          if leb (a / riscv_pagesize) p && leb p ((a + width_bytes w - 1) / riscv_pagesize)
          then (do old ← fetch_flag vm.mem_out_of_bound m p; ok (bit_or old vm.flag_dirty))
          else fetch_flag vm.mem_out_of_bound m p)
  fetch_flag-store w m a value p v h =
      let n = width_bytes w in
      let low = value % span n in
      let size = length-to_le_bytes n low in
      rw (store-stored vm laws w m a value v h) (
        rw size at
          (fetch_flag-stored m a (to_le_bytes n low) p v (omega (arith, size, width_bytes_pos w))))
