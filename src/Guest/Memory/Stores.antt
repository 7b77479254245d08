-- ===== src/Guest/Memory/Stores.antt =====
-- Stores against the abstract store `stored`, inside the memory and outside it.
use jolt_ncp.Base.{
  ℕ, suc, ◌+◌, ◌-◌, ◌/◌, ◌%◌, ◌≤◌, ◌<◌, ◌≡◌, ap, ◌∙◌, false, [], ◌∷◌, arith, ltb, leb, le→ltb,
  length, replicate, length-replicate, All, ok, err, Bytes, word, add_word, to_le_bytes, span,
  length-to_le_bytes, ◌==◌,
}
use jolt_ncp.Guest.Memory.{
  JoltMemory, riscv_pagesize, Step, overwrite, Width, width_bytes, bits8, bits16, bits32, bits64,
}
use jolt_ncp.Guest.Memory.Write.{
  CkbVm, guarded_store, store8, store_le, store_slice, store_bytes, store_byte, store,
}
use jolt_ncp.Guest.Memory.Slices.{length-overwrite, All-overwrite, assign_from-overwrite}
use jolt_ncp.Guest.Memory.Valid.{IsValid, IsCkbVm, marked, length-marked, mark_pages-marked}

-- The page table with the pages of the `n` bytes from `a` on marked dirty.
unfoldable pub dirtied : ℕ → Bytes → ℕ → ℕ → Bytes
dirtied flag flags a n =
    marked flag (suc ((a + n - 1) / riscv_pagesize) - a / riscv_pagesize) flags (a / riscv_pagesize)

-- The abstract store: the bytes from `a` on are replaced, and their pages are dirty.
unfoldable pub stored : CkbVm → JoltMemory → ℕ → Bytes → JoltMemory
stored vm m a bs = record m {
  bytes = overwrite m.bytes a bs;
  flags = dirtied vm.flag_dirty m.flags a (length bs);
}

pub stored-IsValid :
    (vm : CkbVm) {m : JoltMemory} (a : ℕ) (bs : Bytes)
    → IsValid m
    → All (λ b. b < 256) bs
    → IsValid (stored vm m a bs)
unfolding stored dirtied
stored-IsValid vm {m} a bs v h = record {
  sized = length-overwrite m.bytes a bs ∙ v.sized;
  flagged = length-marked _ _ _ _ ∙ v.flagged;
  paged = v.paged;
  bounded = v.bounded;
  in_bytes = All-overwrite (λ b. b < 256) m.bytes a bs v.in_bytes h;
}

module _ (vm : CkbVm) (laws : IsCkbVm vm) where
  -- The guard passes and the two calls of CKB-VM succeed: what is left is the write.
  guarded_store-write :
      (m : JoltMemory) (a n : ℕ) (write : JoltMemory → Step vm.Error (Unit {0}))
      → IsValid m
      → 0 < n
      → a + n ≤ m.memory_size
      → guarded_store vm m a n write
        ≡ write (record m { flags = dirtied vm.flag_dirty m.flags a n })
  unfolding guarded_store dirtied
  guarded_store-write m a n write v pos h =
      let inside : ltb m.memory_size (add_word a n) ≡ false =
        le→ltb m.memory_size (add_word a n) (omega (arith, v.bounded)) in
      let lo = a / riscv_pagesize in
      let hi = (a + n - 1) / riscv_pagesize in
      rw (
        inside,
        laws.page_indices a n pos (omega (arith, v.bounded)),
        laws.dirty m lo hi,
        mark_pages-marked vm (suc hi - lo) m lo v.flagged (omega (arith, v.paged)),
      )

  store_le-stored :
      (n : ℕ) (m : JoltMemory) (a value : ℕ)
      → IsValid m
      → 0 < n
      → a + n ≤ m.memory_size
      → store_le vm n m a value ≡ (ok tt, stored vm m a (to_le_bytes n (value % span n)))
  unfolding store_le stored
  store_le-stored n m a value v pos h =
      let bs = to_le_bytes n (value % span n) in
      let size = length-to_le_bytes n (value % span n) in
      rw (
        guarded_store-write m a n _ v pos h,
        assign_from-overwrite {E = vm.Error} m.bytes a bs (omega (arith, v.sized))
            (omega (arith, v.sized, v.bounded)),
        size,
      )

  store8-stored :
      (m : JoltMemory) (a value : ℕ)
      → IsValid m
      → a < m.memory_size
      → store8 vm m a value ≡ (ok tt, stored vm m a (value % 256 ∷ []))
  unfolding store8 stored dirtied
  store8-stored m a value v h =
      let outside : leb m.memory_size a ≡ false = ground (arith, h) in
      let inside : ltb m.memory_size (add_word a 1) ≡ false =
        le→ltb m.memory_size (add_word a 1) (omega (arith, v.bounded)) in
      rw (
        outside,
        laws.page_indices a 1 (omega arith) (omega (arith, v.bounded)),
        laws.dirty m (a / riscv_pagesize) ((a + 1 - 1) / riscv_pagesize),
        mark_pages-marked vm (suc ((a + 1 - 1) / riscv_pagesize) - a / riscv_pagesize) m
            (a / riscv_pagesize) v.flagged (omega (arith, v.paged)),
        assign_from-overwrite {E = vm.Error} m.bytes a (value % 256 ∷ []) (omega (arith, v.sized))
            (omega (arith, v.sized, v.bounded)),
      )

  store_slice-stored :
      (m : JoltMemory) (a : ℕ) (bs : Bytes)
      → IsValid m
      → a + length bs ≤ m.memory_size
      → store_slice vm (record m { flags = dirtied vm.flag_dirty m.flags a (length bs) }) a bs
        ≡ (ok tt, stored vm m a bs)
  unfolding store_slice stored
  store_slice-stored m a bs v h = ground (arith, v.sized, v.bounded)

  store_bytes-stored :
      (m : JoltMemory) (a : ℕ) (bs : Bytes)
      → IsValid m
      → 0 < length bs
      → a + length bs ≤ m.memory_size
      → store_bytes vm m a bs ≡ (ok tt, stored vm m a bs)
  unfolding store_bytes
  store_bytes-stored m a bs v pos h =
      let some_bytes : (length bs == 0) ≡ false = ground arith in
      rw (some_bytes, guarded_store-write m a (length bs) _ v pos h) (store_slice-stored m a bs v h)

  store_byte-stored :
      (m : JoltMemory) (a size value : ℕ)
      → IsValid m
      → 0 < size
      → a + size ≤ m.memory_size
      → store_byte vm m a size value ≡ (ok tt, stored vm m a (replicate size value))
  unfolding store_byte
  store_byte-stored m a size value v pos h =
      let some_bytes : (size == 0) ≡ false = ground arith in
      let n = length-replicate size value in
      rw (some_bytes, guarded_store-write m a size _ v pos h)
        (rw n at (store_slice-stored m a (replicate size value) v (omega (arith, n))))

  -- A scalar store of any width, on a range inside a well-formed memory, succeeds and is the
  -- abstract store: the value's low bytes, least significant first, and the touched pages dirty.
  -- CKB-VM is taken to find and mark dirty the pages of a range as it documents.
  pub store-stored :
      (w : Width) (m : JoltMemory) (a value : ℕ)
      → IsValid m
      → a + width_bytes w ≤ m.memory_size
      → store vm w m a value
        ≡ (ok tt, stored vm m a (to_le_bytes (width_bytes w) (value % span (width_bytes w))))
  unfolding store
  store-stored bits8 m a value v h =
      store8-stored m a value v (omega arith) ∙ ap (λ b. (ok tt, stored vm m a b)) one_byte
    where
      one_byte : value % 256 ∷ [] ≡ to_le_bytes 1 (value % span 1)
      one_byte = unfold to_le_bytes in ap (λ b. b ∷ []) (omega arith)
  store-stored bits16 m a value v h = store_le-stored 2 m a value v (omega arith) h
  store-stored bits32 m a value v h = store_le-stored 4 m a value v (omega arith) h
  store-stored bits64 m a value v h = store_le-stored 8 m a value v (omega arith) h

  -- A bulk store of at least one byte, on a range inside a well-formed memory, succeeds and is the
  -- abstract store of the bytes given (`store_bytes`) or of copies of one byte (`store_byte`).
  -- CKB-VM is taken to find and mark dirty the pages of a range as it documents.
  pub bulk_stores-stored :
      (m : JoltMemory) (a size value : ℕ) (bs : Bytes)
      → IsValid m
      → 0 < size
      → length bs ≡ size
      → a + size ≤ m.memory_size
      → (store_bytes vm m a bs ≡ (ok tt, stored vm m a bs))
        × (store_byte vm m a size value ≡ (ok tt, stored vm m a (replicate size value)))
  bulk_stores-stored m a size value bs v pos e h = (
    store_bytes-stored m a bs v (omega arith) (omega arith),
    store_byte-stored m a size value v pos h,
  )

-- A scalar store whose range leaves the memory, with no wrap of the address, fails with
-- `MemOutOfBound` and changes nothing, whatever CKB-VM does.
pub store_out_of_bound :
    (vm : CkbVm) (w : Width) (m : JoltMemory) (a value : ℕ)
    → m.memory_size < a + width_bytes w
    → a + width_bytes w < word
    → store vm w m a value ≡ (err vm.mem_out_of_bound, m)
unfolding store
store_out_of_bound vm bits8 m a value h k = ground arith
store_out_of_bound vm bits16 m a value h k = ground arith
store_out_of_bound vm bits32 m a value h k = ground arith
store_out_of_bound vm bits64 m a value h k = ground arith

-- A bulk store of at least one byte whose range leaves the memory, with no wrap of the address,
-- fails with `MemOutOfBound` and changes nothing, whatever CKB-VM does.
pub bulk_stores_out_of_bound :
    (vm : CkbVm) (m : JoltMemory) (a size value : ℕ) (bs : Bytes)
    → 0 < size
    → length bs ≡ size
    → m.memory_size < a + size
    → a + size < word
    → (store_bytes vm m a bs ≡ (err vm.mem_out_of_bound, m))
      × (store_byte vm m a size value ≡ (err vm.mem_out_of_bound, m))
unfolding store_bytes store_byte
bulk_stores_out_of_bound vm m a size value bs p e h k = (ground arith, ground arith)
