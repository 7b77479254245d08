-- ===== src/Guest/Memory/Write.antt =====
-- guest/src/jolt_memory.rs: the stores, and the functions of the ckb-vm crate that they call.
use jolt_ncp.Base.{
  ℕ, ◌%◌, Option, [], ◌∷◌, ltb, leb, ◌==◌, if◌then◌else◌, length, replicate, Outcome, ok, err,
  panic, Bytes, add_word, to_le_bytes, span,
}
use jolt_ncp.Guest.Memory.{
  JoltMemory, Step, and_then, overwrite, in_slice, assign_from, store_data, Width, bits8, bits16,
  bits32, bits64,
}

-- The functions of the ckb-vm crate that `JoltMemory` calls, and its error type.
pub record CkbVm : Type 1 where
  pub Error : Type 0
  pub mem_out_of_bound : Error
  pub flag_dirty : ℕ
  pub get_page_indices : ℕ → ℕ → Outcome Error (ℕ × ℕ)
  pub set_dirty : JoltMemory → ℕ × ℕ → Step Error (Unit {0})
  pub fill_page_data : JoltMemory → ℕ → ℕ → Option Bytes → ℕ → Step Error (Unit {0})

module _ (vm : CkbVm) where
  open vm use {Error, mem_out_of_bound, get_page_indices, set_dirty, fill_page_data}

  -- The guard of every store, its two calls of CKB-VM, and the write behind them.
  unfoldable pub guarded_store :
      JoltMemory → ℕ → ℕ → (JoltMemory → Step Error (Unit {0})) → Step Error (Unit {0})
  guarded_store m a size write =
      if ltb m.memory_size (add_word a size)
      then (err mem_out_of_bound, m)
      else and_then (get_page_indices a size, m)
          (λ pages m₀. and_then (set_dirty m₀ pages) (λ _ m₁. write m₁))

  unfoldable pub store8 : JoltMemory → ℕ → ℕ → Step Error (Unit {0})
  store8 m a value =
      if leb m.memory_size a
      then (err mem_out_of_bound, m)
      else and_then (get_page_indices a 1, m)
          (λ pages m₀.
            and_then (set_dirty m₀ pages)
              (λ _ m₁. store_data m₁ (assign_from m₁.bytes a (value % 256 ∷ []))))

  -- The shared text of `store16`, `store32` and `store64`, for `n` bytes.
  unfoldable pub store_le : ℕ → JoltMemory → ℕ → ℕ → Step Error (Unit {0})
  unfolding guarded_store
  store_le n m a value =
      guarded_store m a n
        (λ m₁. store_data m₁ (assign_from m₁.bytes a (to_le_bytes n (value % span n))))

  unfoldable pub store16 : JoltMemory → ℕ → ℕ → Step Error (Unit {0})
  unfolding store_le
  store16 = store_le 2

  unfoldable pub store32 : JoltMemory → ℕ → ℕ → Step Error (Unit {0})
  unfolding store_le
  store32 = store_le 4

  unfoldable pub store64 : JoltMemory → ℕ → ℕ → Step Error (Unit {0})
  unfolding store_le
  store64 = store_le 8

  -- A slice assignment, which panics if the range is not one of the vector.
  unfoldable pub store_slice : JoltMemory → ℕ → Bytes → Step Error (Unit {0})
  store_slice m a bs =
      if in_slice m.bytes a (add_word a (length bs))
      then (ok tt, record m { bytes = overwrite m.bytes a bs })
      else (panic, m)

  unfoldable pub store_bytes : JoltMemory → ℕ → Bytes → Step Error (Unit {0})
  unfolding guarded_store
  store_bytes m a value =
      if length value == 0
      then (ok tt, m)
      else guarded_store m a (length value) (λ m₁. store_slice m₁ a value)

  unfoldable pub store_byte : JoltMemory → ℕ → ℕ → ℕ → Step Error (Unit {0})
  unfolding guarded_store
  store_byte m a size value =
      if size == 0
      then (ok tt, m)
      else guarded_store m a size (λ m₁. store_slice m₁ a (replicate size value))

  unfoldable pub init_pages : JoltMemory → ℕ → ℕ → Option Bytes → ℕ → Step Error (Unit {0})
  init_pages m a size source offset_from_addr = fill_page_data m a size source offset_from_addr

  -- The store of each width.
  unfoldable pub store : Width → JoltMemory → ℕ → ℕ → Step Error (Unit {0})
  unfolding store8 store16 store32 store64
  store bits8 = store8
  store bits16 = store16
  store bits32 = store32
  store bits64 = store64
