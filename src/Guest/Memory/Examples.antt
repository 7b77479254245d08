-- ===== src/Guest/Memory/Examples.antt =====
-- Runs of the memory on one page of zeros, with a concrete stand-in for the ckb-vm crate.
use jolt_ncp.Base.{
  suc, ◌+◌, ◌-◌, ◌/◌, ◌%◌, ◌≡◌, refl, ◌∷◌, [], inl, arith, ok, panic, span, to_le_bytes, replicate,
  ◌>>=◌, leb, ◌&&◌, if◌then◌else◌, word,
}
use Prim.Native.Nat.{bit_or}
use jolt_ncp.Guest.Memory.{
  JoltMemory, riscv_pagesize, load, load_bytes, fresh, fetch_flag, new_with_memory, bits8, bits16,
  bits32, bits64,
}
use jolt_ncp.Guest.Memory.Write.{CkbVm, store, store_bytes, store_byte}
use jolt_ncp.Guest.Memory.Valid.{IsValid, IsCkbVm, mark_pages, fresh-IsValid}
use jolt_ncp.Guest.Memory.Stores.{stored, store-stored}
use jolt_ncp.Guest.Memory.Loads.{load_overflow}
use jolt_ncp.Guest.Memory.ReadWrite.{
  load-store, load-store_ne, load_bytes-store_bytes, fetch_flag-store,
}
use jolt_ncp.Guest.Memory.Compose.{new_with_memory-zeros}

data VmError : Type 0 where
  mem_out_of_bound : VmError

-- A CKB-VM that behaves as documented.
abbrev base_vm : CkbVm
base_vm = record {
  Error = VmError;
  mem_out_of_bound = mem_out_of_bound;
  flag_dirty = 4;
  get_page_indices = λ a n. ok (a / riscv_pagesize, (a + n - 1) / riscv_pagesize);
  set_dirty = λ m pages. (ok tt, m);
  fill_page_data = λ m a size source offset. (ok tt, m);
}

abbrev example_vm : CkbVm
example_vm = record base_vm {
  set_dirty = λ m pages. mark_pages base_vm (suc pages.1 - pages.0) m pages.0;
}

example_vm-IsCkbVm : IsCkbVm example_vm
unfolding mark_pages
example_vm-IsCkbVm = record { page_indices = λ a n p h. refl; dirty = λ m lo hi. refl }

one_page : JoltMemory
one_page = fresh 4096

one_page-IsValid : IsValid one_page
unfolding one_page
one_page-IsValid = fresh-IsValid 4096 (omega arith) (omega arith)

one_page_size : one_page.memory_size ≡ 4096
unfolding one_page fresh
one_page_size = refl

-- A store that crosses into the high half of the page.
store-stored_example :
    store example_vm bits32 one_page 16 0x1_0203_0405
    ≡ (ok tt, stored example_vm one_page 16 (to_le_bytes 4 (0x1_0203_0405 % span 4)))
store-stored_example =
    store-stored example_vm example_vm-IsCkbVm bits32 one_page 16 0x1_0203_0405 one_page-IsValid
      (omega (arith, one_page_size))

-- The load of two bytes at the last address of the 64-bit space panics.
load_overflow_example : load mem_out_of_bound bits16 one_page (word - 1) ≡ panic
load_overflow_example =
    load_overflow mem_out_of_bound bits16 one_page (word - 1) one_page-IsValid (omega arith)
      (omega (arith, one_page_size)) (omega arith) (omega arith)

load-store_example :
    load mem_out_of_bound bits16 (store example_vm bits16 one_page 4094 0x1_2345).1 4094
    ≡ ok (0x1_2345 % span 2)
load-store_example =
    load-store example_vm example_vm-IsCkbVm bits16 one_page 4094 0x1_2345 one_page-IsValid
      (omega (arith, one_page_size))

load-store_ne_example :
    load mem_out_of_bound bits64 (store example_vm bits32 one_page 8 9).1 0
    ≡ load mem_out_of_bound bits64 one_page 0
load-store_ne_example =
    load-store_ne example_vm example_vm-IsCkbVm bits32 bits64 one_page 8 0 9 one_page-IsValid
      (omega (arith, one_page_size)) (omega (arith, one_page_size)) (inl (omega arith))

load_bytes-store_bytes_example :
    (load_bytes mem_out_of_bound (store_bytes example_vm one_page 8 (7 ∷ 9 ∷ [])).1 8 2
      ≡ ok (7 ∷ 9 ∷ []))
    × (load_bytes mem_out_of_bound (store_byte example_vm one_page 8 2 7).1 8 2
        ≡ ok (replicate 2 7))
load_bytes-store_bytes_example =
    load_bytes-store_bytes example_vm example_vm-IsCkbVm one_page 8 2 7 (7 ∷ 9 ∷ [])
      one_page-IsValid (omega arith) refl (omega (arith, one_page_size))

fetch_flag-store_example :
    fetch_flag mem_out_of_bound (store example_vm bits32 one_page 8 9).1 0 ≡ (
      if leb (8 / riscv_pagesize) 0 && leb 0 ((8 + 4 - 1) / riscv_pagesize)
      then (do old ← fetch_flag mem_out_of_bound one_page 0; ok (bit_or old 4))
      else fetch_flag mem_out_of_bound one_page 0)
fetch_flag-store_example =
    fetch_flag-store example_vm example_vm-IsCkbVm bits32 one_page 8 9 0 one_page-IsValid
      (omega (arith, one_page_size))

new_with_memory-zeros_example :
    (m : JoltMemory) × (new_with_memory mem_out_of_bound 8192 ≡ ok m)
    × IsValid m
    × (m.memory_size ≡ 8192)
    × (load mem_out_of_bound bits8 m 8191 ≡ ok 0)
new_with_memory-zeros_example =
    new_with_memory-zeros mem_out_of_bound 8192 8191 (omega arith) (omega arith) (omega arith)
