-- ===== src/Guest/Memory/SessionExamples.antt =====
-- Runs of several accesses on one page, and of a segment's load.
use jolt_ncp.Base.{
  ℕ, suc, List, ◌≤◌, ◌+◌, ◌-◌, ◌/◌, ◌≡◌, refl, ◌∷◌, [], some, arith, ok, length, length-replicate,
  get_elem?-replicate,
}
use jolt_ncp.Guest.Memory.{
  JoltMemory, fresh, riscv_pagesize, load_bytes, overwrite, and_then, bits32, bits64, Width,
  width_bytes, load, new_with_memory, set_flag,
}
use jolt_ncp.Guest.Memory.Write.{
  CkbVm, guarded_store, store_slice, store_bytes, store_byte, init_pages, store,
}
use jolt_ncp.Guest.Memory.Valid.{IsValid, IsCkbVm, mark_pages, fresh-IsValid}
use jolt_ncp.Guest.Memory.Cells.{
  Cells, Access, read, write, read_bytes, fill, session, abstract_session, Holds,
}
use jolt_ncp.Guest.Memory.Session.{Models, session-abstract_session}
use jolt_ncp.Guest.Memory.Segment.{lead, body, rest, image, FillsPages}
use jolt_ncp.Guest.Memory.Reach.{Reach, start, later, stores, sets, HasSize, Reach-HasSize}
use jolt_ncp.Guest.Memory.Init.{init_pages-image}

data Failure : Type 0 where
  out_of_bound : Failure

abbrev plain_vm : CkbVm
plain_vm = record {
  Error = Failure;
  mem_out_of_bound = out_of_bound;
  flag_dirty = 4;
  get_page_indices = λ a n. ok (a / riscv_pagesize, (a + n - 1) / riscv_pagesize);
  set_dirty = λ m pages. (ok tt, m);
  fill_page_data = λ m a size source offset. (ok tt, m);
}

abbrev marking_vm : CkbVm
marking_vm = record plain_vm {
  set_dirty = λ m pages. mark_pages plain_vm (suc pages.1 - pages.0) m pages.0;
}

-- A CKB-VM whose `fill_page_data` is the documented row of stores.
abbrev with_fill : CkbVm → CkbVm
with_fill vm = record vm {
  fill_page_data = λ m a size source offset.
      and_then (store_byte vm m a (lead size offset) 0) (λ _ m₁.
        and_then (store_bytes vm m₁ (a + lead size offset) (body size source offset)) (λ _ m₂.
          store_byte vm m₂ (a + lead size offset + length (body size source offset))
            (rest size source offset) 0));
}

with_fill-FillsPages : (vm : CkbVm) → FillsPages (with_fill vm)
unfolding FillsPages store_bytes store_byte guarded_store store_slice
with_fill-FillsPages vm m a size source offset = refl

abbrev filling_vm : CkbVm
filling_vm = with_fill marking_vm

filling_vm-IsCkbVm : IsCkbVm filling_vm
unfolding mark_pages
filling_vm-IsCkbVm = record { page_indices = λ a n p h. refl; dirty = λ m lo hi. refl }

abbrev page : JoltMemory
page = fresh 4096

abbrev zeros : Cells
zeros = record { size = 4096; cell = λ _. 0 }

page-IsValid : IsValid page
page-IsValid = fresh-IsValid 4096 (omega arith) (omega arith)

page_size : page.memory_size ≡ 4096
unfolding fresh
page_size = refl

page-Holds : Holds page.bytes zeros.cell
unfolding fresh
page-Holds i h = get_elem?-replicate 4096 i 0 (omega (arith, h, length-replicate {A = ℕ} 4096 0))

page-Models : Models page zeros
page-Models = record { valid = page-IsValid; same_size = page_size; holds = page-Holds }

-- A store, a fill over a part of it, the reads of both, and a read behind the end.
abbrev accesses : List Access
accesses = write bits32 16 0x0102_0304 ∷ fill 18 3 9 ∷ read bits32 16 ∷ read_bytes 4090 8 ∷ []

session-abstract_session_example :
    ((session filling_vm page accesses).0 ≡ (abstract_session out_of_bound zeros accesses).0)
    × Models (session filling_vm page accesses).1 (abstract_session out_of_bound zeros accesses).1
session-abstract_session_example =
    session-abstract_session filling_vm filling_vm-IsCkbVm page zeros accesses page-Models
      (omega arith, ((omega arith, omega arith), (omega arith, (omega arith, tt))))

init_pages-image_example :
    ((init_pages filling_vm page 0 4096 (some (7 ∷ 8 ∷ [])) 3).0 ≡ ok tt)
    × IsValid (init_pages filling_vm page 0 4096 (some (7 ∷ 8 ∷ [])) 3).1
    × ((init_pages filling_vm page 0 4096 (some (7 ∷ 8 ∷ [])) 3).1.bytes
        ≡ overwrite page.bytes 0 (image 4096 (some (7 ∷ 8 ∷ [])) 3))
    × (load_bytes out_of_bound (init_pages filling_vm page 0 4096 (some (7 ∷ 8 ∷ [])) 3).1 0 4096
        ≡ ok (image 4096 (some (7 ∷ 8 ∷ [])) 3))
init_pages-image_example =
    init_pages-image filling_vm filling_vm-IsCkbVm (with_fill-FillsPages marking_vm) page 0 4096
      (some (7 ∷ 8 ∷ [])) 3 page-IsValid (omega arith, (omega arith, tt)) (omega arith)
      (omega (arith, page_size))

page_built : new_with_memory out_of_bound 4096 ≡ ok page
unfolding new_with_memory
page_built = refl

-- A store inside, a store over the end, and a flag.
abbrev page_later : JoltMemory
page_later =
    (set_flag out_of_bound
      (store filling_vm bits64 (store filling_vm bits32 page 8 70000).1 4092 1).1 0 2).1

page_later-Reach : Reach filling_vm 4096 page_later
page_later-Reach =
    later
      (later (later (start page page_built) (stores bits32 8 70000 (omega arith)))
        (stores bits64 4092 1 (omega arith)))
      (sets 0 2)

Reach-HasSize_example :
    HasSize 4096 page_later
    × ((w : Width) (a : ℕ)
        → a + width_bytes w ≤ 4096
        → (value : ℕ) × (load out_of_bound w page_later a ≡ ok value))
Reach-HasSize_example =
    Reach-HasSize filling_vm filling_vm-IsCkbVm (with_fill-FillsPages marking_vm) 4096
      page_later-Reach
