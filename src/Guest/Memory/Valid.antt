-- ===== src/Guest/Memory/Valid.antt =====
-- Well-formed memories, and what the ckb-vm crate documents of the functions that jolt_memory.rs
-- calls.
use Prim.Native.Nat.{bit_or}
use mathlib.Core.Option
use jolt_ncp.Base.{
  ℕ, zero, suc, ◌+◌, ◌-◌, ◌*◌, ◌/◌, ◌%◌, ◌≤◌, ◌<◌, ◌≡◌, refl, ap, ◌∙◌, ◌&&◌, some, [], ◌∷◌, arith,
  ltb, leb, if◌then◌else◌, length, get_elem?, set, get_elem?_total, length-replicate, All, ok,
  Bytes,
}
use jolt_ncp.Guest.Memory.{
  JoltMemory, riscv_max_memory, riscv_pagesize, fresh, set_flag, Step, and_then,
}
use jolt_ncp.Guest.Memory.Write.{CkbVm}
use jolt_ncp.Guest.Memory.Slices.{All-replicate}

pub record IsValid (m : JoltMemory) : Type 0 where
  pub sized : length m.bytes ≡ m.memory_size
  pub flagged : length m.flags ≡ m.riscv_pages
  pub paged : m.memory_size ≡ m.riscv_pages * riscv_pagesize
  pub bounded : m.memory_size ≤ riscv_max_memory
  pub in_bytes : All (λ b. b < 256) m.bytes

-- The loop `for page in lo..=hi { memory.set_flag(page, FLAG_DIRTY)? }`, over `k` pages.
unfoldable pub mark_pages : (vm : CkbVm) → ℕ → JoltMemory → ℕ → Step vm.Error (Unit {0})
mark_pages vm zero m page = (ok tt, m)
mark_pages vm (suc k) m page =
    and_then (set_flag vm.mem_out_of_bound m page vm.flag_dirty)
      (λ _ m'. mark_pages vm k m' (suc page))

pub record IsCkbVm (vm : CkbVm) : Type 0 where
  -- `get_page_indices` gives the first and the last page of a range inside the address space.
  pub page_indices :
      (a n : ℕ)
      → 0 < n
      → a + n ≤ riscv_max_memory
      → vm.get_page_indices a n ≡ ok (a / riscv_pagesize, (a + n - 1) / riscv_pagesize)
  -- `set_dirty` sets the flag `FLAG_DIRTY` on each page of an inclusive range.
  pub dirty :
      (m : JoltMemory) (lo hi : ℕ) → vm.set_dirty m (lo, hi) ≡ mark_pages vm (suc hi - lo) m lo

-- One flag byte of the page table, changed in place.
pub update_at : (ℕ → ℕ) → Bytes → ℕ → Bytes
update_at f [] i = []
update_at f (x ∷ d) zero = f x ∷ d
update_at f (x ∷ d) (suc i) = x ∷ update_at f d i

-- The page table with a flag set on `k` pages.
pub marked : ℕ → ℕ → Bytes → ℕ → Bytes
marked flag zero d page = d
marked flag (suc k) d page = marked flag k (update_at (λ old. bit_or old flag) d page) (suc page)

length-update_at : (f : ℕ → ℕ) (d : Bytes) (i : ℕ) → length (update_at f d i) ≡ length d
unfolding update_at
length-update_at f [] i = refl
length-update_at f (x ∷ d) zero = refl
length-update_at f (x ∷ d) (suc i) = ap suc (length-update_at f d i)

set-update_at :
    (f : ℕ → ℕ) (d : Bytes) (i : ℕ) {old : ℕ}
    → get_elem? d i ≡ some old
    → set d i (f old) ≡ update_at f d i
unfolding update_at
set-update_at f [] i e = refl
set-update_at f (x ∷ d) zero e = ground arith
set-update_at f (x ∷ d) (suc i) e = ap (◌∷◌ x) (set-update_at f d i e)

get_elem?-update_at :
    (f : ℕ → ℕ) (d : Bytes) (i j : ℕ)
    → get_elem? (update_at f d i) j
      ≡ (if leb i j && leb j i then Option.map f (get_elem? d j) else get_elem? d j)
unfolding update_at
get_elem?-update_at f [] i j = ground arith
get_elem?-update_at f (x ∷ d) zero zero = refl
get_elem?-update_at f (x ∷ d) zero (suc j) = ground arith
get_elem?-update_at f (x ∷ d) (suc i) zero = ground arith
get_elem?-update_at f (x ∷ d) (suc i) (suc j) = ground (arith, get_elem?-update_at f d i j)

pub length-marked : (flag k : ℕ) (d : Bytes) (page : ℕ) → length (marked flag k d page) ≡ length d
unfolding marked
length-marked flag zero d page = refl
length-marked flag (suc k) d page =
    length-marked flag k (update_at (λ old. bit_or old flag) d page) (suc page)
    ∙ length-update_at (λ old. bit_or old flag) d page

-- Exactly the pages of the range get the flag.
pub get_elem?-marked :
    (flag k : ℕ) (d : Bytes) (page p : ℕ)
    → get_elem? (marked flag k d page) p ≡ (
        if leb page p && ltb p (page + k)
        then Option.map (λ old. bit_or old flag) (get_elem? d p)
        else get_elem? d p)
unfolding marked
get_elem?-marked flag zero d page p = ground arith
get_elem?-marked flag (suc k) d page p = ground (
  arith,
  get_elem?-marked flag k (update_at (λ old. bit_or old flag) d page) (suc page) p,
  get_elem?-update_at (λ old. bit_or old flag) d page p,
)

set_flag-update_at :
    {E : Type 0} (oob : E) (m : JoltMemory) (page flag : ℕ)
    → page < length m.flags
    → length m.flags ≡ m.riscv_pages
    → set_flag oob m page flag
      ≡ (ok tt, record m { flags = update_at (λ old. bit_or old flag) m.flags page })
unfolding set_flag
set_flag-update_at oob m page flag h e =
    let (old, found) = get_elem?_total m.flags page h in
    ground (arith, found, set-update_at (λ old. bit_or old flag) m.flags page found)

-- On pages that exist the loop of `set_dirty` succeeds and changes the page table alone.
pub mark_pages-marked :
    (vm : CkbVm) (k : ℕ) (m : JoltMemory) (page : ℕ)
    → length m.flags ≡ m.riscv_pages
    → page + k ≤ m.riscv_pages
    → mark_pages vm k m page ≡ (ok tt, record m { flags = marked vm.flag_dirty k m.flags page })
unfolding mark_pages marked
mark_pages-marked vm zero m page e h = refl
mark_pages-marked vm (suc k) m page e h =
    let f : ℕ → ℕ = λ old. bit_or old vm.flag_dirty in
    rw (set_flag-update_at vm.mem_out_of_bound m page vm.flag_dirty (omega arith) e) (
      mark_pages-marked vm k (record m { flags = update_at f m.flags page }) (suc page)
        (length-update_at f m.flags page ∙ e) (omega arith))

-- `new_with_memory` builds a well-formed memory of the size asked for, all zeros, if the size is a
-- number of whole pages within the address space; its assertions fail on any other size.
pub fresh-IsValid : (n : ℕ) → n ≤ riscv_max_memory → n % riscv_pagesize ≡ 0 → IsValid (fresh n)
unfolding fresh
fresh-IsValid n h e = record {
  sized = length-replicate n 0;
  flagged = length-replicate (n / riscv_pagesize) 0;
  paged = omega arith;
  bounded = h;
  in_bytes = All-replicate (λ b. b < 256) n 0 (omega arith);
}
