-- ===== src/Guest/Memory.antt =====
-- guest/src/jolt_memory.rs: the CKB-VM memory backend over one byte vector. A method that changes
-- the memory returns the memory it leaves beside its result, also on an error. `usize` additions
-- wrap (the guest is built in release mode), and an index or a slice out of range panics.
pub mod Slices
pub mod Write
pub mod Valid
pub mod Stores
pub mod Loads
pub mod ReadWrite
pub mod Compose
pub mod Cells
pub mod Session
pub mod Segment
pub mod Init
pub mod Reach
mod Examples
mod SessionExamples
use Prim.Native.Nat.{bit_and, bit_or}
use jolt_ncp.Base.{
  ℕ, zero, suc, ◌-◌, ◌/◌, ◌%◌, Bool, ◌&&◌, Option, none, some, [], ◌∷◌, ltb, leb, ◌==◌,
  if◌then◌else◌, length, get_elem?, set, take, drop, replicate, Outcome, ok, err, panic, ◌>>=◌,
  expect, Bytes, add_word, from_le_bytes, to_le_bytes, span, word,
}

-- The constants of CKB-VM, as the design note gives them (docs/quick-ckb-jolt-memory-shim.md).
abbrev pub riscv_max_memory : ℕ
riscv_max_memory = 4_194_304

abbrev pub riscv_pagesize : ℕ
riscv_pagesize = 4096

abbrev pub u64_max : ℕ
u64_max = word - 1

pub record JoltMemory : Type 0 where
  pub bytes : Bytes
  pub flags : Bytes
  pub memory_size : ℕ
  pub riscv_pages : ℕ
  pub load_reservation_address : ℕ

-- What a method with `&mut self` returns.
abbrev pub Step : Type 0 → Type 0 → Type 0
Step E A = Outcome E A × JoltMemory

-- `?` between two steps
abbrev pub and_then : {E A B : Type 0} → Step E A → (A → JoltMemory → Step E B) → Step E B
and_then (ok a, m) f = f a m
and_then (err e, m) f = (err e, m)
and_then (panic, m) f = (panic, m)

-- `self.data[a..a + bytes.len()].copy_from_slice(bytes)`, for a range that is in bounds
pub overwrite : Bytes → ℕ → Bytes → Bytes
overwrite [] a bs = []
overwrite (x ∷ d) zero [] = x ∷ d
overwrite (x ∷ d) zero (b ∷ bs) = b ∷ overwrite d zero bs
overwrite (x ∷ d) (suc a) bs = x ∷ overwrite d a bs

-- `self.data[a..a + n].to_vec()`
abbrev pub slice : Bytes → ℕ → ℕ → Bytes
slice d a n = take n (drop a d)

-- The test that a slice `[a..e]` of a vector makes before it panics.
abbrev pub in_slice : Bytes → ℕ → ℕ → Bool
in_slice d a e = leb a e && leb e (length d)

-- `[self.data[a], self.data[a + 1], …]`, of `n` bytes
pub index_from : {E : Type 0} → Bytes → ℕ → ℕ → Outcome E Bytes
index_from d a zero = ok []
index_from d a (suc n) = do
  b ← expect (get_elem? d a)
  bs ← index_from d (add_word a 1) n
  ok (b ∷ bs)

-- `self.data[a] = bytes[0]; self.data[a + 1] = bytes[1]; …`
pub assign_from : {E : Type 0} → Bytes → ℕ → Bytes → Outcome E Bytes
assign_from d a [] = ok d
assign_from d a (b ∷ bs) =
    let rest = assign_from (set d a b) (add_word a 1) bs in if ltb a (length d) then rest else panic

-- What a write to `self.data` leaves.
abbrev pub store_data : {E : Type 0} → JoltMemory → Outcome E Bytes → Step E (Unit {0})
store_data m (ok d) = (ok tt, record m { bytes = d })
store_data m (err e) = (err e, m)
store_data m panic = (panic, m)

-- The fields that `new_with_memory` builds.
pub fresh : ℕ → JoltMemory
fresh memory_size = record {
  bytes = replicate memory_size 0;
  flags = replicate (memory_size / riscv_pagesize) 0;
  memory_size = memory_size;
  riscv_pages = memory_size / riscv_pagesize;
  load_reservation_address = u64_max;
}

-- The methods that need only the error `Error::MemOutOfBound` of CKB-VM.
module _ {E : Type 0} (mem_out_of_bound : E) where
  pub new_with_memory : ℕ → Outcome E JoltMemory
  unfolding fresh
  new_with_memory memory_size =
      if leb memory_size riscv_max_memory && memory_size % riscv_pagesize == 0
      then ok (fresh memory_size)
      else panic

  -- `new`
  pub new : Outcome E JoltMemory
  unfolding new_with_memory
  new = new_with_memory riscv_max_memory

  pub fetch_flag : JoltMemory → ℕ → Outcome E ℕ
  fetch_flag m page =
      if ltb page m.riscv_pages then expect (get_elem? m.flags page) else err mem_out_of_bound

  -- `self.flags[page] = f(self.flags[page])`
  pub change_flag : (ℕ → ℕ) → JoltMemory → ℕ → Step E (Unit {0})
  change_flag f m page = elim (get_elem? m.flags page) [
    | some old ↦ (ok tt, record m { flags = set m.flags page (f old) })
    | none ↦ (panic, m)
  ]

  pub set_flag : JoltMemory → ℕ → ℕ → Step E (Unit {0})
  unfolding change_flag
  set_flag m page flag =
      if ltb page m.riscv_pages
      then change_flag (λ old. bit_or old flag) m page
      else (err mem_out_of_bound, m)

  pub clear_flag : JoltMemory → ℕ → ℕ → Step E (Unit {0})
  unfolding change_flag
  clear_flag m page flag =
      if ltb page m.riscv_pages
      then change_flag (λ old. bit_and old (255 - flag)) m page
      else (err mem_out_of_bound, m)

  pub load8 : JoltMemory → ℕ → Outcome E ℕ
  load8 m a = if leb m.memory_size a then err mem_out_of_bound else expect (get_elem? m.bytes a)

  -- The shared text of `load16`, `load32` and `load64`, for `n` bytes.
  pub load_le : ℕ → JoltMemory → ℕ → Outcome E ℕ
  unfolding index_from
  load_le n m a =
      if ltb m.memory_size (add_word a n)
      then err mem_out_of_bound
      else do bs ← index_from m.bytes a n; ok (from_le_bytes bs)

  pub load16 : JoltMemory → ℕ → Outcome E ℕ
  unfolding load_le
  load16 = load_le 2

  pub load32 : JoltMemory → ℕ → Outcome E ℕ
  unfolding load_le
  load32 = load_le 4

  pub load64 : JoltMemory → ℕ → Outcome E ℕ
  unfolding load_le
  load64 = load_le 8

  pub execute_load16 : JoltMemory → ℕ → Outcome E ℕ
  unfolding load16
  execute_load16 m a = do v ← load16 m a; ok (v % span 2)

  pub execute_load32 : JoltMemory → ℕ → Outcome E ℕ
  unfolding load32
  execute_load32 m a = do v ← load32 m a; ok (v % span 4)

  pub load_bytes : JoltMemory → ℕ → ℕ → Outcome E Bytes
  load_bytes m a size =
      if size == 0
      then ok []
      else if ltb m.memory_size (add_word a size)
      then err mem_out_of_bound
      else if in_slice m.bytes a (add_word a size)
      then ok (slice m.bytes a size)
      else panic

pub lr : JoltMemory → ℕ
lr m = m.load_reservation_address

pub set_lr : JoltMemory → ℕ → JoltMemory
set_lr m value = record m { load_reservation_address = value }

-- The widths of the scalar loads and stores.
pub data Width : Type 0 where
  bits8 bits16 bits32 bits64 : Width

abbrev pub width_bytes : Width → ℕ
width_bytes bits8 = 1
width_bytes bits16 = 2
width_bytes bits32 = 4
width_bytes bits64 = 8

-- The load of each width.
pub load : {E : Type 0} → E → Width → JoltMemory → ℕ → Outcome E ℕ
unfolding load8 load16 load32 load64
load oob bits8 = load8 oob
load oob bits16 = load16 oob
load oob bits32 = load32 oob
load oob bits64 = load64 oob
