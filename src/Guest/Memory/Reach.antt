-- ===== src/Guest/Memory/Reach.antt =====
-- guest/src/jolt_memory.rs: the memories that the methods can leave, in any order and whatever they
-- return.
use mathlib.Core.Path.{subst}
use Prim.Native.Nat.{bit_and, bit_or}
use jolt_ncp.Guest.Memory.Loads.{load-slice}
use jolt_ncp.Base.{
  ◌-◌, Outcome, ℕ, zero, suc, ◌+◌, ◌%◌, ◌≤◌, ◌<◌, ◌≡◌, refl, ◌∙◌, Option, [], ◌∷◌, arith, leb, ltb,
  ◌==◌, ◌&&◌, length, length-set, length-replicate, replicate, get_elem?, ok, Bytes, word, span,
  to_le_bytes-bytes, All, Bool-cases, Option-cases, inl, inr,
}
use jolt_ncp.Guest.Memory.{
  JoltMemory, Width, width_bytes, riscv_max_memory, riscv_pagesize, fresh, load, new_with_memory,
  change_flag, set_flag, clear_flag, set_lr,
}
use jolt_ncp.Guest.Memory.Write.{CkbVm, store, store_bytes, store_byte, init_pages}
use jolt_ncp.Guest.Memory.Slices.{All-replicate}
use jolt_ncp.Guest.Memory.Valid.{IsValid, IsCkbVm, fresh-IsValid}
use jolt_ncp.Guest.Memory.Stores.{
  stored, stored-IsValid, store-stored, bulk_stores-stored, store_out_of_bound,
  bulk_stores_out_of_bound,
}
use jolt_ncp.Guest.Memory.Segment.{FillsPages, HasBytes}
use jolt_ncp.Guest.Memory.Init.{init_pages-Wrote}

-- One call of a method with `&mut self`, to the memory that it leaves.
pub data Call (vm : CkbVm) (m : JoltMemory) : JoltMemory → Type 0 where
  stores : (w : Width) (a v : ℕ) → a + width_bytes w < word → Call vm m (store vm w m a v).1
  writes :
      (a : ℕ) (bs : Bytes)
      → a + length bs < word
      → All (λ b. b < 256) bs
      → Call vm m (store_bytes vm m a bs).1
  fills : (a n b : ℕ) → a + n < word → b < 256 → Call vm m (store_byte vm m a n b).1
  sets : (page flag : ℕ) → Call vm m (set_flag vm.mem_out_of_bound m page flag).1
  clears : (page flag : ℕ) → Call vm m (clear_flag vm.mem_out_of_bound m page flag).1
  reserves : (value : ℕ) → Call vm m (set_lr m value)
  inits :
      (a n : ℕ) (source : Option Bytes) (offset : ℕ)
      → a + n ≤ m.memory_size
      → HasBytes source
      → Call vm m (init_pages vm m a n source offset).1

-- The memories that any number of calls leave, from a new memory of a size on.
pub data Reach (vm : CkbVm) (size : ℕ) : JoltMemory → Type 0 where
  start : (m : JoltMemory) → new_with_memory vm.mem_out_of_bound size ≡ ok m → Reach vm size m
  later : {m m' : JoltMemory} → Reach vm size m → Call vm m m' → Reach vm size m'

-- A well-formed memory of a size.
abbrev pub HasSize : ℕ → JoltMemory → Type 0
HasSize size m = IsValid m × (m.memory_size ≡ size)

ok_injective : {E A : Type 0} {a b : A} {o : Outcome E A} → o ≡ ok a → o ≡ ok b → a ≡ b
ok_injective here there = cc

fresh-HasSize :
    (size : ℕ) (m : JoltMemory)
    → fresh size ≡ m
    → size ≤ riscv_max_memory
    → size % riscv_pagesize ≡ 0
    → HasSize size m
unfolding fresh
fresh-HasSize size m same fits whole =
    subst (λ x. HasSize size x) same (fresh-IsValid size fits whole, refl)

new_with_memory-HasSize :
    {E : Type 0} (oob : E) (size : ℕ) (m : JoltMemory)
    → new_with_memory oob size ≡ ok m
    → HasSize size m
unfolding new_with_memory
new_with_memory-HasSize oob size m built =
    elim (Bool-cases (leb size riscv_max_memory && size % riscv_pagesize == 0)) [
      | inl fine ↦
          let same : fresh size ≡ m = ok_injective (unfold new_with_memory in rw fine refl) built in
          let fits : (size ≤ riscv_max_memory) × (size % riscv_pagesize ≡ 0) =
            ground (arith, fine) in
          fresh-HasSize size m same fits.0 fits.1
      | inr refused ↦ let same = rw refused at built in absurd cc
    ]

change_flag-HasSize :
    {E : Type 0} (oob : E) (f : ℕ → ℕ) (size : ℕ) (m : JoltMemory) (page : ℕ)
    → HasSize size m
    → HasSize size (change_flag oob f m page).1
unfolding change_flag
change_flag-HasSize oob f size m page (valid, sized) =
    elim (Option-cases (get_elem? m.flags page)) [
      | inl absent ↦ rw (change_flag, absent) (valid, sized)
      | inr (old, found) ↦
          rw (change_flag, found)
            (
              record {
                sized = valid.sized;
                flagged = length-set m.flags page (f old) ∙ valid.flagged;
                paged = valid.paged;
                bounded = valid.bounded;
                in_bytes = valid.in_bytes;
              },
              sized,
            )
    ]

module _ (vm : CkbVm) (laws : IsCkbVm vm) (fills_pages : FillsPages vm) (size : ℕ) where
  stores-HasSize :
      (w : Width) (m : JoltMemory) (a v : ℕ)
      → a + width_bytes w < word
      → HasSize size m
      → HasSize size (store vm w m a v).1
  unfolding stored
  stores-HasSize w m a v low (valid, sized) =
      elim (Bool-cases (leb (a + width_bytes w) m.memory_size)) [
        | inl inside ↦ rw (store-stored vm laws w m a v valid (ground (arith, inside))) (
          stored-IsValid vm a _ valid
              (to_le_bytes-bytes (width_bytes w) (v % span (width_bytes w))),
          sized,
        )
        | inr outside ↦
            rw (store_out_of_bound vm w m a v (ground (arith, outside)) low) (valid, sized)
      ]

  init_pages-HasSize :
      (m : JoltMemory) (a n : ℕ) (source : Option Bytes) (offset : ℕ)
      → a + n ≤ m.memory_size
      → HasBytes source
      → HasSize size m
      → HasSize size (init_pages vm m a n source offset).1
  init_pages-HasSize m a n source offset inside bytes (valid, sized) =
      let (m', run, wrote) =
        init_pages-Wrote vm laws fills_pages m a n source offset valid bytes inside in
      rw run (wrote.valid, wrote.same_size ∙ sized)

  bulk-HasSize :
      (m : JoltMemory) (a n b : ℕ) (bs : Bytes)
      → length bs ≡ n
      → a + n < word
      → All (λ x. x < 256) bs
      → b < 256
      → HasSize size m
      → HasSize size (store_bytes vm m a bs).1 × HasSize size (store_byte vm m a n b).1
  unfolding store_bytes store_byte stored
  bulk-HasSize m a zero b [] len low small b_small h = (h, h)
  bulk-HasSize m a zero b (x ∷ bs) len low small b_small h = absurd (omega (arith, len))
  bulk-HasSize m a (suc n) b bs len low small b_small (valid, sized) =
      elim (Bool-cases (leb (a + suc n) m.memory_size)) [
        | inl inside ↦
            let (written, filled) =
              bulk_stores-stored vm laws m a (suc n) b bs valid (omega arith) len
                (ground (arith, inside)) in
            rw (written, filled)
              (
                (stored-IsValid vm a bs valid small, sized),
                (
                  stored-IsValid vm a (replicate (suc n) b) valid
                      (All-replicate (λ x. x < 256) (suc n) b b_small),
                  sized,
                ),
              )
        | inr outside ↦
            let (written, filled) =
              bulk_stores_out_of_bound vm m a (suc n) b bs (omega arith) len
                (ground (arith, outside)) low in
            rw (written, filled) ((valid, sized), (valid, sized))
      ]

  set_flag-HasSize :
      (m : JoltMemory) (page flag : ℕ)
      → HasSize size m
      → HasSize size (set_flag vm.mem_out_of_bound m page flag).1
        × HasSize size (clear_flag vm.mem_out_of_bound m page flag).1
  unfolding set_flag clear_flag
  set_flag-HasSize m page flag h = elim (Bool-cases (ltb page m.riscv_pages)) [
    | inl there ↦ rw there (
      change_flag-HasSize vm.mem_out_of_bound (λ old. bit_or old flag) size m page h,
      change_flag-HasSize vm.mem_out_of_bound (λ old. bit_and old (255 - flag)) size m page h,
    )
    | inr beyond ↦ rw beyond (h, h)
  ]

  Call-HasSize : {m m' : JoltMemory} → Call vm m m' → HasSize size m → HasSize size m'
  Call-HasSize {m} (stores w a v low) h = stores-HasSize w m a v low h
  Call-HasSize {m} (writes a bs low small) h =
      (bulk-HasSize m a (length bs) 0 bs refl low small (omega arith) h).0
  Call-HasSize {m} (fills a n b low small) h =
      (bulk-HasSize m a n b (replicate n b) (length-replicate n b) low
        (All-replicate (λ x. x < 256) n b small) small h).1
  Call-HasSize {m} (sets page flag) h = (set_flag-HasSize m page flag h).0
  Call-HasSize {m} (clears page flag) h = (set_flag-HasSize m page flag h).1
  Call-HasSize {m} (reserves value) (valid, sized) =
      unfold set_lr in
      (
        record {
          sized = valid.sized;
          flagged = valid.flagged;
          paged = valid.paged;
          bounded = valid.bounded;
          in_bytes = valid.in_bytes;
        },
        sized,
      )
  Call-HasSize {m} (inits a n source offset inside bytes) h =
      init_pages-HasSize m a n source offset inside bytes h

  -- Every memory that is left, from a new memory of a size on, by any number of scalar stores,
  -- bulk writes, fills, changes of flags and of the reservation address, inside or outside of the
  -- memory and whatever they return, and of `init_pages` on ranges inside it, is well-formed and
  -- of that size, and a load of any width inside it succeeds. Ranges end below 2^64 and what is
  -- written is bytes; CKB-VM is taken to find and mark dirty the pages of a range, and to fill a
  -- range of pages, as it documents.
  pub Reach-HasSize :
      {m : JoltMemory}
      → Reach vm size m
      → HasSize size m
        × ((w : Width) (a : ℕ)
            → a + width_bytes w ≤ size
            → (value : ℕ) × (load vm.mem_out_of_bound w m a ≡ ok value))
  Reach-HasSize {m} reached =
      let (valid, sized) = Reach-valid reached in
      (
        (valid, sized),
        λ w a inside.
            (_, load-slice vm.mem_out_of_bound w m a valid (omega (arith, inside, sized))),
      )
    where
      Reach-valid : {m : JoltMemory} → Reach vm size m → HasSize size m
      Reach-valid (start m built) = new_with_memory-HasSize vm.mem_out_of_bound size m built
      Reach-valid (later reached call) = Call-HasSize call (Reach-valid reached)
