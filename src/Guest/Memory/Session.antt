-- ===== src/Guest/Memory/Session.antt =====
-- Rows of accesses, on the memory and on the abstract one.
use jolt_ncp.Base.{
  ℕ, zero, suc, ◌+◌, ◌%◌, ◌<◌, ◌≡◌, refl, false, List, [], ◌∷◌, arith, leb, ◌==◌, length,
  length-replicate, replicate, Outcome, Bytes, span, to_le_bytes-bytes, All, Bool-cases, inl, inr,
}
use jolt_ncp.Guest.Memory.{JoltMemory, width_bytes, load_bytes}
use jolt_ncp.Guest.Memory.Write.{CkbVm, store_bytes, store_byte}
use jolt_ncp.Guest.Memory.Slices.{length-overwrite, All-replicate}
use jolt_ncp.Guest.Memory.Valid.{IsValid, IsCkbVm}
use jolt_ncp.Guest.Memory.Loads.{
  load-slice, load_out_of_bound, load_bytes-slice, load_bytes_out_of_bound,
}
use jolt_ncp.Guest.Memory.Stores.{
  stored, stored-IsValid, store-stored, bulk_stores-stored, store_out_of_bound,
  bulk_stores_out_of_bound,
}
use jolt_ncp.Guest.Memory.Cells.{
  Cells, put, Access, read, write, read_bytes, write_bytes, fill, Answer, Fits, perform, session,
  abstract_perform, abstract_session, Holds, slice-range, Holds-overwrite,
}

-- A well-formed memory that holds the cells.
pub record Models (m : JoltMemory) (c : Cells) : Type 0 where
  pub valid : IsValid m
  pub same_size : m.memory_size ≡ c.size
  pub holds : Holds m.bytes c.cell

stored-Models :
    (vm : CkbVm) (m : JoltMemory) (c : Cells) (a : ℕ) (bs : Bytes)
    → Models m c
    → All (λ b. b < 256) bs
    → Models (stored vm m a bs) (record c { cell = put c.cell a bs })
unfolding stored
stored-Models vm m c a bs models small = record {
  valid = stored-IsValid vm a bs models.valid small;
  same_size = models.same_size;
  holds = λ i k.
      Holds-overwrite m.bytes c.cell a bs models.holds i
        (omega (arith, k, length-overwrite m.bytes a bs));
}

suc_not_zero : (n : ℕ) → (suc n == 0) ≡ false
suc_not_zero n = ground arith

-- The answers agree, and what is left still agrees.
abbrev Agrees : {E : Type 0} → Outcome E Answer × JoltMemory → Outcome E Answer × Cells → Type 0
Agrees (r, m) (r', c) = (r ≡ r') × Models m c

module _ (vm : CkbVm) (laws : IsCkbVm vm) where
  perform-Agrees :
      (m : JoltMemory) (c : Cells) (access : Access)
      → Models m c
      → Fits access
      → Agrees (perform vm m access) (abstract_perform vm.mem_out_of_bound c access)
  unfolding perform abstract_perform
  perform-Agrees m c (read w a) models fits = elim (Bool-cases (leb (a + width_bytes w) c.size)) [
    | inl inside ↦
        rw
          (
            inside,
            load-slice vm.mem_out_of_bound w m a models.valid
                (ground (arith, inside, models.same_size)),
            slice-range m.bytes c.cell a (width_bytes w) models.holds
                (ground (arith, inside, models.same_size, models.valid.sized)),
          )
          (refl, models)
    | inr outside ↦
        rw
          (
            outside,
            load_out_of_bound vm.mem_out_of_bound w m a (ground (arith, outside, models.same_size))
                fits,
          )
          (refl, models)
  ]
  perform-Agrees m c (write w a v) models fits =
      elim (Bool-cases (leb (a + width_bytes w) c.size)) [
        | inl inside ↦
            rw
              (
                inside,
                store-stored vm laws w m a v models.valid
                    (ground (arith, inside, models.same_size)),
              )
              (
                refl,
                stored-Models vm m c a _ models
                    (to_le_bytes-bytes (width_bytes w) (v % span (width_bytes w))),
              )
        | inr outside ↦
            rw
              (
                outside,
                store_out_of_bound vm w m a v (ground (arith, outside, models.same_size)) fits,
              )
              (refl, models)
      ]
  perform-Agrees m c (read_bytes a zero) models fits = (unfold load_bytes in refl, models)
  perform-Agrees m c (read_bytes a (suc n)) models fits =
      elim (Bool-cases (leb (a + suc n) c.size)) [
        | inl inside ↦
            rw
              (
                suc_not_zero n,
                inside,
                load_bytes-slice vm.mem_out_of_bound m a (suc n) models.valid (omega arith)
                    (ground (arith, inside, models.same_size)),
                slice-range m.bytes c.cell a (suc n) models.holds
                    (ground (arith, inside, models.same_size, models.valid.sized)),
              )
              (refl, models)
        | inr outside ↦
            rw
              (
                suc_not_zero n,
                outside,
                load_bytes_out_of_bound vm.mem_out_of_bound m a (suc n) (omega arith)
                    (ground (arith, outside, models.same_size)) fits,
              )
              (refl, models)
      ]
  perform-Agrees m c (write_bytes a []) models fits =
      (unfold store_bytes in refl, unfold store_bytes in models)
  perform-Agrees m c (write_bytes a (b ∷ bs)) models fits =
      elim (Bool-cases (leb (a + length (b ∷ bs)) c.size)) [
        | inl inside ↦
            rw
              (
                suc_not_zero (length bs),
                inside,
                (bulk_stores-stored vm laws m a (length (b ∷ bs)) 0 (b ∷ bs) models.valid
                    (omega arith) refl (ground (arith, inside, models.same_size))).0,
              )
              (refl, stored-Models vm m c a (b ∷ bs) models fits.1)
        | inr outside ↦
            rw
              (
                suc_not_zero (length bs),
                outside,
                (bulk_stores_out_of_bound vm m a (length (b ∷ bs)) 0 (b ∷ bs) (omega arith) refl
                    (ground (arith, outside, models.same_size)) fits.0).0,
              )
              (refl, models)
      ]
  perform-Agrees m c (fill a zero b) models fits =
      (unfold store_byte in refl, unfold store_byte in models)
  perform-Agrees m c (fill a (suc n) b) models fits = elim (Bool-cases (leb (a + suc n) c.size)) [
    | inl inside ↦
        rw
          (
            suc_not_zero n,
            inside,
            (bulk_stores-stored vm laws m a (suc n) b (replicate (suc n) b) models.valid
                (omega arith) (length-replicate (suc n) b)
                (ground (arith, inside, models.same_size))).1,
          )
          (
            refl,
            stored-Models vm m c a (replicate (suc n) b) models
                (All-replicate (λ x. x < 256) (suc n) b fits.1),
          )
    | inr outside ↦
        rw
          (
            suc_not_zero n,
            outside,
            (bulk_stores_out_of_bound vm m a (suc n) b (replicate (suc n) b) (omega arith)
                (length-replicate (suc n) b) (ground (arith, outside, models.same_size)) fits.0).1,
          )
          (refl, models)
  ]

  -- Any row of loads, stores of every width, bulk reads, bulk writes and fills, inside or outside
  -- of the memory, whose ranges end below 2^64 and which write bytes, on a well-formed memory that
  -- holds an array of byte cells, gets the answers, errors included, of that array, which has no
  -- pages, and leaves a well-formed memory that holds the array's cells after it. CKB-VM is taken
  -- to find and mark dirty the pages of a range as it documents.
  pub session-abstract_session :
      (m : JoltMemory) (c : Cells) (accesses : List Access)
      → Models m c
      → All Fits accesses
      → ((session vm m accesses).0 ≡ (abstract_session vm.mem_out_of_bound c accesses).0)
        × Models (session vm m accesses).1 (abstract_session vm.mem_out_of_bound c accesses).1
  unfolding session abstract_session
  session-abstract_session m c [] models fit = (refl, models)
  session-abstract_session m c (access ∷ accesses) models fit =
      let (same, next) = perform-Agrees m c access models fit.0 in
      let (rest, last) =
        session-abstract_session (perform vm m access).1
          (abstract_perform vm.mem_out_of_bound c access).1 accesses next fit.1 in
      (cc, last)
