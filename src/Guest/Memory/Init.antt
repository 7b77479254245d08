-- ===== src/Guest/Memory/Init.antt =====
-- `init_pages`: what loading a program's segment leaves in the memory.
use mathlib.Core.Path.{subst}
use jolt_ncp.Base.{
  ℕ, zero, suc, ◌+◌, ◌≤◌, ◌<◌, ◌≡◌, refl, ap, sym, ◌∙◌, Option, [], ◌∷◌, ◌++◌, arith, length,
  length-append, length-replicate, replicate, ok, Bytes, All,
}
use jolt_ncp.Guest.Memory.{JoltMemory, and_then, overwrite, slice, load_bytes}
use jolt_ncp.Guest.Memory.Write.{CkbVm, store_bytes, store_byte, init_pages}
use jolt_ncp.Guest.Memory.Slices.{overwrite-nil, All-replicate, slice-overwrite_self}
use jolt_ncp.Guest.Memory.Valid.{IsValid, IsCkbVm}
use jolt_ncp.Guest.Memory.Stores.{stored, stored-IsValid, bulk_stores-stored}
use jolt_ncp.Guest.Memory.Segment.{
  lead, body, rest, FillsPages, image, HasBytes, body-bytes, length-body_le, lead-le, length-image,
}
use jolt_ncp.Guest.Memory.Loads.{load_bytes-slice}

overwrite-overwrite :
    (d : Bytes) (a : ℕ) (xs ys : Bytes)
    → overwrite (overwrite d a xs) (a + length xs) ys ≡ overwrite d a (xs ++ ys)
unfolding overwrite
overwrite-overwrite [] a xs ys = refl
overwrite-overwrite (x ∷ d) zero [] ys = refl
overwrite-overwrite (x ∷ d) zero (b ∷ xs) ys =
    let e : zero + suc (length xs) ≡ suc (zero + length xs) = omega arith in
    rw e (ap (◌∷◌ b) (overwrite-overwrite d zero xs ys))
overwrite-overwrite (x ∷ d) (suc a) xs ys =
    let e : suc a + length xs ≡ suc (a + length xs) = omega arith in
    rw e (ap (◌∷◌ x) (overwrite-overwrite d a xs ys))

-- `after` is `before` with bytes written from `a` on, still well-formed.
pub record Wrote (before after : JoltMemory) (a : ℕ) (bs : Bytes) : Type 0 where
  pub valid : IsValid after
  pub same_size : after.memory_size ≡ before.memory_size
  pub written : after.bytes ≡ overwrite before.bytes a bs

Wrote-append :
    (m₀ m₁ m₂ : JoltMemory) (a n : ℕ) (xs ys : Bytes)
    → length xs ≡ n
    → Wrote m₀ m₁ a xs
    → Wrote m₁ m₂ (a + n) ys
    → Wrote m₀ m₂ a (xs ++ ys)
Wrote-append m₀ m₁ m₂ a n xs ys e first second = record {
  valid = second.valid;
  same_size = second.same_size ∙ first.same_size;
  written =
      second.written
      ∙ ap (λ d. overwrite d (a + n) ys) first.written
      ∙ ap (λ k. overwrite (overwrite m₀.bytes a xs) (a + k) ys) (sym e)
      ∙ overwrite-overwrite m₀.bytes a xs ys;
}

module _ (vm : CkbVm) (laws : IsCkbVm vm) where
  stored-Wrote :
      (m : JoltMemory) (a : ℕ) (bs : Bytes)
      → IsValid m
      → All (λ b. b < 256) bs
      → Wrote m (stored vm m a bs) a bs
  unfolding stored
  stored-Wrote m a bs v small = record {
    valid = stored-IsValid vm a bs v small;
    same_size = refl;
    written = refl;
  }

  unchanged-Wrote : (m : JoltMemory) (a : ℕ) → IsValid m → Wrote m m a []
  unchanged-Wrote m a v = record {
    valid = v;
    same_size = refl;
    written = sym (overwrite-nil m.bytes a);
  }

  store_bytes-Wrote :
      (m : JoltMemory) (a : ℕ) (bs : Bytes)
      → IsValid m
      → All (λ b. b < 256) bs
      → a + length bs ≤ m.memory_size
      → (m' : JoltMemory) × (store_bytes vm m a bs ≡ (ok tt, m')) × Wrote m m' a bs
  store_bytes-Wrote m a [] v small h = (m, unfold store_bytes in refl, unchanged-Wrote m a v)
  store_bytes-Wrote m a (b ∷ bs) v small h = (
    stored vm m a (b ∷ bs),
    (bulk_stores-stored vm laws m a (length (b ∷ bs)) 0 (b ∷ bs) v (omega arith) refl h).0,
    stored-Wrote m a (b ∷ bs) v small,
  )

  store_byte-Wrote :
      (m : JoltMemory) (a n : ℕ)
      → IsValid m
      → a + n ≤ m.memory_size
      → (m' : JoltMemory) × (store_byte vm m a n 0 ≡ (ok tt, m')) × Wrote m m' a (replicate n 0)
  store_byte-Wrote m a zero v h = (m, unfold store_byte in refl, unchanged-Wrote m a v)
  store_byte-Wrote m a (suc n) v h = (
    stored vm m a (replicate (suc n) 0),
    (bulk_stores-stored vm laws m a (suc n) 0 (replicate (suc n) 0) v (omega arith)
        (length-replicate (suc n) 0) h).1,
    stored-Wrote m a (replicate (suc n) 0) v (All-replicate (λ b. b < 256) (suc n) 0 (omega arith)),
  )

-- The three stores in a row.
fill_stores :
    (vm : CkbVm) (m m₁ m₂ m₃ : JoltMemory) (a n k : ℕ) (bs : Bytes)
    → store_byte vm m a n 0 ≡ (ok tt, m₁)
    → store_bytes vm m₁ (a + n) bs ≡ (ok tt, m₂)
    → store_byte vm m₂ (a + n + length bs) k 0 ≡ (ok tt, m₃)
    → and_then (store_byte vm m a n 0) (λ _ x.
      and_then (store_bytes vm x (a + n) bs) (λ _ y. store_byte vm y (a + n + length bs) k 0))
      ≡ (ok tt, m₃)
fill_stores vm m m₁ m₂ m₃ a n k bs run₁ run₂ run₃ = rw (run₁, run₂, run₃) refl

fill_stores-Wrote :
    (vm : CkbVm) (laws : IsCkbVm vm) (m : JoltMemory) (a n k : ℕ) (bs : Bytes)
    → IsValid m
    → All (λ b. b < 256) bs
    → a + n + length bs + k ≤ m.memory_size
    → (m' : JoltMemory) × (and_then (store_byte vm m a n 0) (λ _ x.
          and_then (store_bytes vm x (a + n) bs) (λ _ y. store_byte vm y (a + n + length bs) k 0))
        ≡ (ok tt, m'))
      × Wrote m m' a ((replicate n 0 ++ bs) ++ replicate k 0)
fill_stores-Wrote vm laws m a n k bs v bytes h =
    let (m₁, run₁, w₁) = store_byte-Wrote vm laws m a n v (omega arith) in
    let (m₂, run₂, w₂) =
      store_bytes-Wrote vm laws m₁ (a + n) bs w₁.valid bytes (omega (arith, w₁.same_size)) in
    let (m₃, run₃, w₃) =
      store_byte-Wrote vm laws m₂ (a + n + length bs) k w₂.valid
        (omega (arith, w₁.same_size, w₂.same_size)) in
    let both = Wrote-append m m₁ m₂ a n (replicate n 0) bs (length-replicate n 0) w₁ w₂ in
    let size : length (replicate n 0 ++ bs) ≡ n + length bs =
      omega (arith, length-append (replicate n 0) bs, length-replicate {A = ℕ} n 0) in
    let at : a + n + length bs ≡ a + (n + length bs) = omega arith in
    (
      m₃,
      fill_stores vm m m₁ m₂ m₃ a n k bs run₁ run₂ run₃,
      Wrote-append m m₂ m₃ a (n + length bs) (replicate n 0 ++ bs) (replicate k 0) size both
          (subst (λ x. Wrote m₂ m₃ x (replicate k 0)) at w₃),
    )

module _ (vm : CkbVm) (laws : IsCkbVm vm) (fills : FillsPages vm) where
  pub init_pages-Wrote :
      (m : JoltMemory) (a size : ℕ) (source : Option Bytes) (offset : ℕ)
      → IsValid m
      → HasBytes source
      → a + size ≤ m.memory_size
      → (m' : JoltMemory) × (init_pages vm m a size source offset ≡ (ok tt, m'))
        × Wrote m m' a (image size source offset)
  unfolding init_pages FillsPages image
  init_pages-Wrote m a size source offset v bytes h =
      let room : lead size offset + length (body size source offset) + rest size source offset
          ≤ size =
        unfold rest in omega (arith, lead-le size offset, length-body_le size source offset) in
      let (m', run, w) =
        fill_stores-Wrote vm laws m a (lead size offset) (rest size source offset)
          (body size source offset) v (body-bytes size source offset bytes) (omega (arith, room)) in
      (m', fills m a size source offset ∙ run, w)

  -- Where `fill_page_data` of CKB-VM fills a range by stores of zeros, of the source and of zeros
  -- again, `init_pages` on a range of at least one byte inside a well-formed memory, with a source
  -- of bytes, succeeds and leaves a well-formed memory in which that range, read back, is the
  -- zeros before the offset, the source cut to the range, and zeros. CKB-VM is taken to find and
  -- mark dirty the pages of a range as it documents.
  pub init_pages-image :
      (m : JoltMemory) (a size : ℕ) (source : Option Bytes) (offset : ℕ)
      → IsValid m
      → HasBytes source
      → 0 < size
      → a + size ≤ m.memory_size
      → ((init_pages vm m a size source offset).0 ≡ ok tt)
        × IsValid (init_pages vm m a size source offset).1
        × ((init_pages vm m a size source offset).1.bytes
            ≡ overwrite m.bytes a (image size source offset))
        × (load_bytes vm.mem_out_of_bound (init_pages vm m a size source offset).1 a size
            ≡ ok (image size source offset))
  init_pages-image m a size source offset v bytes pos h =
      let (m', run, w) = init_pages-Wrote m a size source offset v bytes h in
      let size_image = length-image size source offset in
      let shown : slice m'.bytes a size ≡ image size source offset =
        ap (λ d. slice d a size) w.written
        ∙ (rw size_image at (
            slice-overwrite_self m.bytes a (image size source offset)
              (omega (arith, size_image, v.sized)))) in
      rw run (
        refl,
        w.valid,
        w.written,
        load_bytes-slice vm.mem_out_of_bound m' a size w.valid pos (omega (arith, w.same_size))
            ∙ ap ok shown,
      )
