-- ===== src/Guest/Memory/Segment.antt =====
-- What a segment puts into the pages: zeros, the bytes of the file, zeros.
use jolt_ncp.Base.{
  ℕ, zero, suc, ◌+◌, ◌-◌, ◌≤◌, ◌<◌, ◌≡◌, Option, none, some, [], ◌∷◌, ◌++◌, arith, leb,
  if◌then◌else◌, length, take, length-append, length-replicate, replicate, Bytes, All,
}
use jolt_ncp.Guest.Memory.{JoltMemory, and_then}
use jolt_ncp.Guest.Memory.Write.{CkbVm, store_bytes, store_byte}

-- How many of `size` bytes stand before the source.
unfoldable pub lead : ℕ → ℕ → ℕ
lead size offset = if leb size offset then size else offset

-- The part of the source that fits behind them.
unfoldable pub body : ℕ → Option Bytes → ℕ → Bytes
body size none offset = []
body size (some source) offset = take (size - lead size offset) source

unfoldable pub rest : ℕ → Option Bytes → ℕ → ℕ
rest size source offset = size - lead size offset - length (body size source offset)

-- `fill_page_data` of CKB-VM, as it documents itself: zeros, the source, zeros, each by a store of
-- the memory that it is given.
unfoldable pub FillsPages : CkbVm → Type 0
FillsPages vm =
    (m : JoltMemory) (a size : ℕ) (source : Option Bytes) (offset : ℕ)
    → vm.fill_page_data m a size source offset
      ≡ and_then (store_byte vm m a (lead size offset) 0) (λ _ m₁.
        and_then (store_bytes vm m₁ (a + lead size offset) (body size source offset)) (λ _ m₂.
          store_byte vm m₂ (a + lead size offset + length (body size source offset))
            (rest size source offset) 0))

-- The bytes that the pages show.
unfoldable pub image : ℕ → Option Bytes → ℕ → Bytes
image size source offset =
    (replicate (lead size offset) 0 ++ body size source offset)
    ++ replicate (rest size source offset) 0

length-take_le : (n : ℕ) (xs : Bytes) → length (take n xs) ≤ n
length-take_le zero xs = omega arith
length-take_le (suc n) [] = omega arith
length-take_le (suc n) (x ∷ xs) = omega (arith, length-take_le n xs)

All-take : (P : ℕ → Type 0) (n : ℕ) (xs : Bytes) → All P xs → All P (take n xs)
All-take P zero xs h = tt
All-take P (suc n) [] h = tt
All-take P (suc n) (x ∷ xs) h = (h.0, All-take P n xs h.1)

pub lead-le : (size offset : ℕ) → lead size offset ≤ size
unfolding lead
lead-le size offset = ground arith

pub length-body_le :
    (size : ℕ) (source : Option Bytes) (offset : ℕ)
    → length (body size source offset) ≤ size - lead size offset
unfolding body
length-body_le size none offset = omega arith
length-body_le size (some source) offset = length-take_le (size - lead size offset) source

-- The bytes of a segment, if there are any, are bytes.
abbrev pub HasBytes : Option Bytes → Type 0
HasBytes none = Unit
HasBytes (some source) = All (λ b. b < 256) source

pub body-bytes :
    (size : ℕ) (source : Option Bytes) (offset : ℕ)
    → HasBytes source
    → All (λ b. b < 256) (body size source offset)
unfolding body
body-bytes size none offset h = tt
body-bytes size (some source) offset h = All-take (λ b. b < 256) (size - lead size offset) source h

pub length-image :
    (size : ℕ) (source : Option Bytes) (offset : ℕ) → length (image size source offset) ≡ size
unfolding image rest
length-image size source offset =
    let n = lead size offset in
    let bs = body size source offset in
    omega (
      arith,
      length-append (replicate n 0 ++ bs) (replicate (size - n - length bs) 0),
      length-append (replicate n 0) bs,
      length-replicate {A = ℕ} n 0,
      length-replicate {A = ℕ} (size - n - length bs) 0,
      lead-le size offset,
      length-body_le size source offset,
    )
