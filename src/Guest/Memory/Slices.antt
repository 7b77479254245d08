-- ===== src/Guest/Memory/Slices.antt =====
-- Ranges of a byte vector: what the element-wise reads and writes of jolt_memory.rs do, in terms of
-- `slice` and `overwrite`.
use jolt_ncp.Base.{
  ℕ, zero, suc, ◌+◌, ◌≤◌, ◌<◌, ◌≡◌, refl, ap, sym, ◌⊎◌, inl, inr, some, [], ◌∷◌, ◌++◌, arith,
  length, get_elem?, set, get_elem?_total, length-set, All, ok, Bytes, word, add_word, lt→ltb,
  replicate,
}
use jolt_ncp.Guest.Memory.{overwrite, slice, index_from, assign_from}

pub length-overwrite : (d : Bytes) (a : ℕ) (bs : Bytes) → length (overwrite d a bs) ≡ length d
unfolding overwrite
length-overwrite [] a bs = refl
length-overwrite (x ∷ d) zero [] = refl
length-overwrite (x ∷ d) zero (b ∷ bs) = ap suc (length-overwrite d zero bs)
length-overwrite (x ∷ d) (suc a) bs = ap suc (length-overwrite d a bs)

pub length-slice : (d : Bytes) (a n : ℕ) → a + n ≤ length d → length (slice d a n) ≡ n
length-slice d zero zero h = refl
length-slice [] zero (suc n) h = absurd (omega arith)
length-slice (x ∷ d) zero (suc n) h = ap suc (length-slice d zero n (omega arith))
length-slice [] (suc a) n h = absurd (omega arith)
length-slice (x ∷ d) (suc a) n h = length-slice d a n (omega arith)

-- What was written is read back.
pub slice-overwrite_self :
    (d : Bytes) (a : ℕ) (bs : Bytes)
    → a + length bs ≤ length d
    → slice (overwrite d a bs) a (length bs) ≡ bs
unfolding overwrite
slice-overwrite_self [] zero [] h = refl
slice-overwrite_self (x ∷ d) zero [] h = refl
slice-overwrite_self [] zero (b ∷ bs) h = absurd (omega arith)
slice-overwrite_self [] (suc a) bs h = absurd (omega arith)
slice-overwrite_self (x ∷ d) zero (b ∷ bs) h =
    ap (◌∷◌ b) (slice-overwrite_self d zero bs (omega arith))
slice-overwrite_self (x ∷ d) (suc a) bs h = slice-overwrite_self d a bs (omega arith)

-- Outside the written range nothing changes.
pub get_elem?-overwrite_ne :
    (d : Bytes) (a i : ℕ) (bs : Bytes)
    → (i < a) ⊎ (a + length bs ≤ i)
    → get_elem? (overwrite d a bs) i ≡ get_elem? d i
unfolding overwrite
get_elem?-overwrite_ne [] a i bs h = refl
get_elem?-overwrite_ne (x ∷ d) zero i [] h = refl
get_elem?-overwrite_ne (x ∷ d) zero zero (b ∷ bs) h = absurd (omega arith)
get_elem?-overwrite_ne (x ∷ d) zero (suc i) (b ∷ bs) h =
    get_elem?-overwrite_ne d zero i bs (inr (omega arith))
get_elem?-overwrite_ne (x ∷ d) (suc a) zero bs h = refl
get_elem?-overwrite_ne (x ∷ d) (suc a) (suc i) bs (inl h) =
    get_elem?-overwrite_ne d a i bs (inl (omega arith))
get_elem?-overwrite_ne (x ∷ d) (suc a) (suc i) bs (inr h) =
    get_elem?-overwrite_ne d a i bs (inr (omega arith))

module _ (P : ℕ → Type 0) where
  pub All-overwrite :
      (d : Bytes) (a : ℕ) (bs : Bytes) → All P d → All P bs → All P (overwrite d a bs)
  unfolding overwrite
  All-overwrite [] a bs h k = h
  All-overwrite (x ∷ d) zero [] h k = h
  All-overwrite (x ∷ d) zero (b ∷ bs) h k = (k.0, All-overwrite d zero bs h.1 k.1)
  All-overwrite (x ∷ d) (suc a) bs h k = (h.0, All-overwrite d a bs h.1 k)

  pub All-slice : (d : Bytes) (a n : ℕ) → All P d → All P (slice d a n)
  All-slice d zero zero h = tt
  All-slice [] zero (suc n) h = tt
  All-slice (x ∷ d) zero (suc n) h = (h.0, All-slice d zero n h.1)
  All-slice [] (suc a) zero h = tt
  All-slice [] (suc a) (suc n) h = tt
  All-slice (x ∷ d) (suc a) n h = All-slice d a n h.1

  pub All-replicate : (n b : ℕ) → P b → All P (replicate n b)
  All-replicate zero b h = tt
  All-replicate (suc n) b h = (h, All-replicate n b h)

pub slice-suc :
    (d : Bytes) (a n : ℕ) {b : ℕ}
    → get_elem? d a ≡ some b
    → slice d a (suc n) ≡ b ∷ slice d (suc a) n
slice-suc [] a n h = ground arith
slice-suc (x ∷ d) zero n h = ground arith
slice-suc (x ∷ d) (suc a) n h = slice-suc d a n h

-- Reading byte by byte, in range and with no overflow, gives the slice.
pub index_from-slice :
    {E : Type 0} (d : Bytes) (a n : ℕ)
    → a + n ≤ length d
    → length d < word
    → index_from {E = E} d a n ≡ ok (slice d a n)
unfolding index_from
index_from-slice d a zero h w = refl
index_from-slice {E} d a (suc n) h w =
    let (b, e) = get_elem?_total d a (omega arith) in
    let next : add_word a 1 ≡ suc a = omega arith in
    rw (e, next, index_from-slice {E = E} d (suc a) n (omega arith) w, slice-suc d a n e)

overwrite-set :
    (d : Bytes) (a : ℕ) (b : ℕ) (bs : Bytes)
    → a < length d
    → overwrite (set d a b) (suc a) bs ≡ overwrite d a (b ∷ bs)
unfolding overwrite
overwrite-set [] a b bs h = elim h [ ]
overwrite-set (x ∷ d) zero b bs h = refl
overwrite-set (x ∷ d) (suc a) b bs h = ap (◌∷◌ x) (overwrite-set d a b bs (omega arith))

pub overwrite-nil : (d : Bytes) (a : ℕ) → overwrite d a [] ≡ d
unfolding overwrite
overwrite-nil [] a = refl
overwrite-nil (x ∷ d) zero = refl
overwrite-nil (x ∷ d) (suc a) = ap (◌∷◌ x) (overwrite-nil d a)

-- Writing byte by byte, in range and with no overflow, overwrites the range.
pub assign_from-overwrite :
    {E : Type 0} (d : Bytes) (a : ℕ) (bs : Bytes)
    → a + length bs ≤ length d
    → length d < word
    → assign_from {E = E} d a bs ≡ ok (overwrite d a bs)
unfolding assign_from
assign_from-overwrite d a [] h w = ap ok (sym (overwrite-nil d a))
assign_from-overwrite {E} d a (b ∷ bs) h w =
    let inside : a < length d = omega arith in
    let next : add_word a 1 ≡ suc a = omega arith in
    let keep = length-set d a b in
    rw (
      lt→ltb a (length d) inside,
      next,
      assign_from-overwrite {E = E} (set d a b) (suc a) bs (omega arith) (omega arith),
      overwrite-set d a b bs inside,
    )

-- A range that the write does not meet reads as before.
pub slice-overwrite_ne :
    (d : Bytes) (a b n : ℕ) (bs : Bytes)
    → (b + n ≤ a) ⊎ (a + length bs ≤ b)
    → slice (overwrite d a bs) b n ≡ slice d b n
unfolding overwrite
slice-overwrite_ne [] a b n bs h = refl
slice-overwrite_ne (x ∷ d) zero b n [] h = refl
slice-overwrite_ne (x ∷ d) zero zero zero (c ∷ bs) h = refl
slice-overwrite_ne (x ∷ d) zero zero (suc n) (c ∷ bs) h = absurd (omega arith)
slice-overwrite_ne (x ∷ d) zero (suc b) n (c ∷ bs) (inl h) = absurd (omega arith)
slice-overwrite_ne (x ∷ d) zero (suc b) n (c ∷ bs) (inr h) =
    slice-overwrite_ne d zero b n bs (inr (omega arith))
slice-overwrite_ne (x ∷ d) (suc a) zero zero bs h = refl
slice-overwrite_ne (x ∷ d) (suc a) zero (suc n) bs h =
    ap (◌∷◌ x) (slice-overwrite_ne d a zero n bs (inl (omega arith)))
slice-overwrite_ne (x ∷ d) (suc a) (suc b) n bs (inl h) =
    slice-overwrite_ne d a b n bs (inl (omega arith))
slice-overwrite_ne (x ∷ d) (suc a) (suc b) n bs (inr h) =
    slice-overwrite_ne d a b n bs (inr (omega arith))

-- A range is its first part followed by the rest.
pub slice-add :
    (d : Bytes) (a n k : ℕ)
    → a + n ≤ length d
    → slice d a (n + k) ≡ slice d a n ++ slice d (a + n) k
slice-add d a zero k h =
    let e : zero + k ≡ k = omega arith in let f : a + zero ≡ a = omega arith in rw (e, f)
slice-add d a (suc n) k h =
    let (b, found) = get_elem?_total d a (omega arith) in
    let e : suc n + k ≡ suc (n + k) = omega arith in
    let f : a + suc n ≡ suc a + n = omega arith in
    rw (e, f, slice-suc d a (n + k) found, slice-suc d a n found)
      (ap (◌∷◌ b) (slice-add d (suc a) n k (omega arith)))
