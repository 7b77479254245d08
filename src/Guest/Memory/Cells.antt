-- ===== src/Guest/Memory/Cells.antt =====
-- The abstract memory: a number of cells, each with a byte, and no pages. What a client sees of it.
use jolt_ncp.Base.{
  ℕ, zero, suc, ◌+◌, ◌≤◌, ◌<◌, ◌≡◌, refl, ap, sym, ◌∙◌, [], ◌∷◌, arith, leb, ◌==◌, if◌then◌else◌,
  length, get_elem?, replicate, Outcome, ok, err, panic, Bytes, from_le_bytes, to_le_bytes, span,
  All, some, List, word, ◌%◌,
}
use jolt_ncp.Guest.Memory.{JoltMemory, overwrite, slice, Width, width_bytes, load, load_bytes}
use jolt_ncp.Guest.Memory.Write.{CkbVm, store, store_bytes, store_byte}
use jolt_ncp.Guest.Memory.Slices.{slice-suc}

pub record Cells : Type 0 where
  pub size : ℕ
  pub cell : ℕ → ℕ

-- The bytes of `n` cells from `a` on.
unfoldable pub range : (ℕ → ℕ) → ℕ → ℕ → Bytes
range cell a zero = []
range cell a (suc n) = cell a ∷ range cell (suc a) n

-- The cells with the bytes put there from `a` on.
unfoldable pub put : (ℕ → ℕ) → ℕ → Bytes → ℕ → ℕ
put cell a [] i = cell i
put cell a (b ∷ bs) i = let rest = put cell (suc a) bs i in if i == a then b else rest

-- The accesses of a client.
pub data Access : Type 0 where
  read : Width → ℕ → Access
  write : Width → ℕ → ℕ → Access
  read_bytes : ℕ → ℕ → Access
  write_bytes : ℕ → Bytes → Access
  fill : ℕ → ℕ → ℕ → Access

pub data Answer : Type 0 where
  value : ℕ → Answer
  bytes : Bytes → Answer
  done : Answer

abbrev answer_of : {E A : Type 0} → (A → Answer) → Outcome E A → Outcome E Answer
answer_of f (ok a) = ok (f a)
answer_of f (err e) = err e
answer_of f panic = panic

-- An access that does not run over the end of the address space, with bytes to write.
abbrev pub Fits : Access → Type 0
Fits (read w a) = a + width_bytes w < word
Fits (write w a v) = a + width_bytes w < word
Fits (read_bytes a n) = a + n < word
Fits (write_bytes a bs) = (a + length bs < word) × All (λ b. b < 256) bs
Fits (fill a n b) = (a + n < word) × (b < 256)

module _ (vm : CkbVm) where
  -- An access as a call of the memory's methods.
  unfoldable pub perform : JoltMemory → Access → Outcome vm.Error Answer × JoltMemory
  perform m (read w a) = (answer_of value (load vm.mem_out_of_bound w m a), m)
  perform m (write w a v) = let (r, m') = store vm w m a v in (answer_of (λ _. done) r, m')
  perform m (read_bytes a n) = (answer_of bytes (load_bytes vm.mem_out_of_bound m a n), m)
  perform m (write_bytes a bs) =
      let (r, m') = store_bytes vm m a bs in (answer_of (λ _. done) r, m')
  perform m (fill a n b) = let (r, m') = store_byte vm m a n b in (answer_of (λ _. done) r, m')

  -- The answers to accesses in a row, errors included; an error does not end the session.
  unfoldable pub session : JoltMemory → List Access → List (Outcome vm.Error Answer) × JoltMemory
  session m [] = ([], m)
  session m (access ∷ accesses) =
      let (answer, m') = perform m access in
      let (answers, last) = session m' accesses in (answer ∷ answers, last)

module _ {E : Type 0} (oob : E) where
  -- Inside the cells the access is done, outside it fails and changes nothing.
  abbrev within : Cells → ℕ → ℕ → Answer → Cells → Outcome E Answer × Cells
  within c a n answer c' = if leb (a + n) c.size then (ok answer, c') else (err oob, c)

  abbrev with_bytes : Cells → ℕ → Bytes → Cells
  with_bytes c a bs = record c { cell = put c.cell a bs }

  -- The same on the abstract memory. No bytes at all are read and written everywhere.
  unfoldable pub abstract_perform : Cells → Access → Outcome E Answer × Cells
  abstract_perform c (read w a) =
      within c a (width_bytes w) (value (from_le_bytes (range c.cell a (width_bytes w)))) c
  abstract_perform c (write w a v) =
      within c a (width_bytes w) done
        (with_bytes c a (to_le_bytes (width_bytes w) (v % span (width_bytes w))))
  abstract_perform c (read_bytes a n) =
      if n == 0 then (ok (bytes []), c) else within c a n (bytes (range c.cell a n)) c
  abstract_perform c (write_bytes a bs) =
      if length bs == 0 then (ok done, c) else within c a (length bs) done (with_bytes c a bs)
  abstract_perform c (fill a n b) =
      if n == 0 then (ok done, c) else within c a n done (with_bytes c a (replicate n b))

  unfoldable pub abstract_session : Cells → List Access → List (Outcome E Answer) × Cells
  abstract_session c [] = ([], c)
  abstract_session c (access ∷ accesses) =
      let (answer, c') = abstract_perform c access in
      let (answers, last) = abstract_session c' accesses in (answer ∷ answers, last)

-- A byte vector holds the cells.
abbrev pub Holds : Bytes → (ℕ → ℕ) → Type 0
Holds d cell = (i : ℕ) → i < length d → get_elem? d i ≡ some (cell i)

pub slice-range :
    (d : Bytes) (cell : ℕ → ℕ) (a n : ℕ)
    → Holds d cell
    → a + n ≤ length d
    → slice d a n ≡ range cell a n
unfolding range
slice-range d cell a zero h k = refl
slice-range d cell a (suc n) h k =
    rw (slice-suc d a n (h a (omega arith)), slice-range d cell (suc a) n h (omega arith)) refl

put_below : (cell : ℕ → ℕ) (a i : ℕ) (bs : Bytes) → i < a → put cell a bs i ≡ cell i
unfolding put
put_below cell a i [] h = refl
put_below cell a i (b ∷ bs) h = ground (arith, h, put_below cell (suc a) i bs (omega arith))

put-suc :
    (cell : ℕ → ℕ) (a i : ℕ) (bs : Bytes)
    → put cell (suc a) bs (suc i) ≡ put (λ j. cell (suc j)) a bs i
unfolding put
put-suc cell a i [] = refl
put-suc cell a i (b ∷ bs) = ground (arith, put-suc cell (suc a) i bs)

pub Holds-overwrite :
    (d : Bytes) (cell : ℕ → ℕ) (a : ℕ) (bs : Bytes)
    → Holds d cell
    → Holds (overwrite d a bs) (put cell a bs)
unfolding overwrite put
Holds-overwrite [] cell a bs h i k = absurd (omega arith)
Holds-overwrite (x ∷ d) cell zero [] h i k = h i k
Holds-overwrite (x ∷ d) cell zero (b ∷ bs) h zero k = refl
Holds-overwrite (x ∷ d) cell zero (b ∷ bs) h (suc i) k =
    let inner =
      Holds-overwrite d (λ j. cell (suc j)) zero bs (λ j l. h (suc j) (omega (arith, l))) i
        (omega arith) in
    ground (arith, inner, put-suc cell zero i bs)
Holds-overwrite (x ∷ d) cell (suc a) bs h zero k =
    h zero (omega arith) ∙ ap some (sym (put_below cell (suc a) zero bs (omega arith)))
Holds-overwrite (x ∷ d) cell (suc a) bs h (suc i) k =
    Holds-overwrite d (λ j. cell (suc j)) a bs (λ j l. h (suc j) (omega (arith, l))) i (omega arith)
    ∙ ap some (sym (put-suc cell a i bs))
