-- ===== src/Host/Pack/Table.antt =====
-- The table of programs: what an index of it stands for.
use mathlib.Core.List.{append-nil, append_assoc}
use jolt_ncp.Base.{
  ℕ, ◌%◌, ◌^◌, ◌≤◌, ◌<◌, ◌≡◌, refl, sym, ◌∙◌, inl, inr, List, [], ◌∷◌, ◌++◌, foldl, Option, none,
  some, length, length-append, get_elem?, get_elem?-append_left, get_elem?-append_length,
  get_elem?_total, Bytes, lookup, ◌==◌, if◌then◌else◌, arith, Option-cases, Bool-cases,
}
use jolt_ncp.Chain.{Byte32}
use jolt_ncp.Host.Types.{ScriptGroupTraces}
use jolt_ncp.Host.Pack.{ElfTable, empty, insert_elf, elf_table}

-- The program that the table holds under a code hash.
unfoldable pub resolve : ElfTable → Byte32 → Option Bytes
resolve t h = elim (lookup h t.index) [ none ↦ none | some i ↦ get_elem? t.elfs i ]

-- The program of the first trace with a code hash.
unfoldable pub first_elf : Byte32 → List ScriptGroupTraces → Option Bytes
first_elf h [] = none
first_elf h (t ∷ ts) = if t.code_hash == h then some t.machine_program_elf else first_elf h ts

first_elf-append :
    (h : Byte32) (done : List ScriptGroupTraces) (t : ScriptGroupTraces)
    → first_elf h (done ++ t ∷ []) ≡ elim (first_elf h done) [
      | none ↦ if t.code_hash == h then some t.machine_program_elf else none
      | some e ↦ some e
    ]
unfolding first_elf
first_elf-append h [] t = refl
first_elf-append h (u ∷ done) t = ground (arith, first_elf-append h done t)

-- What the first loop keeps: the table holds, for every code hash met, the program of its first trace.
pub record Holds (t : ElfTable) (done : List ScriptGroupTraces) : Type 0 where
  pub covers : (h : Byte32) → resolve t h ≡ first_elf h done
  pub in_range : (h i : ℕ) → lookup h t.index ≡ some i → i < length t.elfs
  pub small : length t.elfs ≤ length done

Holds-empty : Holds empty []
unfolding resolve first_elf lookup
Holds-empty = record { covers = λ h. refl; in_range = λ h i e. cc; small = omega arith }

first_elf-none :
    {t : ElfTable} {done : List ScriptGroupTraces} (h : Byte32)
    → Holds t done
    → lookup h t.index ≡ none
    → first_elf h done ≡ none
unfolding resolve
first_elf-none {t} h holds e = sym (holds.covers h) ∙ ground arith

first_elf-some :
    {t : ElfTable} {done : List ScriptGroupTraces} (h : Byte32) {i : ℕ} {b : Bytes}
    → Holds t done
    → lookup h t.index ≡ some i
    → get_elem? t.elfs i ≡ some b
    → first_elf h done ≡ some b
unfolding resolve
first_elf-some {t} h holds e f = sym (holds.covers h) ∙ ground arith

module _ {t : ElfTable} {done : List ScriptGroupTraces} (trace : ScriptGroupTraces)
    (holds : Holds t done) (absent : lookup trace.code_hash t.index ≡ none)
    (room : length done < 2 ^ 16) where
  pushed : ElfTable
  pushed = record {
    index = (trace.code_hash, length t.elfs % 2 ^ 16) ∷ t.index;
    elfs = t.elfs ++ trace.machine_program_elf ∷ [];
  }

  -- The cast to `u16` loses nothing.
  index_fits : length t.elfs % 2 ^ 16 ≡ length t.elfs
  index_fits = omega (arith, holds.small)

  pushed_covers : (h : Byte32) → resolve pushed h ≡ first_elf h (done ++ trace ∷ [])
  unfolding pushed resolve lookup
  pushed_covers h = elim (Bool-cases (trace.code_hash == h)) [
    | inl here ↦
        let e : trace.code_hash ≡ h = ground arith in
        let met = first_elf-none h holds (rw e at absent) in
        ground (
          arith,
          index_fits,
          get_elem?-append_length t.elfs trace.machine_program_elf,
          first_elf-append h done trace,
          met,
        )
    | inr other ↦ elim (Option-cases (lookup h t.index)) [
      | inl miss ↦ ground (arith, first_elf-append h done trace, first_elf-none h holds miss)
      | inr (i, found) ↦
          let (b, there) = get_elem?_total t.elfs i (holds.in_range h i found) in
          ground (
            arith,
            first_elf-append h done trace,
            first_elf-some h holds found there,
            get_elem?-append_left t.elfs (trace.machine_program_elf ∷ []) i
                (holds.in_range h i found),
          )
    ]
  ]

  pushed_in_range : (h i : ℕ) → lookup h pushed.index ≡ some i → i < length pushed.elfs
  unfolding pushed lookup
  pushed_in_range h i e =
      ground (
        arith,
        index_fits,
        holds.in_range h i,
        length-append t.elfs (trace.machine_program_elf ∷ []),
      )

  pushed_small : length pushed.elfs ≤ length (done ++ trace ∷ [])
  unfolding pushed
  pushed_small = omega (
    arith,
    length-append t.elfs (trace.machine_program_elf ∷ []),
    length-append done (trace ∷ []),
    holds.small,
  )

  Holds-pushed : Holds pushed (done ++ trace ∷ [])
  Holds-pushed = record { covers = pushed_covers; in_range = pushed_in_range; small = pushed_small }

Holds-insert_elf :
    {t : ElfTable} {done : List ScriptGroupTraces} (trace : ScriptGroupTraces)
    → Holds t done
    → length done < 2 ^ 16
    → Holds (insert_elf t trace) (done ++ trace ∷ [])
unfolding insert_elf pushed
Holds-insert_elf {t} {done} trace holds room =
    elim (Option-cases (lookup trace.code_hash t.index)) [
      | inl absent ↦ rw (absent, insert_elf) (Holds-pushed trace holds absent room)
      | inr (i, found) ↦
          let (b, there) = get_elem?_total t.elfs i (holds.in_range trace.code_hash i found) in
          let met = first_elf-some trace.code_hash holds found there in
          rw (found, insert_elf)
            (record {
              covers = λ h. ground (arith, holds.covers h, first_elf-append h done trace, met);
              in_range = holds.in_range;
              small = omega (arith, length-append done (trace ∷ []), holds.small);
            })
    ]

Holds-fold :
    (t : ElfTable) (done rest : List ScriptGroupTraces)
    → Holds t done
    → length (done ++ rest) ≤ 2 ^ 16
    → Holds (foldl insert_elf t rest) (done ++ rest)
Holds-fold t done [] holds room = rw append-nil holds
Holds-fold t done (trace ∷ rest) holds room = rw (← append_assoc done (trace ∷ []) rest) (
    Holds-fold (insert_elf t trace) (done ++ trace ∷ []) rest
      (Holds-insert_elf trace holds (omega (arith, length-append done (trace ∷ rest))))
      (rw (append_assoc done (trace ∷ []) rest) room))

-- After the first loop over at most 65536 traces the table holds the first program of every hash.
pub Holds-elf_table :
    (traces : List ScriptGroupTraces) → length traces ≤ 2 ^ 16 → Holds (elf_table traces) traces
unfolding elf_table
Holds-elf_table traces room = Holds-fold empty [] traces Holds-empty room
