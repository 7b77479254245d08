-- ===== src/Host/Verifier/Programs.antt =====
-- The table of programs against the searches that it stands for.
use mathlib.Core.Path.{subst}
use jolt_ncp.Base.{
  ◌≡◌, refl, ◌∙◌, Bool, true, false, ◌||◌, List, [], ◌∷◌, foldl, Option, none, some, arith, All, ok,
  ok_or, Bytes, lookup, insert, lookup-insert, ◌==◌, if◌then◌else◌, Option-cases, Bool-cases, inl,
  inr,
}
use jolt_ncp.Chain.{Byte32, Script}
use jolt_ncp.Host.Errors.{program_elf_not_found}
use jolt_ncp.Host.Convert.{MockCellDep}
use jolt_ncp.Host.Crates.{
  Crates, ScriptHashType, data_hash, data1_hash, data2_hash, type_hash, further_hash,
}
use jolt_ncp.Host.Verifier.{
  VerifierGroupContext, insert_cell_dep, elf_by_hash, get_program_elf, by_data_hash, by_type_hash,
  program_search,
}

module _ {H : Type 0} (crates : Crates H) where
  open crates use {blake2b_256, calc_script_hash}

  -- A dependency answers for its data's hash and for its type script's.
  abbrev pub answers : Byte32 → MockCellDep → Bool
  answers h e =
      let by_type : Bool = elim e.output.type_ [
        | none ↦ false
        | some s ↦ calc_script_hash s == h
      ] in
      blake2b_256 e.data_bytes == h || by_type

  -- The data of the last dependency that answers for a hash.
  unfoldable pub last_program : Byte32 → List MockCellDep → Option Bytes
  last_program h [] = none
  last_program h (e ∷ es) =
      let rest = last_program h es in
      elim rest [ some bs ↦ some bs | none ↦ if answers h e then some e.data_bytes else none ]

  lookup-insert_cell_dep :
      (h : Byte32) (m : List (Byte32 × Bytes)) (e : MockCellDep)
      → lookup h (insert_cell_dep crates m e)
        ≡ (if answers h e then some e.data_bytes else lookup h m)
  unfolding insert_cell_dep
  lookup-insert_cell_dep h m e = elim (Option-cases e.output.type_) [
    | inl n ↦ rw n (ground (arith, lookup-insert (blake2b_256 e.data_bytes) h e.data_bytes m))
    | inr (s, n) ↦ rw n (
        ground (
          arith,
          lookup-insert (blake2b_256 e.data_bytes) h e.data_bytes m,
          lookup-insert (calc_script_hash s) h e.data_bytes
              (insert (blake2b_256 e.data_bytes) e.data_bytes m),
        ))
  ]

  lookup-inserts :
      (h : Byte32) (m : List (Byte32 × Bytes)) (es : List MockCellDep)
      → lookup h (foldl (insert_cell_dep crates) m es)
        ≡ elim (last_program h es) [ some bs ↦ some bs | none ↦ lookup h m ]
  unfolding last_program
  lookup-inserts h m [] = refl
  lookup-inserts h m (e ∷ es) =
      ground (arith, lookup-inserts h (insert_cell_dep crates m e) es, lookup-insert_cell_dep h m e)

  pub lookup-elf_by_hash :
      (h : Byte32) (es : List MockCellDep) → lookup h (elf_by_hash crates es) ≡ last_program h es
  unfolding elf_by_hash lookup
  lookup-elf_by_hash h es = lookup-inserts h [] es ∙ ground arith

  -- Whether any dependency answers for a hash.
  any_answers : Byte32 → List MockCellDep → Bool
  any_answers h [] = false
  any_answers h (e ∷ es) = answers h e || any_answers h es

  last_program-agree :
      (h : Byte32) (bs : Bytes) (es : List MockCellDep)
      → All (λ d. answers h d ≡ true → d.data_bytes ≡ bs) es
      → last_program h es ≡ (if any_answers h es then some bs else none)
  unfolding last_program any_answers
  last_program-agree h bs [] all = refl
  last_program-agree h bs (e ∷ es) all = elim (Bool-cases (answers h e)) [
    | inl here ↦ ground (arith, last_program-agree h bs es all.1, here, all.0 here)
    | inr apart ↦ ground (arith, last_program-agree h bs es all.1, apart)
  ]

  by_data_hash-any :
      (h : Byte32) (e : MockCellDep) (es : List MockCellDep)
      → by_data_hash crates h es ≡ some e
      → any_answers h es ≡ true
  unfolding by_data_hash any_answers
  by_data_hash-any h e [] found = cc
  by_data_hash-any h e (d ∷ ds) found = ground (arith, found, by_data_hash-any h e ds)

  by_type_hash-any :
      (h : Byte32) (e : MockCellDep) (es : List MockCellDep)
      → by_type_hash crates h es ≡ some e
      → any_answers h es ≡ true
  unfolding by_type_hash any_answers
  by_type_hash-any h e [] found = cc
  by_type_hash-any h e (d ∷ ds) found = ground (arith, found, by_type_hash-any h e ds)

  program_search-any :
      (t : ScriptHashType) (h : Byte32) (e : MockCellDep) (es : List MockCellDep)
      → program_search crates t h es ≡ some e
      → any_answers h es ≡ true
  unfolding program_search
  program_search-any data_hash h e es found = by_data_hash-any h e es found
  program_search-any data1_hash h e es found = by_data_hash-any h e es found
  program_search-any data2_hash h e es found = by_data_hash-any h e es found
  program_search-any type_hash h e es found = by_type_hash-any h e es found
  program_search-any further_hash h e es found = cc

  -- What the searches find is among the dependencies.
  by_data_hash-All :
      (P : MockCellDep → Type 0) (h : Byte32) (e : MockCellDep) (es : List MockCellDep)
      → All P es
      → by_data_hash crates h es ≡ some e
      → P e
  unfolding by_data_hash
  by_data_hash-All P h e [] all found = cc
  by_data_hash-All P h e (d ∷ ds) all found = elim (Bool-cases (blake2b_256 d.data_bytes == h)) [
    | inl here ↦ let same : d ≡ e = cc in subst P same all.0
    | inr apart ↦ by_data_hash-All P h e ds all.1 (rw apart at found)
  ]

  by_type_hash-All :
      (P : MockCellDep → Type 0) (h : Byte32) (e : MockCellDep) (es : List MockCellDep)
      → All P es
      → by_type_hash crates h es ≡ some e
      → P e
  unfolding by_type_hash
  by_type_hash-All P h e [] all found = cc
  by_type_hash-All P h e (d ∷ ds) all found = elim (Option-cases d.output.type_) [
    | inl untyped ↦ by_type_hash-All P h e ds all.1 cc
    | inr (s, typed) ↦ elim (Bool-cases (calc_script_hash s == h)) [
      | inl here ↦ let same : d ≡ e = cc in subst P same all.0
      | inr apart ↦ by_type_hash-All P h e ds all.1 cc
    ]
  ]

  pub program_search-All :
      (P : MockCellDep → Type 0) (t : ScriptHashType) (h : Byte32) (e : MockCellDep)
      (es : List MockCellDep)
      → All P es
      → program_search crates t h es ≡ some e
      → P e
  unfolding program_search
  program_search-All P data_hash h e es all found = by_data_hash-All P h e es all found
  program_search-All P data1_hash h e es all found = by_data_hash-All P h e es all found
  program_search-All P data2_hash h e es all found = by_data_hash-All P h e es all found
  program_search-All P type_hash h e es all found = by_type_hash-All P h e es all found
  program_search-All P further_hash h e es all found = cc

  -- The lookup in the table of programs built from the dependencies gives the data of the last
  -- dependency whose data hash or type script hash is the script's code hash, or the error for a
  -- missing program when there is none.
  pub get_program_elf-last :
      (ctx : VerifierGroupContext crates) (script : Script) (deps : List MockCellDep)
      → ctx.cell_dep_data_hash_to_elf ≡ elf_by_hash crates deps
      → get_program_elf crates ctx script
        ≡ ok_or (last_program script.code_hash deps) program_elf_not_found
  unfolding get_program_elf
  get_program_elf-last ctx script deps e = rw (e, lookup-elf_by_hash script.code_hash deps) refl

  -- Where the search of VerifierContext, for any hash type, finds a dependency, and every
  -- dependency that answers for the code hash carries the same data, the lookup in the table of
  -- programs built from the dependencies gives that data.
  pub get_program_elf-search :
      (ctx : VerifierGroupContext crates) (script : Script) (deps : List MockCellDep)
      (t : ScriptHashType) (e : MockCellDep)
      → ctx.cell_dep_data_hash_to_elf ≡ elf_by_hash crates deps
      → program_search crates t script.code_hash deps ≡ some e
      → All (λ d. answers script.code_hash d ≡ true → d.data_bytes ≡ e.data_bytes) deps
      → get_program_elf crates ctx script ≡ ok e.data_bytes
  get_program_elf-search ctx script deps t e table found agree =
      rw
        (
          get_program_elf-last ctx script deps table,
          last_program-agree script.code_hash e.data_bytes deps agree,
          program_search-any t script.code_hash e deps found,
        )
        refl
