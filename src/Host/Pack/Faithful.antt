-- ===== src/Host/Pack/Faithful.antt =====
-- What the guest finds under the indices of the traces that it is sent.
use jolt_ncp.Base.{
  ℕ, ◌^◌, ◌≤◌, ◌≡◌, refl, ap, sym, ◌∙◌, inl, inr, List, [], ◌∷◌, Option, some, length, get_elem?,
  Bytes, lookup, ◌==◌, arith, Option-cases, Bool-cases, ok, traverse, All, All-map,
}
use jolt_ncp.Chain.{ScriptVersion, v0, v1, v2, ScriptGroupType, lock, type_script}
use jolt_ncp.Guest.Types as Guest
use jolt_ncp.Host.Types.{ScriptGroupTraces, TransactionProofContext}
use jolt_ncp.Host.Pack.{ElfTable, elf_table, version_u8, group_type_u8, guest_trace, to_guest}
use jolt_ncp.Host.Pack.Table.{resolve, first_elf, Holds, Holds-elf_table}

-- The numbers of the versions and of the two kinds of groups, as the guest reads them.
abbrev pub version_number : ScriptVersion → ℕ
version_number v = elim v [ v0 ↦ 0 | v1 ↦ 1 | v2 ↦ 2 ]

abbrev pub group_number : ScriptGroupType → ℕ
group_number t = elim t [ lock ↦ 0 | type_script ↦ 1 ]

version_u8-number : (v : ScriptVersion) → version_u8 v ≡ version_number v
unfolding version_u8
version_u8-number v0 = refl
version_u8-number v1 = refl
version_u8-number v2 = refl

group_type_u8-number : (t : ScriptGroupType) → group_type_u8 t ≡ group_number t
unfolding group_type_u8
group_type_u8-number lock = refl
group_type_u8-number type_script = refl

-- The guest's trace `g` is the host's trace `t`, with `program` under its index of `elfs`.
pub record Carries (elfs : List Bytes) (program : Option Bytes) (t : ScriptGroupTraces)
    (g : Guest.ScriptGroupTraces) : Type 0 where
  pub version : g.script_version ≡ version_number t.script_version
  pub group_type : g.script_group_type ≡ group_number t.script_group_type
  pub hash : g.script_hash ≡ t.script_hash
  pub trace_bytes : g.machine_trace_data ≡ t.machine_trace_data
  pub elf : get_elem? elfs g.machine_program_elf_index ≡ program

-- Two lists of traces carry one another in order; `program` says which program a trace must find.
abbrev pub AllCarry :
    List Bytes
    → (ScriptGroupTraces → Option Bytes)
    → List ScriptGroupTraces
    → List Guest.ScriptGroupTraces
    → Type 0
AllCarry elfs program [] [] = Unit
AllCarry elfs program [] (g ∷ gs) = ⊥
AllCarry elfs program (t ∷ ts) [] = ⊥
AllCarry elfs program (t ∷ ts) (g ∷ gs) = Carries elfs (program t) t g × AllCarry elfs program ts gs

-- Traces with one code hash have one program.
abbrev pub IsConsistent : List ScriptGroupTraces → Type 0
IsConsistent traces =
    All
      (λ t.
        All (λ u. u.code_hash ≡ t.code_hash → u.machine_program_elf ≡ t.machine_program_elf) traces)
      traces

HasElf : List ScriptGroupTraces → ScriptGroupTraces → Type 0
HasElf traces t = (b : Bytes) × (first_elf t.code_hash traces ≡ some b)

HasElf-cons :
    (u t : ScriptGroupTraces) (ts : List ScriptGroupTraces) → HasElf ts t → HasElf (u ∷ ts) t
unfolding HasElf first_elf
HasElf-cons u t ts (b, e) = elim (Bool-cases (u.code_hash == t.code_hash)) [
  | inl same ↦ (u.machine_program_elf, rw same)
  | inr other ↦ (b, rw other e)
]

All-HasElf : (traces : List ScriptGroupTraces) → All (HasElf traces) traces
unfolding HasElf first_elf
All-HasElf [] = tt
All-HasElf (u ∷ ts) = (
  (u.machine_program_elf, ground arith),
  All-map {P = HasElf ts} {Q = HasElf (u ∷ ts)} ts (λ t. HasElf-cons u t ts) (All-HasElf ts),
)

-- In consistent traces the first program of a trace's hash is its own.
first_elf_own :
    (t : ScriptGroupTraces) (ts : List ScriptGroupTraces) {b : Bytes}
    → All (λ u. u.code_hash ≡ t.code_hash → u.machine_program_elf ≡ t.machine_program_elf) ts
    → first_elf t.code_hash ts ≡ some b
    → b ≡ t.machine_program_elf
unfolding first_elf
first_elf_own t [] same e = cc
first_elf_own t (u ∷ ts) same e = elim (Bool-cases (u.code_hash == t.code_hash)) [
  | inl here ↦ ground (arith, same.0 (ground arith))
  | inr other ↦ first_elf_own t ts same.1 (rw other at e)
]

All-found :
    (table : ElfTable) (traces ts : List ScriptGroupTraces)
    → Holds table traces
    → All (HasElf traces) ts
    → All
        (λ t.
          All
            (λ u. u.code_hash ≡ t.code_hash → u.machine_program_elf ≡ t.machine_program_elf)
            traces)
        ts
    → All
        (λ t.
          (b : Bytes) × (resolve table t.code_hash ≡ some b)
          × (◌≡◌ {A = Option Bytes} (some t.machine_program_elf) (some b)))
        ts
unfolding HasElf
All-found table traces [] holds h same = tt
All-found table traces (t ∷ ts) holds h same =
    let (b, first) = h.0 in
    (
      (b, holds.covers t.code_hash ∙ first, ap some (sym (first_elf_own t traces same.0 first))),
      All-found table traces ts holds h.1 same.1,
    )

module _ {E : Type 0} where
  guest_trace-Carries :
      (table : ElfTable) (t : ScriptGroupTraces) {b : Bytes}
      → resolve table t.code_hash ≡ some b
      → (g : Guest.ScriptGroupTraces) × (guest_trace {E = E} table t ≡ ok g)
        × Carries table.elfs (some b) t g
  unfolding resolve guest_trace
  guest_trace-Carries table t e = elim (Option-cases (lookup t.code_hash table.index)) [
    | inl miss ↦ absurd (ground arith)
    | inr (i, found) ↦ (
      record {
        script_version = version_u8 t.script_version;
        script_group_type = group_type_u8 t.script_group_type;
        script_hash = t.script_hash;
        machine_trace_data = t.machine_trace_data;
        machine_program_elf_index = i;
      },
      rw found,
      record {
        version = version_u8-number t.script_version;
        group_type = group_type_u8-number t.script_group_type;
        hash = refl;
        trace_bytes = refl;
        elf = ground arith;
      },
    )
  ]

  traverse-AllCarry :
      (table : ElfTable) (program : ScriptGroupTraces → Option Bytes) (ts : List ScriptGroupTraces)
      → All (λ t. (b : Bytes) × (resolve table t.code_hash ≡ some b) × (program t ≡ some b)) ts
      → (gs : List Guest.ScriptGroupTraces) × (traverse (guest_trace {E = E} table) ts ≡ ok gs)
        × AllCarry table.elfs program ts gs
  unfolding traverse
  traverse-AllCarry table program [] h = ([], refl, tt)
  traverse-AllCarry table program (t ∷ ts) h =
      let (b, found, wanted) = h.0 in
      let (g, run, carries) = guest_trace-Carries table t found in
      let (gs, runs, rest) = traverse-AllCarry table program ts h.1 in
      (g ∷ gs, rw (run, runs), (rw wanted carries, rest))

  -- For at most 65536 traces in which one code hash has one program, the conversion for the guest
  -- does not panic, keeps the transaction, and gives for each trace, in order, a trace with the
  -- same contents, the version as 0, 1 or 2 and a lock as 0, a type script as 1, whose index finds
  -- the program of that very trace.
  pub to_guest-faithful :
      (ctx : TransactionProofContext)
      → length ctx.vm_traces ≤ 2 ^ 16
      → IsConsistent ctx.vm_traces
      → (g : Guest.TransactionProofContext) × (to_guest {E = E} ctx ≡ ok g)
        × (g.raw_transaction_bytes ≡ ctx.transaction)
        × AllCarry g.machine_program_elfs
            (λ t. some t.machine_program_elf)
            ctx.vm_traces
            g.vm_traces
  unfolding to_guest
  to_guest-faithful ctx room same =
      let table = elf_table ctx.vm_traces in
      let holds = Holds-elf_table ctx.vm_traces room in
      let (gs, runs, carried) =
        traverse-AllCarry table (λ t. some t.machine_program_elf) ctx.vm_traces
          (All-found table ctx.vm_traces ctx.vm_traces holds (All-HasElf ctx.vm_traces) same) in
      (
        record {
          raw_transaction_bytes = ctx.transaction;
          vm_traces = gs;
          machine_program_elfs = table.elfs;
        },
        rw runs,
        refl,
        carried,
      )
