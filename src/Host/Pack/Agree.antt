-- ===== src/Host/Pack/Agree.antt =====
-- The two conversions side by side, and the number of programs in the table.
use jolt_ncp.Base.{
  ℕ, suc, ◌+◌, ◌≡◌, refl, ap, sym, ◌∙◌, inl, inr, List, [], ◌∷◌, map, foldl, Bool, true, false,
  ◌||◌, Option, none, some, length, length-append, lookup, ◌==◌, if◌then◌else◌, arith, Option-cases,
  ok, ◌>>=◌, traverse,
}
use jolt_ncp.Chain.{Byte32, ScriptVersion, v0, v1, v2, ScriptGroupType, lock, type_script}
use jolt_ncp.Guest.Types as Guest
use jolt_ncp.Host.NcpTypes as Ncp
use jolt_ncp.Host.Types.{ScriptGroupTraces, TransactionProofContext}
use jolt_ncp.Host.Pack.{
  ElfTable, empty, insert_elf, elf_table, guest_trace, to_guest, ncp_trace, to_ncp, version_u8,
  group_type_u8, ncp_insert_elf, ncp_elf_table, ncp_version_u8, ncp_group_type_u8,
}

-- The serialised form of a guest trace, field by field.
abbrev pub ncp_of : Guest.ScriptGroupTraces → Ncp.ScriptGroupTraces
ncp_of g = record {
  script_version = g.script_version;
  script_group_type = g.script_group_type;
  script_hash = g.script_hash;
  machine_trace_data = g.machine_trace_data;
  machine_program_elf_index = g.machine_program_elf_index;
}

abbrev pub ncp_context : Guest.TransactionProofContext → Ncp.TransactionProofContext
ncp_context g = record {
  raw_transaction_bytes = g.raw_transaction_bytes;
  vm_traces = map ncp_of g.vm_traces;
  machine_program_elfs = g.machine_program_elfs;
}

abbrev pub among : Byte32 → List Byte32 → Bool
among h [] = false
among h (k ∷ ks) = k == h || among h ks

-- How many code hashes the traces have that are not among `seen`.
pub distinct : List Byte32 → List ScriptGroupTraces → ℕ
distinct seen [] = 0
distinct seen (t ∷ ts) =
    let old = distinct seen ts in
    let new = distinct (t.code_hash ∷ seen) ts in if among t.code_hash seen then old else suc new

unfoldable pub has {ℓ} : {A : Type ℓ} → Option A → Bool
has none = false
has (some a) = true

-- The index of the table holds the hashes seen.
unfoldable pub Indexes : ElfTable → List Byte32 → Type 0
Indexes t seen = (h : Byte32) → has (lookup h t.index) ≡ among h seen

pub Indexes-insert_elf :
    (t : ElfTable) (seen : List Byte32) (trace : ScriptGroupTraces)
    → Indexes t seen
    → lookup trace.code_hash t.index ≡ none
    → Indexes (insert_elf t trace) (trace.code_hash ∷ seen)
unfolding Indexes insert_elf has lookup
Indexes-insert_elf t seen trace h absent k = ground (arith, absent, h k)

length-insert_elf :
    (t : ElfTable) (trace : ScriptGroupTraces)
    → lookup trace.code_hash t.index ≡ none
    → length (insert_elf t trace).elfs ≡ suc (length t.elfs)
unfolding insert_elf
length-insert_elf t trace absent =
    rw (absent, insert_elf) (omega (arith, length-append t.elfs (trace.machine_program_elf ∷ [])))

pub insert_elf_old :
    (t : ElfTable) (trace : ScriptGroupTraces) {i : ℕ}
    → lookup trace.code_hash t.index ≡ some i
    → insert_elf t trace ≡ t
unfolding insert_elf
insert_elf_old t trace found = rw (found, insert_elf)

pub among-lookup :
    (t : ElfTable) (seen : List Byte32) (k : Byte32)
    → Indexes t seen
    → has (lookup k t.index) ≡ among k seen
unfolding Indexes
among-lookup t seen k h = h k

length-elfs :
    (t : ElfTable) (seen : List Byte32) (ts : List ScriptGroupTraces)
    → Indexes t seen
    → length (foldl insert_elf t ts).elfs ≡ length t.elfs + distinct seen ts
unfolding distinct
length-elfs t seen [] h = omega arith
length-elfs t seen (trace ∷ ts) h = elim (Option-cases (lookup trace.code_hash t.index)) [
  | inl absent ↦
      let new : among trace.code_hash seen ≡ false =
        sym (among-lookup t seen trace.code_hash h) ∙ unfold has in rw absent in
      rw new (
        length-elfs (insert_elf t trace) (trace.code_hash ∷ seen) ts
          (Indexes-insert_elf t seen trace h absent)
        ∙ omega (arith, length-insert_elf t trace absent))
  | inr (i, found) ↦
      let old : among trace.code_hash seen ≡ true =
        sym (among-lookup t seen trace.code_hash h) ∙ unfold has in rw found in
      rw old (
        ap (λ u. length (foldl insert_elf u ts).elfs) (insert_elf_old t trace found)
        ∙ length-elfs t seen ts h)
]

-- The guest is sent as many programs as the traces have different code hashes.
pub elf_table-distinct :
    (traces : List ScriptGroupTraces) → length (elf_table traces).elfs ≡ distinct [] traces
unfolding elf_table Indexes has lookup
elf_table-distinct traces = length-elfs empty [] traces (λ h. refl) ∙ omega arith

ncp_elf_table-elf_table :
    (traces : List ScriptGroupTraces) → ncp_elf_table traces ≡ elf_table traces
unfolding ncp_elf_table elf_table ncp_insert_elf insert_elf
ncp_elf_table-elf_table traces = refl

ncp_version_u8-version_u8 : (v : ScriptVersion) → ncp_version_u8 v ≡ version_u8 v
unfolding ncp_version_u8 version_u8
ncp_version_u8-version_u8 v0 = refl
ncp_version_u8-version_u8 v1 = refl
ncp_version_u8-version_u8 v2 = refl

ncp_group_type_u8-group_type_u8 : (t : ScriptGroupType) → ncp_group_type_u8 t ≡ group_type_u8 t
unfolding ncp_group_type_u8 group_type_u8
ncp_group_type_u8-group_type_u8 lock = refl
ncp_group_type_u8-group_type_u8 type_script = refl

module _ {E : Type 0} where
  ncp_trace-guest_trace :
      (table : ElfTable) (t : ScriptGroupTraces)
      → ncp_trace {E = E} table t ≡ (do g ← guest_trace table t; ok (ncp_of g))
  unfolding ncp_trace guest_trace
  ncp_trace-guest_trace table t =
      rw
        (
          ncp_version_u8-version_u8 t.script_version,
          ncp_group_type_u8-group_type_u8 t.script_group_type,
        )
        (ground arith)

  traverse-ncp_trace :
      (table : ElfTable) (ts : List ScriptGroupTraces)
      → traverse (ncp_trace {E = E} table) ts
        ≡ (do gs ← traverse (guest_trace table) ts; ok (map ncp_of gs))
  unfolding traverse
  traverse-ncp_trace table [] = refl
  traverse-ncp_trace table (t ∷ ts) =
      ground (arith, ncp_trace-guest_trace table t, traverse-ncp_trace table ts)

  -- The conversion to the serialised type gives, field by field, what the one for the guest gives,
  -- and it panics exactly when that one does.
  pub to_ncp-to_guest :
      (ctx : TransactionProofContext)
      → to_ncp {E = E} ctx ≡ (do g ← to_guest ctx; ok (ncp_context g))
  unfolding to_ncp to_guest
  to_ncp-to_guest ctx =
      rw (ncp_elf_table-elf_table ctx.vm_traces)
        (ground (arith, traverse-ncp_trace (elf_table ctx.vm_traces) ctx.vm_traces))
