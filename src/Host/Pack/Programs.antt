-- ===== src/Host/Pack/Programs.antt =====
-- The programs that the guest is sent: which, in which order, and how long they are together.
use mathlib.Core.List.{append-nil, append_assoc}
use jolt_ncp.Base.{
  ◌≡◌, refl, ap, sym, ◌∙◌, inl, inr, List, [], ◌∷◌, ◌++◌, foldl, true, false, none, lookup,
  if◌then◌else◌, Option-cases, Bytes, ok, Outcome, Outcome-cases, traverse,
}
use jolt_ncp.Chain.{Byte32}
use jolt_ncp.Guest.Types as Guest
use jolt_ncp.Host.Types.{ScriptGroupTraces, TransactionProofContext}
use jolt_ncp.Host.Pack.{ElfTable, empty, insert_elf, elf_table, guest_trace, to_guest}
use jolt_ncp.Host.Pack.Agree.{among, has, Indexes, Indexes-insert_elf, insert_elf_old, among-lookup}

-- The programs of the traces whose code hash no earlier trace and none of `seen` has.
unfoldable pub distinct_elfs : List Byte32 → List ScriptGroupTraces → List Bytes
distinct_elfs seen [] = []
distinct_elfs seen (t ∷ ts) =
    let old = distinct_elfs seen ts in
    let new = distinct_elfs (t.code_hash ∷ seen) ts in
    if among t.code_hash seen then old else t.machine_program_elf ∷ new

elfs-insert_elf :
    (t : ElfTable) (trace : ScriptGroupTraces)
    → lookup trace.code_hash t.index ≡ none
    → (insert_elf t trace).elfs ≡ t.elfs ++ trace.machine_program_elf ∷ []
unfolding insert_elf
elfs-insert_elf t trace absent = rw (absent, insert_elf) refl

elfs-distinct_elfs :
    (t : ElfTable) (seen : List Byte32) (ts : List ScriptGroupTraces)
    → Indexes t seen
    → (foldl insert_elf t ts).elfs ≡ t.elfs ++ distinct_elfs seen ts
unfolding distinct_elfs
elfs-distinct_elfs t seen [] h = sym (append-nil t.elfs)
elfs-distinct_elfs t seen (trace ∷ ts) h = elim (Option-cases (lookup trace.code_hash t.index)) [
  | inl absent ↦
      let new : among trace.code_hash seen ≡ false =
        sym (among-lookup t seen trace.code_hash h) ∙ unfold has in rw absent in
      rw
        (
          new,
          elfs-distinct_elfs (insert_elf t trace) (trace.code_hash ∷ seen) ts
              (Indexes-insert_elf t seen trace h absent),
          elfs-insert_elf t trace absent,
        )
        (append_assoc t.elfs (trace.machine_program_elf ∷ [])
          (distinct_elfs (trace.code_hash ∷ seen) ts))
  | inr (i, found) ↦
      let old : among trace.code_hash seen ≡ true =
        sym (among-lookup t seen trace.code_hash h) ∙ unfold has in rw found in
      rw old (
        ap (λ u. (foldl insert_elf u ts).elfs) (insert_elf_old t trace found)
        ∙ elfs-distinct_elfs t seen ts h)
]

-- The guest is sent the program of each code hash once, that of the first trace with it, in the
-- order of these traces.
pub elf_table-distinct_elfs :
    (traces : List ScriptGroupTraces) → (elf_table traces).elfs ≡ distinct_elfs [] traces
unfolding elf_table Indexes has lookup
elf_table-distinct_elfs traces = elfs-distinct_elfs empty [] traces (λ h. refl)

sent_elfs :
    {E : Type 0} (g h : Guest.TransactionProofContext) (o : Outcome E Guest.TransactionProofContext)
    → o ≡ ok h
    → o ≡ ok g
    → g.machine_program_elfs ≡ h.machine_program_elfs
sent_elfs g h o e f = cc

pub elfs-to_guest :
    {E : Type 0} (ctx : TransactionProofContext) (g : Guest.TransactionProofContext)
    → to_guest {E = E} ctx ≡ ok g
    → g.machine_program_elfs ≡ distinct_elfs [] ctx.vm_traces
unfolding to_guest
elfs-to_guest {E} ctx g packed =
    elim (Outcome-cases (traverse (guest_trace {E = E} (elf_table ctx.vm_traces)) ctx.vm_traces)) [
      | inl (gs, fine) ↦
          sent_elfs g
            (record {
              raw_transaction_bytes = ctx.transaction;
              vm_traces = gs;
              machine_program_elfs = (elf_table ctx.vm_traces).elfs;
            })
            (to_guest {E = E} ctx) (rw fine refl) packed
          ∙ elf_table-distinct_elfs ctx.vm_traces
      | inr (inl (e, failed)) ↦ let same = rw failed at packed in absurd cc
      | inr (inr stuck) ↦ let same = rw stuck at packed in absurd cc
    ]
