-- ===== src/Host/Pack/Total.antt =====
-- The errors of the conversion for the guest.
use jolt_ncp.Base.{
  ◌≢◌, err, inl, inr, lookup, traverse, traverse-error, Outcome-cases, Option-cases,
}
use jolt_ncp.Host.Types.{ScriptGroupTraces, TransactionProofContext}
use jolt_ncp.Host.Pack.{ElfTable, elf_table, guest_trace, to_guest}

guest_trace-error :
    {E : Type 0} (table : ElfTable) (t : ScriptGroupTraces) (e : E) → guest_trace table t ≢ err e
unfolding guest_trace
guest_trace-error table t e failed = elim (Option-cases (lookup t.code_hash table.index)) [
  | inl missing ↦ cc
  | inr (i, found) ↦ cc
]

pub to_guest-error : {E : Type 0} (ctx : TransactionProofContext) (e : E) → to_guest ctx ≢ err e
unfolding to_guest
to_guest-error {E = E} ctx e failed =
    elim (Outcome-cases (traverse (guest_trace {E = E} (elf_table ctx.vm_traces)) ctx.vm_traces)) [
      | inl (traces, fine) ↦ cc
      | inr (inl (e', failed')) ↦
          traverse-error (guest_trace (elf_table ctx.vm_traces)) ctx.vm_traces e'
            (guest_trace-error (elf_table ctx.vm_traces)) failed'
      | inr (inr stuck) ↦ cc
    ]
