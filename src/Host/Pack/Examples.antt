-- ===== src/Host/Pack/Examples.antt =====
-- A context of three traces, two of which run the same program.
use jolt_ncp.Base.{ℕ, ◌≡◌, refl, [], ◌∷◌, some, arith, ok, ◌>>=◌}
use jolt_ncp.Chain.{v1, v2, lock, type_script}
use jolt_ncp.Guest.Types as Guest
use jolt_ncp.Host.Types.{ScriptGroupTraces, TransactionProofContext}
use jolt_ncp.Host.Pack.{elf_table, to_guest, to_ncp}
use jolt_ncp.Host.Pack.Agree.{ncp_context, to_ncp-to_guest}
use jolt_ncp.Host.Pack.Programs.{distinct_elfs, elf_table-distinct_elfs}
use jolt_ncp.Host.Pack.Faithful.{AllCarry, IsConsistent, to_guest-faithful}

abbrev transfer : ScriptGroupTraces
transfer = record {
  script_version = v1;
  script_group_type = lock;
  script_hash = 501;
  code_hash = 77;
  machine_trace_data = 1 ∷ 2 ∷ [];
  machine_program_elf = 127 ∷ 69 ∷ [];
}

abbrev token : ScriptGroupTraces
token = record {
  script_version = v2;
  script_group_type = type_script;
  script_hash = 502;
  code_hash = 78;
  machine_trace_data = 3 ∷ [];
  machine_program_elf = 127 ∷ 70 ∷ [];
}

abbrev pub context : TransactionProofContext
context = record {
  transaction = 9 ∷ 9 ∷ [];
  vm_traces = transfer ∷ token ∷ record transfer { script_hash = 503 } ∷ [];
}

pub context-IsConsistent : IsConsistent context.vm_traces
context-IsConsistent = (
  ((λ e. refl), ((λ e. absurd (omega arith)), ((λ e. refl), tt))),
  (
    ((λ e. absurd (omega arith)), ((λ e. refl), ((λ e. absurd (omega arith)), tt))),
    (((λ e. refl), ((λ e. absurd (omega arith)), ((λ e. refl), tt))), tt),
  ),
)

to_guest-faithful_example :
    (g : Guest.TransactionProofContext) × (to_guest {E = ℕ} context ≡ ok g)
    × (g.raw_transaction_bytes ≡ context.transaction)
    × AllCarry g.machine_program_elfs
        (λ t. some t.machine_program_elf)
        context.vm_traces
        g.vm_traces
to_guest-faithful_example = to_guest-faithful {E = ℕ} context (omega arith) context-IsConsistent

to_ncp-to_guest_example : to_ncp {E = ℕ} context ≡ (do g ← to_guest context; ok (ncp_context g))
to_ncp-to_guest_example = to_ncp-to_guest {E = ℕ} context

elf_table-distinct_elfs_example :
    (elf_table context.vm_traces).elfs ≡ distinct_elfs [] context.vm_traces
elf_table-distinct_elfs_example = elf_table-distinct_elfs context.vm_traces
