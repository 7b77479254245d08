-- ===== src/Host/VmTree/Collect.antt =====
-- src/collect_vm_creation.rs and src/collect_vm_syscalls.rs: the collections for one script, with what
-- they print. The collector of ckb-vm-syscall-tracer is a parameter; the process is left when it fails.
use jolt_ncp.Base.{ℕ, [], ◌∷◌, length, Outcome, ok, err, panic}
use jolt_ncp.Chain.{ScriptGroup}
use jolt_ncp.Host.Text.{Text, lit, signed}
use jolt_ncp.Host.Errors.{Stop, exit_process}
use jolt_ncp.Host.Printed.{Printed}
use jolt_ncp.Host.Crates.{Crates}
use jolt_ncp.Host.Verifier.{VerifierContext, VerifierGroupContext}
use jolt_ncp.Host.Executor.{CollectorResult}
use jolt_ncp.Host.VmTree.Render.{human_readable_cycles}

abbrev pub print_run :
    {L S : Type 0} → Outcome Text (CollectorResult L S) → Printed Stop (CollectorResult L S)
print_run (ok data_of) = (
  (lit "Run result: " ∷ signed data_of.exit_code ∷ [])
      ∷ (lit "All cycles: " ∷ human_readable_cycles data_of.cycles)
      ∷ [],
  ok data_of,
)
print_run (err e) = ((lit "Run result: " ∷ e) ∷ [], err (exit_process 254 []))
print_run panic = ([], panic)

abbrev pub counted :
    {L S : Type 0} → Outcome Text (CollectorResult L S) → Printed Stop (CollectorResult L S × ℕ)
counted (ok data_of) = ([], ok (data_of, length data_of.traces))
counted (err e) = ([], err (exit_process 254 (lit "count_vm_instances_for_group: " ∷ e)))
counted panic = ([], panic)

module _ {H : Type 0} (crates : Crates H) {L S : Type 0}
    (collect : crates.Resolved
      → crates.Resource
      → crates.Consensus
      → crates.TxVerifyEnv
      → ScriptGroup
      → Outcome Text (CollectorResult L S)) where
  unfoldable pub collect_vm_creation : VerifierContext crates → Printed Stop (CollectorResult L S)
  collect_vm_creation ctx = print_run (
      collect ctx.script_resolve_transaction ctx.script_resource ctx.script_consensus
        ctx.script_tx_env ctx.script_group)

  unfoldable pub collect_vm_syscalls : VerifierContext crates → Printed Stop (CollectorResult L S)
  collect_vm_syscalls ctx = print_run (
      collect ctx.script_resolve_transaction ctx.script_resource ctx.script_consensus
        ctx.script_tx_env ctx.script_group)

  unfoldable pub count_vm_instances_for_group :
      VerifierGroupContext crates → ScriptGroup → Printed Stop (CollectorResult L S × ℕ)
  count_vm_instances_for_group base group = counted (
      collect base.group_resolve_transaction base.group_resource base.group_consensus
        base.group_tx_env group)
